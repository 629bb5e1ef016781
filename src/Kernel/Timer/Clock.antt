-- ===== src/Kernel/Timer/Clock.antt =====
-- The text of the clock, and what a tick changes.
use polaros.Prelude.{
  ℕ, zero, suc, ◌+◌, ◌%◌, ◌≤◌, ◌<◌, ◌≡◌, refl, ap, sym, ◌∙◌, inl, inr, Bool, Bool-cases, not, ◌&&◌,
  List, [], ◌∷◌, ◌++◌, append_assoc, append-nil, length, length-take, length-set, take, take_all,
  take-append_length, set, ltb, ◌==◌, Bytes, text, arith,
}
use polaros.Drivers.Vga.{Buffer}
use polaros.Drivers.Vga.Rows.{IsScreen}
use polaros.Drivers.Vga.Status.{Below, update_status_bar-Below, Below-refl}
use polaros.Kernel.Timer.{FmtBuf, new_buf, write_str, write_all, rust_timer_handler}

take-set : (xs : Bytes) (i x : ℕ) → i < length xs → take (i + 1) (set xs i x) ≡ take i xs ++ x ∷ []
take-set [] i x h = absurd (omega arith)
take-set (y ∷ xs) zero x h = refl
take-set (y ∷ xs) (suc i) x h =
    let e : suc i + 1 ≡ suc (i + 1) = omega arith in
    rw e (ap (λ l. y ∷ l) (take-set xs i x (omega arith)))

take-take-append : (n : ℕ) (xs ys : Bytes) → take n (take n xs ++ ys) ≡ take n (xs ++ ys)
take-take-append zero xs ys = refl
take-take-append (suc n) [] ys = refl
take-take-append (suc n) (x ∷ xs) ys = ap (λ l. x ∷ l) (take-take-append n xs ys)

take_full : (xs ys : Bytes) → length xs ≡ 40 → take 40 (xs ++ ys) ≡ xs
take_full xs ys h = rw (← h) (take-append_length xs ys)

-- The buffer has its 40 bytes, and the position is in it or behind it.
pub record IsBuf (b : FmtBuf) : Type 0 where
  pub size : length b.buf ≡ 40
  pub within : b.pos ≤ 40

-- The buffer after a write: what it held and then the bytes, as many as fit.
record Appends (b b' : FmtBuf) (bytes : Bytes) : Type 0 where
  valid : IsBuf b'
  items : take b'.pos b'.buf ≡ take 40 (take b.pos b.buf ++ bytes)

held-length : (b : FmtBuf) → IsBuf b → length (take b.pos b.buf) ≡ b.pos
held-length b v = omega (arith, length-take b.pos b.buf, v.size, v.within)

write_str-Appends : (b : FmtBuf) (bytes : Bytes) → IsBuf b → Appends b (write_str b bytes) bytes
unfolding write_str
write_str-Appends b [] v = record {
  valid = v;
  items =
      let held = take b.pos b.buf in
      sym (
        ap (take 40) (append-nil held)
        ∙ take_all 40 held (omega (arith, held-length b v, v.within)));
}
write_str-Appends b (byte ∷ bytes) v = elim (Bool-cases (ltb b.pos (length b.buf))) [
  | inl room ↦
      let held = take b.pos b.buf in
      let b1 : FmtBuf = record { buf = set b.buf b.pos byte; pos = b.pos + 1 } in
      let v1 : IsBuf b1 = record {
        size = length-set b.buf b.pos byte ∙ v.size;
        within = ground (arith, v.size);
      } in
      let again = write_str-Appends b1 bytes v1 in
      let grown = take-set b.buf b.pos byte (ground arith) in
      rw room (record {
        valid = again.valid;
        items =
            again.items
            ∙ ap (λ l. take 40 (l ++ bytes)) grown
            ∙ ap (take 40) (append_assoc held (byte ∷ []) bytes);
      })
  | inr full ↦
      let held = take b.pos b.buf in
      let again = write_str-Appends b bytes v in
      let all : length held ≡ 40 = ground (arith, held-length b v, v.size, v.within) in
      rw full (record {
        valid = again.valid;
        items = again.items ∙ take_full held bytes all ∙ sym (take_full held (byte ∷ bytes) all);
      })
]

abbrev pub concat : List Bytes → Bytes
concat [] = []
concat (piece ∷ pieces) = piece ++ concat pieces

module _ (decimal : ℕ → Bytes) where
  write_all-Appends :
      (b : FmtBuf) (pieces : List Bytes)
      → IsBuf b
      → Appends b (write_all decimal b pieces) (concat pieces)
  unfolding write_all write_str
  write_all-Appends b [] v = record { valid = v; items = (write_str-Appends b [] v).items }
  write_all-Appends b (piece ∷ pieces) v =
      let held = take b.pos b.buf in
      let a = write_str-Appends b piece v in
      let c = write_all-Appends (write_str b piece) pieces a.valid in
      record {
        valid = c.valid;
        items =
            c.items
            ∙ ap (λ l. take 40 (l ++ concat pieces)) a.items
            ∙ take-take-append 40 (held ++ piece) (concat pieces)
            ∙ ap (take 40) (append_assoc held piece (concat pieces));
      }

  -- The clock's buffer never overflows: it holds the first 40 bytes of the text that is written to it.
  pub write_all_lem :
      (pieces : List Bytes)
      → take (write_all decimal new_buf pieces).pos (write_all decimal new_buf pieces).buf
        ≡ take 40 (concat pieces)
  write_all_lem pieces =
      (write_all-Appends new_buf pieces (record { size = refl; within = omega arith })).items

  -- A tick of the timer changes no row of the screen but the last, whatever the time, and keeps the
  -- screen's shape.
  pub timer-Below :
      (gui_mode_active : Bool) (ticks : ℕ) (screen : Buffer)
      → IsScreen screen
      → Below screen (rust_timer_handler decimal gui_mode_active ticks screen).1
  unfolding rust_timer_handler
  timer-Below gui_mode_active ticks screen h =
      elim (Bool-cases (not gui_mode_active && ((ticks + 1) % 18446744073709551616 % 100 == 0))) [
        | inl shows ↦ rw shows (update_status_bar-Below (text " PolarOs v0.1.0") _ screen h)
        | inr rests ↦ rw rests (Below-refl screen h)
      ]

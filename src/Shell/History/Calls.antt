-- ===== src/Shell/History/Calls.antt =====
-- The history after any lines and arrow keys.
use polaros.Prelude.{
  ℕ, zero, suc, ◌+◌, ◌-◌, ◌≤◌, ◌<◌, ◌≡◌, ◌≢◌, inl, inr, refl, Bool-cases, false, some, List, [],
  ◌∷◌, ◌++◌, length, length-append, get_elem?, ltb, leb, ◌==◌, Bytes, arith, All,
}
use polaros.Fs.Name.{name_eq}
use polaros.Shell.History.{
  CommandHistory, is_last, remove_first, push, Shown, nothing, panics, entry_at, up, down,
}

pub data Call : Type 0 where
  enter : Bytes → Call
  arrow_up arrow_down : Call

abbrev pub step : CommandHistory → Call → Shown × CommandHistory
step h (enter line) = (nothing, push h line)
step h arrow_up = up h
step h arrow_down = down h

-- What the calls show, in order.
unfoldable pub run : CommandHistory → List Call → List Shown × CommandHistory
run h [] = ([], h)
run h (c ∷ cs) = let (shown, h') = step h c in let (more, h2) = run h' cs in (shown ∷ more, h2)

-- No line is followed by the same line.
abbrev pub Differs : List Bytes → Type 0
Differs [] = Unit
Differs (e ∷ []) = Unit
Differs (e ∷ f ∷ es) = (name_eq e f ≡ false) × Differs (f ∷ es)

pub record IsValid (h : CommandHistory) : Type 0 where
  pub few : length h.entries ≤ 16
  pub inside : h.cursor ≤ length h.entries
  pub differs : Differs h.entries

Differs-remove_first : (es : List Bytes) → Differs es → Differs (remove_first es)
Differs-remove_first [] d = tt
Differs-remove_first (e ∷ []) d = tt
Differs-remove_first (e ∷ f ∷ es) d = d.1

Differs-append :
    (es : List Bytes) (cmd : Bytes) → Differs es → is_last es cmd ≡ false → Differs (es ++ cmd ∷ [])
Differs-append [] cmd d h = tt
Differs-append (e ∷ []) cmd d h = (h, tt)
Differs-append (e ∷ f ∷ es) cmd d h = (d.0, Differs-append (f ∷ es) cmd d.1 h)

is_last-remove_first :
    (es : List Bytes) (cmd : Bytes) → is_last es cmd ≡ false → is_last (remove_first es) cmd ≡ false
is_last-remove_first [] cmd h = refl
is_last-remove_first (e ∷ []) cmd h = refl
is_last-remove_first (e ∷ f ∷ es) cmd h = h

length-remove_first : (es : List Bytes) → length (remove_first es) ≡ length es - 1
length-remove_first [] = omega arith
length-remove_first (e ∷ es) = omega arith

push-IsValid : (h : CommandHistory) (cmd : Bytes) → IsValid h → IsValid (push h cmd)
unfolding push
push-IsValid h cmd v = elim (Bool-cases (is_last h.entries cmd)) [
  | inl again ↦ rw again (record { few = v.few; inside = omega arith; differs = v.differs })
  | inr fresh ↦ elim (Bool-cases (leb 16 (length h.entries))) [
    | inl full ↦
        rw (fresh, full)
          (record {
            few = simp length-append (omega (arith, length-remove_first h.entries, v.few));
            inside = omega arith;
            differs =
                Differs-append (remove_first h.entries) cmd
                  (Differs-remove_first h.entries v.differs)
                  (is_last-remove_first h.entries cmd fresh);
          })
    | inr room ↦
        rw (fresh, room)
          (record {
            few = simp length-append (ground arith);
            inside = omega arith;
            differs = Differs-append h.entries cmd v.differs fresh;
          })
  ]
]

get_elem?-in : (es : List Bytes) (i : ℕ) → i < length es → (e : Bytes) × (get_elem? es i ≡ some e)
get_elem?-in [] i h = absurd (omega arith)
get_elem?-in (e ∷ es) zero h = (e, refl)
get_elem?-in (e ∷ es) (suc i) h = get_elem?-in es i (omega arith)

-- A call that does not panic and leaves the history valid.
pub record Fine (o : Shown × CommandHistory) : Type 0 where
  pub quiet : o.0 ≢ panics
  pub valid : IsValid o.1

entry_at-quiet : (es : List Bytes) (i : ℕ) → i < length es → entry_at es i ≢ panics
entry_at-quiet es i h = let (e, at) = get_elem?-in es i h in λ p. cc (at, p)

moved :
    (h : CommandHistory) (i : ℕ)
    → i ≤ length h.entries
    → IsValid h
    → IsValid (record h { cursor = i })
moved h i le v = record { few = v.few; inside = le; differs = v.differs }

pub up-Fine : (h : CommandHistory) → IsValid h → Fine (up h)
unfolding up
up-Fine h v = elim (Bool-cases (length h.entries == 0)) [
  | inl empty ↦ rw empty (record { quiet = λ p. cc; valid = v })
  | inr full ↦ elim (Bool-cases (ltb 0 h.cursor)) [
    | inl back ↦
        rw (full, back)
          (record {
            quiet = entry_at-quiet h.entries (h.cursor - 1) (ground (arith, v.inside));
            valid = moved h (h.cursor - 1) (omega (arith, v.inside)) v;
          })
    | inr first ↦
        rw (full, first)
          (record {
            quiet = entry_at-quiet h.entries h.cursor (ground (arith, v.inside));
            valid = moved h h.cursor v.inside v;
          })
  ]
]

pub down-Fine : (h : CommandHistory) → IsValid h → Fine (down h)
unfolding down
down-Fine h v = elim (Bool-cases (leb (length h.entries) h.cursor)) [
  | inl end ↦ rw end (record { quiet = λ p. cc; valid = v })
  | inr more ↦ elim (Bool-cases (ltb (h.cursor + 1) (length h.entries))) [
    | inl next ↦
        rw (more, next)
          (record {
            quiet = entry_at-quiet h.entries (h.cursor + 1) (ground arith);
            valid = moved h (h.cursor + 1) (ground arith) v;
          })
    | inr past ↦
        rw (more, past)
          (record { quiet = λ p. cc; valid = moved h (h.cursor + 1) (ground arith) v })
  ]
]

step-Fine : (h : CommandHistory) (c : Call) → IsValid h → Fine (step h c)
step-Fine h (enter line) v = record { quiet = λ p. cc; valid = push-IsValid h line v }
step-Fine h arrow_up v = up-Fine h v
step-Fine h arrow_down v = down-Fine h v

-- Whatever lines are entered and arrow keys are pressed, in any order, on a valid history, no
-- index is out of range, and the history stays valid, with at most 16 lines, no line followed by
-- the same line, and the cursor on a line or just behind the last.
pub history-IsValid :
    (h : CommandHistory) (cs : List Call)
    → IsValid h
    → All (λ (s : Shown). s ≢ panics) (run h cs).0 × IsValid (run h cs).1
unfolding run
history-IsValid h [] v = (tt, v)
history-IsValid h (c ∷ cs) v =
    let f = step-Fine h c v in
    let (quiet, valid) = history-IsValid (step h c).1 cs f.valid in ((f.quiet, quiet), valid)

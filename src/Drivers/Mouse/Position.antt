-- ===== src/Drivers/Mouse/Position.antt =====
-- The pointer stays on the screen.
use native.Mathlib.Decide.{dec_le}
use polaros.Prelude.{
  ℕ, ◌%◌, ◌≤◌, ◌≡◌, inl, inr, Bool, Bool-cases, true, false, not, ◌||◌, Option, none, some, List,
  [], ◌∷◌, All, All-set, ltb, ◌==◌, arith,
}
use polaros.Prelude.Int.{ℤ, pos, negsuc, ◌+ℤ◌, ◌-ℤ◌, clamp_ℤ, eqb_ℤ}
use polaros.Gui.Event.{
  Event, EventQueue, MouseButton, left, right, mouse_move, mouse_down, mouse_up, key_press, tick,
  push,
}
use polaros.Drivers.Mouse.{
  MouseState, has_bit, send, emit_button_event, signed, finish_packet, handle_byte,
}

-- The integer is one of 0 to `hi`.
abbrev pub Within : ℕ → ℤ → Type 0
Within hi (pos n) = n ≤ hi
Within hi (negsuc n) = ⊥

-- The position that an event of the mouse bears is on the screen of 320 by 200.
abbrev pub OnScreen : Option Event → Type 0
OnScreen none = Unit
OnScreen (some (key_press k)) = Unit
OnScreen (some (mouse_move x y)) = Within 319 x × Within 199 y
OnScreen (some (mouse_down x y b)) = Within 319 x × Within 199 y
OnScreen (some (mouse_up x y b)) = Within 319 x × Within 199 y
OnScreen (some tick) = Unit

pub record IsValid (state : MouseState) (queue : EventQueue) : Type 0 where
  pub cycles : state.cycle ≤ 2
  pub across : Within 319 state.x
  pub down : Within 199 state.y
  pub events : All OnScreen queue.buf

clamp_cases : (a : ℤ) (hi : ℕ) → (m : ℕ) × (m ≤ hi) × (clamp_ℤ a (pos hi) ≡ pos m)
clamp_cases (pos n) hi = elim (dec_le n hi) [
  | yes h ↦ (n, h, ground arith)
  | no h ↦ (hi, omega arith, ground arith)
]
clamp_cases (negsuc n) hi = (0, omega arith, ground arith)

clamp-Within : (a : ℤ) (hi : ℕ) → Within hi (clamp_ℤ a (pos hi))
clamp-Within a hi = let (m, h, e) = clamp_cases a hi in rw (e, Within) h

send-OnScreen :
    (free : Bool) (e : Event) (q : EventQueue)
    → OnScreen (some e)
    → All OnScreen q.buf
    → All OnScreen (send free e q).buf
unfolding push
send-OnScreen false e q h a = a
send-OnScreen true e q h a = elim (Bool-cases (ltb q.count 256)) [
  | inl room ↦ rw room (All-set OnScreen q.buf q.write_pos (some e) h a)
  | inr full ↦ rw full a
]

emit-OnScreen :
    (free : Bool) (buttons prev mask : ℕ) (b : MouseButton) (x y : ℤ) (q : EventQueue)
    → Within 319 x
    → Within 199 y
    → All OnScreen q.buf
    → All OnScreen (emit_button_event free buttons prev mask b x y q).buf
unfolding emit_button_event
emit-OnScreen free buttons prev mask b x y q hx hy a = elim (Bool-cases (has_bit buttons mask)) [
  | inl now ↦ elim (Bool-cases (has_bit prev mask)) [
    | inl before ↦ rw (now, before) a
    | inr up ↦ rw (now, up) (send-OnScreen free (mouse_down x y b) q (hx, hy) a)
  ]
  | inr off ↦ elim (Bool-cases (has_bit prev mask)) [
    | inl before ↦ rw (off, before) (send-OnScreen free (mouse_up x y b) q (hx, hy) a)
    | inr up ↦ rw (off, up) a
  ]
]

finish-IsValid :
    (free : Bool) (s : MouseState) (byte : ℕ) (q : EventQueue)
    → IsValid s q
    → IsValid (finish_packet free s byte q).0 (finish_packet free s byte q).1
unfolding finish_packet
finish-IsValid free s byte q v =
    let small : 0 ≤ 2 = omega arith in
    let flags = s.byte0 in
    let x = clamp_ℤ (s.x +ℤ signed flags 0x10 s.byte1) (pos 319) in
    let y = clamp_ℤ (s.y +ℤ (pos 0 -ℤ signed flags 0x20 byte)) (pos 199) in
    let hx = clamp-Within (s.x +ℤ signed flags 0x10 s.byte1) 319 in
    let hy = clamp-Within (s.y +ℤ (pos 0 -ℤ signed flags 0x20 byte)) 199 in
    let buttons = flags % 8 in
    let prev = s.prev_buttons in
    elim (Bool-cases (has_bit flags 0x40 || has_bit flags 0x80)) [
      | inl overflow ↦
          rw overflow
            (record { cycles = small; across = v.across; down = v.down; events = v.events })
      | inr fits ↦ elim (Bool-cases (not (eqb_ℤ x s.x) || not (eqb_ℤ y s.y))) [
        | inl moves ↦
            let m = send-OnScreen free (mouse_move x y) q (hx, hy) v.events in
            let l = emit-OnScreen free buttons prev 1 left x y _ hx hy m in
            rw (fits, moves)
              (record {
                cycles = small;
                across = hx;
                down = hy;
                events = emit-OnScreen free buttons prev 2 right x y _ hx hy l;
              })
        | inr rests ↦
            let l = emit-OnScreen free buttons prev 1 left x y q hx hy v.events in
            rw (fits, rests)
              (record {
                cycles = small;
                across = hx;
                down = hy;
                events = emit-OnScreen free buttons prev 2 right x y _ hx hy l;
              })
      ]
    ]

handle-IsValid :
    (free : Bool) (s : MouseState) (byte : ℕ) (q : EventQueue)
    → IsValid s q
    → IsValid (handle_byte free s byte q).0 (handle_byte free s byte q).1
unfolding handle_byte
handle-IsValid free s byte q v = elim (Bool-cases (s.cycle == 0)) [
  | inl first ↦ elim (Bool-cases (has_bit byte 8)) [
    | inl sync ↦
        rw (first, sync)
          (record { cycles = omega arith; across = v.across; down = v.down; events = v.events })
    | inr noise ↦ rw (first, noise) v
  ]
  | inr later ↦ elim (Bool-cases (s.cycle == 1)) [
    | inl second ↦
        rw (later, second)
          (record { cycles = omega arith; across = v.across; down = v.down; events = v.events })
    | inr last ↦ elim (Bool-cases (s.cycle == 2)) [
      | inl third ↦ rw (later, last, third) (finish-IsValid free s byte q v)
      | inr never ↦
          rw (later, last, never)
            (record { cycles = omega arith; across = v.across; down = v.down; events = v.events })
    ]
  ]
]

-- The bytes that come, each with whether the queue's lock is free then.
unfoldable pub run : MouseState → EventQueue → List (Bool × ℕ) → MouseState × EventQueue
run s q [] = (s, q)
run s q ((free, byte) ∷ bytes) = let (s', q') = handle_byte free s byte q in run s' q' bytes

-- Whatever bytes come from the mouse, and whenever the queue is locked, the pointer stays on the
-- screen, and so do the positions of all events in the queue.
pub mouse-IsValid :
    (s : MouseState) (q : EventQueue) (bytes : List (Bool × ℕ))
    → IsValid s q
    → IsValid (run s q bytes).0 (run s q bytes).1
unfolding run
mouse-IsValid s q [] v = v
mouse-IsValid s q ((free, byte) ∷ bytes) v =
    mouse-IsValid (handle_byte free s byte q).0 (handle_byte free s byte q).1 bytes
      (handle-IsValid free s byte q v)

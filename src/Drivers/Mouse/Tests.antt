-- ===== src/Drivers/Mouse/Tests.antt =====
-- Packets of the mouse at concrete inputs.
use polaros.Prelude.{ℕ, Bool, true, ◌≡◌, refl, none, some, List, [], ◌∷◌, arith, All-replicate}
use polaros.Prelude.Int.{pos, ◌+ℤ◌, ◌-ℤ◌}
use polaros.Gui.Event.{mouse_move, new as new_queue, push, pop}
use polaros.Drivers.Mouse.{new, handle_byte, finish_packet, emit_button_event}
use polaros.Drivers.Mouse.Position.{IsValid, OnScreen, run, mouse-IsValid}

-- Five to the right and two up, with the left button; then a byte that no packet begins with.
abbrev moves : List (Bool × ℕ)
moves = (true, 9) ∷ (true, 5) ∷ (true, 2) ∷ (true, 1) ∷ []

moved : (pop (run new new_queue moves).1).0 ≡ some (mouse_move (pos 165) (pos 98))
unfolding run new handle_byte finish_packet emit_button_event new_queue push pop ◌+ℤ◌ ◌-ℤ◌
moved = refl

start : IsValid new new_queue
unfolding new new_queue
start = record {
  cycles = omega arith;
  across = omega arith;
  down = omega arith;
  events = All-replicate OnScreen 256 none tt;
}

mouse-IsValid_example : IsValid (run new new_queue moves).0 (run new new_queue moves).1
mouse-IsValid_example = mouse-IsValid new new_queue moves start

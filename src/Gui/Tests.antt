-- ===== src/Gui/Tests.antt =====
-- The event queue at concrete inputs.
use polaros.Prelude.{arith, ◌&&◌, if◌then◌else◌, ◌≡◌, refl, none, some, [], ◌∷◌}
use polaros.Gui.Event.{key_press, enter, tick, new, push, pop}
use polaros.Prelude.Int.{ℤ, pos, negsuc, ◌+ℤ◌}
use polaros.Gui.Framebuffer.{Framebuffer, on_screen, new as new_screen, get_pixel}
use polaros.Gui.Widget.{Rect, contains}
use polaros.Gui.Framebuffer.Pixels.{new-IsWhole}
use polaros.Gui.Draw.{fill_rect}
use polaros.Gui.Draw.Shapes.{InI16, get_pixel-fill_rect}
use polaros.Gui.Event.Calls.{put, take, run, run_fifo, run-eq-run_fifo}

two_events :
    run new (put tick ∷ put (key_press enter) ∷ take ∷ take ∷ take ∷ [])
    ≡ some tick ∷ some (key_press enter) ∷ none ∷ []
unfolding run new push pop
two_events = refl

run-eq-run_fifo_example :
    run new (take ∷ put tick ∷ take ∷ []) ≡ run_fifo [] (take ∷ put tick ∷ take ∷ [])
run-eq-run_fifo_example = run-eq-run_fifo (take ∷ put tick ∷ take ∷ [])

in_x : InI16 (negsuc 4) 20
unfolding ◌+ℤ◌
in_x = (refl, refl)

in_y : InI16 (pos 10) 3
unfolding ◌+ℤ◌
in_y = (refl, refl)

get_pixel-fill_rect_example :
    let r : Rect = record { x = negsuc 4; y = pos 10; w = 20; h = 3 } in
    (fb : Framebuffer) × (fill_rect new_screen (negsuc 4) (pos 10) 20 3 7 ≡ some fb)
    × ((px py : ℤ)
        → get_pixel fb px py
          ≡ (if contains r px py && on_screen px py then 7 else get_pixel new_screen px py))
get_pixel-fill_rect_example =
    get_pixel-fill_rect new_screen (record { x = negsuc 4; y = pos 10; w = 20; h = 3 }) 7
      new-IsWhole (omega arith) (omega arith) in_x in_y

-- ===== src/Gui/Widget/Desktop.antt =====
-- src/gui/widget/desktop.rs: the icon that opens a terminal. The wallpaper is not modelled.
use polaros.Prelude.{ℕ, ◌≢◌, refl, if◌then◌else◌, inl, arith}
use polaros.Prelude.Int.{ℤ, pos}
use polaros.Drivers.Mouse.{screen_width, screen_height}
use polaros.Gui.Event.{
  Event, key_press, mouse_move, mouse_down, mouse_up, tick, left, right, middle,
}
use polaros.Gui.Widget.{
  Rect, contains, EventResponse, ignored, open_terminal, close_request, Widget,
}

pub record Desktop : Type 0 where
  pub id : ℕ

abbrev pub icon_rect : Rect
icon_rect = record { x = pos 8; y = pos 8; w = 32; h = 28 }

abbrev pub bounds : Desktop → Rect
bounds d = record { x = pos 0; y = pos 0; w = screen_width; h = screen_height }

-- `set_position` does nothing.
abbrev pub set_position : Desktop → ℤ → ℤ → Desktop
set_position d x y = d

abbrev pub response : Event → EventResponse
response (mouse_down x y left) = if contains icon_rect x y then open_terminal else ignored
response (mouse_down x y right) = ignored
response (mouse_down x y middle) = ignored
response (key_press k) = ignored
response (mouse_move x y) = ignored
response (mouse_up x y b) = ignored
response tick = ignored

module _ {S : Type 0} where
  abbrev pub handle_event : Desktop → Event → S → EventResponse × Desktop × S
  handle_event d event s = (response event, d, s)

  abbrev pub desktop_widget : Widget S Desktop
  desktop_widget = record {
    id = λ d. d.id;
    bounds = bounds;
    set_position = set_position;
    handle_event = handle_event;
    id-set_position = λ w x y. refl;
    id-handle_event = λ w e s. refl;
    bounds-handle_event = λ w e s. refl;
    bounds-set_position = λ w x y. inl refl;
  }

pub response-ne-close : (e : Event) → response e ≢ close_request
response-ne-close (mouse_down x y left) = ground arith
response-ne-close (mouse_down x y right) = ground arith
response-ne-close (mouse_down x y middle) = ground arith
response-ne-close (key_press k) = ground arith
response-ne-close (mouse_move x y) = ground arith
response-ne-close (mouse_up x y b) = ground arith
response-ne-close tick = ground arith

-- ===== src/Gui/Widget/Window.antt =====
-- src/gui/widget/window.rs: a window, its close button, and how it passes events to its content.
use polaros.Prelude.{
  ℕ, ◌-◌, ◌≡◌, refl, if◌then◌else◌, Bytes, Bool-cases, inl, inr, Option, none, some,
}
use polaros.Prelude.Int.{ℤ, pos, ◌+ℤ◌, ◌-ℤ◌}
use polaros.Gui.Event.{
  Event, key_press, mouse_move, mouse_down, mouse_up, tick, left, right, middle,
}
use polaros.Gui.Widget.{
  Rect, as_i16, contains, EventResponse, consumed, ignored, open_terminal, close_request, Widget,
}

-- `default_dark_theme().title_height`.
abbrev pub title_height : ℕ
title_height = 12

pub record Window (C : Type 0) : Type 0 where
  pub id : ℕ
  pub x : ℤ
  pub y : ℤ
  pub w : ℕ
  pub h : ℕ
  pub title : Bytes
  pub content : Option C

module _ {C : Type 0} where
  abbrev pub new : ℕ → ℤ → ℤ → ℕ → ℕ → Bytes → Window C
  new id x y w h title = record {
    id = id;
    x = x;
    y = y;
    w = w;
    h = h;
    title = title;
    content = none;
  }

  abbrev pub set_content : Window C → C → Window C
  set_content win widget = record win { content = some widget }

  abbrev pub title_bar_rect : Window C → Rect
  title_bar_rect win = record { x = win.x; y = win.y; w = win.w; h = title_height }

  abbrev pub close_button_rect : Window C → Rect
  close_button_rect win =
      let size : ℕ = title_height - 2 in
      record {
        x = win.x +ℤ as_i16 win.w -ℤ as_i16 size -ℤ pos 1;
        y = win.y +ℤ pos 1;
        w = size;
        h = size;
      }

  -- A window is at least 2 wide and 13 high, so that the differences are `u16`.
  abbrev pub content_rect : Window C → Rect
  content_rect win = record {
    x = win.x +ℤ pos 1;
    y = win.y +ℤ as_i16 title_height;
    w = win.w - 2;
    h = win.h - title_height - 1;
  }

  abbrev pub bounds : Window C → Rect
  bounds win = record { x = win.x; y = win.y; w = win.w; h = win.h }

  abbrev pub set_position : Window C → ℤ → ℤ → Window C
  set_position win x y = record win { x = x; y = y }

-- A response that is not `Ignored`, or the other one.
abbrev pub or_response : EventResponse → EventResponse → EventResponse
or_response ignored other = other
or_response consumed other = consumed
or_response close_request other = close_request
or_response open_terminal other = open_terminal

module _ {S C : Type 0} (content : Widget S C) where
  -- The content handles the event, if there is one; the response is `other` if it is ignored.
  abbrev pub forward :
      Window C → Option C → EventResponse → Event → S → EventResponse × Window C × S
  forward win none other event s = (other, win, s)
  forward win (some widget) other event s =
      let r = content.handle_event widget event s in
      (or_response r.0 other, record win { content = some r.1 }, r.2)

  unfoldable pub handle_event : Window C → Event → S → EventResponse × Window C × S
  handle_event win (mouse_down x y left) s =
      if contains (close_button_rect win) x y
      then (close_request, win, s)
      else if contains (bounds win) x y
      then forward win win.content consumed (mouse_down x y left) s
      else (ignored, win, s)
  handle_event win (mouse_down x y right) s =
      forward win win.content ignored (mouse_down x y right) s
  handle_event win (mouse_down x y middle) s =
      forward win win.content ignored (mouse_down x y middle) s
  handle_event win (key_press k) s = forward win win.content ignored (key_press k) s
  handle_event win (mouse_move x y) s = forward win win.content ignored (mouse_move x y) s
  handle_event win (mouse_up x y b) s = forward win win.content ignored (mouse_up x y b) s
  handle_event win tick s = forward win win.content ignored tick s

  forward_frame :
      (win : Window C) (c : Option C) (other : EventResponse) (e : Event) (s : S)
      → ((forward win c other e s).1.id ≡ win.id)
        × (bounds (forward win c other e s).1 ≡ bounds win)
  forward_frame win none other e s = (refl, refl)
  forward_frame win (some c) other e s = (refl, refl)

  pub handle_event_frame :
      (win : Window C) (e : Event) (s : S)
      → ((handle_event win e s).1.id ≡ win.id) × (bounds (handle_event win e s).1 ≡ bounds win)
  unfolding handle_event
  handle_event_frame win (mouse_down x y left) s =
      elim (Bool-cases (contains (close_button_rect win) x y)) [
        | inl t ↦ rw t (refl, refl)
        | inr f ↦ rw f (elim (Bool-cases (contains (bounds win) x y)) [
          | inl t ↦ rw t (forward_frame win win.content consumed (mouse_down x y left) s)
          | inr g ↦ rw g (refl, refl)
        ])
      ]
  handle_event_frame win (mouse_down x y right) s =
      forward_frame win win.content ignored (mouse_down x y right) s
  handle_event_frame win (mouse_down x y middle) s =
      forward_frame win win.content ignored (mouse_down x y middle) s
  handle_event_frame win (key_press k) s = forward_frame win win.content ignored (key_press k) s
  handle_event_frame win (mouse_move x y) s =
      forward_frame win win.content ignored (mouse_move x y) s
  handle_event_frame win (mouse_up x y b) s =
      forward_frame win win.content ignored (mouse_up x y b) s
  handle_event_frame win tick s = forward_frame win win.content ignored tick s

  abbrev pub window_widget : Widget S (Window C)
  window_widget = record {
    id = λ win. win.id;
    bounds = bounds;
    set_position = set_position;
    handle_event = handle_event;
    id-set_position = λ win x y. refl;
    id-handle_event = λ win e s. (handle_event_frame win e s).0;
    bounds-handle_event = λ win e s. (handle_event_frame win e s).1;
    bounds-set_position = λ w x y. inr refl;
  }

-- ===== src/Gui/Compositor.antt =====
-- src/gui/compositor.rs: the layers of the screen from the bottom to the top, which of them has the
-- keyboard, and which is dragged. The methods of the layers are those of Gui/Widget.
pub mod Layers
pub mod Invariant
pub mod Kept
pub mod Machine
pub mod HitTest
pub mod Click
pub mod Drag
pub mod Range
pub mod Counts
pub mod OnScreen
use polaros.Prelude.{
  ℕ, zero, suc, ◌-◌, Bool, true, false, not, ◌&&◌, ltb, ◌==◌, if◌then◌else◌, Option, none, some,
  List, [], ◌∷◌, ◌++◌, length,
}
use polaros.Prelude.Int.{ℤ, pos, ◌+ℤ◌, ◌-ℤ◌}
use polaros.Gui.Event.{
  Event, key_press, mouse_move, mouse_down, mouse_up, tick, left, right, middle,
}
use polaros.Gui.Widget.{
  Rect, as_i16, contains, EventResponse, consumed, ignored, open_terminal, close_request, Widget,
}
use polaros.Gui.Widget.Window.{title_height}

pub record DragState : Type 0 where
  pub widget_id : ℕ
  pub offset_x : ℤ
  pub offset_y : ℤ

pub record Compositor (W : Type 0) : Type 0 where
  pub layers : List W
  pub focused_id : Option ℕ
  pub drag_state : Option DragState

module _ {W : Type 0} where
  abbrev pub new : Compositor W
  new = record { layers = []; focused_id = none; drag_state = none }

  unfoldable pub add_widget : Compositor W → W → Compositor W
  add_widget c widget = record c { layers = c.layers ++ (widget ∷ []) }

  -- `Vec::remove`
  abbrev pub remove_at : List W → ℕ → List W
  remove_at [] i = []
  remove_at (x ∷ xs) zero = xs
  remove_at (x ∷ xs) (suc i) = x ∷ remove_at xs i

  -- The layer at a position goes to the end, if it is not there.
  abbrev pub raise_from : List W → Option ℕ → Option W → List W
  raise_from layers (some i) (some w) =
      if ltb i (length layers - 1) then remove_at layers i ++ (w ∷ []) else layers
  raise_from layers (some i) none = layers
  raise_from layers none w = layers

-- Clears what names the widget `id`.
abbrev pub forget_focus : Option ℕ → ℕ → Option ℕ
forget_focus none id = none
forget_focus (some i) id = if i == id then none else some i

abbrev pub forget_drag : Option DragState → ℕ → Option DragState
forget_drag none id = none
forget_drag (some d) id = if d.widget_id == id then none else some d

abbrev pub is_close : EventResponse → Bool
is_close close_request = true
is_close consumed = false
is_close ignored = false
is_close open_terminal = false

abbrev pub is_open : EventResponse → Bool
is_open open_terminal = true
is_open consumed = false
is_open ignored = false
is_open close_request = false

-- The rectangles of the title bar and of the close button, for the bounds of a layer.
abbrev pub title_bar : Rect → Rect
title_bar bounds = record bounds { h = title_height }

abbrev pub close_rect : Rect → Rect
close_rect bounds = record {
  x = bounds.x +ℤ as_i16 bounds.w -ℤ as_i16 title_height +ℤ pos 1;
  y = bounds.y +ℤ pos 1;
  w = title_height - 2;
  h = title_height - 2;
}

module _ {S W : Type 0} (widget : Widget S W) where
  -- `retain(|w| w.id() != id)`
  abbrev pub retain_ne : List W → ℕ → List W
  retain_ne [] id = []
  retain_ne (w ∷ ws) id = let rest = retain_ne ws id in if widget.id w == id then rest else w ∷ rest

  unfoldable pub remove_widget : Compositor W → ℕ → Compositor W
  remove_widget c id = record {
    layers = retain_ne c.layers id;
    focused_id = forget_focus c.focused_id id;
    drag_state = forget_drag c.drag_state id;
  }

  -- `position(|w| w.id() == id)`
  abbrev pub position : List W → ℕ → Option ℕ
  position [] id = none
  position (w ∷ ws) id =
      let rest = elim (position ws id) as (λ o. Option ℕ) [ none ↦ none | some i ↦ some (suc i) ] in
      if widget.id w == id then some 0 else rest

  -- `find(|w| w.id() == id)`
  abbrev pub find : List W → ℕ → Option W
  find [] id = none
  find (w ∷ ws) id = let rest = find ws id in if widget.id w == id then some w else rest

  unfoldable pub raise_to_top : List W → ℕ → List W
  raise_to_top layers id = raise_from layers (position layers id) (find layers id)

  -- The layers from the last to the first.
  unfoldable pub hit_test : List W → ℤ → ℤ → Option ℕ
  hit_test [] x y = none
  hit_test (w ∷ ws) x y = elim (hit_test ws x y) [
    | some i ↦ some i
    | none ↦ if contains (widget.bounds w) x y then some (widget.id w) else none
  ]

  abbrev pub start_drag : Option W → ℕ → ℤ → ℤ → Option DragState → Option DragState
  start_drag none id x y drag = drag
  start_drag (some w) id x y drag =
      let bounds = widget.bounds w in
      if contains (title_bar bounds) x y && not (contains (close_rect bounds) x y)
      then some (record { widget_id = id; offset_x = x -ℤ bounds.x; offset_y = y -ℤ bounds.y })
      else drag

  -- `iter_mut().find(|w| w.id() == id)` and the call of a method on what it finds; `ignored` where
  -- it finds nothing.
  unfoldable pub send_to : List W → ℕ → Event → S → EventResponse × List W × S
  send_to [] id event s = (ignored, [], s)
  send_to (w ∷ ws) id event s =
      let here = widget.handle_event w event s in
      let rest = send_to ws id event s in
      if widget.id w == id then (here.0, here.1 ∷ ws, here.2) else (rest.0, w ∷ rest.1, rest.2)

  unfoldable pub move_to : List W → ℕ → ℤ → ℤ → List W
  move_to [] id x y = []
  move_to (w ∷ ws) id x y =
      let rest = move_to ws id x y in
      if widget.id w == id then widget.set_position w x y ∷ ws else w ∷ rest

  unfoldable pub send_to_all : List W → Event → S → List W × S
  send_to_all [] event s = ([], s)
  send_to_all (w ∷ ws) event s =
      let here = widget.handle_event w event s in
      let rest = send_to_all ws event here.2 in (here.1 ∷ rest.0, rest.1)

  -- Raising, focusing, and starting to drag: nothing of it for the desktop.
  unfoldable pub select : Compositor W → ℕ → ℤ → ℤ → Compositor W
  unfolding raise_to_top
  select c hit_id x y =
      let layers = raise_to_top c.layers hit_id in
      if hit_id == 0 then c else record {
        layers = layers;
        focused_id = some hit_id;
        drag_state = start_drag (find layers hit_id) hit_id x y c.drag_state;
      }

  unfoldable pub press : Compositor W → Option ℕ → ℤ → ℤ → S → Bool × Compositor W × S
  unfolding select send_to remove_widget
  press c none x y s = (false, c, s)
  press c (some hit_id) x y s =
      let c1 = select c hit_id x y in
      let sent = send_to c1.layers hit_id (mouse_down x y left) s in
      let c2 = record c1 { layers = sent.1 } in
      (is_open sent.0, (if is_close sent.0 then remove_widget c2 hit_id else c2), sent.2)

  abbrev pub drag_to : List W → Option DragState → ℤ → ℤ → List W
  drag_to layers none x y = layers
  drag_to layers (some drag) x y =
      move_to layers drag.widget_id (x -ℤ drag.offset_x) (y -ℤ drag.offset_y)

  abbrev pub type_to : List W → Option ℕ → Event → S → List W × S
  type_to layers none event s = (layers, s)
  type_to layers (some id) event s = let sent = send_to layers id event s in (sent.1, sent.2)

  unfoldable pub handle_event : Compositor W → Event → S → Bool × Compositor W × S
  unfolding hit_test press move_to send_to_all send_to
  handle_event c (mouse_down x y left) s = press c (hit_test c.layers x y) x y s
  handle_event c (mouse_down x y right) s = (false, c, s)
  handle_event c (mouse_down x y middle) s = (false, c, s)
  handle_event c (mouse_move x y) s =
      let sent = send_to_all (drag_to c.layers c.drag_state x y) (mouse_move x y) s in
      (false, record c { layers = sent.0 }, sent.1)
  handle_event c (mouse_up x y b) s =
      let sent = send_to_all c.layers (mouse_up x y b) s in
      (false, record c { layers = sent.0; drag_state = none }, sent.1)
  handle_event c (key_press k) s =
      let sent = type_to c.layers c.focused_id (key_press k) s in
      (false, record c { layers = sent.0 }, sent.1)
  handle_event c tick s = (false, c, s)

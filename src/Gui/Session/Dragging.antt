-- ===== src/Gui/Session/Dragging.antt =====
-- How the windows of src/gui/widget/window.rs are dragged by the title bar.
use polaros.Prelude.{
  ℕ, ◌≡◌, ◌≢◌, refl, ap, sym, ◌∙◌, Bool, true, false, if◌then◌else◌, Option, some, List, [], ◌∷◌,
  ◌++◌, All, arith,
}
use polaros.Prelude.Int.{ℤ, ◌+ℤ◌, ◌-ℤ◌}
use polaros.Gui.Event.{Event, key_press, mouse_move, mouse_down, mouse_up, tick, left}
use polaros.Gui.Widget.{Widget, Rect, contains, EventResponse}
use polaros.Gui.Widget.Window
use polaros.Gui.Widget.Window.{Window}
use polaros.Gui.Compositor.{
  DragState, Compositor, close_rect, title_bar, is_close, hit_test, find, handle_event, forget_drag,
  start_drag,
}
use polaros.Gui.Compositor.Click.{click-Pressed}
use polaros.Gui.Compositor.Drag.{move-drag}
use polaros.Gui.Compositor.Invariant.{IsValid}
use polaros.Gui.Session.{Layer, window, layer}

-- How far the pointer has moved.
moved : (u x z : ℤ) → u -ℤ (x -ℤ z) ≡ z +ℤ (u -ℤ x)
unfolding ◌+ℤ◌ ◌-ℤ◌
moved u x z = ground arith

abbrev pub IsMove : Event → Type 0
IsMove (mouse_move x y) = Unit
IsMove (mouse_down x y b) = ⊥
IsMove (mouse_up x y b) = ⊥
IsMove (key_press k) = ⊥
IsMove tick = ⊥

module _ {S C : Type 0} (terminal : Widget S C) (new_terminal : ℕ → ℤ → ℤ → ℕ → ℕ → Option C) where
  -- The events of a list, one after the other.
  unfoldable pub handle_events : Compositor (Layer C) → List Event → S → Compositor (Layer C) × S
  handle_events c [] s = (c, s)
  handle_events c (e ∷ es) s =
      let r = handle_event (layer terminal new_terminal) c e s in handle_events r.1 es r.2

  -- A window that is dragged, with its size.
  record Drags (c : Compositor (Layer C)) (d : DragState) (w h : ℕ) : Type 0 where
    win : Window C
    dragged : c.drag_state ≡ some d
    found : find (layer terminal new_terminal) c.layers d.widget_id ≡ some (window win)
    width : win.w ≡ w
    height : win.h ≡ h

  move-Drags :
      (c : Compositor (Layer C)) (d : DragState) (w h : ℕ) (x y : ℤ) (s : S)
      → Drags c d w h
      → let c' = (handle_event (layer terminal new_terminal) c (mouse_move x y) s).1 in
        (n : Drags c' d w h) × (n.win.x ≡ x -ℤ d.offset_x) × (n.win.y ≡ y -ℤ d.offset_y)
  move-Drags c d w h x y s g =
      let l = layer terminal new_terminal in
      let (s', found, dragged) = move-drag l c d (window g.win) x y s g.dragged g.found in
      let placed = Window.set_position g.win (x -ℤ d.offset_x) (y -ℤ d.offset_y) in
      let same = (Window.handle_event_frame terminal placed (mouse_move x y) s').1 in
      (
        record {
          win = (Window.handle_event terminal placed (mouse_move x y) s').1;
          dragged = dragged;
          found = found;
          width = ap (λ (r : Rect). r.w) same ∙ g.width;
          height = ap (λ (r : Rect). r.h) same ∙ g.height;
        },
        ap (λ (r : Rect). r.x) same,
        ap (λ (r : Rect). r.y) same,
      )

  moves-Drags :
      (es : List Event) (c : Compositor (Layer C)) (d : DragState) (w h : ℕ) (u v : ℤ) (s : S)
      → All IsMove es
      → Drags c d w h
      → let c' = (handle_events c (es ++ (mouse_move u v ∷ [])) s).0 in
        (n : Drags c' d w h) × (n.win.x ≡ u -ℤ d.offset_x) × (n.win.y ≡ v -ℤ d.offset_y)
  unfolding handle_events
  moves-Drags [] c d w h u v s on g = move-Drags c d w h u v s g
  moves-Drags (mouse_move x y ∷ es) c d w h u v s on g =
      let r = handle_event (layer terminal new_terminal) c (mouse_move x y) s in
      moves-Drags es r.1 d w h u v r.2 on.1 (move-Drags c d w h x y s g).0
  moves-Drags (mouse_down x y b ∷ es) c d w h u v s on g = absurd on.0
  moves-Drags (mouse_up x y b ∷ es) c d w h u v s on g = absurd on.0
  moves-Drags (key_press k ∷ es) c d w h u v s on g = absurd on.0
  moves-Drags (tick ∷ es) c d w h u v s on g = absurd on.0

  start_drag_lem :
      (win : Window C) (i : ℕ) (x y : ℤ) (d : Option DragState)
      → contains (title_bar (Window.bounds win)) x y ≡ true
      → contains (close_rect (Window.bounds win)) x y ≡ false
      → start_drag (layer terminal new_terminal) (some (window win)) i x y d
        ≡ some (record { widget_id = i; offset_x = x -ℤ win.x; offset_y = y -ℤ win.y })
  start_drag_lem win i x y d on off = rw (on, off) refl

  -- In a valid compositor a window is pressed on its title bar beside the close button, where it
  -- is the highest layer, and does not close for it. After any moves of the pointer it stands
  -- where it stood, displaced by as much as the pointer is from where it was pressed, and has its
  -- size.
  pub drag-Follows :
      (b : Layer C) (c : Compositor (Layer C)) (x y : ℤ) (s : S) (i : ℕ) (win : Window C)
      (es : List Event) (u v : ℤ)
      → IsValid (layer terminal new_terminal) b c
      → hit_test (layer terminal new_terminal) c.layers x y ≡ some i
      → i ≢ 0
      → find (layer terminal new_terminal) c.layers i ≡ some (window win)
      → contains (title_bar (Window.bounds win)) x y ≡ true
      → contains (close_rect (Window.bounds win)) x y ≡ false
      → is_close (Window.handle_event terminal win (mouse_down x y left) s).0 ≡ false
      → All IsMove es
      → let c' = (handle_events c (mouse_down x y left ∷ (es ++ (mouse_move u v ∷ []))) s).0 in
        (win' : Window C) × (find (layer terminal new_terminal) c'.layers i ≡ some (window win'))
        × (win'.x ≡ win.x +ℤ (u -ℤ x))
        × (win'.y ≡ win.y +ℤ (v -ℤ y))
        × (win'.w ≡ win.w)
        × (win'.h ≡ win.h)
  unfolding handle_events
  drag-Follows b c x y s i win es u v valid hit ne found on off stays moves =
      let l = layer terminal new_terminal in
      let e = mouse_down x y left in
      let p = click-Pressed l b c x y s i valid hit ne in
      let same : p.it ≡ window win = ground (arith, p.found, found) in
      let first = Window.handle_event terminal win e s in
      let answer = sym p.answers ∙ ap (λ (w : Layer C). l.handle_event w e s) same in
      let open_after : is_close p.response ≡ false =
        ap (λ (r : EventResponse × Layer C × S). is_close r.0) answer ∙ stays in
      let frame = (Window.handle_event_frame terminal win e s).1 in
      let d : DragState = record { widget_id = i; offset_x = x -ℤ win.x; offset_y = y -ℤ win.y } in
      let c1 = (handle_event l c e s).1 in
      let dragged =
        p.the_drag
        ∙ ap
            (λ (t : Bool).
              if t
              then forget_drag (start_drag l (some p.it) i x y c.drag_state) i
              else start_drag l (some p.it) i x y c.drag_state)
            open_after
        ∙ ap (λ (w : Layer C). start_drag l (some w) i x y c.drag_state) same
        ∙ start_drag_lem win i x y c.drag_state on off in
      let at_start : Drags c1 d win.w win.h = record {
        win = first.1;
        dragged = dragged;
        found =
            p.found_after open_after ∙ ap (λ (r : EventResponse × Layer C × S). some r.1) answer;
        width = ap (λ (r : Rect). r.w) frame;
        height = ap (λ (r : Rect). r.h) frame;
      } in
      let (n, nx, ny) =
        moves-Drags es c1 d win.w win.h u v (handle_event l c e s).2 moves at_start in
      (n.win, n.found, nx ∙ moved u x win.x, ny ∙ moved v y win.y, n.width, n.height)

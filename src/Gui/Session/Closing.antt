-- ===== src/Gui/Session/Closing.antt =====
-- How the windows of src/gui/widget/window.rs are closed by the close button.
use polaros.Prelude.{
  ℕ, ◌≡◌, ◌≢◌, refl, ap, sym, ◌∙◌, Bool, true, false, not, ◌&&◌, if◌then◌else◌, Option, none, some,
  List, [], ◌∷◌, ◌++◌, arith,
}
use polaros.Prelude.Int.{ℤ, pos, ◌+ℤ◌, ◌-ℤ◌}
use polaros.Gui.Event.{mouse_down, left}
use polaros.Gui.Widget.{Widget, Rect, as_i16, contains, EventResponse, close_request}
use polaros.Gui.Widget.Window
use polaros.Gui.Widget.Window.{Window}
use polaros.Gui.Compositor.{
  DragState, Compositor, close_rect, title_bar, is_close, is_open, hit_test, find, handle_event,
  forget_drag, start_drag,
}
use polaros.Gui.Compositor.Click.{click-Pressed}
use polaros.Gui.Compositor.Invariant.{IsValid}
use polaros.Gui.Session.{Layer, window, layer}

-- The compositor and the window compute the same rectangle of the close button.
close_button_x : (x : ℤ) (w : ℤ) → x +ℤ w -ℤ pos 10 -ℤ pos 1 ≡ x +ℤ w -ℤ pos 12 +ℤ pos 1
unfolding ◌+ℤ◌ ◌-ℤ◌
close_button_x x w = ground arith

close_button_rect-close_rect :
    {C : Type 0} (win : Window C) → Window.close_button_rect win ≡ close_rect (Window.bounds win)
close_button_rect-close_rect win i = record {
  x = close_button_x win.x (as_i16 win.w) i;
  y = win.y +ℤ pos 1;
  w = 10;
  h = 10;
}

and_false : (a b : Bool) → b ≡ true → (a && not b) ≡ false
and_false true b h = ground arith
and_false false b h = refl

module _ {S C : Type 0} (terminal : Widget S C) (new_terminal : ℕ → ℤ → ℤ → ℕ → ℕ → Option C) where
  closing :
      (win : Window C) (x y : ℤ) (s : S)
      → contains (close_rect (Window.bounds win)) x y ≡ true
      → Window.handle_event terminal win (mouse_down x y left) s ≡ (close_request, win, s)
  unfolding Window.handle_event
  closing win x y s h =
      let t : contains (Window.close_button_rect win) x y ≡ true =
        ap (λ (r : Rect). contains r x y) (close_button_rect-close_rect win) ∙ h in
      rw t refl

  no_drag :
      (win : Window C) (i : ℕ) (x y : ℤ) (d : Option DragState)
      → contains (close_rect (Window.bounds win)) x y ≡ true
      → start_drag (layer terminal new_terminal) (some (window win)) i x y d ≡ d
  no_drag win i x y d on =
      let r = Window.bounds win in
      rw (and_false (contains (title_bar r) x y) (contains (close_rect r) x y) on) refl

  -- In a valid compositor, a press of the left button on the close button of a window that is the
  -- highest layer there takes the window away, and only it: the others stay in their order,
  -- nothing has the focus, and no drag starts.
  pub close-Pressed :
      (b : Layer C) (c : Compositor (Layer C)) (x y : ℤ) (s : S) (i : ℕ) (win : Window C)
      → IsValid (layer terminal new_terminal) b c
      → hit_test (layer terminal new_terminal) c.layers x y ≡ some i
      → i ≢ 0
      → find (layer terminal new_terminal) c.layers i ≡ some (window win)
      → contains (close_rect (Window.bounds win)) x y ≡ true
      → (below : List (Layer C)) × (above : List (Layer C)) × (c.layers
          ≡ below ++ (window win ∷ above))
        × (handle_event (layer terminal new_terminal) c (mouse_down x y left) s ≡ (
          false,
          record {
            layers = below ++ above;
            focused_id = none;
            drag_state = forget_drag c.drag_state i;
          },
          s,
        ))
  close-Pressed b c x y s i win valid hit ne found on =
      let l = layer terminal new_terminal in
      let p = click-Pressed l b c x y s i valid hit ne in
      let same : p.it ≡ window win = ground (arith, p.found, found) in
      let answer =
        sym p.answers
        ∙ ap (λ (w : Layer C). l.handle_event w (mouse_down x y left) s) same
        ∙ ap (λ (r : EventResponse × Window C × S). (r.0, window r.1, r.2))
            (closing win x y s on) in
      let resp : p.response ≡ close_request =
        ap (λ (r : EventResponse × Layer C × S). r.0) answer in
      let opens = p.opens ∙ ap is_open resp in
      let layers =
        p.the_layers
        ∙ ap
            (λ (r : EventResponse).
              if is_close r then p.below ++ p.above else (p.below ++ p.above) ++ (p.next ∷ []))
            resp in
      let focus =
        p.the_focus ∙ ap (λ (r : EventResponse). if is_close r then none else some i) resp in
      let drag =
        p.the_drag
        ∙ ap
            (λ (r : EventResponse).
              if is_close r
              then forget_drag (start_drag l (some p.it) i x y c.drag_state) i
              else start_drag l (some p.it) i x y c.drag_state)
            resp
        ∙ ap (λ (w : Layer C). forget_drag (start_drag l (some w) i x y c.drag_state) i) same
        ∙ ap (λ (d : Option DragState). forget_drag d i) (no_drag win i x y c.drag_state on) in
      let world = p.the_world ∙ ap (λ (r : EventResponse × Layer C × S). r.2) answer in
      (
        p.below,
        p.above,
        p.parts ∙ ap (λ (w : Layer C). p.below ++ (w ∷ p.above)) same,
        λ k. (
          opens k,
          record { layers = layers k; focused_id = focus k; drag_state = drag k },
          world k,
        ),
      )

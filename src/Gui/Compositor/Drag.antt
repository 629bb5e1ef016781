-- ===== src/Gui/Compositor/Drag.antt =====
-- What a move of the pointer does to the layer that is dragged in src/gui/compositor.rs.
use polaros.Prelude.{
  ℕ, ◌≡◌, ap, ◌∙◌, Bool-cases, inl, inr, ◌==◌, Option, some, List, [], ◌∷◌, arith,
}
use polaros.Prelude.Int.{ℤ, ◌-ℤ◌}
use polaros.Gui.Event.{Event, mouse_move}
use polaros.Gui.Widget.{Widget}
use polaros.Gui.Compositor.{
  DragState, Compositor, find, move_to, send_to_all, drag_to, handle_event,
}

module _ {S W : Type 0} (widget : Widget S W) where
  find-move_to :
      (ws : List W) (i : ℕ) (w : W) (x y : ℤ)
      → find widget ws i ≡ some w
      → find widget (move_to widget ws i x y) i ≡ some (widget.set_position w x y)
  unfolding move_to
  find-move_to [] i w x y h = cc
  find-move_to (v ∷ ws) i w x y h =
      ground (arith, h, find-move_to ws i w x y, widget.id-set_position v x y)

  find-send_to_all :
      (ws : List W) (i : ℕ) (w : W) (e : Event) (s : S)
      → find widget ws i ≡ some w
      → (s' : S) × (find widget (send_to_all widget ws e s).0 i
          ≡ some (widget.handle_event w e s').1)
  unfolding send_to_all
  find-send_to_all [] i w e s h = cc
  find-send_to_all (v ∷ ws) i w e s h = elim (Bool-cases (widget.id v == i)) [
    | inl t ↦ (s, ground (arith, h, t, widget.id-handle_event v e s))
    | inr f ↦
        let ih = find-send_to_all ws i w e (widget.handle_event v e s).2 (ground (arith, h, f)) in
        (ih.0, ground (arith, f, ih.1, widget.id-handle_event v e s))
  ]

  -- The layer that is dragged is put where the pointer is, less the offset of the drag, and then
  -- handles the move; the drag goes on.
  pub move-drag :
      (c : Compositor W) (d : DragState) (w : W) (x y : ℤ) (s : S)
      → c.drag_state ≡ some d
      → find widget c.layers d.widget_id ≡ some w
      → let c' = (handle_event widget c (mouse_move x y) s).1 in
        (s' : S) × (find widget c'.layers d.widget_id
          ≡ some
              (widget.handle_event
                (widget.set_position w (x -ℤ d.offset_x) (y -ℤ d.offset_y))
                (mouse_move x y)
                s').1)
        × (c'.drag_state ≡ some d)
  unfolding handle_event
  move-drag c d w x y s at h =
      let u = x -ℤ d.offset_x in
      let v = y -ℤ d.offset_y in
      let moved = move_to widget c.layers d.widget_id u v in
      let r =
        find-send_to_all moved d.widget_id (widget.set_position w u v) (mouse_move x y) s
          (find-move_to c.layers d.widget_id w u v h) in
      (
        r.0,
        ap
              (λ (o : Option DragState).
                find widget
                  (send_to_all widget (drag_to widget c.layers o x y) (mouse_move x y) s).0
                  d.widget_id)
              at
            ∙ r.1,
        at,
      )

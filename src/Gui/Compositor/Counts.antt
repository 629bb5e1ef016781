-- ===== src/Gui/Compositor/Counts.antt =====
-- No event of src/gui/compositor.rs adds a layer.
use polaros.Prelude.{ℕ, ◌≤◌, ◌≡◌, refl, Bool-cases, inl, inr, ◌==◌, Option, none, some, List, arith}
use polaros.Prelude.Int.{ℤ}
use polaros.Gui.Event.{
  Event, key_press, mouse_move, mouse_down, mouse_up, tick, left, right, middle,
}
use polaros.Gui.Widget.{Widget}
use polaros.Gui.Compositor
use polaros.Gui.Compositor.{
  Compositor, retain_ne, remove_widget, select, press, send_to, send_to_all, drag_to, move_to,
  type_to, hit_test, is_close, raise_to_top,
}
use polaros.Gui.Compositor.Layers.{
  count_id, count_id-raise_to_top, count_id-retain_ne, count_id-send_to, count_id-move_to,
  count_id-send_to_all,
}

module _ {S W : Type 0} (widget : Widget S W) where
  count_id-select :
      (c : Compositor W) (h : ℕ) (x y : ℤ) (i : ℕ)
      → count_id widget (select widget c h x y).layers i ≡ count_id widget c.layers i
  unfolding select
  count_id-select c h x y i = elim (Bool-cases (h == 0)) [
    | inl t ↦ rw t refl
    | inr f ↦ rw f (count_id-raise_to_top widget c.layers h i)
  ]

  count_id-press :
      (c : Compositor W) (hit : Option ℕ) (x y : ℤ) (s : S) (i : ℕ)
      → count_id widget (press widget c hit x y s).1.layers i ≤ count_id widget c.layers i
  unfolding press remove_widget
  count_id-press c none x y s i = omega arith
  count_id-press c (some h) x y s i =
      let c1 = select widget c h x y in
      let e = mouse_down x y left in
      let sent = send_to widget c1.layers h e s in
      let same = count_id-send_to widget c1.layers h i e s in
      let same' = count_id-select c h x y i in
      elim (Bool-cases (is_close sent.0)) [
        | inl t ↦ rw t (ground (arith, same, same', count_id-retain_ne widget sent.1 h i))
        | inr f ↦ rw f (omega (arith, same, same'))
      ]

  count_id-drag_to :
      (ws : List W) (d : Option Compositor.DragState) (x y : ℤ) (i : ℕ)
      → count_id widget (drag_to widget ws d x y) i ≡ count_id widget ws i
  count_id-drag_to ws none x y i = refl
  count_id-drag_to ws (some d) x y i = count_id-move_to widget ws d.widget_id i _ _

  count_id-type_to :
      (ws : List W) (f : Option ℕ) (e : Event) (s : S) (i : ℕ)
      → count_id widget (type_to widget ws f e s).0 i ≡ count_id widget ws i
  count_id-type_to ws none e s i = refl
  count_id-type_to ws (some j) e s i = count_id-send_to widget ws j i e s

  pub count_id-handle_event :
      (c : Compositor W) (e : Event) (s : S) (i : ℕ)
      → count_id widget (Compositor.handle_event widget c e s).1.layers i
        ≤ count_id widget c.layers i
  unfolding Compositor.handle_event
  count_id-handle_event c (mouse_down x y left) s i =
      count_id-press c (hit_test widget c.layers x y) x y s i
  count_id-handle_event c (mouse_down x y right) s i = omega arith
  count_id-handle_event c (mouse_down x y middle) s i = omega arith
  count_id-handle_event c (mouse_move x y) s i =
      let ws = drag_to widget c.layers c.drag_state x y in
      omega (
        arith,
        count_id-send_to_all widget ws i (mouse_move x y) s,
        count_id-drag_to c.layers c.drag_state x y i,
      )
  count_id-handle_event c (mouse_up x y b) s i =
      omega (arith, count_id-send_to_all widget c.layers i (mouse_up x y b) s)
  count_id-handle_event c (key_press k) s i =
      omega (arith, count_id-type_to c.layers c.focused_id (key_press k) s i)
  count_id-handle_event c tick s i = omega arith

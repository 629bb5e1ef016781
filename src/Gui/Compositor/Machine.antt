-- ===== src/Gui/Compositor/Machine.antt =====
-- An event that the widgets answer without a change of the rest of the machine leaves it as it is when
-- it goes through the compositor of src/gui/compositor.rs.
use polaros.Prelude.{
  ℕ, ◌≡◌, refl, ◌∙◌, Bool-cases, inl, inr, ◌==◌, Option, none, some, List, [], ◌∷◌,
}
use polaros.Prelude.Int.{ℤ}
use polaros.Gui.Event.{
  Event, key_press, mouse_move, mouse_down, mouse_up, tick, left, right, middle,
}
use polaros.Gui.Widget.{Widget}
use polaros.Gui.Compositor.{
  Compositor, send_to, send_to_all, select, press, drag_to, type_to, hit_test, handle_event,
}

module _ {S W : Type 0} (widget : Widget S W) where
  -- No widget changes the machine when it gets the event.
  abbrev pub IsQuiet : Event → Type 0
  IsQuiet e = (w : W) (s : S) → (widget.handle_event w e s).2 ≡ s

  send_to-quiet :
      (ws : List W) (id : ℕ) (e : Event) (s : S) → IsQuiet e → (send_to widget ws id e s).2 ≡ s
  unfolding send_to
  send_to-quiet [] id e s q = refl
  send_to-quiet (w ∷ ws) id e s q = elim (Bool-cases (widget.id w == id)) [
    | inl t ↦ rw t (q w s)
    | inr f ↦ rw f (send_to-quiet ws id e s q)
  ]

  send_to_all-quiet :
      (ws : List W) (e : Event) (s : S) → IsQuiet e → (send_to_all widget ws e s).1 ≡ s
  unfolding send_to_all
  send_to_all-quiet [] e s q = refl
  send_to_all-quiet (w ∷ ws) e s q = send_to_all-quiet ws e (widget.handle_event w e s).2 q ∙ q w s

  press-quiet :
      (c : Compositor W) (hit : Option ℕ) (x y : ℤ) (s : S)
      → IsQuiet (mouse_down x y left)
      → (press widget c hit x y s).2 ≡ s
  unfolding press
  press-quiet c none x y s q = refl
  press-quiet c (some id) x y s q =
      send_to-quiet (select widget c id x y).layers id (mouse_down x y left) s q

  type_to-quiet :
      (ws : List W) (focus : Option ℕ) (e : Event) (s : S)
      → IsQuiet e
      → (type_to widget ws focus e s).1 ≡ s
  type_to-quiet ws none e s q = refl
  type_to-quiet ws (some id) e s q = send_to-quiet ws id e s q

  pub handle_event-quiet :
      (c : Compositor W) (e : Event) (s : S) → IsQuiet e → (handle_event widget c e s).2 ≡ s
  unfolding handle_event
  handle_event-quiet c (mouse_down x y left) s q =
      press-quiet c (hit_test widget c.layers x y) x y s q
  handle_event-quiet c (mouse_down x y right) s q = refl
  handle_event-quiet c (mouse_down x y middle) s q = refl
  handle_event-quiet c (mouse_move x y) s q =
      send_to_all-quiet (drag_to widget c.layers c.drag_state x y) (mouse_move x y) s q
  handle_event-quiet c (mouse_up x y b) s q = send_to_all-quiet c.layers (mouse_up x y b) s q
  handle_event-quiet c (key_press k) s q = type_to-quiet c.layers c.focused_id (key_press k) s q
  handle_event-quiet c tick s q = refl

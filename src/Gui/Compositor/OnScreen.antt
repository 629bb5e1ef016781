-- ===== src/Gui/Compositor/OnScreen.antt =====
-- Every event of src/gui/compositor.rs with the pointer on the screen keeps the layers near it.
use mathlib.Core.Path.{subst}
use polaros.Prelude.{
  ℕ, ◌≡◌, refl, sym, inl, inr, Bool, true, false, not, ◌&&◌, Bool-cases, ◌==◌, if◌then◌else◌,
  Option, none, some, List, [], ◌∷◌, ◌++◌, All, All-append, All-append_inv, arith,
}
use polaros.Prelude.Int.{ℤ, ◌-ℤ◌}
use polaros.Gui.Event.{
  Event, key_press, mouse_move, mouse_down, mouse_up, tick, left, right, middle,
}
use polaros.Gui.Widget.{Widget, contains}
use polaros.Gui.Compositor.{
  DragState, Compositor, is_close, retain_ne, remove_widget, forget_drag, raise_to_top, send_to,
  send_to_all, move_to, drag_to, type_to, find, start_drag, select, press, hit_test, handle_event,
  title_bar, close_rect,
}
use polaros.Gui.Compositor.Layers.{find-cases, raise_to_top-Found, raise_to_top-none}
use polaros.Gui.Compositor.Range.{
  Within, IsNear, OffsetsNear, OnScreen, Fits, IsNear-Fits, start-Near, drop-Within,
}

module _ {S W : Type 0} (widget : Widget S W) where
  abbrev pub Near : W → Type 0
  Near w = IsNear (widget.bounds w)

  abbrev pub AllNear : List W → Type 0
  AllNear ws = All Near ws

  pub AllNear-Fits : (ws : List W) → AllNear ws → All (λ (w : W). Fits (widget.bounds w)) ws
  AllNear-Fits [] h = tt
  AllNear-Fits (w ∷ ws) h = (IsNear-Fits (widget.bounds w) h.0, AllNear-Fits ws h.1)

  pub record InRange (c : Compositor W) : Type 0 where
    pub near : AllNear c.layers
    pub offsets : OffsetsNear c.drag_state

  handle_event-IsNear :
      (w : W) (e : Event) (s : S)
      → IsNear (widget.bounds w)
      → IsNear (widget.bounds (widget.handle_event w e s).1)
  handle_event-IsNear w e s h = subst IsNear (sym (widget.bounds-handle_event w e s)) h

  send_to-AllNear :
      (ws : List W) (i : ℕ) (e : Event) (s : S) → AllNear ws → AllNear (send_to widget ws i e s).1
  unfolding send_to
  send_to-AllNear [] i e s h = tt
  send_to-AllNear (w ∷ ws) i e s h = elim (Bool-cases (widget.id w == i)) [
    | inl t ↦ rw t (handle_event-IsNear w e s h.0, h.1)
    | inr f ↦ rw f (h.0, send_to-AllNear ws i e s h.1)
  ]

  send_to_all-AllNear :
      (ws : List W) (e : Event) (s : S) → AllNear ws → AllNear (send_to_all widget ws e s).0
  unfolding send_to_all
  send_to_all-AllNear [] e s h = tt
  send_to_all-AllNear (w ∷ ws) e s h =
      (handle_event-IsNear w e s h.0, send_to_all-AllNear ws e (widget.handle_event w e s).2 h.1)

  set_position-IsNear :
      (w : W) (x y : ℤ)
      → Within 320 320 x
      → Within 12 200 y
      → IsNear (widget.bounds w)
      → IsNear (widget.bounds (widget.set_position w x y))
  set_position-IsNear w x y hx hy h = elim (widget.bounds-set_position w x y) [
    | inl e ↦ subst IsNear (sym e) h
    | inr e ↦
        subst IsNear (sym e)
          (record { x_range = hx; y_range = hy; w_range = h.w_range; h_range = h.h_range })
  ]

  move_to-AllNear :
      (ws : List W) (i : ℕ) (x y : ℤ)
      → Within 320 320 x
      → Within 12 200 y
      → AllNear ws
      → AllNear (move_to widget ws i x y)
  unfolding move_to
  move_to-AllNear [] i x y hx hy h = tt
  move_to-AllNear (w ∷ ws) i x y hx hy h = elim (Bool-cases (widget.id w == i)) [
    | inl t ↦ rw t (set_position-IsNear w x y hx hy h.0, h.1)
    | inr f ↦ rw f (h.0, move_to-AllNear ws i x y hx hy h.1)
  ]

  drag_to-AllNear :
      (ws : List W) (d : Option DragState) (x y : ℤ)
      → Within 0 320 x
      → Within 0 200 y
      → OffsetsNear d
      → AllNear ws
      → AllNear (drag_to widget ws d x y)
  drag_to-AllNear ws none x y hx hy ho h = h
  drag_to-AllNear ws (some d) x y hx hy ho h =
      move_to-AllNear ws d.widget_id (x -ℤ d.offset_x) (y -ℤ d.offset_y)
        (drop-Within x d.offset_x 320 320 hx ho.0) (drop-Within y d.offset_y 12 200 hy ho.1) h

  retain_ne-AllNear : (ws : List W) (i : ℕ) → AllNear ws → AllNear (retain_ne widget ws i)
  retain_ne-AllNear [] i h = tt
  retain_ne-AllNear (w ∷ ws) i h = elim (Bool-cases (widget.id w == i)) [
    | inl t ↦ rw t (retain_ne-AllNear ws i h.1)
    | inr f ↦ rw f (h.0, retain_ne-AllNear ws i h.1)
  ]

  find-IsNear :
      (ws : List W) (i : ℕ) (w : W)
      → find widget ws i ≡ some w
      → AllNear ws
      → IsNear (widget.bounds w)
  find-IsNear [] i w e h = cc
  find-IsNear (v ∷ ws) i w e h = elim (Bool-cases (widget.id v == i)) [
    | inl t ↦
        let same : v ≡ w = ground (arith, t, e) in
        subst (λ (u : W). IsNear (widget.bounds u)) same h.0
    | inr f ↦ find-IsNear ws i w (ground (arith, f, e)) h.1
  ]

  raise_to_top-AllNear : (ws : List W) (i : ℕ) → AllNear ws → AllNear (raise_to_top widget ws i)
  raise_to_top-AllNear ws i h = elim (find-cases widget ws i) [
    | inl (n, p, z) ↦ subst AllNear (sym (raise_to_top-none widget ws i n p)) h
    | inr r ↦
        let parts = All-append_inv Near r.below (r.it ∷ r.above) (subst AllNear r.parts h) in
        subst AllNear (sym (raise_to_top-Found widget ws i r)) (
          All-append Near r.below (r.above ++ (r.it ∷ [])) parts.0
            (All-append Near r.above (r.it ∷ []) parts.1.1 (parts.1.0, tt)))
  ]

  pick-OffsetsNear :
      (t : Bool) (new : DragState) (old : Option DragState)
      → (t ≡ true → OffsetsNear (some new))
      → OffsetsNear old
      → OffsetsNear (if t then some new else old)
  pick-OffsetsNear true new old h ho = h refl
  pick-OffsetsNear false new old h ho = ho

  first_true : (a b : Bool) → (a && b) ≡ true → a ≡ true
  first_true true b h = refl
  first_true false b h = h

  start_drag-OffsetsNear :
      (found : Option W) (i : ℕ) (x y : ℤ) (d : Option DragState)
      → ((w : W) → found ≡ some w → Near w)
      → OffsetsNear d
      → OffsetsNear (start_drag widget found i x y d)
  start_drag-OffsetsNear none i x y d near h = h
  start_drag-OffsetsNear (some w) i x y d near h =
      let r = widget.bounds w in
      let on_title = contains (title_bar r) x y in
      let off_close = not (contains (close_rect r) x y) in
      pick-OffsetsNear (on_title && off_close)
        (record { widget_id = i; offset_x = x -ℤ r.x; offset_y = y -ℤ r.y }) d
        (λ t. start-Near r x y (near w refl) (first_true on_title off_close t)) h

  select-InRange :
      (c : Compositor W) (i : ℕ) (x y : ℤ) → InRange c → InRange (select widget c i x y)
  unfolding select
  select-InRange c i x y h = elim (Bool-cases (i == 0)) [
    | inl t ↦ rw t h
    | inr f ↦
        let ws = raise_to_top widget c.layers i in
        let near = raise_to_top-AllNear c.layers i h.near in
        rw f (record {
          near = near;
          offsets =
              start_drag-OffsetsNear (find widget ws i) i x y c.drag_state
                (λ w e. find-IsNear ws i w e near) h.offsets;
        })
  ]

  forget_drag-OffsetsNear :
      (d : Option DragState) (i : ℕ) → OffsetsNear d → OffsetsNear (forget_drag d i)
  forget_drag-OffsetsNear none i h = tt
  forget_drag-OffsetsNear (some d) i h = elim (Bool-cases (d.widget_id == i)) [
    | inl t ↦ rw t tt
    | inr f ↦ rw f h
  ]

  remove_widget-InRange :
      (t : Bool) (c : Compositor W) (i : ℕ)
      → InRange c
      → InRange (if t then remove_widget widget c i else c)
  unfolding remove_widget
  remove_widget-InRange true c i h = record {
    near = retain_ne-AllNear c.layers i h.near;
    offsets = forget_drag-OffsetsNear c.drag_state i h.offsets;
  }
  remove_widget-InRange false c i h = h

  press-InRange :
      (c : Compositor W) (hit : Option ℕ) (x y : ℤ) (s : S)
      → InRange c
      → InRange (press widget c hit x y s).1
  unfolding press
  press-InRange c none x y s h = h
  press-InRange c (some i) x y s h =
      let c1 = select widget c i x y in
      let r = select-InRange c i x y h in
      let sent = send_to widget c1.layers i (mouse_down x y left) s in
      remove_widget-InRange (is_close sent.0) (record c1 { layers = sent.1 }) i
        (record {
          near = send_to-AllNear c1.layers i (mouse_down x y left) s r.near;
          offsets = r.offsets;
        })

  type_to-AllNear :
      (ws : List W) (f : Option ℕ) (e : Event) (s : S)
      → AllNear ws
      → AllNear (type_to widget ws f e s).0
  type_to-AllNear ws none e s h = h
  type_to-AllNear ws (some i) e s h = send_to-AllNear ws i e s h

  pub handle_event-InRange :
      (c : Compositor W) (e : Event) (s : S)
      → OnScreen e
      → InRange c
      → InRange (handle_event widget c e s).1
  unfolding handle_event
  handle_event-InRange c (mouse_down x y left) s on h =
      press-InRange c (hit_test widget c.layers x y) x y s h
  handle_event-InRange c (mouse_down x y right) s on h = h
  handle_event-InRange c (mouse_down x y middle) s on h = h
  handle_event-InRange c (mouse_move x y) s on h = record {
    near =
        send_to_all-AllNear (drag_to widget c.layers c.drag_state x y) (mouse_move x y) s
          (drag_to-AllNear c.layers c.drag_state x y on.0 on.1 h.offsets h.near);
    offsets = h.offsets;
  }
  handle_event-InRange c (mouse_up x y b) s on h = record {
    near = send_to_all-AllNear c.layers (mouse_up x y b) s h.near;
    offsets = tt;
  }
  handle_event-InRange c (key_press k) s on h = record {
    near = type_to-AllNear c.layers c.focused_id (key_press k) s h.near;
    offsets = h.offsets;
  }
  handle_event-InRange c tick s on h = h

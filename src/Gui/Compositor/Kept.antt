-- ===== src/Gui/Compositor/Kept.antt =====
-- Every operation of src/gui/compositor.rs keeps its invariant.
use mathlib.Core.Path.{subst}
use polaros.Prelude.{
  ℕ, ◌+◌, ◌≤◌, ◌<◌, ◌≡◌, ◌≢◌, refl, ap, sym, ◌∙◌, inl, inr, Bool, not, ◌&&◌, true, false,
  Bool-cases, ◌==◌, if◌then◌else◌, Option, none, some, List, [], ◌∷◌, ◌++◌, arith,
}
use polaros.Prelude.Int.{ℤ, ◌-ℤ◌}
use polaros.Gui.Event.{
  Event, key_press, mouse_move, mouse_down, mouse_up, tick, left, right, middle,
}
use polaros.Gui.Widget.{Widget, contains}
use polaros.Gui.Compositor.{
  DragState, Compositor, is_close, retain_ne, remove_widget, raise_to_top, send_to, send_to_all,
  find, start_drag, select, press, title_bar, close_rect, drag_to, type_to, hit_test, handle_event,
  add_widget,
}
use polaros.Gui.Compositor.Layers.{
  count_id, count_id-append, count_id-raise_to_top, count_id-retain_ne,
}
use polaros.Gui.Compositor.Invariant.{
  IsFixed, Names, FocusIn, DragIn, IsSound, IsValid, count_id-hit_test, retain_ne-bottom,
  raise_to_top-IsSound, send_to-IsSound, send_to_all-IsSound, drag_to-IsSound, forget_focus-FocusIn,
  forget_drag-DragIn,
}

module _ {S W : Type 0} (widget : Widget S W) where
  module _ (b : W) (fixed : IsFixed widget b) where
    remove_widget-IsValid :
        (c : Compositor W) (i : ℕ)
        → i ≢ 0
        → IsValid widget b c
        → IsValid widget b (remove_widget widget c i)
    unfolding remove_widget
    remove_widget-IsValid c i ne h = record {
      rest = retain_ne widget h.rest i;
      at_bottom =
          ap (λ (l : List W). retain_ne widget l i) h.at_bottom
          ∙ retain_ne-bottom widget b fixed h.rest i ne;
      distinct = λ j. ground (arith, count_id-retain_ne widget c.layers i j, h.distinct j);
      focus_in = forget_focus-FocusIn widget b fixed c.layers c.focused_id i h.focus_in;
      drag_in = forget_drag-DragIn widget b fixed c.layers c.drag_state i h.drag_in;
    }

    pick-DragIn :
        (ws : List W) (t : Bool) (new old : Option DragState)
        → DragIn widget ws new
        → DragIn widget ws old
        → DragIn widget ws (if t then new else old)
    pick-DragIn ws true new old n h = n
    pick-DragIn ws false new old n h = h

    start_drag-DragIn :
        (ws : List W) (found : Option W) (i : ℕ) (x y : ℤ) (d : Option DragState)
        → Names widget ws i
        → DragIn widget ws d
        → DragIn widget ws (start_drag widget found i x y d)
    start_drag-DragIn ws none i x y d n h = h
    start_drag-DragIn ws (some w) i x y d n h =
        let bounds = widget.bounds w in
        pick-DragIn ws (contains (title_bar bounds) x y && not (contains (close_rect bounds) x y))
          (some (record { widget_id = i; offset_x = x -ℤ bounds.x; offset_y = y -ℤ bounds.y })) d n
          h

    select-IsValid :
        (c : Compositor W) (i : ℕ) (x y : ℤ)
        → 0 < count_id widget c.layers i
        → IsValid widget b c
        → IsValid widget b (select widget c i x y)
    unfolding select
    select-IsValid c i x y found h = elim (Bool-cases (i == 0)) [
      | inl t ↦ rw t h
      | inr g ↦
          let ne : i ≢ 0 = ground arith in
          let ws = raise_to_top widget c.layers i in
          let named : Names widget ws i =
            (ne, omega (arith, count_id-raise_to_top widget c.layers i i)) in
          let r = raise_to_top-IsSound widget b fixed c.layers i c.focused_id c.drag_state ne h in
          rw g (record {
            rest = r.rest;
            at_bottom = r.at_bottom;
            distinct = r.distinct;
            focus_in = named;
            drag_in = start_drag-DragIn ws (find widget ws i) i x y c.drag_state named r.drag_in;
          })
    ]

    send_to-zero_open :
        (ws : List W) (f : Option ℕ) (d : Option DragState) (e : Event) (s : S)
        → IsSound widget b ws f d
        → is_close (send_to widget ws 0 e s).0 ≡ false
    unfolding send_to
    send_to-zero_open ws f d e s h =
        let z : (widget.id b == 0) ≡ true = let z = fixed.zero_id in ground arith in
        subst (λ (l : List W). is_close (send_to widget l 0 e s).0 ≡ false) (sym h.at_bottom)
          (rw z (fixed.remains e s))

    press-IsValid :
        (c : Compositor W) (hit : Option ℕ) (x y : ℤ) (s : S)
        → ((i : ℕ) → hit ≡ some i → 0 < count_id widget c.layers i)
        → IsValid widget b c
        → IsValid widget b (press widget c hit x y s).1
    unfolding press
    press-IsValid c none x y s found h = h
    press-IsValid c (some i) x y s found h =
        let e = mouse_down x y left in
        let c1 = select widget c i x y in
        let v1 = select-IsValid c i x y (found i refl) h in
        let sent = send_to widget c1.layers i e s in
        let c2 = record c1 { layers = sent.1 } in
        let v2 : IsValid widget b c2 =
          send_to-IsSound widget b fixed c1.layers i e s c1.focused_id c1.drag_state v1 in
        elim (Bool-cases (is_close sent.0)) [
          | inl t ↦
              let ne : i ≢ 0 = λ z. cc (
                t,
                ap (λ (j : ℕ). is_close (send_to widget c1.layers j e s).0) z,
                send_to-zero_open c1.layers c1.focused_id c1.drag_state e s v1,
              ) in
              rw t (remove_widget-IsValid c2 i ne v2)
          | inr g ↦ rw g v2
        ]

    release-IsSound :
        (ws : List W) (f : Option ℕ) (d : Option DragState)
        → IsSound widget b ws f d
        → IsSound widget b ws f none
    release-IsSound ws f d h = record {
      rest = h.rest;
      at_bottom = h.at_bottom;
      distinct = h.distinct;
      focus_in = h.focus_in;
      drag_in = tt;
    }

    type_to-IsSound :
        (ws : List W) (f : Option ℕ) (d : Option DragState) (e : Event) (s : S)
        → IsSound widget b ws f d
        → IsSound widget b (type_to widget ws f e s).0 f d
    type_to-IsSound ws none d e s h = h
    type_to-IsSound ws (some i) d e s h = send_to-IsSound widget b fixed ws i e s (some i) d h

    pub handle_event-IsValid :
        (c : Compositor W) (e : Event) (s : S)
        → IsValid widget b c
        → IsValid widget b (handle_event widget c e s).1
    unfolding handle_event
    handle_event-IsValid c (mouse_down x y left) s h =
        press-IsValid c (hit_test widget c.layers x y) x y s
          (λ i p. count_id-hit_test widget c.layers x y i p) h
    handle_event-IsValid c (mouse_down x y right) s h = h
    handle_event-IsValid c (mouse_down x y middle) s h = h
    handle_event-IsValid c (mouse_move x y) s h =
        let f = c.focused_id in
        let d = c.drag_state in
        let moved = drag_to widget c.layers d x y in
        send_to_all-IsSound widget b fixed moved (mouse_move x y) s f d
          (drag_to-IsSound widget b fixed c.layers f d x y h)
    handle_event-IsValid c (mouse_up x y button) s h =
        let e = mouse_up x y button in
        release-IsSound (send_to_all widget c.layers e s).0 c.focused_id c.drag_state
          (send_to_all-IsSound widget b fixed c.layers e s c.focused_id c.drag_state h)
    handle_event-IsValid c (key_press k) s h =
        type_to-IsSound c.layers c.focused_id c.drag_state (key_press k) s h
    handle_event-IsValid c tick s h = h

    grow-FocusIn :
        (ws vs : List W) (f : Option ℕ)
        → ((i : ℕ) → count_id widget ws i ≤ count_id widget vs i)
        → FocusIn widget ws f
        → FocusIn widget vs f
    grow-FocusIn ws vs none more h = tt
    grow-FocusIn ws vs (some i) more h = (h.0, omega (arith, more i, h.1))

    grow-DragIn :
        (ws vs : List W) (d : Option DragState)
        → ((i : ℕ) → count_id widget ws i ≤ count_id widget vs i)
        → DragIn widget ws d
        → DragIn widget vs d
    grow-DragIn ws vs none more h = tt
    grow-DragIn ws vs (some d) more h = (h.0, omega (arith, more d.widget_id, h.1))

    count_id-add :
        (ws : List W) (w : W) (i : ℕ)
        → count_id widget (ws ++ (w ∷ [])) i
          ≡ count_id widget ws i + (if widget.id w == i then 1 else 0)
    count_id-add ws w i = omega (arith, count_id-append widget ws (w ∷ []) i)

    pub add_widget-IsValid :
        (c : Compositor W) (w : W)
        → count_id widget c.layers (widget.id w) ≡ 0
        → IsValid widget b c
        → IsValid widget b (add_widget c w)
    unfolding add_widget
    add_widget-IsValid c w fresh h =
        let more : (i : ℕ) → count_id widget c.layers i ≤ count_id widget (c.layers ++ (w ∷ [])) i =
          λ i. omega (arith, count_id-add c.layers w i) in
        record {
          rest = h.rest ++ (w ∷ []);
          at_bottom = ap (λ (l : List W). l ++ (w ∷ [])) h.at_bottom;
          distinct = λ i. elim (Bool-cases (widget.id w == i)) [
            | inl t ↦
                let same : widget.id w ≡ i = ground arith in
                ground (arith, t, count_id-add c.layers w i, ap (count_id widget c.layers) same)
            | inr g ↦ ground (arith, g, count_id-add c.layers w i, h.distinct i)
          ];
          focus_in = grow-FocusIn c.layers (c.layers ++ (w ∷ [])) c.focused_id more h.focus_in;
          drag_in = grow-DragIn c.layers (c.layers ++ (w ∷ [])) c.drag_state more h.drag_in;
        }

-- ===== src/Gui/Compositor/Click.antt =====
-- What a press of the left button does in src/gui/compositor.rs: which layer it goes to, and where
-- that layer is afterwards.
use polaros.Prelude.{
  ℕ, ◌≡◌, ◌≢◌, refl, ap, sym, ◌∙◌, inl, inr, Bool, true, false, ◌==◌, if◌then◌else◌, Option, none,
  some, List, [], ◌∷◌, ◌++◌, append_assoc, arith,
}
use polaros.Prelude.Int.{ℤ}
use polaros.Gui.Event.{Event, mouse_down, left}
use polaros.Gui.Widget.{Widget, EventResponse}
use polaros.Gui.Compositor.{
  Compositor, is_close, is_open, retain_ne, remove_widget, forget_drag, raise_to_top, send_to, find,
  start_drag, select, press, hit_test, handle_event,
}
use polaros.Gui.Compositor.Layers.{count_id, count_id-append, Found, find-cases, raise_to_top-Found}
use polaros.Gui.Compositor.Invariant.{IsValid, count_id-hit_test}

module _ {S W : Type 0} (widget : Widget S W) where
  send_to-last :
      (a : List W) (w : W) (i : ℕ) (e : Event) (s : S)
      → count_id widget a i ≡ 0
      → widget.id w ≡ i
      → send_to widget (a ++ (w ∷ [])) i e s ≡ (
        (widget.handle_event w e s).0,
        a ++ ((widget.handle_event w e s).1 ∷ []),
        (widget.handle_event w e s).2,
      )
  unfolding send_to
  send_to-last [] w i e s z h = let t : (widget.id w == i) ≡ true = ground arith in rw t refl
  send_to-last (v ∷ a) w i e s z h =
      let f : (widget.id v == i) ≡ false = ground arith in
      rw (f, send_to-last a w i e s (ground arith) h) refl

  retain_ne-last :
      (a : List W) (w : W) (i : ℕ)
      → count_id widget a i ≡ 0
      → widget.id w ≡ i
      → retain_ne widget (a ++ (w ∷ [])) i ≡ a
  retain_ne-last [] w i z h = let t : (widget.id w == i) ≡ true = ground arith in rw t refl
  retain_ne-last (v ∷ a) w i z h =
      let f : (widget.id v == i) ≡ false = ground arith in
      rw (f, retain_ne-last a w i (ground arith) h) refl

  find-last :
      (a : List W) (w : W) (i : ℕ)
      → count_id widget a i ≡ 0
      → widget.id w ≡ i
      → find widget (a ++ (w ∷ [])) i ≡ some w
  find-last [] w i z h = let t : (widget.id w == i) ≡ true = ground arith in rw t refl
  find-last (v ∷ a) w i z h =
      let f : (widget.id v == i) ≡ false = ground arith in
      rw (f, find-last a w i (ground arith) h) refl

  -- A press at a point where the highest layer is `it`: the response that `it` gives decides whether
  -- it is closed, and otherwise it is the highest of all layers, and has the focus. The others keep
  -- their places.
  pub record Pressed (c : Compositor W) (x y : ℤ) (s : S) (i : ℕ) : Type 0 where
    pub below : List W
    pub it : W
    pub above : List W
    pub parts : c.layers ≡ below ++ (it ∷ above)
    pub has_id : widget.id it ≡ i
    pub found : find widget c.layers i ≡ some it
    pub response : EventResponse
    pub next : W
    pub world : S
    pub answers : widget.handle_event it (mouse_down x y left) s ≡ (response, next, world)
    pub opens : (handle_event widget c (mouse_down x y left) s).0 ≡ is_open response
    pub the_layers :
        (handle_event widget c (mouse_down x y left) s).1.layers
        ≡ (if is_close response then below ++ above else (below ++ above) ++ (next ∷ []))
    pub found_after :
        is_close response ≡ false
        → find widget (handle_event widget c (mouse_down x y left) s).1.layers i ≡ some next
    pub the_focus :
        (handle_event widget c (mouse_down x y left) s).1.focused_id
        ≡ (if is_close response then none else some i)
    pub the_drag : (handle_event widget c (mouse_down x y left) s).1.drag_state ≡ (
        if is_close response
        then forget_drag (start_drag widget (some it) i x y c.drag_state) i
        else start_drag widget (some it) i x y c.drag_state)
    pub the_world : (handle_event widget c (mouse_down x y left) s).2 ≡ world

  -- The layer `it` has the id `i`, stands between `below` and `above`, and is the only one with it.
  module _ (b : W) (c : Compositor W) (x y : ℤ) (s : S) (i : ℕ) (ne : i ≢ 0)
      (valid : IsValid widget b c) (r : Found widget c.layers i) where
    others : List W
    others = r.below ++ r.above

    answer : EventResponse × W × S
    answer = widget.handle_event r.it (mouse_down x y left) s

    none_other : count_id widget others i ≡ 0
    unfolding others
    none_other = ground (
      arith,
      r.has_id,
      r.none_below,
      valid.distinct i,
      ap (λ (l : List W). count_id widget l i) r.parts,
      count_id-append widget r.below (r.it ∷ r.above) i,
      count_id-append widget r.below r.above i,
    )

    raised : raise_to_top widget c.layers i ≡ others ++ (r.it ∷ [])
    unfolding others
    raised = raise_to_top-Found widget c.layers i r ∙ sym (append_assoc r.below r.above (r.it ∷ []))

    abbrev kept : Compositor W
    kept = record {
      layers = others ++ (answer.1 ∷ []);
      focused_id = some i;
      drag_state = start_drag widget (some r.it) i x y c.drag_state;
    }

    selected : select widget c i x y ≡ record kept { layers = others ++ (r.it ∷ []) }
    unfolding select
    selected =
        let f : (i == 0) ≡ false = ground arith in
        rw (f, raised, find-last others r.it i none_other r.has_id) refl

    sent :
        send_to widget (others ++ (r.it ∷ [])) i (mouse_down x y left) s
        ≡ (answer.0, others ++ (answer.1 ∷ []), answer.2)
    unfolding answer
    sent = send_to-last others r.it i (mouse_down x y left) s none_other r.has_id

    pressed_lem : press widget c (some i) x y s ≡ (
      is_open answer.0,
      (if is_close answer.0 then remove_widget widget kept i else kept),
      answer.2,
    )
    unfolding press
    pressed_lem = rw (selected, sent) refl

    removed : retain_ne widget (others ++ (answer.1 ∷ [])) i ≡ others
    unfolding answer
    removed =
        retain_ne-last others answer.1 i none_other
          (widget.id-handle_event r.it (mouse_down x y left) s ∙ r.has_id)

    keep_layers :
        (t : Bool)
        → (if t then remove_widget widget kept i else kept).layers
          ≡ (if t then others else others ++ (answer.1 ∷ []))
    unfolding remove_widget
    keep_layers true = removed
    keep_layers false = refl

    keep_focus :
        (t : Bool)
        → (if t then remove_widget widget kept i else kept).focused_id
          ≡ (if t then none else some i)
    unfolding remove_widget
    keep_focus true = let same : (i == i) ≡ true = ground arith in rw same refl
    keep_focus false = refl

    keep_drag :
        (t : Bool)
        → (if t then remove_widget widget kept i else kept).drag_state
          ≡ (if t then forget_drag kept.drag_state i else kept.drag_state)
    unfolding remove_widget
    keep_drag true = refl
    keep_drag false = refl

    press-Pressed : hit_test widget c.layers x y ≡ some i → Pressed c x y s i
    unfolding handle_event others answer
    press-Pressed hit =
        let p = ap (λ (o : Option ℕ). press widget c o x y s) hit ∙ pressed_lem in
        record {
          below = r.below;
          it = r.it;
          above = r.above;
          parts = r.parts;
          has_id = r.has_id;
          found = r.found;
          response = answer.0;
          next = answer.1;
          world = answer.2;
          answers = refl;
          opens = ap (λ (o : Bool × Compositor W × S). o.0) p;
          the_layers =
              ap (λ (o : Bool × Compositor W × S). o.1.layers) p ∙ keep_layers (is_close answer.0);
          found_after = λ f.
              ap (λ (l : List W). find widget l i)
                (ap (λ (o : Bool × Compositor W × S). o.1.layers) p
                  ∙ keep_layers (is_close answer.0)
                  ∙ ap (λ (t : Bool). if t then others else others ++ (answer.1 ∷ [])) f)
              ∙ find-last others answer.1 i none_other
                  (widget.id-handle_event r.it (mouse_down x y left) s ∙ r.has_id);
          the_focus =
              ap (λ (o : Bool × Compositor W × S). o.1.focused_id) p
              ∙ keep_focus (is_close answer.0);
          the_drag =
              ap (λ (o : Bool × Compositor W × S). o.1.drag_state) p
              ∙ keep_drag (is_close answer.0);
          the_world = ap (λ (o : Bool × Compositor W × S). o.2) p;
        }

  -- In a valid compositor, a press of the left button where the highest layer is not the desktop
  -- goes to that layer. If it asks to be closed, it is gone, and nothing has the focus; otherwise
  -- it is the highest of all, as it is after its answer, and has the focus. The other layers keep
  -- their order, and a terminal is asked for exactly when the layer asks for one.
  pub click-Pressed :
      (b : W) (c : Compositor W) (x y : ℤ) (s : S) (i : ℕ)
      → IsValid widget b c
      → hit_test widget c.layers x y ≡ some i
      → i ≢ 0
      → Pressed c x y s i
  click-Pressed b c x y s i valid hit ne = elim (find-cases widget c.layers i) [
    | inl (n, p, z) ↦ absurd (omega (arith, z, count_id-hit_test widget c.layers x y i hit))
    | inr r ↦ press-Pressed b c x y s i ne valid r hit
  ]

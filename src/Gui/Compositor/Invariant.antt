-- ===== src/Gui/Compositor/Invariant.antt =====
-- The invariant of src/gui/compositor.rs: the ids are distinct, the lowest layer stays where it is, and
-- focus and drag name layers that are there. Lemmas on what changes the layers.
use polaros.Prelude.{
  ℕ, ◌≤◌, ◌<◌, ◌≡◌, ◌≢◌, refl, ap, ◌∙◌, inl, inr, false, Bool-cases, Option-cases, ◌==◌, Option,
  none, some, List, [], ◌∷◌, arith,
}
use polaros.Prelude.Int.{ℤ, ◌-ℤ◌}
use polaros.Gui.Event.{Event}
use polaros.Gui.Widget.{Widget}
use polaros.Gui.Compositor.{
  DragState, Compositor, is_close, forget_focus, forget_drag, retain_ne, raise_to_top, send_to,
  move_to, send_to_all, drag_to, hit_test,
}
use polaros.Gui.Compositor.Layers.{
  count_id, count_id-raise_to_top, count_id-retain_ne, count_id-send_to, count_id-move_to,
  count_id-send_to_all, raise_to_top-cons,
}

module _ {S W : Type 0} (widget : Widget S W) where
  -- A widget such as the desktop: its id is 0, and events neither change nor close it.
  pub record IsFixed (b : W) : Type 0 where
    pub zero_id : widget.id b ≡ 0
    pub stays : (e : Event) (s : S) → (widget.handle_event b e s).1 ≡ b
    pub remains : (e : Event) (s : S) → is_close (widget.handle_event b e s).0 ≡ false

  -- An id that is kept is not the lowest layer's, and some layer has it.
  abbrev pub Names : List W → ℕ → Type 0
  Names ws i = (i ≢ 0) × (0 < count_id widget ws i)

  abbrev pub FocusIn : List W → Option ℕ → Type 0
  FocusIn ws none = Unit
  FocusIn ws (some i) = Names ws i

  abbrev pub DragIn : List W → Option DragState → Type 0
  DragIn ws none = Unit
  DragIn ws (some d) = Names ws d.widget_id

  pub record IsSound (b : W) (ws : List W) (focus : Option ℕ) (drag : Option DragState)
      : Type 0 where
    pub rest : List W
    pub at_bottom : ws ≡ b ∷ rest
    pub distinct : (i : ℕ) → count_id widget ws i ≤ 1
    pub focus_in : FocusIn ws focus
    pub drag_in : DragIn ws drag

  abbrev pub IsValid : W → Compositor W → Type 0
  IsValid b c = IsSound b c.layers c.focused_id c.drag_state

  FocusIn-mono :
      (ws vs : List W) (f : Option ℕ)
      → ((i : ℕ) → count_id widget vs i ≡ count_id widget ws i)
      → FocusIn ws f
      → FocusIn vs f
  FocusIn-mono ws vs none same h = tt
  FocusIn-mono ws vs (some i) same h = (h.0, omega (arith, same i, h.1))

  DragIn-mono :
      (ws vs : List W) (d : Option DragState)
      → ((i : ℕ) → count_id widget vs i ≡ count_id widget ws i)
      → DragIn ws d
      → DragIn vs d
  DragIn-mono ws vs none same h = tt
  DragIn-mono ws vs (some d) same h = (h.0, omega (arith, same d.widget_id, h.1))

  -- The layers change in what the invariant does not read.
  pub IsSound-same :
      (b : W) (ws vs rest : List W) (focus : Option ℕ) (drag : Option DragState)
      → vs ≡ b ∷ rest
      → ((i : ℕ) → count_id widget vs i ≡ count_id widget ws i)
      → IsSound b ws focus drag
      → IsSound b vs focus drag
  IsSound-same b ws vs rest focus drag at same h = record {
    rest = rest;
    at_bottom = at;
    distinct = λ i. omega (arith, same i, h.distinct i);
    focus_in = FocusIn-mono ws vs focus same h.focus_in;
    drag_in = DragIn-mono ws vs drag same h.drag_in;
  }

  pub count_id-hit_test :
      (ws : List W) (x y : ℤ) (i : ℕ) → hit_test widget ws x y ≡ some i → 0 < count_id widget ws i
  unfolding hit_test
  count_id-hit_test [] x y i h = cc
  count_id-hit_test (w ∷ ws) x y i h = elim (Option-cases (hit_test widget ws x y)) [
    | inl n ↦ ground (arith, n, h)
    | inr (j, e) ↦
        let same : j ≡ i = ground (arith, e, h) in
        let more = count_id-hit_test ws x y i (e ∙ ap some same) in omega (arith, more)
  ]

  module _ (b : W) (fixed : IsFixed b) where
    not_bottom : (i : ℕ) → i ≢ 0 → (widget.id b == i) ≡ false
    not_bottom i ne = let z = fixed.zero_id in ground arith

    raise_to_top-bottom :
        (rest : List W) (i : ℕ)
        → i ≢ 0
        → raise_to_top widget (b ∷ rest) i ≡ b ∷ raise_to_top widget rest i
    raise_to_top-bottom rest i ne = raise_to_top-cons widget b rest i (not_bottom i ne)

    send_to-bottom :
        (rest : List W) (i : ℕ) (e : Event) (s : S)
        → (vs : List W) × ((send_to widget (b ∷ rest) i e s).1 ≡ b ∷ vs)
    unfolding send_to
    send_to-bottom rest i e s = elim (Bool-cases (widget.id b == i)) [
      | inl t ↦ (rest, rw t (ap (λ (w : W). w ∷ rest) (fixed.stays e s)))
      | inr f ↦ ((send_to widget rest i e s).1, rw f refl)
    ]

    move_to-bottom :
        (rest : List W) (i : ℕ) (x y : ℤ)
        → i ≢ 0
        → move_to widget (b ∷ rest) i x y ≡ b ∷ move_to widget rest i x y
    unfolding move_to
    move_to-bottom rest i x y ne = rw (not_bottom i ne) refl

    send_to_all-bottom :
        (rest : List W) (e : Event) (s : S)
        → (vs : List W) × ((send_to_all widget (b ∷ rest) e s).0 ≡ b ∷ vs)
    unfolding send_to_all
    send_to_all-bottom rest e s = (
      (send_to_all widget rest e (widget.handle_event b e s).2).0,
      ap (λ (w : W). w ∷ (send_to_all widget rest e (widget.handle_event b e s).2).0)
          (fixed.stays e s),
    )

    pub retain_ne-bottom :
        (rest : List W) (i : ℕ)
        → i ≢ 0
        → retain_ne widget (b ∷ rest) i ≡ b ∷ retain_ne widget rest i
    retain_ne-bottom rest i ne = rw (not_bottom i ne) refl

    pub raise_to_top-IsSound :
        (ws : List W) (i : ℕ) (f : Option ℕ) (d : Option DragState)
        → i ≢ 0
        → IsSound b ws f d
        → IsSound b (raise_to_top widget ws i) f d
    raise_to_top-IsSound ws i f d ne h =
        IsSound-same b ws (raise_to_top widget ws i) (raise_to_top widget h.rest i) f d
          (ap (λ (l : List W). raise_to_top widget l i) h.at_bottom
            ∙ raise_to_top-bottom h.rest i ne)
          (count_id-raise_to_top widget ws i) h

    pub send_to-IsSound :
        (ws : List W) (i : ℕ) (e : Event) (s : S) (f : Option ℕ) (d : Option DragState)
        → IsSound b ws f d
        → IsSound b (send_to widget ws i e s).1 f d
    send_to-IsSound ws i e s f d h =
        let r = send_to-bottom h.rest i e s in
        IsSound-same b ws (send_to widget ws i e s).1 r.0 f d
          (ap (λ (l : List W). (send_to widget l i e s).1) h.at_bottom ∙ r.1)
          (λ j. count_id-send_to widget ws i j e s) h

    pub send_to_all-IsSound :
        (ws : List W) (e : Event) (s : S) (f : Option ℕ) (d : Option DragState)
        → IsSound b ws f d
        → IsSound b (send_to_all widget ws e s).0 f d
    send_to_all-IsSound ws e s f d h =
        let r = send_to_all-bottom h.rest e s in
        IsSound-same b ws (send_to_all widget ws e s).0 r.0 f d
          (ap (λ (l : List W). (send_to_all widget l e s).0) h.at_bottom ∙ r.1)
          (λ j. count_id-send_to_all widget ws j e s) h

    pub drag_to-IsSound :
        (ws : List W) (f : Option ℕ) (d : Option DragState) (x y : ℤ)
        → IsSound b ws f d
        → IsSound b (drag_to widget ws d x y) f d
    drag_to-IsSound ws f none x y h = h
    drag_to-IsSound ws f (some d) x y h =
        let i = d.widget_id in
        let u = x -ℤ d.offset_x in
        let v = y -ℤ d.offset_y in
        IsSound-same b ws (move_to widget ws i u v) (move_to widget h.rest i u v) f (some d)
          (ap (λ (l : List W). move_to widget l i u v) h.at_bottom
            ∙ move_to-bottom h.rest i u v h.drag_in.0)
          (λ j. count_id-move_to widget ws i j u v) h

    pub forget_focus-FocusIn :
        (ws : List W) (f : Option ℕ) (i : ℕ)
        → FocusIn ws f
        → FocusIn (retain_ne widget ws i) (forget_focus f i)
    forget_focus-FocusIn ws none i h = tt
    forget_focus-FocusIn ws (some j) i h = elim (Bool-cases (j == i)) [
      | inl t ↦ rw t tt
      | inr g ↦ rw g (h.0, ground (arith, count_id-retain_ne widget ws i j, h.1))
    ]

    pub forget_drag-DragIn :
        (ws : List W) (d : Option DragState) (i : ℕ)
        → DragIn ws d
        → DragIn (retain_ne widget ws i) (forget_drag d i)
    forget_drag-DragIn ws none i h = tt
    forget_drag-DragIn ws (some d) i h = elim (Bool-cases (d.widget_id == i)) [
      | inl t ↦ rw t tt
      | inr g ↦ rw g (h.0, ground (arith, count_id-retain_ne widget ws i d.widget_id, h.1))
    ]

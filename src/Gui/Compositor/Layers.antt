-- ===== src/Gui/Compositor/Layers.antt =====
-- The lists of layers of src/gui/compositor.rs: how many of them have an id, and what raising,
-- removing, moving and sending events do to that and to the lowest layer.
use mathlib.Core.Path.{subst}
use polaros.Prelude.{
  ℕ, ◌+◌, ◌-◌, ◌≤◌, ◌≡◌, refl, ap, sym, ◌∙◌, ◌⊎◌, inl, inr, false, Bool-cases, ltb, lt→ltb, ◌==◌,
  if◌then◌else◌, none, some, List, [], ◌∷◌, ◌++◌, append_assoc, arith, length, length-append,
}
use polaros.Prelude.Int.{ℤ}
use polaros.Gui.Event.{Event}
use polaros.Gui.Widget.{Widget}
use polaros.Gui.Compositor.{
  remove_at, retain_ne, position, find, raise_from, raise_to_top, send_to, move_to, send_to_all,
}

ltb_self : (m n : ℕ) → n ≤ m → ltb m n ≡ false
ltb_self m n h = ground arith

pub remove_at-length :
    {W : Type 0} (a b : List W) (w : W) → remove_at (a ++ (w ∷ b)) (length a) ≡ a ++ b
remove_at-length [] b w = refl
remove_at-length (x ∷ a) b w = ap (λ l. x ∷ l) (remove_at-length a b w)

raise_from-length :
    {W : Type 0} (a b : List W) (w : W)
    → raise_from (a ++ (w ∷ b)) (some (length a)) (some w) ≡ a ++ (b ++ (w ∷ []))
raise_from-length a [] w =
    let short =
      ltb_self (length a) (length (a ++ (w ∷ [])) - 1) (omega (arith, length-append a (w ∷ []))) in
    rw short refl
raise_from-length a (x ∷ b) w =
    let long =
      lt→ltb (length a) (length (a ++ (w ∷ x ∷ b)) - 1)
        (omega (arith, length-append a (w ∷ x ∷ b))) in
    rw (long, remove_at-length a (x ∷ b) w) (append_assoc a (x ∷ b) (w ∷ []))

module _ {S W : Type 0} (widget : Widget S W) where
  abbrev pub count_id : List W → ℕ → ℕ
  count_id [] i = 0
  count_id (w ∷ ws) i = (if widget.id w == i then 1 else 0) + count_id ws i

  pub count_id-append : (a b : List W) (i : ℕ) → count_id (a ++ b) i ≡ count_id a i + count_id b i
  count_id-append [] b i = omega arith
  count_id-append (w ∷ a) b i = omega (arith, count_id-append a b i)

  -- The first layer with an id, what is below it and what is above it.
  pub record Found (ws : List W) (id : ℕ) : Type 0 where
    pub below : List W
    pub it : W
    pub above : List W
    pub parts : ws ≡ below ++ (it ∷ above)
    pub has_id : widget.id it ≡ id
    pub none_below : count_id below id ≡ 0
    pub found : find widget ws id ≡ some it
    pub place : position widget ws id ≡ some (length below)

  pub find-cases :
      (ws : List W) (id : ℕ)
      → ((find widget ws id ≡ none) × (position widget ws id ≡ none) × (count_id ws id ≡ 0))
        ⊎ Found ws id
  find-cases [] id = inl (refl, refl, refl)
  find-cases (w ∷ ws) id = elim (Bool-cases (widget.id w == id)) [
    | inl t ↦ inr record {
      below = [];
      it = w;
      above = ws;
      parts = refl;
      has_id = ground arith;
      none_below = refl;
      found = rw t refl;
      place = rw t refl;
    }
    | inr f ↦ elim (find-cases ws id) [
      | inl (n, p, z) ↦ inl (rw f n, rw (f, p) refl, rw f (omega (arith, z)))
      | inr r ↦ inr record {
        below = w ∷ r.below;
        it = r.it;
        above = r.above;
        parts = ap (λ l. w ∷ l) r.parts;
        has_id = r.has_id;
        none_below = rw f (omega (arith, r.none_below));
        found = rw f r.found;
        place = rw (f, r.place) refl;
      }
    ]
  ]

  pub raise_to_top-Found :
      (ws : List W) (id : ℕ) (r : Found ws id)
      → raise_to_top widget ws id ≡ r.below ++ (r.above ++ (r.it ∷ []))
  unfolding raise_to_top
  raise_to_top-Found ws id r =
      rw (r.place, r.found)
        (subst
          (λ (l : List W).
            raise_from l (some (length r.below)) (some r.it) ≡ r.below ++ (r.above ++ (r.it ∷ [])))
          (sym r.parts) (raise_from-length r.below r.above r.it))

  pub raise_to_top-none :
      (ws : List W) (id : ℕ)
      → find widget ws id ≡ none
      → position widget ws id ≡ none
      → raise_to_top widget ws id ≡ ws
  unfolding raise_to_top
  raise_to_top-none ws id n p = rw p refl

  -- How many layers have an id: raising changes nothing of it.
  pub count_id-raise_to_top :
      (ws : List W) (id i : ℕ) → count_id (raise_to_top widget ws id) i ≡ count_id ws i
  count_id-raise_to_top ws id i = elim (find-cases ws id) [
    | inl (n, p, z) ↦ ap (λ l. count_id l i) (raise_to_top-none ws id n p)
    | inr r ↦ omega (
      arith,
      ap (λ l. count_id l i) (raise_to_top-Found ws id r),
      ap (λ l. count_id l i) r.parts,
      count_id-append r.below (r.above ++ (r.it ∷ [])) i,
      count_id-append r.above (r.it ∷ []) i,
      count_id-append r.below (r.it ∷ r.above) i,
    )
  ]

  pub count_id-retain_ne :
      (ws : List W) (id i : ℕ)
      → count_id (retain_ne widget ws id) i ≡ (if id == i then 0 else count_id ws i)
  count_id-retain_ne [] id i = ground arith
  count_id-retain_ne (w ∷ ws) id i = ground (arith, count_id-retain_ne ws id i)

  pub count_id-send_to :
      (ws : List W) (id i : ℕ) (e : Event) (s : S)
      → count_id (send_to widget ws id e s).1 i ≡ count_id ws i
  unfolding send_to
  count_id-send_to [] id i e s = refl
  count_id-send_to (w ∷ ws) id i e s =
      ground (arith, count_id-send_to ws id i e s, widget.id-handle_event w e s)

  pub count_id-move_to :
      (ws : List W) (id i : ℕ) (x y : ℤ) → count_id (move_to widget ws id x y) i ≡ count_id ws i
  unfolding move_to
  count_id-move_to [] id i x y = refl
  count_id-move_to (w ∷ ws) id i x y =
      ground (arith, count_id-move_to ws id i x y, widget.id-set_position w x y)

  pub count_id-send_to_all :
      (ws : List W) (i : ℕ) (e : Event) (s : S)
      → count_id (send_to_all widget ws e s).0 i ≡ count_id ws i
  unfolding send_to_all
  count_id-send_to_all [] i e s = refl
  count_id-send_to_all (w ∷ ws) i e s = ground (
    arith,
    count_id-send_to_all ws i e (widget.handle_event w e s).2,
    widget.id-handle_event w e s,
  )

  -- What leaves the lowest layer where it is, when it has another id.
  pub raise_to_top-cons :
      (b : W) (ws : List W) (id : ℕ)
      → (widget.id b == id) ≡ false
      → raise_to_top widget (b ∷ ws) id ≡ b ∷ raise_to_top widget ws id
  raise_to_top-cons b ws id f = elim (find-cases ws id) [
    | inl (n, p, z) ↦
        raise_to_top-none (b ∷ ws) id (rw f n) (rw (f, p) refl)
        ∙ sym (ap (λ l. b ∷ l) (raise_to_top-none ws id n p))
    | inr r ↦
        raise_to_top-Found (b ∷ ws) id (record {
          below = b ∷ r.below;
          it = r.it;
          above = r.above;
          parts = ap (λ l. b ∷ l) r.parts;
          has_id = r.has_id;
          none_below = rw f (omega (arith, r.none_below));
          found = rw f r.found;
          place = rw (f, r.place) refl;
        })
        ∙ sym (ap (λ l. b ∷ l) (raise_to_top-Found ws id r))
  ]

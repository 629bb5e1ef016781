-- ===== src/Gui/Compositor/HitTest.antt =====
-- Which layer `hit_test` of src/gui/compositor.rs finds.
use mathlib.Core.Path.{subst}
use polaros.Prelude.{
  ℕ, ◌≡◌, ◌↔◌, refl, ap, ◌∙◌, ◌⊎◌, inl, inr, true, false, Bool-cases, none, some, List, [], ◌∷◌,
  ◌++◌, All, arith,
}
use polaros.Prelude.Int.{ℤ}
use polaros.Gui.Widget.{Widget, contains}
use polaros.Gui.Compositor.{hit_test}

module _ {S W : Type 0} (widget : Widget S W) where
  abbrev pub Misses : ℤ → ℤ → W → Type 0
  Misses x y w = contains (widget.bounds w) x y ≡ false

  -- The highest layer at a point.
  pub record Topmost (ws : List W) (x y : ℤ) (id : ℕ) : Type 0 where
    pub below : List W
    pub it : W
    pub above : List W
    pub parts : ws ≡ below ++ (it ∷ above)
    pub has_id : widget.id it ≡ id
    pub hits : contains (widget.bounds it) x y ≡ true
    pub covers_not : All (Misses x y) above

  hit_test-none : (ws : List W) (x y : ℤ) → All (Misses x y) ws → hit_test widget ws x y ≡ none
  unfolding hit_test
  hit_test-none [] x y h = refl
  hit_test-none (w ∷ ws) x y h = rw (hit_test-none ws x y h.1, h.0) refl

  hit_test-cases :
      (ws : List W) (x y : ℤ)
      → ((hit_test widget ws x y ≡ none) × All (Misses x y) ws)
        ⊎ ((i : ℕ) × (hit_test widget ws x y ≡ some i) × Topmost ws x y i)
  unfolding hit_test
  hit_test-cases [] x y = inl (refl, tt)
  hit_test-cases (w ∷ ws) x y = elim (hit_test-cases ws x y) [
    | inl (n, all) ↦ elim (Bool-cases (contains (widget.bounds w) x y)) [
      | inl t ↦ inr (
        widget.id w,
        rw (n, t) refl,
        record {
          below = [];
          it = w;
          above = ws;
          parts = refl;
          has_id = refl;
          hits = t;
          covers_not = all;
        },
      )
      | inr f ↦ inl (rw (n, f) refl, (f, all))
    ]
    | inr (i, e, r) ↦ inr (
      i,
      rw e refl,
      record {
        below = w ∷ r.below;
        it = r.it;
        above = r.above;
        parts = ap (λ (l : List W). w ∷ l) r.parts;
        has_id = r.has_id;
        hits = r.hits;
        covers_not = r.covers_not;
      },
    )
  ]

  hit_test-append :
      (below : List W) (it : W) (above : List W) (x y : ℤ)
      → contains (widget.bounds it) x y ≡ true
      → All (Misses x y) above
      → hit_test widget (below ++ (it ∷ above)) x y ≡ some (widget.id it)
  unfolding hit_test
  hit_test-append [] it above x y t all = rw (hit_test-none above x y all, t) refl
  hit_test-append (w ∷ below) it above x y t all =
      rw (hit_test-append below it above x y t all) refl

  -- `hit_test` finds an id exactly when the highest layer at the point has it, and finds none
  -- exactly when no layer is there.
  pub hit_test-Topmost :
      (ws : List W) (x y : ℤ) (i : ℕ)
      → ((hit_test widget ws x y ≡ some i) ↔ Topmost ws x y i)
        × ((hit_test widget ws x y ≡ none) ↔ All (Misses x y) ws)
  hit_test-Topmost ws x y i = (
    (
      λ h. elim (hit_test-cases ws x y) [
        | inl (n, all) ↦ absurd (ground (arith, n, h))
        | inr (j, e, r) ↦ let same : j ≡ i = ground (arith, e, h) in subst (Topmost ws x y) same r
      ],
      λ r.
          ap (λ (l : List W). hit_test widget l x y) r.parts
          ∙ hit_test-append r.below r.it r.above x y r.hits r.covers_not
          ∙ ap some r.has_id,
    ),
    (
      λ h. elim (hit_test-cases ws x y) [
        | inl (n, all) ↦ all
        | inr (j, e, r) ↦ absurd (ground (arith, e, h))
      ],
      λ all. hit_test-none ws x y all,
    ),
  )

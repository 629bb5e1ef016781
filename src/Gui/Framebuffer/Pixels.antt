-- ===== src/Gui/Framebuffer/Pixels.antt =====
-- Reading a pixel after an operation of src/gui/framebuffer.rs.
use mathlib.Core.Path.{subst}
use polaros.Prelude.{
  ℕ, ◌<◌, ◌≡◌, ◌≢◌, refl, ap, ap₂, sym, ◌∙◌, Bool, true, false, ◌&&◌, Bool-cases, inl, inr,
  if◌then◌else◌, get_or, set, length, length-set, length-replicate, get_or-set_self, get_or-set_ne,
  arith,
}
use polaros.Prelude.Int.{ℤ, pos, negsuc, eqb_ℤ}
use polaros.Gui.Framebuffer.{Framebuffer, fb_size, new, on_screen, index, set_pixel, get_pixel}

abbrev pub IsWhole : Framebuffer → Type 0
IsWhole fb = length fb.buffer ≡ fb_size

pub new-IsWhole : IsWhole new
unfolding new
new-IsWhole = length-replicate {A = ℕ} fb_size 0

pub set_pixel-IsWhole :
    (fb : Framebuffer) (x y : ℤ) (color : ℕ) → IsWhole fb → IsWhole (set_pixel fb x y color)
unfolding set_pixel
set_pixel-IsWhole fb x y color h = elim (Bool-cases (on_screen x y)) [
  | inl t ↦ rw t (length-set fb.buffer (index x y) color ∙ h)
  | inr f ↦ rw f h
]

abbrev pub same_pixel : ℤ → ℤ → ℤ → ℤ → Bool
same_pixel x y px py = eqb_ℤ x px && eqb_ℤ y py

both : (a b : Bool) → (a && b) ≡ true → (a ≡ true) × (b ≡ true)
both true true h = (refl, refl)
both true false h = cc
both false b h = cc

eqb_ℤ→≡ : (x y : ℤ) → eqb_ℤ x y ≡ true → x ≡ y
eqb_ℤ→≡ (pos a) (pos b) h = ground arith
eqb_ℤ→≡ (pos a) (negsuc b) h = ground arith
eqb_ℤ→≡ (negsuc a) (pos b) h = ground arith
eqb_ℤ→≡ (negsuc a) (negsuc b) h = ground arith

same_parts : (x y px py : ℤ) → same_pixel x y px py ≡ true → (x ≡ px) × (y ≡ py)
same_parts x y px py h =
    let (a, b) = both (eqb_ℤ x px) (eqb_ℤ y py) h in (eqb_ℤ→≡ x px a, eqb_ℤ→≡ y py b)

index_lt : (x y : ℤ) → on_screen x y ≡ true → index x y < fb_size
index_lt x y h = ground arith

index_ne :
    (x y px py : ℤ)
    → on_screen x y ≡ true
    → on_screen px py ≡ true
    → same_pixel x y px py ≡ false
    → index x y ≢ index px py
index_ne x y px py h k d = λ e. ground arith

-- A pixel that has been set has its colour, if it is on the screen, and all others are as before.
pub get_pixel-set_pixel :
    (fb : Framebuffer) (x y : ℤ) (color : ℕ) (px py : ℤ)
    → IsWhole fb
    → get_pixel (set_pixel fb x y color) px py
      ≡ (if same_pixel x y px py && on_screen px py then color else get_pixel fb px py)
unfolding set_pixel get_pixel
get_pixel-set_pixel fb x y color px py h = elim (Bool-cases (same_pixel x y px py)) [
  | inl t ↦
      let (ex, ey) = same_parts x y px py t in
      elim (Bool-cases (on_screen px py)) [
        | inl u ↦
            let w : on_screen x y ≡ true = ap₂ on_screen ex ey ∙ u in
            let here =
              get_or-set_self fb.buffer (index x y) color 0
                (subst (λ (n : ℕ). index x y < n) (sym h) (index_lt x y w)) in
            rw (t, u, w)
              (ap (λ (i : ℕ). get_or (set fb.buffer (index x y) color) i 0) (sym (ap₂ index ex ey))
                ∙ here)
        | inr v ↦ rw (t, v) refl
      ]
  | inr f ↦ elim (Bool-cases (on_screen px py)) [
    | inl u ↦ elim (Bool-cases (on_screen x y)) [
      | inl w ↦
          rw (f, u, w)
            (get_or-set_ne fb.buffer (index x y) (index px py) color 0 (index_ne x y px py w u f))
      | inr v ↦ rw (f, u, v) refl
    ]
    | inr v ↦ rw (f, v) refl
  ]
]

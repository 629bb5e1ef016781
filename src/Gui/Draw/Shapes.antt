-- ===== src/Gui/Draw/Shapes.antt =====
-- What the lines and rectangles of src/gui/primitives.rs do to each pixel.
use mathlib.Core.Path.{subst}
use polaros.Prelude.{
  ℕ, zero, suc, ◌+◌, ◌<◌, ◌≤◌, some, true, ◌≡◌, refl, ap, sym, ◌∙◌, Bool, false, ◌&&◌, ◌||◌,
  if◌then◌else◌, arith,
}
use polaros.Prelude.Int.{ℤ, pos, negsuc, pos_part, ◌+ℤ◌, leb_ℤ, ltb_ℤ, eqb_ℤ}
use polaros.Gui.Widget.{Rect, contains, as_i16, checked}
use polaros.Gui.Framebuffer.{Framebuffer, set_pixel, get_pixel, on_screen}
use polaros.Gui.Framebuffer.Pixels.{IsWhole, set_pixel-IsWhole, get_pixel-set_pixel}
use polaros.Gui.Draw.{range_len, row_loop, fill_loop, fill_rect}

-- The numbers from `z + d` to before `z + d + n`.
abbrev pub in_span : ℤ → ℕ → ℕ → ℤ → Bool
in_span z d n p = leb_ℤ (z +ℤ pos d) p && ltb_ℤ p (z +ℤ pos (d + n))

span_step :
    (z : ℤ) (d n : ℕ) (p : ℤ)
    → in_span z d (suc n) p ≡ (in_span z (d + 1) n p || eqb_ℤ (z +ℤ pos d) p)
unfolding ◌+ℤ◌
span_step z d n p = ground arith

span_none : (z : ℤ) (d : ℕ) (p : ℤ) → in_span z d 0 p ≡ false
unfolding ◌+ℤ◌
span_none z d p = ground arith

-- Two writes of one colour.
pick_twice :
    (a b c on : Bool) (color old : ℕ)
    → (if a && c && on then color else (if (b && c) && on then color else old))
      ≡ (if (a || b) && c && on then color else old)
pick_twice a b c on color old = ground arith

-- The pixels that the loops of `fill_rect` draw when no sum overflows.
abbrev row_pixels : ℕ → ℕ → Framebuffer → ℤ → ℤ → ℕ → Framebuffer
row_pixels zero dx fb x y color = fb
row_pixels (suc n) dx fb x y color =
    row_pixels n (dx + 1) (set_pixel fb (x +ℤ pos dx) y color) x y color

abbrev fill_pixels : ℕ → ℕ → Framebuffer → ℤ → ℤ → ℕ → ℕ → Framebuffer
fill_pixels zero dy fb x y w color = fb
fill_pixels (suc n) dy fb x y w color =
    fill_pixels n (dy + 1) (row_pixels (range_len w) 0 fb x (y +ℤ pos dy) color) x y w color

-- The numbers from `z` to before `z + n` are of type `i16`.
abbrev pub InI16 : ℤ → ℕ → Type 0
InI16 z n = (leb_ℤ (negsuc 32767) z ≡ true) × (leb_ℤ (z +ℤ pos n) (pos 32768) ≡ true)

checked_in : (z : ℤ) (n d : ℕ) → InI16 z n → d < n → checked (z +ℤ pos d) ≡ some (z +ℤ pos d)
unfolding ◌+ℤ◌
checked_in z n d h lt = ground (arith, h)

row_loop_lem :
    (n d w dy h : ℕ) (fb : Framebuffer) (x y : ℤ) (color : ℕ)
    → InI16 x w
    → InI16 y h
    → d + n ≤ w
    → dy < h
    → row_loop n d fb x y dy color ≡ some (row_pixels n d fb x (y +ℤ pos dy) color)
unfolding row_loop
row_loop_lem zero d w dy h fb x y color hx hy le lt = refl
row_loop_lem (suc n) d w dy h fb x y color hx hy le lt =
    rw (checked_in x w d hx (omega arith), checked_in y h dy hy lt)
      (row_loop_lem n (d + 1) w dy h (set_pixel fb (x +ℤ pos d) (y +ℤ pos dy) color) x y color hx hy
        (omega arith) lt)

fill_loop_lem :
    (n d w h : ℕ) (fb : Framebuffer) (x y : ℤ) (color : ℕ)
    → InI16 x (range_len w)
    → InI16 y h
    → d + n ≤ h
    → fill_loop n d fb x y w color ≡ some (fill_pixels n d fb x y w color)
unfolding fill_loop
fill_loop_lem zero d w h fb x y color hx hy le = refl
fill_loop_lem (suc n) d w h fb x y color hx hy le =
    let line = row_pixels (range_len w) 0 fb x (y +ℤ pos d) color in
    rw
      (row_loop_lem (range_len w) 0 (range_len w) d h fb x y color hx hy (omega arith)
        (omega arith))
      (fill_loop_lem n (d + 1) w h line x y color hx hy (omega arith))

row_pixels-IsWhole :
    (n d : ℕ) (fb : Framebuffer) (x y : ℤ) (color : ℕ)
    → IsWhole fb
    → IsWhole (row_pixels n d fb x y color)
row_pixels-IsWhole zero d fb x y color h = h
row_pixels-IsWhole (suc n) d fb x y color h =
    row_pixels-IsWhole n (d + 1) (set_pixel fb (x +ℤ pos d) y color) x y color
      (set_pixel-IsWhole fb (x +ℤ pos d) y color h)

get_pixel-row_pixels :
    (n d : ℕ) (fb : Framebuffer) (x y : ℤ) (color : ℕ) (px py : ℤ)
    → IsWhole fb
    → get_pixel (row_pixels n d fb x y color) px py
      ≡ (if in_span x d n px && eqb_ℤ y py && on_screen px py then color else get_pixel fb px py)
get_pixel-row_pixels zero d fb x y color px py h = rw (span_none x d px) refl
get_pixel-row_pixels (suc n) d fb x y color px py h =
    let fb1 = set_pixel fb (x +ℤ pos d) y color in
    let ih =
      get_pixel-row_pixels n (d + 1) fb1 x y color px py
        (set_pixel-IsWhole fb (x +ℤ pos d) y color h) in
    let here = get_pixel-set_pixel fb (x +ℤ pos d) y color px py h in
    let a = in_span x (d + 1) n px in
    let b = eqb_ℤ (x +ℤ pos d) px in
    let c = eqb_ℤ y py in
    let on = on_screen px py in
    ih
    ∙ ap (λ (v : ℕ). if a && c && on then color else v) here
    ∙ pick_twice a b c on color (get_pixel fb px py)
    ∙ ap (λ (t : Bool). if t && c && on then color else get_pixel fb px py)
        (sym (span_step x d n px))

fill_pixels-IsWhole :
    (n d : ℕ) (fb : Framebuffer) (x y : ℤ) (w color : ℕ)
    → IsWhole fb
    → IsWhole (fill_pixels n d fb x y w color)
fill_pixels-IsWhole zero d fb x y w color h = h
fill_pixels-IsWhole (suc n) d fb x y w color h =
    fill_pixels-IsWhole n (d + 1) (row_pixels (range_len w) 0 fb x (y +ℤ pos d) color) x y w color
      (row_pixels-IsWhole (range_len w) 0 fb x (y +ℤ pos d) color h)

pick_line :
    (a b c on : Bool) (color old : ℕ)
    → (if a && c && on then color else (if c && b && on then color else old))
      ≡ (if (a || b) && c && on then color else old)
pick_line a b c on color old = ground arith

get_pixel-fill_pixels :
    (n d : ℕ) (fb : Framebuffer) (x y : ℤ) (w color : ℕ) (px py : ℤ)
    → IsWhole fb
    → get_pixel (fill_pixels n d fb x y w color) px py ≡ (
        if in_span y d n py && in_span x 0 (range_len w) px && on_screen px py
        then color
        else get_pixel fb px py)
get_pixel-fill_pixels zero d fb x y w color px py h = rw (span_none y d py) refl
get_pixel-fill_pixels (suc n) d fb x y w color px py h =
    let fb1 = row_pixels (range_len w) 0 fb x (y +ℤ pos d) color in
    let ih =
      get_pixel-fill_pixels n (d + 1) fb1 x y w color px py
        (row_pixels-IsWhole (range_len w) 0 fb x (y +ℤ pos d) color h) in
    let here = get_pixel-row_pixels (range_len w) 0 fb x (y +ℤ pos d) color px py h in
    let a = in_span y (d + 1) n py in
    let b = eqb_ℤ (y +ℤ pos d) py in
    let c = in_span x 0 (range_len w) px in
    let on = on_screen px py in
    ih
    ∙ ap (λ (v : ℕ). if a && c && on then color else v) here
    ∙ pick_line a b c on color (get_pixel fb px py)
    ∙ ap (λ (t : Bool). if t && c && on then color else get_pixel fb px py)
        (sym (span_step y d n py))

as_i16_small : (n : ℕ) → n < 32768 → as_i16 n ≡ pos n
as_i16_small n h = ground arith

span_from_zero : (z : ℤ) (n : ℕ) (p : ℤ) → in_span z 0 n p ≡ (leb_ℤ z p && ltb_ℤ p (z +ℤ pos n))
unfolding ◌+ℤ◌
span_from_zero z n p = ground arith

swap_tests : (a b c d : Bool) → ((c && d) && (a && b)) ≡ (a && b && c && d)
swap_tests a b c d = ground arith

-- The width and height of a rectangle as `contains` reads them.
contains_spans :
    (r : Rect) (px py : ℤ)
    → r.w < 32768
    → r.h < 32768
    → (in_span r.y 0 (range_len r.h) py && in_span r.x 0 (range_len r.w) px) ≡ contains r px py
contains_spans r px py hw hh =
    rw
      (
        as_i16_small r.h hh,
        as_i16_small r.w hw,
        span_from_zero r.y r.h py,
        span_from_zero r.x r.w px,
      )
      (swap_tests (leb_ℤ r.x px) (ltb_ℤ px (r.x +ℤ pos r.w)) (leb_ℤ r.y py)
        (ltb_ℤ py (r.y +ℤ pos r.h)))

-- On a framebuffer of 64000 bytes, `fill_rect` with a width and a height below 2 ^ 15, whose rows and
-- columns all have numbers of type `i16`, does not panic, gives its colour to the pixels that are in the
-- rectangle and on the screen, and leaves all others as they were.
pub get_pixel-fill_rect :
    (fb : Framebuffer) (r : Rect) (color : ℕ)
    → IsWhole fb
    → r.w < 32768
    → r.h < 32768
    → InI16 r.x r.w
    → InI16 r.y r.h
    → (fb' : Framebuffer) × (fill_rect fb r.x r.y r.w r.h color ≡ some fb')
      × ((px py : ℤ)
          → get_pixel fb' px py
            ≡ (if contains r px py && on_screen px py then color else get_pixel fb px py))
unfolding fill_rect
get_pixel-fill_rect fb r color h hw hh hx hy =
    let wide : range_len r.w ≡ r.w = ap pos_part (as_i16_small r.w hw) in
    let high : range_len r.h ≡ r.h = ap pos_part (as_i16_small r.h hh) in
    (
      fill_pixels (range_len r.h) 0 fb r.x r.y r.w color,
      fill_loop_lem (range_len r.h) 0 r.w r.h fb r.x r.y color (subst (InI16 r.x) (sym wide) hx) hy
          (omega (arith, high)),
      λ px py.
          get_pixel-fill_pixels (range_len r.h) 0 fb r.x r.y r.w color px py h
          ∙ ap (λ (t : Bool). if t then color else get_pixel fb px py)
              (ap (λ (t : Bool). t && on_screen px py) (contains_spans r px py hw hh)),
    )

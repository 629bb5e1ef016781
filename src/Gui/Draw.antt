-- ===== src/Gui/Draw.antt =====
-- src/gui/primitives.rs, src/gui/font.rs and src/gui/cursor.rs: lines, rectangles, text and the
-- cursor, pixel by pixel. A sum of `i16` that overflows panics, which is `none`.
pub mod Shapes
use polaros.Prelude.{
  ℕ, zero, suc, ◌+◌, ◌-◌, ◌*◌, ◌/◌, ◌%◌, ◌^◌, Bool, true, false, not, ◌&&◌, ltb, ◌==◌,
  if◌then◌else◌, Option, none, some, List, [], ◌∷◌, Bytes, length, get_elem?, get_or,
}
use polaros.Prelude.Int.{ℤ, pos, pos_part, ◌+ℤ◌, ◌-ℤ◌}
use polaros.Gui.Widget.{as_i16, checked}
use polaros.Gui.Framebuffer.{Framebuffer, set_pixel}

-- `0..w as i16` has this many numbers: none, if the cast is negative.
abbrev pub range_len : ℕ → ℕ
range_len w = pos_part (as_i16 w)

-- A pixel at two sums of `i16`, and what is drawn behind it.
abbrev pub plot : Framebuffer → Option ℤ → Option ℤ → ℕ → Option Framebuffer
plot fb none y color = none
plot fb (some x) none color = none
plot fb (some x) (some y) color = some (set_pixel fb x y color)

abbrev pub then_draw : Option Framebuffer → (Framebuffer → Option Framebuffer) → Option Framebuffer
then_draw none draw = none
then_draw (some fb) draw = draw fb

-- `for dx in 0..`: what is left of the range, and `dx`.
unfoldable pub hline_loop : ℕ → ℕ → Framebuffer → ℤ → ℤ → ℕ → Option Framebuffer
hline_loop zero dx fb x y color = some fb
hline_loop (suc n) dx fb x y color =
    then_draw (plot fb (checked (x +ℤ pos dx)) (some y) color)
      (λ fb1. hline_loop n (dx + 1) fb1 x y color)

unfoldable pub draw_hline : Framebuffer → ℤ → ℤ → ℕ → ℕ → Option Framebuffer
unfolding hline_loop
draw_hline fb x y w color = hline_loop (range_len w) 0 fb x y color

unfoldable pub vline_loop : ℕ → ℕ → Framebuffer → ℤ → ℤ → ℕ → Option Framebuffer
vline_loop zero dy fb x y color = some fb
vline_loop (suc n) dy fb x y color =
    then_draw (plot fb (some x) (checked (y +ℤ pos dy)) color)
      (λ fb1. vline_loop n (dy + 1) fb1 x y color)

unfoldable pub draw_vline : Framebuffer → ℤ → ℤ → ℕ → ℕ → Option Framebuffer
unfolding vline_loop
draw_vline fb x y h color = vline_loop (range_len h) 0 fb x y color

-- `z + n as i16 - 1`, in two steps.
abbrev pub less_one : Option ℤ → Option ℤ
less_one none = none
less_one (some z) = checked (z -ℤ pos 1)

abbrev pub far_side : ℤ → ℕ → Option ℤ
far_side z n = less_one (checked (z +ℤ as_i16 n))

abbrev pub hline_at : Framebuffer → ℤ → Option ℤ → ℕ → ℕ → Option Framebuffer
hline_at fb x none w color = none
hline_at fb x (some y) w color = draw_hline fb x y w color

abbrev pub vline_at : Framebuffer → Option ℤ → ℤ → ℕ → ℕ → Option Framebuffer
vline_at fb none y h color = none
vline_at fb (some x) y h color = draw_vline fb x y h color

unfoldable pub draw_rect : Framebuffer → ℤ → ℤ → ℕ → ℕ → ℕ → Option Framebuffer
unfolding draw_hline draw_vline
draw_rect fb x y w h color = then_draw (draw_hline fb x y w color) (λ top.
    then_draw (hline_at top x (far_side y h) w color) (λ bottom.
      then_draw (draw_vline bottom x y h color) (λ left. vline_at left (far_side x w) y h color)))

-- The two loops of `fill_rect`.
unfoldable pub row_loop : ℕ → ℕ → Framebuffer → ℤ → ℤ → ℕ → ℕ → Option Framebuffer
row_loop zero dx fb x y dy color = some fb
row_loop (suc n) dx fb x y dy color =
    then_draw (plot fb (checked (x +ℤ pos dx)) (checked (y +ℤ pos dy)) color)
      (λ fb1. row_loop n (dx + 1) fb1 x y dy color)

unfoldable pub fill_loop : ℕ → ℕ → Framebuffer → ℤ → ℤ → ℕ → ℕ → Option Framebuffer
unfolding row_loop
fill_loop zero dy fb x y w color = some fb
fill_loop (suc n) dy fb x y w color =
    then_draw (row_loop (range_len w) 0 fb x y dy color)
      (λ fb1. fill_loop n (dy + 1) fb1 x y w color)

unfoldable pub fill_rect : Framebuffer → ℤ → ℤ → ℕ → ℕ → ℕ → Option Framebuffer
unfolding fill_loop
fill_rect fb x y w h color = fill_loop (range_len h) 0 fb x y w color

-- ===== src/Gui/Compositor/Range.antt =====
-- The sums of src/gui/compositor.rs and src/gui/widget fit in an `i16`: while the pointer is on the
-- screen, no layer gets further from it than its own size.
use polaros.Prelude.{ℕ, ◌≤◌, ◌<◌, ◌≡◌, refl, Bool, true, false, ◌&&◌, Option, none, some, arith}
use polaros.Prelude.Int.{ℤ, pos, pos_part, neg_part, ◌+ℤ◌, ◌-ℤ◌, leb_ℤ, ltb_ℤ}
use polaros.Gui.Event.{Event, key_press, mouse_move, mouse_down, mouse_up, tick}
use polaros.Gui.Widget.{Rect, contains, as_i16}
use polaros.Gui.Compositor.{DragState, title_bar}

-- `-n ≤ z < m`
abbrev pub Within : ℕ → ℕ → ℤ → Type 0
Within n m z = (neg_part z ≤ n) × (pos_part z < m)

-- The corner is at most a screen's width to the left, or a title bar above it.
pub record IsNear (r : Rect) : Type 0 where
  pub x_range : Within 320 320 r.x
  pub y_range : Within 12 200 r.y
  pub w_range : r.w ≤ 320
  pub h_range : r.h ≤ 200

abbrev pub OffsetsNear : Option DragState → Type 0
OffsetsNear none = Unit
OffsetsNear (some d) = Within 0 320 d.offset_x × Within 0 12 d.offset_y

abbrev pub OnScreen : Event → Type 0
OnScreen (mouse_down x y b) = Within 0 320 x × Within 0 200 y
OnScreen (mouse_up x y b) = Within 0 320 x × Within 0 200 y
OnScreen (mouse_move x y) = Within 0 320 x × Within 0 200 y
OnScreen (key_press k) = Unit
OnScreen tick = Unit

abbrev pub FitsI16 : ℤ → Type 0
FitsI16 z = Within 32768 32768 z

-- What the code computes of a rectangle: its right and its lower end, and the corner of the close
-- button, as the compositor and as a window compute it.
pub record Fits (r : Rect) : Type 0 where
  pub right_end : FitsI16 (r.x +ℤ as_i16 r.w)
  pub lower_end : FitsI16 (r.y +ℤ as_i16 r.h)
  pub close_x : FitsI16 (r.x +ℤ as_i16 r.w -ℤ as_i16 12)
  pub close_x_one : FitsI16 (r.x +ℤ as_i16 r.w -ℤ as_i16 12 +ℤ pos 1)
  pub close_right : FitsI16 (r.x +ℤ as_i16 r.w -ℤ as_i16 12 +ℤ pos 1 +ℤ as_i16 10)
  pub close_lower : FitsI16 (r.y +ℤ pos 1 +ℤ as_i16 10)
  pub title_lower : FitsI16 (r.y +ℤ as_i16 12)

pub IsNear-Fits : (r : Rect) → IsNear r → Fits r
unfolding ◌+ℤ◌ ◌-ℤ◌
IsNear-Fits r h =
    let (a, b) = h.x_range in
    let (c, d) = h.y_range in
    let e = h.w_range in
    let f = h.h_range in
    record {
      right_end = ground arith;
      lower_end = ground arith;
      close_x = ground arith;
      close_x_one = ground arith;
      close_right = ground arith;
      close_lower = ground arith;
      title_lower = ground arith;
    }

-- An offset of a drag, from a point of the title bar, in one direction.
start-Within :
    (z x : ℤ) (w m : ℕ)
    → w ≤ m
    → w < 32768
    → leb_ℤ z x ≡ true
    → ltb_ℤ x (z +ℤ as_i16 w) ≡ true
    → Within 0 m (x -ℤ z)
unfolding ◌+ℤ◌ ◌-ℤ◌
start-Within z x w m small fits low high = ground arith

pub drop-Within : (x o : ℤ) (n m : ℕ) → Within 0 m x → Within 0 n o → Within n m (x -ℤ o)
unfolding ◌-ℤ◌
drop-Within x o n m hx ho = ground arith

and_parts :
    (a b c d : Bool) → (a && b && c && d) ≡ true → (a ≡ true) × (b ≡ true) × (c ≡ true) × (d ≡ true)
and_parts true true true true h = (refl, refl, refl, refl)
and_parts true true true false h = cc
and_parts true true false d h = cc
and_parts true false c d h = cc
and_parts false b c d h = cc

pub start-Near :
    (r : Rect) (x y : ℤ)
    → IsNear r
    → contains (title_bar r) x y ≡ true
    → Within 0 320 (x -ℤ r.x) × Within 0 12 (y -ℤ r.y)
start-Near r x y h t =
    let (a, b, c, d) =
      and_parts (leb_ℤ r.x x) (ltb_ℤ x (r.x +ℤ as_i16 r.w)) (leb_ℤ r.y y)
        (ltb_ℤ y (r.y +ℤ as_i16 12)) t in
    let fits : r.w < 32768 = omega (arith, h.w_range) in
    (
      start-Within r.x x r.w 320 h.w_range fits a b,
      start-Within r.y y 12 12 (omega arith) (omega arith) c d,
    )

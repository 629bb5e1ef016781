-- ===== src/Gui/Widget.antt =====
-- src/gui/widget/mod.rs: rectangles, and what the compositor asks of a widget. The sums of `i16` are
-- integers; Compositor/Range shows that they stay within an `i16` while the pointer is on the screen.
pub mod Desktop
pub mod Window
pub mod Button
pub mod Terminal
use polaros.Prelude.{ℕ, ◌-◌, ◌≡◌, ◌⊎◌, Bool, ◌&&◌, ltb, if◌then◌else◌, Option, none, some}
use polaros.Prelude.Int.{ℤ, pos, negsuc, ◌+ℤ◌, leb_ℤ, ltb_ℤ}
use polaros.Gui.Event.{Event}

-- `n as i16`, for a `u16`.
abbrev pub as_i16 : ℕ → ℤ
as_i16 n = if ltb n 32768 then pos n else negsuc (65535 - n)

-- An `i16`, or `none` where the debug build panics.
abbrev pub checked : ℤ → Option ℤ
checked z = if leb_ℤ (negsuc 32767) z && leb_ℤ z (pos 32767) then some z else none

pub record Rect : Type 0 where
  pub x : ℤ
  pub y : ℤ
  pub w : ℕ
  pub h : ℕ

abbrev pub contains : Rect → ℤ → ℤ → Bool
contains r px py =
    leb_ℤ r.x px && ltb_ℤ px (r.x +ℤ as_i16 r.w) && leb_ℤ r.y py && ltb_ℤ py (r.y +ℤ as_i16 r.h)

pub data EventResponse : Type 0 where
  consumed ignored close_request open_terminal : EventResponse

-- The methods of the trait that the compositor calls, for widgets `W` that may change the rest of
-- the machine, `S`, and what all of the implementations have in common.
pub record Widget (S : Type 0) (W : Type 0) : Type 0 where
  pub id : W → ℕ
  pub bounds : W → Rect
  pub set_position : W → ℤ → ℤ → W
  pub handle_event : W → Event → S → EventResponse × W × S
  pub id-set_position : (w : W) (x y : ℤ) → id (set_position w x y) ≡ id w
  pub id-handle_event : (w : W) (e : Event) (s : S) → id (handle_event w e s).1 ≡ id w
  pub bounds-handle_event : (w : W) (e : Event) (s : S) → bounds (handle_event w e s).1 ≡ bounds w
  pub bounds-set_position :
      (w : W) (x y : ℤ)
      → (bounds (set_position w x y) ≡ bounds w)
        ⊎ (bounds (set_position w x y) ≡ record (bounds w) { x = x; y = y })

-- ===== src/Gui/Framebuffer.antt =====
-- src/gui/framebuffer.rs: the pixels of the screen, without the ports of the video card.
pub mod Pixels
use polaros.Prelude.{
  ℕ, ◌+◌, ◌-◌, ◌*◌, Bool, ◌&&◌, ltb, if◌then◌else◌, List, get_or, set, replicate, map,
}
use polaros.Prelude.Int.{ℤ, pos, pos_part, leb_ℤ, ltb_ℤ}
use polaros.Drivers.Mouse.{screen_width, screen_height}

abbrev pub fb_size : ℕ
fb_size = 64000

-- The bytes of `buffer`, of which there are `FB_SIZE`.
pub record Framebuffer : Type 0 where
  pub buffer : List ℕ

unfoldable pub new : Framebuffer
new = record { buffer = replicate fb_size 0 }

abbrev pub on_screen : ℤ → ℤ → Bool
on_screen x y =
    leb_ℤ (pos 0) x && ltb_ℤ x (pos screen_width) && leb_ℤ (pos 0) y && ltb_ℤ y (pos screen_height)

-- `y as usize * SCREEN_WIDTH as usize + x as usize`, which is read where neither is negative.
abbrev pub index : ℤ → ℤ → ℕ
index x y = pos_part y * screen_width + pos_part x

unfoldable pub set_pixel : Framebuffer → ℤ → ℤ → ℕ → Framebuffer
set_pixel fb x y color =
    if on_screen x y then record { buffer = set fb.buffer (index x y) color } else fb

unfoldable pub get_pixel : Framebuffer → ℤ → ℤ → ℕ
get_pixel fb x y = if on_screen x y then get_or fb.buffer (index x y) 0 else 0

-- `^= 0xFF` of a byte.
unfoldable pub xor_pixel : Framebuffer → ℤ → ℤ → Framebuffer
xor_pixel fb x y =
    if on_screen x y
    then record { buffer = set fb.buffer (index x y) (255 - get_or fb.buffer (index x y) 0) }
    else fb

unfoldable pub clear : Framebuffer → ℕ → Framebuffer
clear fb color = record { buffer = map (λ (byte : ℕ). color) fb.buffer }

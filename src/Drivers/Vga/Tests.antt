-- ===== src/Drivers/Vga/Tests.antt =====
-- The text screen at concrete inputs.
use polaros.Prelude.{◌≡◌, refl, [], ◌∷◌, arith, text, length, replicate, All-replicate}
use polaros.Drivers.Vga.{Row, Writer, Buffer, blank_of, light_red, black}
use polaros.Drivers.Vga.Rows.{IsScreen}
use polaros.Drivers.Vga.Calls.{Writes, print, erase, clear, color, run, run-Writes}

abbrev empty_screen : Buffer
empty_screen = replicate 25 (replicate 80 (blank_of 10))

empty_screen-IsScreen : IsScreen empty_screen
empty_screen-IsScreen = record {
  rows = refl;
  wide = All-replicate (λ (r : Row). length r ≡ 80) 25 (replicate 80 (blank_of 10)) refl;
}

abbrev writer : Writer
writer = record { column_position = 2; color_code = 10; buffer = empty_screen }

run-Writes_example :
    Writes writer (run writer (print (text "a\nb") ∷ erase ∷ color light_red black ∷ clear ∷ []))
run-Writes_example =
    run-Writes writer (print (text "a\nb") ∷ erase ∷ color light_red black ∷ clear ∷ [])
      (record { screen = empty_screen-IsScreen; column = omega arith })

-- ===== src/Drivers/Keyboard/Layout.antt =====
-- The selection of the keyboard layout in src/drivers/keyboard.rs: the layout stands in an atomic
-- byte, and the `keymap` command names it.
use polaros.Prelude.{ℕ, ◌≡◌, refl, ◌||◌, Option, none, some, ◌==◌, if◌then◌else◌, text}
use polaros.Fs.Name.{Name, name_eq, cmp}

pub data LayoutId : Type 0 where
  us104 uk105 de105 azerty dvorak colemak : LayoutId

-- `layout as u8`.
unfoldable pub layout_code : LayoutId → ℕ
layout_code us104 = 0
layout_code uk105 = 1
layout_code de105 = 2
layout_code azerty = 3
layout_code dvorak = 4
layout_code colemak = 5

-- `CURRENT_LAYOUT` is the argument of the reader and the result of the writer.
unfoldable pub set_layout : LayoutId → ℕ
unfolding layout_code
set_layout layout = layout_code layout

unfoldable pub current_layout : ℕ → LayoutId
current_layout code =
    if code == 0
    then us104
    else if code == 1
    then uk105
    else if code == 2
    then de105
    else if code == 3
    then azerty
    else if code == 4
    then dvorak
    else if code == 5
    then colemak
    else us104

unfoldable pub layout_name : LayoutId → Name
layout_name us104 = text "us"
layout_name uk105 = text "uk"
layout_name de105 = text "de"
layout_name azerty = text "fr"
layout_name dvorak = text "dvorak"
layout_name colemak = text "colemak"

unfoldable pub layout_from_name : Name → Option LayoutId
layout_from_name name =
    if name_eq name (text "us")
    then some us104
    else if name_eq name (text "uk")
    then some uk105
    else if name_eq name (text "de")
    then some de105
    else if name_eq name (text "fr") || name_eq name (text "azerty")
    then some azerty
    else if name_eq name (text "dvorak")
    then some dvorak
    else if name_eq name (text "colemak")
    then some colemak
    else none

-- The name that is shown for a layout selects it again, and the stored byte reads back as it.
pub layout_roundtrip :
    (layout : LayoutId)
    → (layout_from_name (layout_name layout) ≡ some layout)
      × (current_layout (set_layout layout) ≡ layout)
unfolding layout_from_name layout_name current_layout set_layout cmp
layout_roundtrip us104 = (refl, refl)
layout_roundtrip uk105 = (refl, refl)
layout_roundtrip de105 = (refl, refl)
layout_roundtrip azerty = (refl, refl)
layout_roundtrip dvorak = (refl, refl)
layout_roundtrip colemak = (refl, refl)

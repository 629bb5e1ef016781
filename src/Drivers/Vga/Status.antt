-- ===== src/Drivers/Vga/Status.antt =====
-- The status bar.
use polaros.Prelude.{
  ℕ, zero, suc, ◌+◌, ◌-◌, ◌<◌, ◌≡◌, refl, ◌∙◌, inl, inr, Bool-cases, [], ◌∷◌, length, length-set,
  get_or, get_or-set_ne, leb, Bytes, arith,
}
use polaros.Drivers.Vga.{
  ScreenChar, Buffer, write_at, clear_cols, put_status, update_status_bar, color_code_of, white,
  dark_gray, blank_of,
}
use polaros.Drivers.Vga.Rows.{IsScreen, wide_row, All-set}

-- The screen keeps its shape, and no row but the last is changed.
pub record Below (chars chars' : Buffer) : Type 0 where
  pub screen : IsScreen chars'
  pub same : (i : ℕ) → i < 24 → get_or chars' i [] ≡ get_or chars i []

pub Below-refl : (a : Buffer) → IsScreen a → Below a a
Below-refl a h = record { screen = h; same = λ i lt. refl }

Below-trans : (a b c : Buffer) → Below a b → Below b c → Below a c
Below-trans a b c h k = record { screen = k.screen; same = λ i lt. k.same i lt ∙ h.same i lt }

write_at-Below :
    (chars : Buffer) (col : ℕ) (c : ScreenChar)
    → IsScreen chars
    → Below chars (write_at chars 24 col c)
unfolding write_at
write_at-Below chars col c h =
    let wide = wide_row chars 24 (omega (arith, h.rows)) h.wide in
    record {
      screen = record {
        rows = length-set chars 24 _ ∙ h.rows;
        wide = All-set chars 24 _ (length-set (get_or chars 24 []) col c ∙ wide) h.wide;
      };
      same = λ i lt. get_or-set_ne chars 24 i _ [] (omega arith);
    }

clear_cols-Below :
    (n col : ℕ) (c : ScreenChar) (chars : Buffer)
    → IsScreen chars
    → Below chars (clear_cols n col 24 c chars)
unfolding clear_cols
clear_cols-Below zero col c chars h = Below-refl chars h
clear_cols-Below (suc n) col c chars h =
    let k = write_at-Below chars col c h in
    Below-trans chars _ _ k (clear_cols-Below n (col + 1) c _ k.screen)

put_status-Below :
    (bytes : Bytes) (col color : ℕ) (chars : Buffer)
    → IsScreen chars
    → Below chars (put_status bytes col color chars)
unfolding put_status
put_status-Below [] col color chars h = Below-refl chars h
put_status-Below (byte ∷ bytes) col color chars h =
    let k = write_at-Below chars col (record { ascii_character = byte; color_code = color }) h in
    let further = Below-trans chars _ _ k (put_status-Below bytes (col + 1) color _ k.screen) in
    elim (Bool-cases (leb 80 col)) [
      | inl edge ↦ rw edge (Below-refl chars h)
      | inr room ↦ rw room further
    ]

-- The status bar is drawn in the last row only, however long its two texts are, and the screen keeps
-- its shape.
pub update_status_bar-Below :
    (left right : Bytes) (chars : Buffer)
    → IsScreen chars
    → Below chars (update_status_bar left right chars)
unfolding update_status_bar
update_status_bar-Below left right chars h =
    let color = color_code_of white dark_gray in
    let a = clear_cols-Below 80 0 (blank_of color) chars h in
    let b = put_status-Below left 0 color _ a.screen in
    let c = put_status-Below right (80 - length right) color _ b.screen in
    Below-trans chars _ _ a (Below-trans _ _ _ b c)

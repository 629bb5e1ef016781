-- ===== src/Drivers/Vga/Rows.antt =====
-- The shape of the screen, its status row, and the writer's column: what every call keeps.
use polaros.Prelude.{
  ℕ, zero, suc, ◌+◌, ◌-◌, ◌≤◌, ◌<◌, ◌≡◌, refl, ◌∙◌, [], ◌∷◌, length, length-set, get_or,
  get_or-set_ne, set, arith, All,
}
use polaros.Drivers.Vga.{ScreenChar, Row, Buffer, write_at, copy_cols, copy_rows, clear_cols}

-- Twenty-five rows of eighty characters.
pub record IsScreen (chars : Buffer) : Type 0 where
  pub rows : length chars ≡ 25
  pub wide : All (λ (r : Row). length r ≡ 80) chars

pub All-set :
    (chars : Buffer) (i : ℕ) (r : Row)
    → length r ≡ 80
    → All (λ (r : Row). length r ≡ 80) chars
    → All (λ (r : Row). length r ≡ 80) (set chars i r)
All-set [] i r h a = tt
All-set (x ∷ chars) zero r h a = (h, a.1)
All-set (x ∷ chars) (suc i) r h a = (a.0, All-set chars i r h a.1)

pub wide_row :
    (chars : Buffer) (i : ℕ)
    → i < length chars
    → All (λ (r : Row). length r ≡ 80) chars
    → length (get_or chars i []) ≡ 80
wide_row [] i h a = absurd (omega arith)
wide_row (x ∷ chars) zero h a = a.0
wide_row (x ∷ chars) (suc i) h a = wide_row chars i (omega arith) a.1

-- The screen stays one, and its rows from `row` on stay what they were.
pub record Keeps (row : ℕ) (chars chars' : Buffer) : Type 0 where
  pub screen : IsScreen chars'
  pub same : (i : ℕ) → row ≤ i → get_or chars' i [] ≡ get_or chars i []

pub Keeps-trans : (row : ℕ) (a b c : Buffer) → Keeps row a b → Keeps row b c → Keeps row a c
Keeps-trans row a b c h k = record { screen = k.screen; same = λ i le. k.same i le ∙ h.same i le }

pub Keeps-refl : (row : ℕ) (a : Buffer) → IsScreen a → Keeps row a a
Keeps-refl row a h = record { screen = h; same = λ i le. refl }

pub write_at-Keeps :
    (chars : Buffer) (row col : ℕ) (c : ScreenChar)
    → row < 24
    → IsScreen chars
    → Keeps 24 chars (write_at chars row col c)
unfolding write_at
write_at-Keeps chars row col c lt h =
    let wide = wide_row chars row (omega (arith, h.rows)) h.wide in
    record {
      screen = record {
        rows = length-set chars row _ ∙ h.rows;
        wide = All-set chars row _ (length-set (get_or chars row []) col c ∙ wide) h.wide;
      };
      same = λ i le. get_or-set_ne chars row i _ [] (omega arith);
    }

pub copy_cols-Keeps :
    (n col row : ℕ) (chars : Buffer)
    → 0 < row
    → row < 25
    → IsScreen chars
    → Keeps 24 chars (copy_cols n col row chars)
unfolding copy_cols
copy_cols-Keeps zero col row chars p lt h = Keeps-refl 24 chars h
copy_cols-Keeps (suc n) col row chars p lt h =
    let k = write_at-Keeps chars (row - 1) col _ (omega arith) h in
    Keeps-trans 24 chars _ _ k (copy_cols-Keeps n (col + 1) row _ p lt k.screen)

pub copy_rows-Keeps :
    (n row : ℕ) (chars : Buffer)
    → 0 < row
    → row + n ≤ 25
    → IsScreen chars
    → Keeps 24 chars (copy_rows n row chars)
unfolding copy_rows
copy_rows-Keeps zero row chars p lt h = Keeps-refl 24 chars h
copy_rows-Keeps (suc n) row chars p lt h =
    let k = copy_cols-Keeps 80 0 row chars p (omega arith) h in
    Keeps-trans 24 chars _ _ k (copy_rows-Keeps n (row + 1) _ (omega arith) (omega arith) k.screen)

pub clear_cols-Keeps :
    (n col row : ℕ) (c : ScreenChar) (chars : Buffer)
    → row < 24
    → IsScreen chars
    → Keeps 24 chars (clear_cols n col row c chars)
unfolding clear_cols
clear_cols-Keeps zero col row c chars lt h = Keeps-refl 24 chars h
clear_cols-Keeps (suc n) col row c chars lt h =
    let k = write_at-Keeps chars row col c lt h in
    Keeps-trans 24 chars _ _ k (clear_cols-Keeps n (col + 1) row c _ lt k.screen)

-- ===== src/Drivers/Vga/Scroll.antt =====
-- What stands on the screen after a line break and after a line is printed.
use polaros.Prelude.{
  ℕ, zero, suc, ◌+◌, ◌-◌, ◌≤◌, ◌<◌, ◌≡◌, refl, ap, ◌∙◌, false, ◌&&◌, [], ◌∷◌, length, get_or,
  get_or-set_self, get_or-set_ne, set, ltb, leb, ◌==◌, if◌then◌else◌, Bytes, arith, All,
}
use native.Mathlib.Decide.{ℕ_discrete}
use polaros.Drivers.Vga.{
  ScreenChar, Buffer, Writer, blank_of, write_at, copy_cols, copy_rows, clear_cols, clear_row,
  new_line, put_byte, write_byte, shown, write_string,
}
use polaros.Drivers.Vga.Rows.{IsScreen, wide_row, write_at-Keeps, copy_cols-Keeps, copy_rows-Keeps}

abbrev pub char_at : Buffer → ℕ → ℕ → ScreenChar
char_at chars row col = get_or (get_or chars row []) col (blank_of 0)

char_at-write_at :
    (chars : Buffer) (row col : ℕ) (v : ScreenChar) (r c : ℕ)
    → IsScreen chars
    → row < 25
    → col < 80
    → char_at (write_at chars row col v) r c
      ≡ (if r == row && c == col then v else char_at chars r c)
unfolding write_at
char_at-write_at chars row col v r c h lt lt' =
    let old = get_or chars row [] in
    let wide = wide_row chars row (omega (arith, h.rows)) h.wide in
    elim (ℕ_discrete row r) [
      | no ne ↦ rw (get_or-set_ne chars row r (set old col v) [] ne) (ground arith)
      | yes e ↦
          let here : get_or (set chars row (set old col v)) r [] ≡ set old col v =
            rw (← e) (get_or-set_self chars row (set old col v) [] (omega (arith, h.rows))) in
          elim (ℕ_discrete col c) [
            | yes e' ↦
                let self : get_or (set old col v) c (blank_of 0) ≡ v =
                  rw (← e') (get_or-set_self old col v (blank_of 0) (omega (arith, wide))) in
                rw here (ground (arith, self))
            | no ne' ↦
                let away = get_or-set_ne old col c v (blank_of 0) ne' in
                rw (here, away) (ground (arith, ap (λ k. char_at chars k c) e))
          ]
    ]

-- The inner loop of `new_line`: the characters of one row go to the row above.
char_at-copy_cols :
    (n col row : ℕ) (chars : Buffer) (r c : ℕ)
    → IsScreen chars
    → 0 < row
    → row < 25
    → col + n ≤ 80
    → char_at (copy_cols n col row chars) r c ≡ (
        if (r + 1 == row) && (leb col c && ltb c (col + n))
        then char_at chars row c
        else char_at chars r c)
unfolding copy_cols
char_at-copy_cols zero col row chars r c h p lt le = ground arith
char_at-copy_cols (suc n) col row chars r c h p lt le =
    let v = char_at chars row col in
    let k = write_at-Keeps chars (row - 1) col v (omega arith) h in
    let next = write_at chars (row - 1) col v in
    let again = char_at-copy_cols n (col + 1) row next r c k.screen p lt (omega arith) in
    let there = char_at-write_at chars (row - 1) col v r c h (omega arith) (omega arith) in
    let source = char_at-write_at chars (row - 1) col v row c h (omega arith) (omega arith) in
    again ∙ rw (there, source) (ground arith)

char_at-copy_rows :
    (n row : ℕ) (chars : Buffer) (r c : ℕ)
    → IsScreen chars
    → 0 < row
    → row + n ≤ 25
    → c < 80
    → char_at (copy_rows n row chars) r c ≡ (
        if leb row (r + 1) && ltb (r + 1) (row + n)
        then char_at chars (r + 1) c
        else char_at chars r c)
unfolding copy_rows
char_at-copy_rows zero row chars r c h p lt le = ground arith
char_at-copy_rows (suc n) row chars r c h p lt le =
    let k = copy_cols-Keeps 80 0 row chars p (omega arith) h in
    let next = copy_cols 80 0 row chars in
    let again = char_at-copy_rows n (row + 1) next r c k.screen (omega arith) (omega arith) le in
    let here = char_at-copy_cols 80 0 row chars r c h p (omega arith) (omega arith) in
    let below = char_at-copy_cols 80 0 row chars (r + 1) c h p (omega arith) (omega arith) in
    again ∙ rw (here, below) (ground (arith, ap (λ k. char_at chars k c)))

char_at-clear_cols :
    (n col row : ℕ) (v : ScreenChar) (chars : Buffer) (r c : ℕ)
    → IsScreen chars
    → row < 24
    → col + n ≤ 80
    → char_at (clear_cols n col row v chars) r c
      ≡ (if r == row && (leb col c && ltb c (col + n)) then v else char_at chars r c)
unfolding clear_cols
char_at-clear_cols zero col row v chars r c h lt le = ground arith
char_at-clear_cols (suc n) col row v chars r c h lt le =
    let k = write_at-Keeps chars row col v lt h in
    let next = write_at chars row col v in
    let again = char_at-clear_cols n (col + 1) row v next r c k.screen lt (omega arith) in
    let there = char_at-write_at chars row col v r c h (omega arith) (omega arith) in
    again ∙ rw there (ground arith)

-- A line break moves each text row up by one, leaves the last text row blank in the current colour
-- and the status row as it is, and goes to the first column.
pub new_line_lem :
    (w : Writer) (r c : ℕ)
    → IsScreen w.buffer
    → c < 80
    → (char_at (new_line w).buffer r c ≡ (
        if ltb r 23
        then char_at w.buffer (r + 1) c
        else if r == 23
        then blank_of w.color_code
        else char_at w.buffer r c))
      × ((new_line w).column_position ≡ 0)
unfolding new_line clear_row
new_line_lem w r c h lt =
    let k = copy_rows-Keeps 23 1 w.buffer (omega arith) (omega arith) h in
    let up = char_at-copy_rows 23 1 w.buffer r c h (omega arith) (omega arith) lt in
    let cleared =
      char_at-clear_cols 80 0 23 (blank_of w.color_code) (copy_rows 23 1 w.buffer) r c k.screen
        (omega arith) (omega arith) in
    (cleared ∙ rw up (ground arith), refl)

write_byte_room :
    (w : Writer) (b : ℕ)
    → (b == 10) ≡ false
    → w.column_position < 80
    → write_byte w (shown b) ≡ put_byte w (shown b)
unfolding write_byte
write_byte_room w b h lt = ground arith

-- What a line of bytes shows in the row, from the column on.
abbrev pub printed : Writer → Bytes → ℕ → ScreenChar
printed w bytes c = record {
  ascii_character = shown (get_or bytes (c - w.column_position) 0);
  color_code = w.color_code;
}

printed_later :
    (w w' : Writer) (b : ℕ) (bytes : Bytes) (c : ℕ)
    → w'.column_position ≡ w.column_position + 1
    → w'.color_code ≡ w.color_code
    → w.column_position < c
    → printed w' bytes c ≡ printed w (b ∷ bytes) c
printed_later w w' b bytes c e e' lt =
    let d : c - w.column_position ≡ suc (c - w'.column_position) = omega arith in rw (d, e') refl

printed_first :
    (w : Writer) (b : ℕ) (bytes : Bytes) (c : ℕ)
    → c ≡ w.column_position
    → printed w (b ∷ bytes) c ≡ record { ascii_character = shown b; color_code = w.color_code }
printed_first w b bytes c e = let d : c - w.column_position ≡ 0 = omega arith in rw d refl

write_string_room :
    (w : Writer) (b : ℕ) (bytes : Bytes)
    → (b == 10) ≡ false
    → w.column_position < 80
    → write_string w (b ∷ bytes) ≡ write_string (put_byte w (shown b)) bytes
unfolding write_string
write_string_room w b bytes h lt = ap (λ x. write_string x bytes) (write_byte_room w b h lt)

-- Bytes without a line feed, for which the row has room, stand behind what the row holds, in the
-- current colour and with 0xfe for what is not printable; nothing else on the screen changes, and
-- the column is behind them.
pub write_string_lem :
    (w : Writer) (bytes : Bytes) (r c : ℕ)
    → IsScreen w.buffer
    → All (λ b. (b == 10) ≡ false) bytes
    → w.column_position + length bytes ≤ 80
    → (char_at (write_string w bytes).buffer r c ≡ (
        if (r == 23) && (leb w.column_position c && ltb c (w.column_position + length bytes))
        then printed w bytes c
        else char_at w.buffer r c))
      × ((write_string w bytes).column_position ≡ w.column_position + length bytes)
unfolding write_string
write_string_lem w [] r c h no_feed room = (ground arith, omega arith)
write_string_lem w (b ∷ bytes) r c h no_feed room =
    let w' = put_byte w (shown b) in
    let v : ScreenChar = record { ascii_character = shown b; color_code = w.color_code } in
    let k = write_at-Keeps w.buffer 23 w.column_position v (omega arith) h in
    let there =
      char_at-write_at w.buffer 23 w.column_position v r c h (omega arith) (omega arith) in
    let (again, column) = write_string_lem w' bytes r c k.screen no_feed.1 (omega arith) in
    rw (write_string_room w b bytes no_feed.0 (omega arith)) (
      again
          ∙ rw there
              (ground (arith, printed_later w w' b bytes c refl refl, printed_first w b bytes c)),
      omega (arith, column),
    )

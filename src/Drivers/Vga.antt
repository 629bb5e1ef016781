-- ===== src/Drivers/Vga.antt =====
-- src/drivers/vga.rs: the text screen, and the writer that prints on its last text row.
pub mod Rows
pub mod Calls
pub mod Scroll
pub mod Status
mod Tests
use polaros.Prelude.{
  ℕ, zero, suc, ◌+◌, ◌-◌, ◌*◌, Bool, true, false, ◌&&◌, ◌||◌, List, [], ◌∷◌, length, get_or, set,
  ltb, leb, ◌==◌, if◌then◌else◌, Bytes,
}

pub data Color : Type 0 where
  black blue green cyan red magenta brown light_gray dark_gray light_blue light_green light_cyan
        light_red pink yellow white :
      Color

-- `color as u8`.
abbrev pub color_number : Color → ℕ
color_number black = 0
color_number blue = 1
color_number green = 2
color_number cyan = 3
color_number red = 4
color_number magenta = 5
color_number brown = 6
color_number light_gray = 7
color_number dark_gray = 8
color_number light_blue = 9
color_number light_green = 10
color_number light_cyan = 11
color_number light_red = 12
color_number pink = 13
color_number yellow = 14
color_number white = 15

-- `ColorCode::new`: the two numbers stand in the halves of a byte, so that `|` is a sum.
abbrev pub color_code_of : Color → Color → ℕ
color_code_of foreground background = color_number background * 16 + color_number foreground

pub record ScreenChar : Type 0 where
  pub ascii_character : ℕ
  pub color_code : ℕ

abbrev pub buffer_height : ℕ
buffer_height = 25

abbrev pub buffer_width : ℕ
buffer_width = 80

abbrev pub text_height : ℕ
text_height = 24

abbrev pub Row : Type 0
Row = List ScreenChar

-- `Buffer.chars`, row by row.
abbrev pub Buffer : Type 0
Buffer = List Row

pub record Writer : Type 0 where
  pub column_position : ℕ
  pub color_code : ℕ
  pub buffer : Buffer

abbrev pub blank_of : ℕ → ScreenChar
blank_of color_code = record { ascii_character = 32; color_code = color_code }

-- `chars[row][col].write(c)`; Rows shows that the indices are in range.
unfoldable pub write_at : Buffer → ℕ → ℕ → ScreenChar → Buffer
write_at chars row col c = set chars row (set (get_or chars row []) col c)

-- The loops of `new_line` over `n` columns from `col` on, and over `n` rows from `row` on. What is
-- read out of range would be `blank_of 0`.
unfoldable pub copy_cols : ℕ → ℕ → ℕ → Buffer → Buffer
copy_cols zero col row chars = chars
copy_cols (suc n) col row chars =
    copy_cols n (col + 1) row
      (write_at chars (row - 1) col (get_or (get_or chars row []) col (blank_of 0)))

unfoldable pub copy_rows : ℕ → ℕ → Buffer → Buffer
copy_rows zero row chars = chars
copy_rows (suc n) row chars = copy_rows n (row + 1) (copy_cols buffer_width 0 row chars)

-- The loop of `clear_row`.
unfoldable pub clear_cols : ℕ → ℕ → ℕ → ScreenChar → Buffer → Buffer
clear_cols zero col row blank chars = chars
clear_cols (suc n) col row blank chars =
    clear_cols n (col + 1) row blank (write_at chars row col blank)

unfoldable pub clear_row : Writer → ℕ → Writer
unfolding clear_cols
clear_row w row = record w {
  buffer = clear_cols buffer_width 0 row (blank_of w.color_code) w.buffer;
}

unfoldable pub new_line : Writer → Writer
unfolding copy_rows clear_row
new_line w =
    let w1 = clear_row (record w { buffer = copy_rows (text_height - 1) 1 w.buffer }) 23 in
    record w1 { column_position = 0 }

-- A byte that is no line feed, on a row with room for it.
abbrev pub put_byte : Writer → ℕ → Writer
put_byte w byte = record w {
  buffer =
      write_at w.buffer 23 w.column_position
        (record { ascii_character = byte; color_code = w.color_code });
  column_position = w.column_position + 1;
}

unfoldable pub write_byte : Writer → ℕ → Writer
write_byte w byte =
    if byte == 10
    then new_line w
    else if leb buffer_width w.column_position
    then put_byte (new_line w) byte
    else put_byte w byte

-- The byte that stands on the screen for another.
abbrev pub shown : ℕ → ℕ
shown byte = if leb 0x20 byte && leb byte 0x7e || byte == 10 then byte else 0xfe

unfoldable pub write_string : Writer → Bytes → Writer
write_string w [] = w
write_string w (byte ∷ bytes) = write_string (write_byte w (shown byte)) bytes

-- The loop of `clear_screen`.
unfoldable pub clear_rows : ℕ → ℕ → Writer → Writer
clear_rows zero row w = w
clear_rows (suc n) row w = clear_rows n (row + 1) (clear_row w row)

unfoldable pub clear_screen : Writer → Writer
unfolding clear_rows
clear_screen w = record (clear_rows text_height 0 w) { column_position = 0 }

unfoldable pub delete_last_char : Writer → Writer
delete_last_char w =
    let col = w.column_position - 1 in
    if ltb 0 w.column_position
    then record w {
      column_position = col;
      buffer = write_at w.buffer 23 col (blank_of w.color_code);
    }
    else w

unfoldable pub set_color : Writer → Color → Color → Writer
set_color w foreground background = record w { color_code = color_code_of foreground background }

-- The loops of `update_status_bar` over the bytes of a text, from `col` on; they break at the edge.
unfoldable pub put_status : Bytes → ℕ → ℕ → Buffer → Buffer
put_status [] col color chars = chars
put_status (byte ∷ bytes) col color chars =
    let written = write_at chars 24 col (record { ascii_character = byte; color_code = color }) in
    let further = put_status bytes (col + 1) color written in
    if leb buffer_width col then chars else further

-- The subtraction is saturating in the source.
unfoldable pub update_status_bar : Bytes → Bytes → Buffer → Buffer
unfolding put_status clear_cols
update_status_bar left right chars =
    let color = color_code_of white dark_gray in
    let cleared = clear_cols buffer_width 0 24 (blank_of color) chars in
    put_status right (buffer_width - length right) color (put_status left 0 color cleared)

-- ===== src/Drivers/Vga/Calls.antt =====
-- Whatever is printed, the writer stays on its row and writes inside the screen.
use polaros.Prelude.{
  ℕ, zero, suc, ◌+◌, ◌-◌, ◌≤◌, ◌<◌, ◌≡◌, refl, ◌∙◌, inl, inr, Bool-cases, List, [], ◌∷◌, get_or,
  ltb, leb, ◌==◌, Bytes, arith,
}
use polaros.Drivers.Vga.{
  Writer, Color, blank_of, clear_row, new_line, put_byte, write_byte, shown, write_string,
  clear_rows, clear_screen, delete_last_char, set_color,
}
use polaros.Drivers.Vga.Rows.{
  IsScreen, Keeps, Keeps-refl, Keeps-trans, write_at-Keeps, copy_rows-Keeps, clear_cols-Keeps,
}

-- The screen has its shape, and the column is at most the one behind the last.
pub record IsValid (w : Writer) : Type 0 where
  pub screen : IsScreen w.buffer
  pub column : w.column_position ≤ 80

-- A call leaves a valid writer, and the status row as it was.
pub record Writes (w w' : Writer) : Type 0 where
  pub valid : IsValid w'
  pub status : get_or w'.buffer 24 [] ≡ get_or w.buffer 24 []

Writes-of : (w w' : Writer) → Keeps 24 w.buffer w'.buffer → w'.column_position ≤ 80 → Writes w w'
Writes-of w w' k h = record {
  valid = record { screen = k.screen; column = h };
  status = k.same 24 (omega arith);
}

Writes-trans : (a b c : Writer) → Writes a b → Writes b c → Writes a c
Writes-trans a b c h k = record { valid = k.valid; status = k.status ∙ h.status }

new_line-Keeps : (w : Writer) → IsScreen w.buffer → Keeps 24 w.buffer (new_line w).buffer
unfolding new_line clear_row
new_line-Keeps w h =
    let k = copy_rows-Keeps 23 1 w.buffer (omega arith) (omega arith) h in
    Keeps-trans 24 w.buffer _ _ k
      (clear_cols-Keeps 80 0 23 (blank_of w.color_code) _ (omega arith) k.screen)

new_line_column : (w : Writer) → (new_line w).column_position ≡ 0
unfolding new_line
new_line_column w = refl

new_line-Writes : (w : Writer) → IsScreen w.buffer → Writes w (new_line w)
new_line-Writes w h =
    Writes-of w (new_line w) (new_line-Keeps w h) (omega (arith, new_line_column w))

put_byte-Writes :
    (w : Writer) (byte : ℕ)
    → IsScreen w.buffer
    → w.column_position < 80
    → Writes w (put_byte w byte)
put_byte-Writes w byte h lt =
    Writes-of w (put_byte w byte) (write_at-Keeps w.buffer 23 w.column_position _ (omega arith) h)
      (omega arith)

write_byte-Writes : (w : Writer) (byte : ℕ) → IsValid w → Writes w (write_byte w byte)
unfolding write_byte
write_byte-Writes w byte v = elim (Bool-cases (byte == 10)) [
  | inl feed ↦ rw feed (new_line-Writes w v.screen)
  | inr other ↦ elim (Bool-cases (leb 80 w.column_position)) [
    | inl full ↦
        let n = new_line-Writes w v.screen in
        rw (other, full)
          (Writes-trans w (new_line w) _ n
            (put_byte-Writes (new_line w) byte n.valid.screen (omega (arith, new_line_column w))))
    | inr room ↦ rw (other, room) (put_byte-Writes w byte v.screen (ground arith))
  ]
]

pub write_string-Writes : (w : Writer) (bytes : Bytes) → IsValid w → Writes w (write_string w bytes)
unfolding write_string
write_string-Writes w [] v = Writes-of w w (Keeps-refl 24 w.buffer v.screen) v.column
write_string-Writes w (byte ∷ bytes) v =
    let k = write_byte-Writes w (shown byte) v in
    Writes-trans w (write_byte w (shown byte)) _ k
      (write_string-Writes (write_byte w (shown byte)) bytes k.valid)

clear_rows-Keeps :
    (n row : ℕ) (w : Writer)
    → row + n ≤ 24
    → IsScreen w.buffer
    → Keeps 24 w.buffer (clear_rows n row w).buffer
unfolding clear_rows clear_row
clear_rows-Keeps zero row w lt h = Keeps-refl 24 w.buffer h
clear_rows-Keeps (suc n) row w lt h =
    let k = clear_cols-Keeps 80 0 row (blank_of w.color_code) w.buffer (omega arith) h in
    Keeps-trans 24 w.buffer _ _ k
      (clear_rows-Keeps n (row + 1) (clear_row w row) (omega arith) k.screen)

clear_screen-Writes : (w : Writer) → IsValid w → Writes w (clear_screen w)
unfolding clear_screen
clear_screen-Writes w v =
    Writes-of w _ (clear_rows-Keeps 24 0 w (omega arith) v.screen) (omega arith)

delete_last_char-Writes : (w : Writer) → IsValid w → Writes w (delete_last_char w)
unfolding delete_last_char
delete_last_char-Writes w v = elim (Bool-cases (ltb 0 w.column_position)) [
  | inl some_left ↦ rw some_left (
      Writes-of w _ (write_at-Keeps w.buffer 23 (w.column_position - 1) _ (omega arith) v.screen)
        (omega (arith, v.column)))
  | inr empty ↦ rw empty (Writes-of w w (Keeps-refl 24 w.buffer v.screen) v.column)
]

-- The calls of the kernel and the shell.
pub data Call : Type 0 where
  print : Bytes → Call
  clear erase : Call
  color : Color → Color → Call

abbrev pub step : Writer → Call → Writer
step w (print bytes) = write_string w bytes
step w clear = clear_screen w
step w erase = delete_last_char w
step w (color foreground background) = set_color w foreground background

unfoldable pub run : Writer → List Call → Writer
run w [] = w
run w (c ∷ cs) = run (step w c) cs

step-Writes : (w : Writer) (c : Call) → IsValid w → Writes w (step w c)
step-Writes w (print bytes) v = write_string-Writes w bytes v
step-Writes w clear v = clear_screen-Writes w v
step-Writes w erase v = delete_last_char-Writes w v
step-Writes w (color f b) v =
    unfold set_color in Writes-of w _ (Keeps-refl 24 w.buffer v.screen) v.column

-- Whatever is printed, erased, cleared and coloured, in any order, a valid writer stays valid,
-- with a screen of 25 rows of 80 and a column of at most 80, and the status row stays as it was.
pub run-Writes : (w : Writer) (cs : List Call) → IsValid w → Writes w (run w cs)
unfolding run
run-Writes w [] v = Writes-of w w (Keeps-refl 24 w.buffer v.screen) v.column
run-Writes w (c ∷ cs) v =
    let k = step-Writes w c v in Writes-trans w (step w c) _ k (run-Writes (step w c) cs k.valid)

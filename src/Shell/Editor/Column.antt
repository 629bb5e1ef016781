-- ===== src/Shell/Editor/Column.antt =====
-- The column of the row that Shell/Editor/Row writes is that of the writer of src/drivers/vga.rs.
use polaros.Prelude.{ℕ, ◌≡◌, refl, inl, inr, Bool-cases, ltb, leb, ◌==◌, [], ◌∷◌, Bytes}
use polaros.Drivers.Vga
use polaros.Drivers.Vga.{Writer, buffer_width}
use polaros.Shell.Editor.Row.{TextRow, row_byte, row_text, row_delete}

write_byte-column :
    (w : Writer) (r : TextRow) (b : ℕ)
    → w.column_position ≡ r.column
    → (Vga.write_byte w b).column_position ≡ (row_byte r b).column
unfolding Vga.write_byte Vga.new_line
write_byte-column w r b h = elim (Bool-cases (b == 10)) [
  | inl e ↦ rw e refl
  | inr e ↦ elim (Bool-cases (leb buffer_width r.column)) [
    | inl full ↦ rw (h, e, full) refl
    | inr room ↦ rw (h, e, room) refl
  ]
]

-- After a text.
pub write_string-column :
    (w : Writer) (r : TextRow) (bytes : Bytes)
    → w.column_position ≡ r.column
    → (Vga.write_string w bytes).column_position ≡ (row_text r bytes).column
unfolding Vga.write_string
write_string-column w r [] h = h
write_string-column w r (b ∷ bytes) h =
    write_string-column (Vga.write_byte w (Vga.shown b)) (row_byte r (Vga.shown b)) bytes
      (write_byte-column w r (Vga.shown b) h)

-- After a character is taken back.
pub delete_last_char-column :
    (w : Writer) (r : TextRow)
    → w.column_position ≡ r.column
    → (Vga.delete_last_char w).column_position ≡ (row_delete r).column
unfolding Vga.delete_last_char
delete_last_char-column w r h = elim (Bool-cases (ltb 0 r.column)) [
  | inl e ↦ rw (h, e) refl
  | inr e ↦ rw (h, e) refl
]

-- ===== src/Shell/Editor/Row.antt =====
-- The row of the screen that src/drivers/vga.rs writes, after what src/shell/mod.rs sends to it.
use polaros.Prelude.{
  ℕ, zero, suc, ◌+◌, ◌-◌, ◌≤◌, ◌<◌, ◌≡◌, refl, ap, sym, ◌∙◌, true, false, leb, ltb, ◌==◌,
  if◌then◌else◌, List, [], ◌∷◌, ◌++◌, append_assoc, append-nil, length, length-append, All, Bytes,
  text, arith,
}
use polaros.Fs.Name.{Name}
use polaros.Fs.RamFs.{DirPath}
use polaros.Drivers.Vga as Vga
use polaros.Drivers.Vga.{buffer_width}
use polaros.Shell.Files.{components}
use polaros.Shell.Unicode.Ascii.{IsAscii, without_last}
use polaros.Shell.Editor.{
  Echo, print, new_line, delete_last_char, print_prompt, clear_input, listed, list_all,
}

-- The row that is written: the column, and what stands on it behind the prompt.
pub record TextRow : Type 0 where
  pub column : ℕ
  pub behind : Bytes

abbrev pub empty_row : TextRow
empty_row = record { column = 0; behind = [] }

abbrev pub row_at : ℕ → Bytes → TextRow
row_at column behind = record { column = column; behind = behind }

-- `write_byte` and `write_string`.
abbrev pub row_byte : TextRow → ℕ → TextRow
row_byte r byte =
    if byte == 10
    then empty_row
    else if leb buffer_width r.column
    then record { column = 1; behind = byte ∷ [] }
    else record { column = r.column + 1; behind = r.behind ++ (byte ∷ []) }

abbrev pub row_text : TextRow → Bytes → TextRow
row_text r [] = r
row_text r (byte ∷ bytes) = row_text (row_byte r (Vga.shown byte)) bytes

-- `delete_last_char`, which does nothing in the first column.
abbrev pub row_delete : TextRow → TextRow
row_delete r =
    if ltb 0 r.column then record { column = r.column - 1; behind = without_last r.behind } else r

-- The text of `print_prompt`.
abbrev pub prompt_text : DirPath → Bytes
prompt_text [] = text "myos:/> "
prompt_text (c ∷ cwd) = text "myos:" ++ (components (c ∷ cwd) ++ text "> ")

-- The row after what goes to the screen, for a prompt.
abbrev pub shown : Bytes → TextRow → List Echo → TextRow
shown prompt r [] = r
shown prompt r (print bs ∷ es) = shown prompt (row_text r bs) es
shown prompt r (new_line ∷ es) = shown prompt empty_row es
shown prompt r (delete_last_char ∷ es) = shown prompt (row_delete r) es
shown prompt r (print_prompt ∷ es) = shown prompt (record (row_text r prompt) { behind = [] }) es

pub shown-append :
    (p : Bytes) (r : TextRow) (xs ys : List Echo) → shown p r (xs ++ ys) ≡ shown p (shown p r xs) ys
shown-append p r [] ys = refl
shown-append p r (print bs ∷ xs) ys = shown-append p (row_text r bs) xs ys
shown-append p r (new_line ∷ xs) ys = shown-append p empty_row xs ys
shown-append p r (delete_last_char ∷ xs) ys = shown-append p (row_delete r) xs ys
shown-append p r (print_prompt ∷ xs) ys =
    shown-append p (record (row_text r p) { behind = [] }) xs ys

-- Bytes that the screen shows as they are.
abbrev pub IsPrintable : Bytes → Type 0
IsPrintable bs = All (λ (b : ℕ). (32 ≤ b) × (b < 127)) bs

pub IsPrintable-IsAscii : (bs : Bytes) → IsPrintable bs → IsAscii bs
IsPrintable-IsAscii [] h = tt
IsPrintable-IsAscii (b ∷ bs) h = let k = h.0.1 in (omega arith, IsPrintable-IsAscii bs h.1)

-- The row with the prompt and the text.
abbrev pub row_of : Bytes → Bytes → TextRow
row_of prompt buf = record { column = length prompt + length buf; behind = buf }

-- The prompt and the text fit into the row.
abbrev pub Narrow : Bytes → Bytes → Type 0
Narrow prompt buf = length prompt + length buf ≤ buffer_width

row_eq : (m n : ℕ) (t u : Bytes) → m ≡ n → t ≡ u → row_at m t ≡ row_at n u
row_eq m n t u p q = rw (p, q) refl

row_text_lem :
    (n : ℕ) (t bs : Bytes)
    → IsPrintable bs
    → n + length bs ≤ buffer_width
    → row_text (row_at n t) bs ≡ row_at (n + length bs) (t ++ bs)
row_text_lem n t [] h le = row_eq n (n + 0) t (t ++ []) (omega arith) (sym (append-nil t))
row_text_lem n t (b ∷ bs) h le =
    let low = h.0.0 in
    let high = h.0.1 in
    let same : Vga.shown b ≡ b = ground arith in
    let plain : (b == 10) ≡ false = ground arith in
    let room : leb buffer_width n ≡ false = ground arith in
    rw (same, plain, room)
      (row_text_lem (n + 1) (t ++ (b ∷ [])) bs h.1 (omega (arith, le))
        ∙ row_eq (n + 1 + length bs) (n + suc (length bs)) ((t ++ (b ∷ [])) ++ bs) (t ++ (b ∷ bs))
            (omega arith) (append_assoc t (b ∷ []) bs))

length-without_last : (bs : Bytes) → length (without_last bs) ≡ length bs - 1
length-without_last [] = omega arith
length-without_last (b ∷ []) = omega arith
length-without_last (b ∷ c ∷ bs) = omega (arith, length-without_last (c ∷ bs))

module _ (prompt : Bytes) where
  pub shown-print :
      (buf bs : Bytes)
      → IsPrintable bs
      → Narrow prompt (buf ++ bs)
      → row_text (row_of prompt buf) bs ≡ row_of prompt (buf ++ bs)
  shown-print buf bs h n =
      let sum = length-append buf bs in
      row_text_lem (length prompt + length buf) buf bs h (omega (arith, n, sum))
      ∙ row_eq (length prompt + length buf + length bs) (length prompt + length (buf ++ bs))
          (buf ++ bs) (buf ++ bs) (omega (arith, sum)) refl

  -- On a row with a text, `delete_last_char` takes its last byte back.
  pub row_delete_lem :
      (b : ℕ) (bs : Bytes)
      → row_delete (row_of prompt (b ∷ bs)) ≡ row_of prompt (without_last (b ∷ bs))
  row_delete_lem b bs =
      let some_column : ltb 0 (length prompt + suc (length bs)) ≡ true = ground arith in
      rw some_column (
        row_eq (length prompt + suc (length bs) - 1)
          (length prompt + length (without_last (b ∷ bs))) (without_last (b ∷ bs))
          (without_last (b ∷ bs)) (omega (arith, length-without_last (b ∷ bs))) refl)

  pub shown-clear_input :
      (n : ℕ) (t : Bytes)
      → length t ≡ n
      → shown prompt (row_of prompt t) (clear_input n) ≡ row_of prompt []
  unfolding clear_input
  shown-clear_input zero [] h = refl
  shown-clear_input zero (b ∷ t) h = absurd (omega arith)
  shown-clear_input (suc n) [] h = absurd (omega arith)
  shown-clear_input (suc n) (b ∷ t) h =
      ap (λ (r : TextRow). shown prompt r (clear_input n)) (row_delete_lem b t)
      ∙ shown-clear_input n (without_last (b ∷ t)) (omega (arith, h, length-without_last (b ∷ t)))

  pub shown-retyped :
      (buf entry : Bytes)
      → IsPrintable entry
      → Narrow prompt entry
      → shown prompt (row_of prompt buf) (clear_input (length buf) ++ (print entry ∷ []))
        ≡ row_of prompt entry
  shown-retyped buf entry h n =
      shown-append prompt (row_of prompt buf) (clear_input (length buf)) (print entry ∷ [])
      ∙ ap (λ (r : TextRow). row_text r entry) (shown-clear_input (length buf) buf refl)
      ∙ shown-print [] entry h n

  pub shown-list_all :
      (r : TextRow) (buf : Bytes) (cs : List Name)
      → IsPrintable prompt
      → IsPrintable buf
      → Narrow prompt buf
      → shown prompt r (list_all buf cs) ≡ row_of prompt buf
  shown-list_all r buf cs p h n =
      shown-append prompt empty_row (listed cs) (new_line ∷ print_prompt ∷ print buf ∷ [])
      ∙ ap (λ (q : TextRow). row_text (record q { behind = [] }) buf)
          (row_text_lem 0 [] prompt p (omega (arith, n)))
      ∙ ap (λ (q : TextRow). row_text q buf)
          (row_eq (0 + length prompt) (length prompt + 0) [] [] (omega arith) refl)
      ∙ shown-print [] buf h n

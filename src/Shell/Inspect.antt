-- ===== src/Shell/Inspect.antt =====
-- The commands of src/shell/commands.rs that read: grep, wc and hexdump, and those of Shell/Text with
-- their arguments; env and export.
mod Tests
pub mod Matching
use polaros.Prelude.{
  ℕ, zero, suc, ◌+◌, ◌-◌, ◌*◌, ◌/◌, ◌%◌, ◌&&◌, leb, ltb, ◌==◌, if◌then◌else◌, Bool, true, false,
  Option, none, some, List, [], ◌∷◌, ◌++◌, length, take, drop, replicate, Bytes, text,
}
use polaros.Fs.Name.{Name, name_eq}
use polaros.Fs.RamFs.{RamFs, DirPath, read}
use polaros.Shell.Env.{Env, lookup, insert_var}
use polaros.Shell.Line.{
  trim, split_whitespace, split_once, first, second, has_text, is_nil, decimal, parse_usize,
}
use polaros.Shell.Text.{
  TextInput, input_text, no_such_file, usage, read_text_input, trim_trailing_newline, lines, joined,
  Printed, printed, missing_file, shows_usage, cmd_head, cmd_tail, cmd_sort, cmd_uniq,
}
use polaros.Shell.Files.{missing, shown_file, quoted}

-- What a command on lines puts out.
abbrev pub output_of : Bytes → Printed → Bytes
output_of how (printed out) = out
output_of how (missing_file name) = missing name
output_of how shows_usage = how

-- `parse_n_args`: the rounds of its loop take one word or two.
abbrev pub count_or : ℕ → Option ℕ → ℕ
count_or default none = default
count_or default (some n) = n

unfoldable pub n_args : ℕ → ℕ → Option Name → List Bytes → ℕ × Option Name
unfolding parse_usize
n_args default n file [] = (n, file)
n_args default n file (w ∷ []) = (n, some w)
n_args default n file (w ∷ v ∷ ws) =
    let both = n_args default (count_or default (parse_usize v)) file ws in
    let one = n_args default n (some w) (v ∷ ws) in if name_eq w (text "-n") then both else one

unfoldable pub parse_n_args : Bytes → ℕ → ℕ × Option Name
unfolding n_args
parse_n_args args default = n_args default default none (split_whitespace args)

unfoldable pub head_command : Bytes → RamFs → DirPath → Option Bytes → Bytes
head_command args fs cwd pipe =
    let (n, file) = parse_n_args args 10 in
    output_of (text "Uzycie: head [-n N] <plik>") (cmd_head n (read_text_input fs pipe file cwd))

unfoldable pub tail_command : Bytes → RamFs → DirPath → Option Bytes → Bytes
tail_command args fs cwd pipe =
    let (n, file) = parse_n_args args 10 in
    output_of (text "Uzycie: tail [-n N] <plik>") (cmd_tail n (read_text_input fs pipe file cwd))

unfoldable pub sort_command : Bytes → RamFs → DirPath → Option Bytes → Bytes
sort_command args fs cwd pipe =
    output_of (text "Uzycie: sort <plik>")
      (cmd_sort (read_text_input fs pipe (first (split_whitespace args)) cwd))

unfoldable pub uniq_command : Option Bytes → Bytes
uniq_command pipe =
    output_of (text "uniq wymaga danych z pipe (np. sort plik | uniq)") (cmd_uniq pipe)

-- The lines that contain the pattern.
unfoldable pub matching_lines : Bytes → List Bytes → List Bytes
matching_lines pattern [] = []
matching_lines pattern (l ∷ ls) =
    let rest = matching_lines pattern ls in if has_text pattern l then l ∷ rest else rest

abbrev pub grep_text : Bytes → TextInput → Bytes
grep_text pattern (no_such_file name) = missing name
grep_text pattern usage = text "Uzycie: grep <wzorzec> <plik>"
grep_text pattern (input_text content) =
    let result = trim_trailing_newline (joined (matching_lines pattern (lines content))) in
    if is_nil result then quoted (text "Brak wynikow dla ") pattern (text ".") else result

abbrev pub grep_with : Option Bytes → Option Name → RamFs → DirPath → Option Bytes → Bytes
grep_with none file fs cwd pipe = text "Uzycie: grep <wzorzec> [plik]"
grep_with (some pattern) file fs cwd pipe = grep_text pattern (read_text_input fs pipe file cwd)

unfoldable pub cmd_grep : Bytes → RamFs → DirPath → Option Bytes → Bytes
cmd_grep args fs cwd pipe =
    let parts = split_whitespace args in grep_with (first parts) (second parts) fs cwd pipe

abbrev pub counts : TextInput → Bytes
counts (no_such_file name) = missing name
counts usage = text "Uzycie: wc <plik>"
counts (input_text content) =
    text "  "
    ++ decimal (length (lines content))
    ++ text " linii  "
    ++ decimal (length (split_whitespace content))
    ++ text " slow  "
    ++ decimal (length content)
    ++ text " bajtow"

unfoldable pub cmd_wc : Bytes → RamFs → DirPath → Option Bytes → Bytes
cmd_wc args fs cwd pipe = counts (read_text_input fs pipe (first (split_whitespace args)) cwd)

-- `{:02x}` of a byte and `{:08x}` of a position, which is below 2 ^ 32.
abbrev pub hex_digit : ℕ → ℕ
hex_digit n = if ltb n 10 then 48 + n else 87 + n

abbrev pub hex_byte : ℕ → Bytes
hex_byte b = hex_digit (b / 16) ∷ hex_digit (b % 16) ∷ []

abbrev pub hex_position : ℕ → Bytes
hex_position n =
    hex_byte (n / 16777216 % 256)
    ++ hex_byte (n / 65536 % 256)
    ++ hex_byte (n / 256 % 256)
    ++ hex_byte (n % 256)

-- The columns of a chunk from place `j` on: behind the eighth a space more.
unfoldable pub hex_columns : ℕ → Bytes → Bytes
hex_columns j [] = []
hex_columns j (b ∷ bs) =
    hex_byte b ++ (32 ∷ (if j == 7 then 32 ∷ [] else [])) ++ hex_columns (j + 1) bs

-- `for j in chunk.len()..16`, on what is left of it.
unfoldable pub blank_columns : ℕ → ℕ → Bytes
blank_columns zero j = []
blank_columns (suc n) j = text "   " ++ (if j == 7 then 32 ∷ [] else []) ++ blank_columns n (j + 1)

abbrev pub shown_bytes : Bytes → Bytes
shown_bytes [] = []
shown_bytes (b ∷ bs) = (if leb 0x20 b && leb b 0x7e then b else 46) ∷ shown_bytes bs

unfoldable pub hex_line : ℕ → Bytes → Bytes
unfolding hex_columns blank_columns
hex_line i chunk =
    hex_position (i * 16)
    ++ text "  "
    ++ hex_columns 0 chunk
    ++ blank_columns (16 - length chunk) (length chunk)
    ++ text " |"
    ++ shown_bytes chunk
    ++ (124 ∷ 10 ∷ [])

-- `data.chunks(16).enumerate()`, on fuel, a round for each byte.
unfoldable pub hex_lines : ℕ → ℕ → Bytes → Bytes
unfolding hex_line
hex_lines fuel i [] = []
hex_lines zero i (b ∷ bs) = []
hex_lines (suc fuel) i (b ∷ bs) =
    hex_line i (take 16 (b ∷ bs)) ++ hex_lines fuel (i + 1) (drop 16 (b ∷ bs))

abbrev pub dump : Name → Option Bytes → Bytes
dump name none = missing name
dump name (some content) = trim_trailing_newline (hex_lines (length content) 0 content)

unfoldable pub cmd_hexdump : Bytes → RamFs → DirPath → Bytes
cmd_hexdump args fs cwd = elim (first (split_whitespace args)) [
  | none ↦ text "Uzycie: hexdump <plik>"
  | some name ↦ dump name (read fs cwd name)
]

-- `env` and `export`; `ENV_VARS` is passed on.
abbrev pub env_lines : Env → Bytes
env_lines [] = []
env_lines ((key, value) ∷ env) = key ++ (61 ∷ value) ++ (10 ∷ env_lines env)

unfoldable pub cmd_env : Env → Bytes
cmd_env env = trim_trailing_newline (env_lines env)

abbrev pub export_one : Name → Name → Env → Bytes × Env
export_one [] value env = (text "Uzycie: export KLUCZ=WARTOSC", env)
export_one (k ∷ ks) value env = ((k ∷ ks) ++ (61 ∷ value), insert_var (k ∷ ks) value env)

abbrev pub show_one : Name → Option Name → Bytes
show_one name none = quoted (text "Zmienna ") name (text " nie istnieje.")
show_one name (some value) = name ++ (61 ∷ value)

unfoldable pub cmd_export : Bytes → Env → Bytes × Env
cmd_export args env =
    let trimmed = trim args in
    elim (split_once 61 trimmed) [
      | none ↦ (show_one trimmed (lookup trimmed env), env)
      | some (key, value) ↦ export_one (trim key) (trim value) env
    ]

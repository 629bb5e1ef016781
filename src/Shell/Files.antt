-- ===== src/Shell/Files.antt =====
-- The commands of src/shell/commands.rs that work on files and directories: ls, cat, touch, write, rm,
-- mkdir, cd, pwd, cp and mv. A command returns its output beside the file system that it leaves; no
-- other code takes the lock of the file system in between.
pub mod Moves
pub mod Places
mod Tests
use polaros.Prelude.{
  ℕ, ◌==◌, if◌then◌else◌, Bool, true, false, Option, none, some, List, [], ◌∷◌, ◌++◌, length, Bytes,
  text,
}
use polaros.Fs.Name.{Name, name_eq, is_utf8}
use polaros.Fs.RamFs.{
  RamFs, DirPath, DirEntry, RemoveResult, ok, not_found, dir_not_empty, list, read, write, create,
  mkdir, remove, exists, is_dir,
}
use polaros.Shell.Text.{trim_trailing_newline}
use polaros.Shell.Line.{trim, split_whitespace, split_once, first, decimal}

-- The output of a command, and what the file system is then.
abbrev pub Result : Type 0
Result = Bytes × RamFs

-- `format!("…'{}'…", name)`
abbrev pub quoted : Bytes → Name → Bytes → Bytes
quoted before name after = before ++ (39 ∷ name) ++ (39 ∷ after)

abbrev pub missing : Name → Bytes
missing name = quoted (text "Plik ") name (text " nie istnieje.")

-- `entry.name` and its size, in a line.
abbrev pub entry_line : DirEntry → Bytes
entry_line e =
    if e.is_dir
    then text "  " ++ e.name ++ (47 ∷ 10 ∷ [])
    else text "  " ++ e.name ++ text " (" ++ decimal e.size ++ text " bajtow)" ++ (10 ∷ [])

abbrev pub entry_lines : List DirEntry → Bytes
entry_lines [] = []
entry_lines (e ∷ es) = entry_line e ++ entry_lines es

abbrev pub listing : Option (List DirEntry) → Bytes
listing none = text "Katalog nie istnieje."
listing (some []) = text "(pusty katalog)"
listing (some (e ∷ es)) = trim_trailing_newline (entry_lines (e ∷ es))

unfoldable pub cmd_ls : RamFs → DirPath → Result
cmd_ls fs cwd = (listing (list fs cwd), fs)

abbrev pub shown_file : Name → Option Bytes → Bytes
shown_file name none = missing name
shown_file name (some content) = if is_utf8 content then content else text "<dane binarne>"

-- A command with the first word of its arguments, or its usage where there is none.
abbrev pub with_name : Option Name → Bytes → RamFs → (Name → Result) → Result
with_name none usage fs f = (usage, fs)
with_name (some name) usage fs f = f name

unfoldable pub cmd_cat : Bytes → RamFs → DirPath → Result
cmd_cat args fs cwd =
    with_name (first (split_whitespace args)) (text "Uzycie: cat <nazwa_pliku>") fs
      (λ name. (shown_file name (read fs cwd name), fs))

unfoldable pub cmd_touch : Bytes → RamFs → DirPath → Result
cmd_touch args fs cwd =
    with_name (first (split_whitespace args)) (text "Uzycie: touch <nazwa_pliku>") fs (λ name.
      let done = create fs cwd name in
      (
        (if done.0
            then quoted (text "Utworzono plik ") name (text ".")
            else quoted [] name (text " juz istnieje.")),
        done.1,
      ))

abbrev pub write_args : Option (Bytes × Bytes) → RamFs → DirPath → Result
write_args none fs cwd = (text "Uzycie: write <nazwa_pliku> <tekst>", fs)
write_args (some ([], content)) fs cwd = (text "Uzycie: write <nazwa_pliku> <tekst>", fs)
write_args (some (b ∷ bs, content)) fs cwd =
    let name = b ∷ bs in
    let done = write fs cwd name content in
    (
      (if done.0
          then quoted (text "Zapisano " ++ decimal (length content) ++ text " bajtow do ") name
              (text ".")
          else quoted (text "Nie mozna zapisac do ") name (text ".")),
      done.1,
    )

unfoldable pub cmd_write : Bytes → RamFs → DirPath → Result
cmd_write args fs cwd = write_args (split_once 32 args) fs cwd

abbrev pub removed_text : Name → RemoveResult → Bytes
removed_text name ok = quoted (text "Usunieto ") name (text ".")
removed_text name not_found = quoted [] name (text " nie istnieje.")
removed_text name dir_not_empty = quoted (text "Katalog ") name (text " nie jest pusty.")

unfoldable pub cmd_rm : Bytes → RamFs → DirPath → Result
cmd_rm args fs cwd =
    with_name (first (split_whitespace args)) (text "Uzycie: rm <nazwa>") fs
      (λ name. let done = remove fs cwd name in (removed_text name done.0, done.1))

unfoldable pub cmd_mkdir : Bytes → RamFs → DirPath → Result
cmd_mkdir args fs cwd =
    with_name (first (split_whitespace args)) (text "Uzycie: mkdir <nazwa>") fs (λ name.
      let done = mkdir fs cwd name in
      (
        (if done.0
            then quoted (text "Utworzono katalog ") name (text ".")
            else quoted [] name (text " juz istnieje.")),
        done.1,
      ))

-- `cwd.pop()`
abbrev pub pop_last : DirPath → DirPath
pop_last [] = []
pop_last (c ∷ []) = []
pop_last (c ∷ d ∷ cs) = c ∷ pop_last (d ∷ cs)

-- What `cd` goes to.
unfoldable pub cd_to : Name → RamFs → DirPath → DirPath
cd_to target fs cwd =
    if name_eq target (text "/")
    then []
    else if name_eq target (text "..")
    then pop_last cwd
    else if name_eq target (text ".")
    then cwd
    else if exists fs cwd target
    then (if is_dir fs cwd target then cwd ++ (target ∷ []) else cwd)
    else cwd

unfoldable pub cmd_cd : Bytes → RamFs → DirPath → DirPath
unfolding cd_to
cmd_cd args fs cwd = elim (first (split_whitespace args)) [
  | none ↦ []
  | some target ↦ cd_to target fs cwd
]

abbrev pub components : DirPath → Bytes
components [] = []
components (c ∷ cs) = (47 ∷ c) ++ components cs

unfoldable pub cmd_pwd : DirPath → Bytes
cmd_pwd [] = text "/"
cmd_pwd (c ∷ cs) = components (c ∷ cs)

-- The two arguments of `cp` and `mv`.
abbrev pub two_args : Bytes → Option (Name × Name)
two_args args = elim (split_once 32 args) [ none ↦ none | some (src, dst) ↦ some (src, trim dst) ]

abbrev pub copied : Option Bytes → Name → Name → RamFs → DirPath → Result
copied none src dst fs cwd = (missing src, fs)
copied (some content) src dst fs cwd =
    let done = write fs cwd dst content in
    (
      (if done.0
          then quoted (text "Skopiowano ") src (text " -> ") ++ quoted [] dst (text ".")
          else quoted (text "Nie mozna zapisac do ") dst (text ".")),
      done.1,
    )

abbrev pub cp_args : Option (Name × Name) → RamFs → DirPath → Result
cp_args none fs cwd = (text "Uzycie: cp <zrodlo> <cel>", fs)
cp_args (some (src, dst)) fs cwd = copied (read fs cwd src) src dst fs cwd

unfoldable pub cmd_cp : Bytes → RamFs → DirPath → Result
cmd_cp args fs cwd = cp_args (two_args args) fs cwd

abbrev pub moved : Option Bytes → Name → Name → RamFs → DirPath → Result
moved none src dst fs cwd = (missing src, fs)
moved (some content) src dst fs cwd =
    let done = write fs cwd dst content in
    if done.0
    then (
      quoted (text "Przeniesiono ") src (text " -> ") ++ quoted [] dst (text "."),
      (remove done.1 cwd src).1,
    )
    else (quoted (text "Nie mozna przeniesc do ") dst (text "."), done.1)

abbrev pub mv_args : Option (Name × Name) → RamFs → DirPath → Result
mv_args none fs cwd = (text "Uzycie: mv <zrodlo> <cel>", fs)
mv_args (some (src, dst)) fs cwd =
    if name_eq src dst then ([], fs) else moved (read fs cwd src) src dst fs cwd

unfoldable pub cmd_mv : Bytes → RamFs → DirPath → Result
cmd_mv args fs cwd = mv_args (two_args args) fs cwd

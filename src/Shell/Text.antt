-- ===== src/Shell/Text.antt =====
-- The commands of src/shell/commands.rs that work on lines: head, tail, sort and uniq. Their
-- arguments come taken apart.
pub mod Order
pub mod Joined
pub mod Pieces
pub mod Piped
mod Tests
use Prim.Native.Nat.{Ordering}
use polaros.Prelude.{
  ℕ, zero, suc, ◌+◌, ◌-◌, Bool, true, false, Option, none, some, List, [], ◌∷◌, ◌++◌, length, take,
  drop, ltb, ◌==◌, if◌then◌else◌, Bytes,
}
use polaros.Fs.Name.{Name, cmp, name_eq, is_utf8}
use polaros.Fs.RamFs.{RamFs, DirPath, read}
use polaros.Kernel.Syscall.{split}

-- The text, or what is reported instead of it.
pub data TextInput : Type 0 where
  input_text : Bytes → TextInput
  no_such_file : Name → TextInput
  usage : TextInput

unfoldable pub read_text_input : RamFs → Option Bytes → Option Name → DirPath → TextInput
read_text_input fs (some input) filename cwd = input_text input
read_text_input fs none none cwd = usage
read_text_input fs none (some name) cwd = elim (read fs cwd name) [
  | none ↦ no_such_file name
  | some content ↦ input_text (if is_utf8 content then content else [])
]

-- `s.pop()` behind `s.ends_with('\n')`.
unfoldable pub trim_trailing_newline : Bytes → Bytes
trim_trailing_newline [] = []
trim_trailing_newline (b ∷ []) = if b == 10 then [] else b ∷ []
trim_trailing_newline (b ∷ c ∷ bs) = b ∷ trim_trailing_newline (c ∷ bs)

-- `text.lines()`: the pieces between the line feeds, the last one only if it is not empty, and each
-- without a carriage return at its end.
abbrev pub strip_return : Bytes → Bytes
strip_return [] = []
strip_return (b ∷ []) = if b == 13 then [] else b ∷ []
strip_return (b ∷ c ∷ bs) = b ∷ strip_return (c ∷ bs)

abbrev pub closed_lines : List Bytes → List Bytes
closed_lines [] = []
closed_lines ([] ∷ []) = []
closed_lines ((b ∷ bs) ∷ []) = (b ∷ bs) ∷ []
closed_lines (piece ∷ next ∷ pieces) = strip_return piece ∷ closed_lines (next ∷ pieces)

unfoldable pub lines : Bytes → List Bytes
lines bytes = closed_lines (split 10 bytes)

-- Each line and a line feed, but the last line feed.
abbrev pub joined : List Bytes → Bytes
joined [] = []
joined (l ∷ ls) = l ++ 10 ∷ joined ls

unfoldable pub with_lines : (List Bytes → List Bytes) → Bytes → Bytes
with_lines f content = trim_trailing_newline (joined (f (lines content)))

-- The last `n` lines.
abbrev pub last_lines : ℕ → List Bytes → List Bytes
last_lines n ls = drop (if ltb n (length ls) then length ls - n else 0) ls

-- `lines.sort()`, which puts the lines in the order of their bytes.
abbrev pub insert_line : Bytes → List Bytes → List Bytes
insert_line l [] = l ∷ []
insert_line l (m ∷ ms) = elim (cmp l m) [ Ordering.gt ↦ m ∷ insert_line l ms | _ ↦ l ∷ m ∷ ms ]

abbrev pub sort : List Bytes → List Bytes
sort [] = []
sort (l ∷ ls) = insert_line l (sort ls)

-- The loop of `cmd_uniq`; `prev` is the line before.
unfoldable pub uniq_from : Option Bytes → List Bytes → List Bytes
uniq_from prev [] = []
uniq_from none (l ∷ ls) = l ∷ uniq_from (some l) ls
uniq_from (some p) (l ∷ ls) =
    let same = uniq_from (some p) ls in
    let other = uniq_from (some l) ls in if name_eq p l then same else l ∷ other

-- What a command prints: the result, or the report of `read_text_input`.
pub data Printed : Type 0 where
  printed : Bytes → Printed
  missing_file : Name → Printed
  shows_usage : Printed

abbrev pub on_input : TextInput → (List Bytes → List Bytes) → Printed
on_input (input_text content) f = printed (with_lines f content)
on_input (no_such_file name) f = missing_file name
on_input usage f = shows_usage

unfoldable pub cmd_head : ℕ → TextInput → Printed
cmd_head n input = on_input input (take n)

unfoldable pub cmd_tail : ℕ → TextInput → Printed
cmd_tail n input = on_input input (last_lines n)

unfoldable pub cmd_sort : TextInput → Printed
cmd_sort input = on_input input sort

-- `uniq` wants the output of another command.
unfoldable pub cmd_uniq : Option Bytes → Printed
cmd_uniq none = shows_usage
cmd_uniq (some input) = printed (with_lines (uniq_from none) input)

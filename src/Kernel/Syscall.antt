-- ===== src/Kernel/Syscall.antt =====
-- src/kernel/syscall/handlers.rs: the system calls on the table of open files, the file system, the
-- scheduler, the screen and the memory that the pointers of a call point into.
pub mod Table
pub mod Parse
pub mod Dispatch
pub mod Sound
mod Tests
pub mod Reads
use polaros.Prelude.{
  ℕ, zero, suc, ◌+◌, ◌-◌, ◌^◌, ◌≤◌, ◌<◌, min, Bool, true, false, not, ◌&&◌, ◌||◌, Option, none,
  some, List, [], ◌∷◌, ◌++◌, length, get_elem?, set, take, drop, replicate, ltb, leb, ◌==◌,
  if◌then◌else◌, Bytes,
}
use polaros.Fs.Name.{Name, is_utf8}
use polaros.Fs.RamFs.{RamFs, DirPath, read, exists, is_dir}
use polaros.Kernel.Task.{
  Task, Scheduler, Outcome, returns, panics, out_of_fuel, is_running, schedule_yield,
  exit_current_task,
}

abbrev pub u64_max : ℕ
u64_max = 18446744073709551615

abbrev pub ebadf : ℕ
ebadf = u64_max

abbrev pub enoent : ℕ
enoent = u64_max

abbrev pub einval : ℕ
einval = u64_max

abbrev pub emfile : ℕ
emfile = u64_max

abbrev pub max_fds : ℕ
max_fds = 16

abbrev pub reserved_fds : ℕ
reserved_fds = 3

pub record OpenFile : Type 0 where
  pub path : DirPath
  pub name : Name
  pub offset : ℕ

abbrev pub FdTable : Type 0
FdTable = List (Option OpenFile)

-- `FD_TABLE` as it is initialised.
abbrev pub no_files : FdTable
no_files = replicate max_fds none

-- `path.split(sep)`: the pieces between the separators, empty ones included.
abbrev pub into_first : ℕ → List Name → List Name
into_first b [] = (b ∷ []) ∷ []
into_first b (piece ∷ pieces) = (b ∷ piece) ∷ pieces

unfoldable pub split : ℕ → Bytes → List Name
split sep [] = [] ∷ []
split sep (b ∷ bs) = let rest = split sep bs in if b == sep then [] ∷ rest else into_first b rest

-- `trim_start_matches(sep)`.
unfoldable pub trim_start : ℕ → Bytes → Bytes
trim_start sep [] = []
trim_start sep (b ∷ bs) = let rest = trim_start sep bs in if b == sep then rest else b ∷ bs

abbrev pub non_empty : List Name → List Name
non_empty [] = []
non_empty ([] ∷ pieces) = non_empty pieces
non_empty ((b ∷ bs) ∷ pieces) = (b ∷ bs) ∷ non_empty pieces

-- All but the last of the parts, and the last.
abbrev pub split_last : Name → List Name → DirPath × Name
split_last part [] = ([], part)
split_last part (next ∷ parts) =
    let (dir, filename) = split_last next parts in (part ∷ dir, filename)

abbrev pub path_of_parts : List Name → DirPath × Name
path_of_parts [] = ([], [])
path_of_parts (part ∷ parts) = split_last part parts

-- The separator is the code of '/'.
unfoldable pub parse_file_path : Bytes → DirPath × Name
unfolding split trim_start
parse_file_path path = path_of_parts (non_empty (split 47 (trim_start 47 path)))

-- `alloc_fd`: the first free place among the `n` from `fd` on.
unfoldable pub first_free : FdTable → ℕ → ℕ → Option ℕ
first_free fds zero fd = none
first_free fds (suc n) fd =
    let later = first_free fds n (fd + 1) in
    elim (get_elem? fds fd) [ some none ↦ some fd | some (some f) ↦ later | none ↦ none ]

unfoldable pub alloc_fd : FdTable → Option ℕ
unfolding first_free
alloc_fd fds = first_free fds (max_fds - reserved_fds) reserved_fds

-- `sys_exit` clears the places from `RESERVED_FDS` on.
abbrev pub clear_from : ℕ → FdTable → FdTable
clear_from n [] = []
clear_from zero (f ∷ fds) = none ∷ clear_from zero fds
clear_from (suc n) (f ∷ fds) = f ∷ clear_from n fds

-- `path_str` is the bytes that the pointer and the length of the call give.
unfoldable pub sys_open : RamFs → FdTable → Bytes → ℕ × FdTable
sys_open fs fds path_str =
    let (dir_path, filename) = parse_file_path path_str in
    if not (is_utf8 path_str)
    then (einval, fds)
    else if not (exists fs dir_path filename)
    then (enoent, fds)
    else if is_dir fs dir_path filename
    then (einval, fds)
    else elim (alloc_fd fds) [
      | none ↦ (emfile, fds)
      | some fd ↦ (fd, set fds fd (some (record { path = dir_path; name = filename; offset = 0 })))
    ]

-- The result, the bytes that are copied to the buffer, and the table.
unfoldable pub sys_read : RamFs → FdTable → ℕ → ℕ → ℕ × Bytes × FdTable
sys_read fs fds fd len = if leb max_fds fd then (ebadf, [], fds) else elim (get_elem? fds fd) [
  | none ↦ (ebadf, [], fds)
  | some none ↦ (ebadf, [], fds)
  | some (some f) ↦ elim (read fs f.path f.name) [
    | none ↦ (enoent, [], fds)
    | some content ↦
        let remaining = if ltb f.offset (length content) then drop f.offset content else [] in
        let to_read = min (length remaining) len in
        (
          to_read,
          take to_read remaining,
          set fds fd (some (record f { offset = f.offset + to_read })),
        )
  ]
]

unfoldable pub sys_close : FdTable → ℕ → ℕ × FdTable
sys_close fds fd =
    if ltb fd reserved_fds || leb max_fds fd then (ebadf, fds) else elim (get_elem? fds fd) [
      | none ↦ (ebadf, fds)
      | some none ↦ (ebadf, fds)
      | some (some f) ↦ (0, set fds fd none)
    ]

unfoldable pub sys_stat : RamFs → Bytes → ℕ
sys_stat fs path_str =
    let (dir_path, filename) = parse_file_path path_str in
    if not (is_utf8 path_str)
    then einval
    else elim (read fs dir_path filename) [ none ↦ enoent | some content ↦ length content ]

-- The bytes that `sys_write` prints where they are no UTF-8: the printable ones and the line feeds.
abbrev pub printable : Bytes → Bytes
printable [] = []
printable (b ∷ bs) =
    let rest = printable bs in if leb 0x20 b && leb b 0x7e || b == 10 then b ∷ rest else rest

-- The result, and what goes to the screen.
unfoldable pub sys_write : ℕ → Bytes → ℕ × Bytes
sys_write fd content =
    if not (fd == 1) && not (fd == 2)
    then (ebadf, [])
    else if is_utf8 content
    then (length content, content)
    else (length content, printable content)

unfoldable pub sys_getpid : List Task → ℕ
sys_getpid [] = 0
sys_getpid (t ∷ ts) = let rest = sys_getpid ts in if is_running t.state then t.id else rest

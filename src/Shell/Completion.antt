-- ===== src/Shell/Completion.antt =====
-- src/shell/completion.rs: completion of the last word by the tabulator.
pub mod Longest
mod Tests
use polaros.Prelude.{
  ℕ, zero, suc, ◌+◌, ◌≤◌, min, Bool, true, false, not, ◌&&◌, ◌||◌, Option, none, some, List, [],
  ◌∷◌, ◌++◌, length, take, drop, get_elem?, ltb, leb, ◌==◌, if◌then◌else◌, Bytes,
}
use polaros.Fs.Name.{Name}
use polaros.Fs.RamFs.{RamFs, DirPath, names}

-- `s.starts_with(p)`.
abbrev pub starts_with : Name → Name → Bool
starts_with s [] = true
starts_with [] (b ∷ p) = false
starts_with (a ∷ s) (b ∷ p) = if a == b then starts_with s p else false

-- The names that start with the word.
abbrev pub matching : Name → List Name → List Name
matching word [] = []
matching word (n ∷ ns) =
    let rest = matching word ns in if starts_with n word then n ∷ rest else rest

-- `input.rfind(' ')`, by the length of what stands before the last space.
abbrev pub last_space : Bytes → Option ℕ
last_space [] = none
last_space (b ∷ bs) = elim (last_space bs) [
  | some i ↦ some (suc i)
  | none ↦ if b == 32 then some 0 else none
]

-- `commands` are the names of the commands.
unfoldable pub tab_complete : List Name → RamFs → Bytes → DirPath → ℕ × List Name
tab_complete commands fs input cwd = elim (last_space input) [
  | some space_pos ↦ (space_pos + 1, matching (drop (space_pos + 1) input) (names fs cwd))
  | none ↦ (0, matching input commands)
]

-- The inner loop of `common_prefix`, from the `i`-th bytes on.
unfoldable pub shorten : Bytes → Bytes → ℕ → ℕ → ℕ
shorten [] bs i len = len
shorten (a ∷ xs) [] i len = len
shorten (a ∷ xs) (b ∷ bs) i len =
    let further = shorten xs bs (i + 1) len in if a == b then further else min len i

-- The outer loop.
unfoldable pub shorten_all : Name → List Name → ℕ → ℕ
shorten_all first [] len = len
shorten_all first (s ∷ ss) len = shorten_all first ss (shorten first s 0 (min len (length s)))

-- `first[..len]` panics inside a character: before a byte that continues one.
abbrev pub is_char_boundary : Bytes → ℕ → Bool
is_char_boundary bytes n = elim (get_elem? bytes n) [
  | none ↦ true
  | some b ↦ not (leb 0x80 b && ltb b 0xC0)
]

pub data Sliced : Type 0 where
  slice : Name → Sliced
  panics : Sliced

unfoldable pub common_prefix : List Name → Sliced
common_prefix [] = slice []
common_prefix (first ∷ strings) =
    let len = shorten_all first strings (length first) in
    if is_char_boundary first len then slice (take len first) else panics

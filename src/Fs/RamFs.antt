-- ===== src/Fs/RamFs.antt =====
-- `RamFs` of src/fs/ramfs.rs and the types of src/fs/mod.rs: one function for each method. A method
-- that takes `&mut self` returns the new file system beside its result.
pub mod View
pub mod Update
pub mod Results
pub mod Calls
use polaros.Prelude.{
  ℕ, Bool, true, false, not, ◌&&◌, Option, none, some, List, [], ◌∷◌, length, if◌then◌else◌, Bytes,
}
use polaros.Fs.Name.{Name}
use polaros.Fs.Tree.{
  FsEntry, Dir, file, dir, nil, cons, get, contains_key, insert, remove as map_remove, is_empty,
}

abbrev pub DirPath : Type 0
DirPath = List Name

pub record DirEntry : Type 0 where
  pub name : Name
  pub is_dir : Bool
  pub size : ℕ

pub data RemoveResult : Type 0 where
  ok not_found dir_not_empty : RemoveResult

pub record RamFs : Type 0 where
  pub root : Dir

abbrev pub new : RamFs
new = record { root = nil }

-- The pattern `Some(FsEntry::Dir(dir))`.
abbrev pub as_dir : Option FsEntry → Option Dir
as_dir (some (dir d)) = some d
as_dir (some (file b)) = none
as_dir none = none

-- The pattern `Some(FsEntry::File(data))`.
abbrev pub as_file : Option FsEntry → Option Bytes
as_file (some (file b)) = some b
as_file (some (dir d)) = none
as_file none = none

unfoldable pub get_dir : Dir → DirPath → Option Dir
get_dir current [] = some current
get_dir current (component ∷ path) = elim (as_dir (get component current)) [
  | none ↦ none
  | some next ↦ get_dir next path
]

-- What the caller does through the reference that `get_dir_mut` returns is `f`; the changed
-- directories are written back on the way up.
unfoldable pub get_dir_mut {ℓ} : {A : Type ℓ} → Dir → DirPath → (Dir → A × Dir) → Option (A × Dir)
get_dir_mut current [] f = some (f current)
get_dir_mut current (component ∷ path) f = elim (as_dir (get component current)) [
  | none ↦ none
  | some next ↦ elim (get_dir_mut next path f) [
    | none ↦ none
    | some (a, changed) ↦ some (a, insert component (dir changed) current)
  ]
]

-- A method whose early return on a missing path is `missing`.
abbrev pub at_dir {ℓ} : {A : Type ℓ} → RamFs → DirPath → A → (Dir → A × Dir) → A × RamFs
at_dir fs path missing f = elim (get_dir_mut fs.root path f) [
  | none ↦ (missing, fs)
  | some (a, root') ↦ (a, record fs { root = root' })
]

unfoldable pub replace : RamFs → RamFs → RamFs
replace self other = record self { root = other.root }

abbrev dir_entry : Name → FsEntry → DirEntry
dir_entry n (file b) = record { name = n; is_dir = false; size = length b }
dir_entry n (dir d) = record { name = n; is_dir = true; size = 0 }

abbrev pub entries : Dir → List DirEntry
entries nil = []
entries (cons n e d) = dir_entry n e ∷ entries d

abbrev pub keys : Dir → List Name
keys nil = []
keys (cons n e d) = n ∷ keys d

unfoldable pub list : RamFs → DirPath → Option (List DirEntry)
list fs path = elim (get_dir fs.root path) [ none ↦ none | some d ↦ some (entries d) ]

unfoldable pub read : RamFs → DirPath → Name → Option Bytes
read fs path name = elim (get_dir fs.root path) [ none ↦ none | some d ↦ as_file (get name d) ]

abbrev pub is_dir_at : Dir → Name → Bool
is_dir_at d name = elim (as_dir (get name d)) [ none ↦ false | some c ↦ true ]

abbrev pub write_at : Name → Bytes → Dir → Bool × Dir
write_at name content d =
    if is_dir_at d name then (false, d) else (true, insert name (file content) d)

unfoldable pub write : RamFs → DirPath → Name → Bytes → Bool × RamFs
write fs path name content = at_dir fs path false (write_at name content)

abbrev pub create_at : Name → FsEntry → Dir → Bool × Dir
create_at name e d = if contains_key name d then (false, d) else (true, insert name e d)

unfoldable pub create : RamFs → DirPath → Name → Bool × RamFs
create fs path name = at_dir fs path false (create_at name (file []))

unfoldable pub mkdir : RamFs → DirPath → Name → Bool × RamFs
mkdir fs path name = at_dir fs path false (create_at name (dir nil))

abbrev pub remove_at : Name → Dir → RemoveResult × Dir
remove_at name d = elim (get name d) [
  | none ↦ (not_found, d)
  | some (file b) ↦ (ok, map_remove name d)
  | some (dir c) ↦ if not (is_empty c) then (dir_not_empty, d) else (ok, map_remove name d)
]

unfoldable pub remove : RamFs → DirPath → Name → RemoveResult × RamFs
remove fs path name = at_dir fs path not_found (remove_at name)

unfoldable pub exists : RamFs → DirPath → Name → Bool
exists fs path name = elim (get_dir fs.root path) [ none ↦ false | some d ↦ contains_key name d ]

unfoldable pub is_dir : RamFs → DirPath → Name → Bool
is_dir fs path name = elim (get_dir fs.root path) [ none ↦ false | some d ↦ is_dir_at d name ]

unfoldable pub names : RamFs → DirPath → List Name
names fs path = elim (get_dir fs.root path) [ none ↦ [] | some d ↦ keys d ]

-- ===== src/Fs/Codec.antt =====
-- The stored form of a file system: `serialize` and `load_from` of src/fs/ramfs.rs.
pub mod RoundTrip
pub mod Round
pub mod Total
pub mod Sound
pub mod Prefix
use polaros.Prelude.{
  ℕ, zero, suc, ◌+◌, ◌-◌, ◌%◌, ◌^◌, min, Bool, true, false, Option, none, some, List, [], ◌∷◌, ◌++◌,
  length, take, drop, ltb, if◌then◌else◌, Bytes, u16_le, u16_of, u32_le, u32_of,
}
use polaros.Fs.Name.{Name, is_utf8}
use polaros.Fs.Tree.{FsEntry, Dir, file, dir, nil, cons, insert, len}
use polaros.Fs.RamFs.{RamFs}

-- `name_len`: a longer name is cut at 255 bytes.
abbrev pub name_len : Name → ℕ
name_len name = min (length name) 255

-- `count.to_le_bytes()`, the count as a `u16`.
abbrev pub count_bytes : Dir → Bytes
count_bytes d = u16_le (len d % 65536)

unfoldable mutual
  pub serialize_entry : Name → FsEntry → Bytes
  serialize_entry name (file content) =
      0
      ∷ name_len name
      ∷ (take (name_len name) name ++ (u32_le (length content % 2 ^ 32) ++ content))
  serialize_entry name (dir children) =
      1
      ∷ name_len name
      ∷ (take (name_len name) name ++ (count_bytes children ++ serialize_entries children))

  pub serialize_entries : Dir → Bytes
  serialize_entries nil = []
  serialize_entries (cons name entry d) = serialize_entry name entry ++ serialize_entries d

unfoldable pub serialize_dir : Dir → Bytes
serialize_dir d = count_bytes d ++ serialize_entries d

unfoldable pub serialize : RamFs → Bytes
unfolding serialize_dir
serialize fs = serialize_dir fs.root

-- The result of a recursion on fuel. `load_from` gives enough (Total).
pub data Outcome {ℓ} (A : Type ℓ) : Type ℓ where
  done : A → Outcome A
  fail out_of_fuel : Outcome A

-- `data[pos..]` is the list of the bytes that are left. The next `n` of them, if there are as many.
abbrev pub split_bytes : ℕ → Bytes → Option (Bytes × Bytes)
split_bytes n rest = if ltb (length rest) n then none else some (take n rest, drop n rest)

unfoldable pub read_name : ℕ → Bytes → Option (Name × Bytes)
read_name n rest = elim (split_bytes n rest) [
  | none ↦ none
  | some (name, rest') ↦ if is_utf8 name then some (name, rest') else none
]

unfoldable pub read_file : Bytes → Option (Bytes × Bytes)
read_file (b0 ∷ b1 ∷ b2 ∷ b3 ∷ rest) = split_bytes (u32_of b0 b1 b2 b3) rest
read_file _ = none

pub data EntryType : Type 0 where
  is_file is_directory unknown : EntryType

abbrev pub entry_type : ℕ → EntryType
entry_type zero = is_file
entry_type (suc zero) = is_directory
entry_type (suc (suc n)) = unknown

unfoldable mutual
  pub deserialize_dir : ℕ → Bytes → Outcome (Dir × Bytes)
  deserialize_dir zero rest = out_of_fuel
  deserialize_dir (suc fuel) (b0 ∷ b1 ∷ rest) = deserialize_entries fuel (u16_of b0 b1) nil rest
  deserialize_dir (suc fuel) _ = fail

  -- The rounds of the loop that are left, and the directory so far.
  pub deserialize_entries : ℕ → ℕ → Dir → Bytes → Outcome (Dir × Bytes)
  deserialize_entries fuel zero d rest = done (d, rest)
  deserialize_entries zero (suc count) d rest = out_of_fuel
  deserialize_entries (suc fuel) (suc count) d (ty ∷ n ∷ rest) = elim (read_name n rest) [
    | none ↦ fail
    | some (name, rest1) ↦ elim (entry_type ty) [
      | is_file ↦ elim (read_file rest1) [
        | none ↦ fail
        | some (content, rest2) ↦
            deserialize_entries fuel count (insert name (file content) d) rest2
      ]
      | is_directory ↦ elim (deserialize_dir fuel rest1) [
        | done (children, rest2) ↦
            deserialize_entries fuel count (insert name (dir children) d) rest2
        | fail ↦ fail
        | out_of_fuel ↦ out_of_fuel
      ]
      | unknown ↦ fail
    ]
  ]
  deserialize_entries (suc fuel) (suc count) d _ = fail

-- Bytes behind the root directory are not looked at.
abbrev loaded : Outcome (Dir × Bytes) → Option RamFs
loaded (done (root, rest)) = some (record { root = root })
loaded fail = none
loaded out_of_fuel = none

-- Each directory and each entry takes at least two bytes, so the length is enough fuel.
unfoldable pub load_from : Bytes → Option RamFs
load_from bytes = loaded (deserialize_dir (suc (length bytes)) bytes)

-- ===== src/Fs/Tree.antt =====
-- `FsEntry` of src/fs/ramfs.rs and the operations of the `BTreeMap` that a directory is: a list of
-- entries in ascending order of their names.
pub mod Laws
pub mod Order
use Prim.Native.Nat.{Ordering}
use polaros.Prelude.{ℕ, zero, suc, Bool, true, false, Option, none, some}
use polaros.Fs.Name.{Name, cmp}

abbrev pub Bytes : Type 0
Bytes = Name

mutual
  pub data FsEntry : Type 0 where
    file : Bytes → FsEntry
    dir : Dir → FsEntry

  pub data Dir : Type 0 where
    nil : Dir
    cons : Name → FsEntry → Dir → Dir

-- `map.get(k)`.
unfoldable pub get : Name → Dir → Option FsEntry
get k nil = none
get k (cons n e d) = elim (cmp k n) [ Ordering.eq ↦ some e | _ ↦ get k d ]

-- `map.contains_key(k)`.
abbrev pub contains_key : Name → Dir → Bool
contains_key k d = elim (get k d) [ none ↦ false | some e ↦ true ]

-- `map.insert(k, e)`, an entry of that name replaced.
unfoldable pub insert : Name → FsEntry → Dir → Dir
insert k e nil = cons k e nil
insert k e (cons n f d) = elim (cmp k n) [
  | Ordering.lt ↦ cons k e (cons n f d)
  | Ordering.eq ↦ cons k e d
  | Ordering.gt ↦ cons n f (insert k e d)
]

-- `map.remove(k)`.
unfoldable pub remove : Name → Dir → Dir
remove k nil = nil
remove k (cons n f d) = elim (cmp k n) [ Ordering.eq ↦ d | _ ↦ cons n f (remove k d) ]

-- `map.len()` and `map.is_empty()`.
abbrev pub len : Dir → ℕ
len nil = 0
len (cons n e d) = suc (len d)

abbrev pub is_empty : Dir → Bool
is_empty nil = true
is_empty (cons n e d) = false

abbrev pub append : Dir → Dir → Dir
append nil d = d
append (cons n e c) d = cons n e (append c d)

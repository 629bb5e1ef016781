-- ===== src/Fs/Tree/Order.antt =====
-- The order of a directory's names, at every depth, and the operations that keep it.
use Prim.Native.Nat.{Ordering}
use polaros.Prelude.{◌≡◌, some, arith}
use polaros.Fs.Name.{Name, cmp, cmp_swap_lt, cmp_trans, eq-cmp}
use polaros.Fs.Tree.{FsEntry, Dir, file, dir, nil, cons, get, insert, remove}

-- Every name of the directory is above `k`.
abbrev pub Above : Name → Dir → Type 0
Above k nil = Unit
Above k (cons n e d) = (cmp n k ≡ Ordering.gt) × Above k d

abbrev mutual
  pub IsSortedEntry : FsEntry → Type 0
  IsSortedEntry (file b) = Unit
  IsSortedEntry (dir d) = IsSorted d

  pub IsSorted : Dir → Type 0
  IsSorted nil = Unit
  IsSorted (cons n e d) = Above n d × IsSortedEntry e × IsSorted d

pub Above-trans : (k m : Name) (d : Dir) → cmp m k ≡ Ordering.gt → Above m d → Above k d
Above-trans k m nil h a = tt
Above-trans k m (cons n e d) h a = (cmp_trans n m k a.0 h, Above-trans k m d h a.1)

insert-Above :
    (m k : Name) (e : FsEntry) (d : Dir)
    → Above m d
    → cmp k m ≡ Ordering.gt
    → Above m (insert k e d)
unfolding insert
insert-Above m k e nil a h = (h, tt)
insert-Above m k e (cons n f d) a h = ground (arith, insert-Above m k e d, eq-cmp k n)

pub insert-IsSorted :
    (k : Name) (e : FsEntry) (d : Dir) → IsSortedEntry e → IsSorted d → IsSorted (insert k e d)
unfolding insert
insert-IsSorted k e nil he h = (tt, he, tt)
insert-IsSorted k e (cons n f d) he h = ground (
  arith,
  insert-IsSorted k e d he h.2,
  insert-Above n k e d h.0,
  eq-cmp k n,
  cmp_swap_lt k n,
  Above-trans k n d,
)

remove-Above : (m k : Name) (d : Dir) → Above m d → Above m (remove k d)
unfolding remove
remove-Above m k nil a = tt
remove-Above m k (cons n f d) a = ground (arith, remove-Above m k d a.1)

pub remove-IsSorted : (k : Name) (d : Dir) → IsSorted d → IsSorted (remove k d)
unfolding remove
remove-IsSorted k nil h = tt
remove-IsSorted k (cons n f d) h = ground (arith, remove-IsSorted k d h.2, remove-Above n k d h.0)

pub get-IsSorted :
    (k : Name) (d : Dir) (e : FsEntry) → get k d ≡ some e → IsSorted d → IsSortedEntry e
unfolding get
get-IsSorted k nil e g h = cc
get-IsSorted k (cons n f d) e g h = ground (arith, get-IsSorted k d e)

-- ===== src/Fs/Tree/Laws.antt =====
-- Lookup in a directory after insertion and removal.
use Prim.Native.Nat.{Ordering}
use polaros.Prelude.{◌≡◌, refl, none, some, arith, if◌then◌else◌}
use polaros.Fs.Name.{Name, cmp, cmp_refl, eq-cmp, cmp_swap_gt, name_eq}
use polaros.Fs.Tree.{FsEntry, Dir, nil, cons, get, insert, remove, append}
use polaros.Fs.Tree.Order.{Above, IsSorted}

pub get-insert :
    (j k : Name) (e : FsEntry) (d : Dir)
    → get j (insert k e d) ≡ (if name_eq j k then some e else get j d)
unfolding get insert
get-insert j k e nil = ground arith
get-insert j k e (cons n f d) =
    ground (arith, get-insert j k e d, eq-cmp j k, eq-cmp k n, eq-cmp j n, cmp_refl n)

pub get-Above : (k : Name) (d : Dir) → Above k d → get k d ≡ none
unfolding get
get-Above k nil a = refl
get-Above k (cons n e d) a = ground (arith, get-Above k d a.1, cmp_swap_gt n k)

pub get-remove :
    (j k : Name) (d : Dir)
    → IsSorted d
    → get j (remove k d) ≡ (if name_eq j k then none else get j d)
unfolding get remove
get-remove j k nil h = ground arith
get-remove j k (cons n f d) h = ground (
  arith,
  get-remove j k d h.2,
  get-Above k d,
  eq-cmp j k,
  eq-cmp k n,
  eq-cmp j n,
  cmp_refl k,
  cmp_refl n,
)

-- An entry above all others goes to the end.
pub insert-append :
    (k : Name) (e : FsEntry) (c d : Dir)
    → IsSorted (append c (cons k e d))
    → insert k e c ≡ append c (cons k e nil)
unfolding insert
insert-append k e nil d h = refl
insert-append k e (cons n f c) d h = ground (arith, insert-append k e c d h.2, last c h.0)
  where
    last : (b : Dir) → Above n (append b (cons k e d)) → cmp k n ≡ Ordering.gt
    last nil a = a.0
    last (cons m g b) a = last b a.1

pub append-snoc :
    (c : Dir) (k : Name) (e : FsEntry) (d : Dir)
    → append (append c (cons k e nil)) d ≡ append c (cons k e d)
append-snoc nil k e d = refl
append-snoc (cons n f c) k e d = ground (arith, append-snoc c k e d)

pub append-nil : (c : Dir) → append c nil ≡ c
append-nil nil = refl
append-nil (cons n f c) = ground (arith, append-nil c)

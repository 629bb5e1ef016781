-- ===== src/Fs/RamFs/Calls.antt =====
-- Sequences of calls of `RamFs`, and what every file system that they reach has: names in strictly
-- ascending order in each directory, and listings that agree with lookups.
use Prim.Native.Nat.{Ordering}
use polaros.Prelude.{
  ◌≡◌, refl, ◌⊎◌, inl, inr, Option-cases, Bool, false, ◌||◌, some, List, [], ◌∷◌, arith, Bytes, All,
}
use polaros.Fs.Name.{Name, cmp, name_eq}
use polaros.Fs.Tree.{Dir, file, dir, nil, cons, get, contains_key}
use polaros.Fs.Tree.Order.{IsSorted, Above, get-IsSorted, insert-IsSorted, remove-IsSorted}
use polaros.Fs.RamFs.{
  RamFs, DirPath, get_dir, get_dir_mut, at_dir, new, write, create, mkdir, remove, exists, names,
  keys,
}
use polaros.Fs.RamFs.View.{get_dir_mut-Descends}
use polaros.Fs.RamFs.Update.{get_dir-IsSorted}

-- The calls that change a file system.
pub data Call : Type 0 where
  write_file : DirPath → Name → Bytes → Call
  create_file make_dir remove_entry : DirPath → Name → Call

abbrev pub step : RamFs → Call → RamFs
step fs (write_file p n b) = (write fs p n b).1
step fs (create_file p n) = (create fs p n).1
step fs (make_dir p n) = (mkdir fs p n).1
step fs (remove_entry p n) = (remove fs p n).1

unfoldable pub run : RamFs → List Call → RamFs
run fs [] = fs
run fs (c ∷ cs) = run (step fs c) cs

get_dir_mut-IsSorted {ℓ} :
    {A : Type ℓ} (f : Dir → A × Dir)
    → ((c : Dir) → IsSorted c → IsSorted (f c).1)
    → (d : Dir) (p : DirPath) (a : A) (d' : Dir) → get_dir_mut d p f ≡ some (a, d')
    → IsSorted d
    → IsSorted d'
get_dir_mut-IsSorted f keeps d [] a d' e s = unfold get_dir_mut in ground (arith, keeps d s)
get_dir_mut-IsSorted f keeps d (b ∷ p) a d' e s =
    let g = get_dir_mut-Descends f b p d a d' e in
    ground (
      arith,
      g.written,
      insert-IsSorted b (dir g.changed) d
          (get_dir_mut-IsSorted f keeps g.next p a g.changed g.below
            (get-IsSorted b d (dir g.next) g.found s))
          s,
    )

at_dir-IsSorted {ℓ} :
    {A : Type ℓ} (fs : RamFs) (p : DirPath) (missing : A) (f : Dir → A × Dir)
    → ((c : Dir) → IsSorted c → IsSorted (f c).1)
    → IsSorted fs.root
    → IsSorted (at_dir fs p missing f).1.root
at_dir-IsSorted fs p missing f keeps s = elim (Option-cases (get_dir_mut fs.root p f)) [
  | inl e ↦ ground arith
  | inr ((a, d'), e) ↦ ground (arith, get_dir_mut-IsSorted f keeps fs.root p a d' e s)
]

pub step-IsSorted : (fs : RamFs) (c : Call) → IsSorted fs.root → IsSorted (step fs c).root
unfolding write create mkdir remove
step-IsSorted fs (write_file p n b) s =
    at_dir-IsSorted fs p false _ (λ c h. ground (arith, insert-IsSorted n (file b) c tt h)) s
step-IsSorted fs (create_file p n) s =
    at_dir-IsSorted fs p false _ (λ c h. ground (arith, insert-IsSorted n (file []) c tt h)) s
step-IsSorted fs (make_dir p n) s =
    at_dir-IsSorted fs p false _ (λ c h. ground (arith, insert-IsSorted n (dir nil) c tt h)) s
step-IsSorted fs (remove_entry p n) s =
    at_dir-IsSorted fs p _ _ (λ c h. ground (arith, remove-IsSorted n c h)) s

-- Whatever calls are made, in every directory of the file system, at every depth, the names stay in
-- strictly ascending order.
pub run-IsSorted : (fs : RamFs) (cs : List Call) → IsSorted fs.root → IsSorted (run fs cs).root
unfolding run
run-IsSorted fs [] s = s
run-IsSorted fs (c ∷ cs) s = run-IsSorted (step fs c) cs (step-IsSorted fs c s)

-- A list holds a name.
abbrev pub holds : Name → List Name → Bool
holds n [] = false
holds n (m ∷ ms) = name_eq n m || holds n ms

holds-keys : (d : Dir) (n : Name) → holds n (keys d) ≡ contains_key n d
unfolding get
holds-keys nil n = refl
holds-keys (cons m e d) n = ground (arith, holds-keys d n)

-- `names` lists exactly the names that `exists` finds.
pub holds-names : (fs : RamFs) (p : DirPath) (n : Name) → holds n (names fs p) ≡ exists fs p n
unfolding names exists
holds-names fs p n = elim (Option-cases (get_dir fs.root p)) [
  | inl e ↦ ground arith
  | inr (c, e) ↦ ground (arith, holds-keys c n)
]

-- The names of a list ascend strictly.
abbrev pub Ascends : List Name → Type 0
Ascends [] = Unit
Ascends (n ∷ ns) = All (λ m. cmp m n ≡ Ordering.gt) ns × Ascends ns

All-keys : (n : Name) (d : Dir) → Above n d → All (λ m. cmp m n ≡ Ordering.gt) (keys d)
All-keys n nil a = tt
All-keys n (cons m e d) a = (a.0, All-keys n d a.1)

keys-Ascends : (d : Dir) → IsSorted d → Ascends (keys d)
keys-Ascends nil s = tt
keys-Ascends (cons n e d) s = (All-keys n d s.0, keys-Ascends d s.2)

names_of :
    (fs : RamFs) (p : DirPath)
    → (names fs p ≡ []) ⊎ ((c : Dir) × (get_dir fs.root p ≡ some c) × (names fs p ≡ keys c))
unfolding names
names_of fs p = elim (Option-cases (get_dir fs.root p)) [
  | inl e ↦ inl (ground arith)
  | inr (c, e) ↦ inr (c, e, ground arith)
]

-- After any calls on an empty file system, `names` lists each directory in strictly ascending order,
-- so no name twice.
pub names-Ascends : (cs : List Call) (p : DirPath) → Ascends (names (run new cs) p)
names-Ascends cs p = elim (names_of (run new cs) p) [
  | inl e ↦ rw (e, Ascends) tt
  | inr (c, e, k) ↦
      rw (k, Ascends) (keys-Ascends c (get_dir-IsSorted _ p c e (run-IsSorted new cs tt)))
]

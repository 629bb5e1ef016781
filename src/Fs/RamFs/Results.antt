-- ===== src/Fs/RamFs/Results.antt =====
-- The contract of each method of `RamFs` that changes the file system: when it succeeds, and the
-- view that it leaves at every place.
use polaros.Prelude.{
  ◌≡◌, refl, ◌⊎◌, inl, inr, Option-cases, Bool-cases, Bool, true, false, not, ◌&&◌, Option, none,
  some, [], ◌∷◌, ◌++◌, arith, if◌then◌else◌, Bytes,
}
use polaros.Fs.Name.{Name}
use polaros.Fs.Tree.{Dir, file, dir, nil, get}
use polaros.Fs.Tree.Order.{IsSorted}
use polaros.Fs.RamFs.{
  RamFs, RemoveResult, ok, not_found, dir_not_empty, DirPath, as_dir, get_dir, write, write_at,
  create, create_at, at_dir, mkdir, remove, remove_at, exists, is_dir, names,
}
use polaros.Fs.RamFs.View.{Node, ChangesAt, file_node, dir_node, view, same, is_some, view-get_dir}
use polaros.Fs.RamFs.Update.{
  at_dir-missing, result-at_dir, view-at_dir, view-at_dir_refused, write_at-ChangesAt,
  create_at-ChangesAt, remove_at-ChangesAt, view-nil, get_dir-IsSorted,
}

abbrev pub has_dir : RamFs → DirPath → Bool
has_dir fs p = is_some (get_dir fs.root p)

-- A method that returns whether it succeeded.
module _ (f : Dir → Bool × Dir) (n : Name) (node : Option Node)
    (changes : (c : Dir) → (f c).0 ≡ true → ChangesAt f n node c)
    (keeps : (c : Dir) → (f c).0 ≡ false → (f c).1 ≡ c) where
  at_dir-contract :
      (fs : RamFs) (p : DirPath) (q : DirPath) (m : Name)
      → ((at_dir fs p false f).0 ≡ elim (get_dir fs.root p) [ none ↦ false | some c ↦ (f c).0 ])
        × (view (at_dir fs p false f).1.root q m
            ≡ (if (at_dir fs p false f).0 && same q m p n then node else view fs.root q m))
  at_dir-contract fs p q m = elim (Option-cases (get_dir fs.root p)) [
    | inl e ↦ ground (arith, at_dir-missing f fs p n false e)
    | inr (c, e) ↦ elim (Bool-cases (f c).0) [
      | inl done ↦ ground (
        arith,
        result-at_dir f fs p n false c e,
        view-at_dir f fs p n false c node e (changes c done) q m,
      )
      | inr refused ↦ ground (
        arith,
        result-at_dir f fs p n false c e,
        view-at_dir_refused f fs p n false c e (keeps c refused) q m,
      )
    ]
  ]

abbrev pub is_ok : RemoveResult → Bool
is_ok ok = true
is_ok not_found = false
is_ok dir_not_empty = false

pub get_dir-snoc :
    (d : Dir) (p : DirPath) (n : Name) (c : Dir)
    → get_dir d p ≡ some c
    → get_dir d (p ++ n ∷ []) ≡ as_dir (get n c)
unfolding get_dir
get_dir-snoc d [] n c h = ground arith
get_dir-snoc d (b ∷ p) n c h = elim (Option-cases (as_dir (get b d))) [
  | inl e ↦ ground arith
  | inr (next, e) ↦ ground (arith, get_dir-snoc next p n c)
]

remove_at_cases :
    (c : Dir) (n : Name)
    → ((remove_at n c).0 ≡ ok) ⊎ ((is_ok (remove_at n c).0 ≡ false) × ((remove_at n c).1 ≡ c))
remove_at_cases c n = ground arith

module _ (fs : RamFs) (p : DirPath) (n : Name) where
  -- `write` succeeds exactly when the directory exists and the name is no directory in it. Then the
  -- place holds a file of the given content, and every other place what it held; a refused write
  -- changes no place.
  pub write_lem :
      (b : Bytes) (q : DirPath) (m : Name)
      → ((write fs p n b).0 ≡ (has_dir fs p && not (is_dir fs p n)))
        × (view (write fs p n b).1.root q m
            ≡ (if (write fs p n b).0 && same q m p n then some (file_node b) else view fs.root q m))
  unfolding write is_dir
  write_lem b q m = ground (
    arith,
    at_dir-contract (write_at n b) n (some (file_node b)) (λ c h. write_at-ChangesAt c n b h)
        (λ c h. ground arith) fs p q m,
  )

  -- `create` succeeds exactly when the directory exists and the name is free in it. Then the place
  -- holds an empty file, and every other place what it held; a refused call changes no place.
  pub create_lem :
      (q : DirPath) (m : Name)
      → ((create fs p n).0 ≡ (has_dir fs p && not (exists fs p n)))
        × (view (create fs p n).1.root q m
            ≡ (if (create fs p n).0 && same q m p n then some (file_node []) else view fs.root q m))
  unfolding create exists
  create_lem q m = ground (
    arith,
    at_dir-contract (create_at n (file [])) n (some (file_node []))
        (λ c h. create_at-ChangesAt c n (file []) (λ r k. refl) h) (λ c h. ground arith) fs p q m,
  )

  -- `mkdir` succeeds exactly when the directory exists and the name is free in it. Then the place
  -- holds a directory with nothing below it, and every other place what it held; a refused call
  -- changes no place.
  pub mkdir_lem :
      (q : DirPath) (m : Name)
      → ((mkdir fs p n).0 ≡ (has_dir fs p && not (exists fs p n)))
        × (view (mkdir fs p n).1.root q m
            ≡ (if (mkdir fs p n).0 && same q m p n then some dir_node else view fs.root q m))
  unfolding mkdir exists
  mkdir_lem q m = ground (
    arith,
    at_dir-contract (create_at n (dir nil)) n (some dir_node)
        (λ c h. create_at-ChangesAt c n (dir nil) (λ r k. view-nil r k) h) (λ c h. ground arith) fs
        p q m,
  )

  -- What stands at a place decides what `remove` returns: nothing, a file, or a directory with or
  -- without entries.
  abbrev pub removal : RemoveResult
  removal = elim (view fs.root p n) [
    | none ↦ not_found
    | some (file_node b) ↦ ok
    | some dir_node ↦ elim (names fs (p ++ n ∷ [])) [ [] ↦ ok | k ∷ ks ↦ dir_not_empty ]
  ]

  -- In a file system whose directories are in order, remove returns NotFound where nothing stands,
  -- DirNotEmpty at a directory with entries, and Ok at a file or an empty directory; after Ok
  -- nothing stands at the place and every other place holds what it held; a refused call changes
  -- no place.
  pub remove_lem :
      IsSorted fs.root
      → (q : DirPath) (m : Name)
      → ((remove fs p n).0 ≡ removal)
        × (view (remove fs p n).1.root q m
            ≡ (if is_ok (remove fs p n).0 && same q m p n then none else view fs.root q m))
  unfolding remove names
  remove_lem s q m = elim (Option-cases (get_dir fs.root p)) [
    | inl e ↦
        ground (arith, at_dir-missing (remove_at n) fs p n not_found e, view-get_dir fs.root p n)
    | inr (c, e) ↦ elim (remove_at_cases c n) [
      | inl done ↦ ground (
        arith,
        result-at_dir (remove_at n) fs p n not_found c e,
        view-at_dir (remove_at n) fs p n not_found c none e
            (remove_at-ChangesAt c n (get_dir-IsSorted fs.root p c e s) done) q m,
        view-get_dir fs.root p n,
        get_dir-snoc fs.root p n c e,
      )
      | inr (refused, keep) ↦ ground (
        arith,
        result-at_dir (remove_at n) fs p n not_found c e,
        view-at_dir_refused (remove_at n) fs p n not_found c e keep q m,
        view-get_dir fs.root p n,
        get_dir-snoc fs.root p n c e,
      )
    ]
  ]

-- ===== src/Fs/RamFs/Update.antt =====
-- What `write`, `create`, `mkdir` and `remove` do to the view of the file system: each changes the
-- place that it names, if it succeeds, and nothing else.
use polaros.Prelude.{
  ◌≡◌, refl, inl, inr, Option-cases, true, Option, none, some, [], ◌∷◌, arith, if◌then◌else◌, Bytes,
}
use polaros.Fs.Name.{Name, eq-cmp}
use polaros.Fs.Tree.{FsEntry, Dir, file, dir, nil, get, insert}
use polaros.Fs.Tree.Laws.{get-insert, get-remove}
use polaros.Fs.Tree.Order.{IsSorted, get-IsSorted}
use polaros.Fs.RamFs.{
  RamFs, ok, DirPath, as_dir, get_dir, get_dir_mut, at_dir, write_at, create_at, remove_at,
}
use polaros.Fs.RamFs.View.{
  Node, file_node, shape, view, view-get_dir, same, ChangesAt, view-get_dir_mut,
}

module _ {ℓ} {A : Type ℓ} (f : Dir → A × Dir) where
  pub get_dir_mut-some :
      (d : Dir) (p : DirPath) (c : Dir)
      → get_dir d p ≡ some c
      → (d' : Dir) × (get_dir_mut d p f ≡ some ((f c).0, d'))
  unfolding get_dir get_dir_mut
  get_dir_mut-some d [] c h = ((f d).1, ground arith)
  get_dir_mut-some d (b ∷ p) c h = elim (Option-cases (as_dir (get b d))) [
    | inl e ↦ ground arith
    | inr (next, e) ↦
        let (d', g) = get_dir_mut-some next p c (ground arith) in
        (insert b (dir d') d, ground arith)
  ]

  pub get_dir_mut-none : (d : Dir) (p : DirPath) → get_dir d p ≡ none → get_dir_mut d p f ≡ none
  unfolding get_dir get_dir_mut
  get_dir_mut-none d [] h = cc
  get_dir_mut-none d (b ∷ p) h = elim (Option-cases (as_dir (get b d))) [
    | inl e ↦ ground arith
    | inr (next, e) ↦ ground (arith, get_dir_mut-none next p)
  ]

same_place :
    (d : Dir) (q : DirPath) (m : Name) (p : DirPath) (n : Name)
    → same q m p n ≡ true
    → view d q m ≡ view d p n
unfolding view
same_place d [] m [] n h = ground (arith, eq-cmp m n)
same_place d [] m (c ∷ p) n h = cc
same_place d (b ∷ q) m [] n h = cc
same_place d (b ∷ q) m (c ∷ p) n h = elim (Option-cases (as_dir (get c d))) [
  | inl e ↦ ground (arith, eq-cmp b c)
  | inr (next, e) ↦ ground (arith, eq-cmp b c, same_place next q m p n)
]

pub view-nil : (q : DirPath) (m : Name) → view nil q m ≡ none
unfolding view get
view-nil [] m = refl
view-nil (c ∷ q) m = refl

-- The four changes of one directory.
module _ (c : Dir) (n : Name) where
  pub write_at-ChangesAt :
      (b : Bytes) → (write_at n b c).0 ≡ true → ChangesAt (write_at n b) n (some (file_node b)) c
  unfolding view
  write_at-ChangesAt b h [] m = ground (arith, get-insert m n (file b) c)
  write_at-ChangesAt b h (a ∷ q) m = ground (arith, get-insert a n (file b) c, eq-cmp a n)

  pub create_at-ChangesAt :
      (e : FsEntry)
      → ((q : DirPath) (m : Name)
          → elim (as_dir (some e)) [ none ↦ none | some x ↦ view x q m ] ≡ none)
      → (create_at n e c).0 ≡ true
      → ChangesAt (create_at n e) n (shape (some e)) c
  unfolding view
  create_at-ChangesAt e below h [] m = ground (arith, get-insert m n e c)
  create_at-ChangesAt e below h (a ∷ q) m =
      ground (arith, get-insert a n e c, eq-cmp a n, below q m)

  pub remove_at-ChangesAt : IsSorted c → (remove_at n c).0 ≡ ok → ChangesAt (remove_at n) n none c
  unfolding view
  remove_at-ChangesAt s h [] m = ground (arith, get-remove m n c s)
  remove_at-ChangesAt s h (a ∷ q) m = ground (arith, get-remove a n c s, eq-cmp a n, view-nil q m)

pub get_dir-IsSorted :
    (d : Dir) (p : DirPath) (c : Dir) → get_dir d p ≡ some c → IsSorted d → IsSorted c
unfolding get_dir
get_dir-IsSorted d [] c h s = ground arith
get_dir-IsSorted d (b ∷ p) c h s = elim (Option-cases (as_dir (get b d))) [
  | inl e ↦ ground arith
  | inr (next, e) ↦ ground (arith, get-IsSorted b d (dir next), get_dir-IsSorted next p c)
]

-- A method at a path: what it returns, and the view that it leaves.
module _ {ℓ} {A : Type ℓ} (f : Dir → A × Dir) (fs : RamFs) (p : DirPath) (n : Name)
    (missing : A) where
  pub at_dir-missing : get_dir fs.root p ≡ none → at_dir fs p missing f ≡ (missing, fs)
  at_dir-missing h = ground (arith, get_dir_mut-none f fs.root p h)

  pub result-at_dir : (c : Dir) → get_dir fs.root p ≡ some c → (at_dir fs p missing f).0 ≡ (f c).0
  result-at_dir c h = let (d', g) = get_dir_mut-some f fs.root p c h in ground arith

  pub view-at_dir :
      (c : Dir) (node : Option Node)
      → get_dir fs.root p ≡ some c
      → ChangesAt f n node c
      → (q : DirPath) (m : Name)
      → view (at_dir fs p missing f).1.root q m ≡ (if same q m p n then node else view fs.root q m)
  view-at_dir c node h change q m =
      let (d', g) = get_dir_mut-some f fs.root p c h in
      ground (arith, view-get_dir_mut f n node fs.root p c (f c).0 d' h change g q m)

  -- A method that leaves the directory as it is leaves the view as it is.
  pub view-at_dir_refused :
      (c : Dir)
      → get_dir fs.root p ≡ some c
      → (f c).1 ≡ c
      → (q : DirPath) (m : Name) → view (at_dir fs p missing f).1.root q m ≡ view fs.root q m
  view-at_dir_refused c h keep q m = ground (
    arith,
    view-at_dir c (shape (get n c)) h unchanged q m,
    same_place fs.root q m p n,
    view-get_dir fs.root p n,
  )
    where
      unchanged : ChangesAt f n (shape (get n c)) c
      unchanged [] k = unfold view in ground (arith, eq-cmp k n)
      unchanged (a ∷ r) k = ground arith

-- ===== src/Fs/RamFs/View.antt =====
-- A file system as a function: what stands at each path and name. The readers of `RamFs` are
-- functions of this view.
use polaros.Prelude.{
  ◌≡◌, refl, inl, inr, Option-cases, Bool, true, false, ◌&&◌, Option, none, some, [], ◌∷◌, arith,
  if◌then◌else◌, Bytes,
}
use polaros.Fs.Name.{Name, name_eq, eq-cmp}
use polaros.Fs.Tree.{FsEntry, Dir, file, dir, get, insert}
use polaros.Fs.Tree.Laws.{get-insert}
use polaros.Fs.RamFs.{RamFs, DirPath, as_dir, get_dir, get_dir_mut, read, exists, is_dir}

pub data Node : Type 0 where
  file_node : Bytes → Node
  dir_node : Node

abbrev pub shape : Option FsEntry → Option Node
shape none = none
shape (some (file b)) = some (file_node b)
shape (some (dir d)) = some dir_node

unfoldable pub view : Dir → DirPath → Name → Option Node
view d [] n = shape (get n d)
view d (c ∷ p) n = elim (as_dir (get c d)) [ none ↦ none | some e ↦ view e p n ]

-- The place at path `p` and name `n` is the one at `q` and `m`.
abbrev pub same : DirPath → Name → DirPath → Name → Bool
same [] n [] m = name_eq n m
same [] n (c ∷ q) m = false
same (b ∷ p) n [] m = false
same (b ∷ p) n (c ∷ q) m = name_eq b c && same p n q m

abbrev pub content : Option Node → Option Bytes
content (some (file_node b)) = some b
content (some dir_node) = none
content none = none

abbrev pub is_some {ℓ} : {A : Type ℓ} → Option A → Bool
is_some none = false
is_some (some a) = true

abbrev pub is_dir_node : Option Node → Bool
is_dir_node (some dir_node) = true
is_dir_node (some (file_node b)) = false
is_dir_node none = false

pub view-get_dir :
    (d : Dir) (p : DirPath) (n : Name)
    → view d p n ≡ elim (get_dir d p) [ none ↦ none | some c ↦ shape (get n c) ]
unfolding view get_dir
view-get_dir d [] n = refl
view-get_dir d (c ∷ p) n = elim (Option-cases (as_dir (get c d))) [
  | inl e ↦ ground arith
  | inr (next, e) ↦ ground (arith, view-get_dir next p n)
]

module _ (fs : RamFs) (p : DirPath) (n : Name) where
  pub read-view : read fs p n ≡ content (view fs.root p n)
  unfolding read
  read-view = ground (arith, view-get_dir fs.root p n)

  pub exists-view : exists fs p n ≡ is_some (view fs.root p n)
  unfolding exists
  exists-view = ground (arith, view-get_dir fs.root p n)

  pub is_dir-view : is_dir fs p n ≡ is_dir_node (view fs.root p n)
  unfolding is_dir
  is_dir-view = ground (arith, view-get_dir fs.root p n)

-- What a successful descent through the component `b` has done.
pub record Descends {ℓ} {A : Type ℓ} (f : Dir → A × Dir) (b : Name) (p : DirPath) (d : Dir) (a : A)
    (d' : Dir) : Type ℓ where
  pub next : Dir
  pub changed : Dir
  pub found : get b d ≡ some (dir next)
  pub below : get_dir_mut next p f ≡ some (a, changed)
  pub written : d' ≡ insert b (dir changed) d

as_dir-eq-some : (o : Option FsEntry) (d : Dir) → as_dir o ≡ some d → o ≡ some (dir d)
as_dir-eq-some o d h = ground arith

module _ {ℓ} {A : Type ℓ} (f : Dir → A × Dir) where
  pub get_dir_mut-Descends :
      (b : Name) (p : DirPath) (d : Dir) (a : A) (d' : Dir)
      → get_dir_mut d (b ∷ p) f ≡ some (a, d')
      → Descends f b p d a d'
  unfolding get_dir_mut
  get_dir_mut-Descends b p d a d' h = elim (Option-cases (as_dir (get b d))) [
    | inl e ↦ ground arith
    | inr (next, e) ↦ elim (Option-cases (get_dir_mut next p f)) [
      | inl g ↦ ground arith
      | inr ((a1, changed), g) ↦ record {
        next = next;
        changed = changed;
        found = as_dir-eq-some (get b d) next e;
        below = ground arith;
        written = ground arith;
      }
    ]
  ]

-- A change at one name of the directory at `p` is a change of the view at that place alone.
module _ {ℓ} {A : Type ℓ} (f : Dir → A × Dir) (n : Name) (node : Option Node) where
  abbrev pub ChangesAt : Dir → Type 0
  ChangesAt d =
      (q : DirPath) (m : Name) → view (f d).1 q m ≡ (if same q m [] n then node else view d q m)

  pub view-get_dir_mut :
      (d : Dir) (p : DirPath) (c : Dir) (a : A) (d' : Dir)
      → get_dir d p ≡ some c
      → ChangesAt c
      → get_dir_mut d p f ≡ some (a, d')
      → (q : DirPath) (m : Name) → view d' q m ≡ (if same q m p n then node else view d q m)
  unfolding view get_dir
  view-get_dir_mut d [] c a d' g h e q m = unfold get_dir_mut in ground (arith, h q m)
  view-get_dir_mut d (b ∷ p) c a d' g h e [] m =
      let s = get_dir_mut-Descends f b p d a d' e in
      ground (arith, s.found, s.written, get-insert m b (dir s.changed) d, eq-cmp m b)
  view-get_dir_mut d (b ∷ p) c a d' g h e (b' ∷ q) m =
      let s = get_dir_mut-Descends f b p d a d' e in
      ground (
        arith,
        s.found,
        s.written,
        get-insert b' b (dir s.changed) d,
        eq-cmp b' b,
        view-get_dir_mut s.next p c a s.changed (unfold get_dir in ground (arith, s.found)) h
            s.below q m,
      )

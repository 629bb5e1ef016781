-- ===== src/Shell/Files/Places.antt =====
-- Where cd of src/shell/commands.rs goes.
use polaros.Prelude.{
  ◌≡◌, refl, ◌⊎◌, inl, inr, Option-cases, Bool-cases, true, none, some, [], ◌∷◌, ◌++◌, arith, Bytes,
  text,
}
use polaros.Fs.Name.{Name, name_eq}
use polaros.Fs.Tree.{Dir, get}
use polaros.Fs.RamFs.{RamFs, DirPath, get_dir, as_dir, exists, is_dir}
use polaros.Fs.RamFs.View.{is_some}
use polaros.Fs.RamFs.Results.{has_dir, get_dir-snoc}
use polaros.Shell.Line.{split_whitespace, first}
use polaros.Shell.Files.{pop_last, cd_to, cmd_cd}

pop_last-get_dir :
    (d : Dir) (p : DirPath) → is_some (get_dir d p) ≡ true → is_some (get_dir d (pop_last p)) ≡ true
unfolding get_dir
pop_last-get_dir d [] h = refl
pop_last-get_dir d (c ∷ []) h = refl
pop_last-get_dir d (c ∷ e ∷ cs) h = elim (Option-cases (as_dir (get c d))) [
  | inl n ↦ ground (arith, n, h)
  | inr (next, s) ↦ ground (arith, s, pop_last-get_dir next (e ∷ cs) (ground (arith, s, h)))
]

is_dir-has_dir :
    (fs : RamFs) (p : DirPath) (n : Name) → is_dir fs p n ≡ true → has_dir fs (p ++ (n ∷ [])) ≡ true
unfolding is_dir
is_dir-has_dir fs p n h = elim (Option-cases (get_dir fs.root p)) [
  | inl e ↦ ground (arith, e, h)
  | inr (c, e) ↦ ground (arith, e, h, get_dir-snoc fs.root p n c e)
]

-- The root, the directory above, the same one, or one that stands in it.
abbrev pub IsStep : RamFs → DirPath → DirPath → Type 0
IsStep fs cwd next =
    (next ≡ [])
    ⊎ (next ≡ pop_last cwd)
    ⊎ (next ≡ cwd)
    ⊎ ((name : Name) × (next ≡ cwd ++ (name ∷ [])) × (is_dir fs cwd name ≡ true))

cd_to-IsStep :
    (target : Name) (fs : RamFs) (cwd : DirPath)
    → has_dir fs cwd ≡ true
    → (has_dir fs (cd_to target fs cwd) ≡ true) × IsStep fs cwd (cd_to target fs cwd)
unfolding cd_to get_dir
cd_to-IsStep target fs cwd h = elim (Bool-cases (name_eq target (text "/"))) [
  | inl t ↦ rw t (refl, inl refl)
  | inr f ↦ elim (Bool-cases (name_eq target (text ".."))) [
    | inl t ↦ rw (f, t) (pop_last-get_dir fs.root cwd h, inr (inl refl))
    | inr g ↦ elim (Bool-cases (name_eq target (text "."))) [
      | inl t ↦ rw (f, g, t) (h, inr (inr (inl refl)))
      | inr k ↦ elim (Bool-cases (exists fs cwd target)) [
        | inl there ↦ elim (Bool-cases (is_dir fs cwd target)) [
          | inl t ↦
              rw (f, g, k, there, t)
                (is_dir-has_dir fs cwd target t, inr (inr (inr (target, refl, t))))
          | inr l ↦ rw (f, g, k, there, l) (h, inr (inr (inl refl)))
        ]
        | inr l ↦ rw (f, g, k, l) (h, inr (inr (inl refl)))
      ]
    ]
  ]
]

cmd_cd_root :
    (args : Bytes) (fs : RamFs) (cwd : DirPath)
    → first (split_whitespace args) ≡ none
    → cmd_cd args fs cwd ≡ []
unfolding cmd_cd
cmd_cd_root args fs cwd h = ground (arith, h)

cmd_cd_word :
    (args : Bytes) (fs : RamFs) (cwd : DirPath) (target : Name)
    → first (split_whitespace args) ≡ some target
    → cmd_cd args fs cwd ≡ cd_to target fs cwd
unfolding cmd_cd
cmd_cd_word args fs cwd target h = ground (arith, h)

-- From a directory that exists cd comes to one that exists, whatever it is given: to the root, to the
-- directory above, to one that stands in the directory, or it stays.
pub cmd_cd-IsStep :
    (args : Bytes) (fs : RamFs) (cwd : DirPath)
    → has_dir fs cwd ≡ true
    → (has_dir fs (cmd_cd args fs cwd) ≡ true) × IsStep fs cwd (cmd_cd args fs cwd)
unfolding get_dir
cmd_cd-IsStep args fs cwd h = elim (Option-cases (first (split_whitespace args))) [
  | inl e ↦ rw (cmd_cd_root args fs cwd e) (refl, inl refl)
  | inr (target, e) ↦ rw (cmd_cd_word args fs cwd target e) (cd_to-IsStep target fs cwd h)
]

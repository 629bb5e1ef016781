-- ===== src/Fs/Codec/Round.antt =====
-- One round of the loop of `deserialize_dir`: what it may come to.
use polaros.Prelude.{ℕ, suc, ◌≡◌, refl, ◌⊎◌, inl, inr, Option-cases, some, ◌∷◌, Bytes}
use polaros.Fs.Name.{Name}
use polaros.Fs.Tree.{Dir, file, dir, insert}
use polaros.Fs.Codec.{
  Outcome, done, fail, out_of_fuel, read_name, read_file, EntryType, is_file, is_directory, unknown,
  entry_type, deserialize_dir, deserialize_entries,
}

pub data Round (fuel count : ℕ) (d : Dir) (ty n : ℕ) (rest : Bytes) (o : Outcome (Dir × Bytes))
    : Type 0 where
  refused : o ≡ fail → Round fuel count d ty n rest o
  took_file :
      (name : Name) (rest1 content rest2 : Bytes)
      → entry_type ty ≡ is_file
      → read_name n rest ≡ some (name, rest1)
      → read_file rest1 ≡ some (content, rest2)
      → o ≡ deserialize_entries fuel count (insert name (file content) d) rest2
      → Round fuel count d ty n rest o
  took_dir :
      (name : Name) (rest1 : Bytes) (children : Dir) (rest2 : Bytes)
      → entry_type ty ≡ is_directory
      → read_name n rest ≡ some (name, rest1)
      → deserialize_dir fuel rest1 ≡ done (children, rest2)
      → o ≡ deserialize_entries fuel count (insert name (dir children) d) rest2
      → Round fuel count d ty n rest o
  ran_out :
      (name : Name) (rest1 : Bytes)
      → read_name n rest ≡ some (name, rest1)
      → deserialize_dir fuel rest1 ≡ out_of_fuel
      → o ≡ out_of_fuel
      → Round fuel count d ty n rest o

pub Outcome-cases :
    (o : Outcome (Dir × Bytes))
    → (o ≡ fail) ⊎ (o ≡ out_of_fuel) ⊎ ((d : Dir) × (rest : Bytes) × (o ≡ done (d, rest)))
Outcome-cases (done (d, rest)) = inr (inr (d, rest, refl))
Outcome-cases fail = inl refl
Outcome-cases out_of_fuel = inr (inl refl)

EntryType-cases : (k : EntryType) → (k ≡ is_file) ⊎ (k ≡ is_directory) ⊎ (k ≡ unknown)
EntryType-cases is_file = inl refl
EntryType-cases is_directory = inr (inl refl)
EntryType-cases unknown = inr (inr refl)

pub deserialize_entries-Round :
    (fuel count : ℕ) (d : Dir) (ty n : ℕ) (rest : Bytes)
    → Round fuel count d ty n rest (deserialize_entries (suc fuel) (suc count) d (ty ∷ n ∷ rest))
unfolding deserialize_entries
deserialize_entries-Round fuel count d ty n rest = elim (Option-cases (read_name n rest)) [
  | inl e ↦ refused (cc e)
  | inr ((name, rest1), e) ↦ elim (EntryType-cases (entry_type ty)) [
    | inl k ↦ elim (Option-cases (read_file rest1)) [
      | inl g ↦ refused (cc (e, k, g))
      | inr ((content, rest2), g) ↦ took_file name rest1 content rest2 k e g (cc (e, k, g))
    ]
    | inr (inl k) ↦ elim (Outcome-cases (deserialize_dir fuel rest1)) [
      | inl g ↦ refused (cc (e, k, g))
      | inr (inl g) ↦ ran_out name rest1 e g (cc (e, k, g))
      | inr (inr (c, rest2, g)) ↦ took_dir name rest1 c rest2 k e g (cc (e, k, g))
    ]
    | inr (inr k) ↦ refused (cc (e, k))
  ]
]

-- The rounds that go on, as equations.
module _ (fuel count : ℕ) (d : Dir) (ty n : ℕ) (rest : Bytes) (name : Name) (rest1 : Bytes)
    (named : read_name n rest ≡ some (name, rest1)) where
  pub round_file :
      (content rest2 : Bytes)
      → entry_type ty ≡ is_file
      → read_file rest1 ≡ some (content, rest2)
      → deserialize_entries (suc fuel) (suc count) d (ty ∷ n ∷ rest)
        ≡ deserialize_entries fuel count (insert name (file content) d) rest2
  unfolding deserialize_entries
  round_file content rest2 k g = cc

  pub round_dir :
      (children : Dir) (rest2 : Bytes)
      → entry_type ty ≡ is_directory
      → deserialize_dir fuel rest1 ≡ done (children, rest2)
      → deserialize_entries (suc fuel) (suc count) d (ty ∷ n ∷ rest)
        ≡ deserialize_entries fuel count (insert name (dir children) d) rest2
  unfolding deserialize_entries
  round_dir children rest2 k g = cc

-- ===== src/Fs/Fat/Search.antt =====
-- The search of `read_file` and the listing see the same entries.
use polaros.Prelude.{
  ℕ, zero, suc, ◌+◌, ◌≡◌, refl, inl, inr, Bool-cases, ◌||◌, Option, none, some, List, [], ◌∷◌,
  Bytes, if◌then◌else◌,
}
use polaros.Fs.Name.{Name, name_eq}
use polaros.Fs.Fat.{
  DirEntry, Listed, directory, plain_file, listed, filename, is_dir, is_end, is_free, is_long_name,
  entry_at, find_entry, list_entries,
}

abbrev pub listed_name : Listed → Name
listed_name (directory n) = n
listed_name (plain_file n size) = n

-- The first line of the name.
abbrev pub first_named : Name → List Listed → Option Listed
first_named name [] = none
first_named name (l ∷ ls) = if name_eq (listed_name l) name then some l else first_named name ls

abbrev pub shown : Option DirEntry → Option Listed
shown none = none
shown (some e) = some (listed e)

name_of_listed : (e : DirEntry) → listed_name (listed e) ≡ filename e
name_of_listed e = elim (Bool-cases (is_dir e)) [
  | inl folder ↦ rw folder refl
  | inr plain ↦ rw plain refl
]

-- The entry that `read_file` finds by a name is the first one that the listing shows under it; it
-- finds none where the listing shows none.
pub find_entry-list_entries :
    (name : Name) (sector : Bytes) (n i : ℕ)
    → shown (find_entry name sector n i) ≡ first_named name (list_entries sector n i)
unfolding find_entry list_entries
find_entry-list_entries name sector zero i = refl
find_entry-list_entries name sector (suc n) i =
    let e = entry_at sector i in
    let again = find_entry-list_entries name sector n (i + 1) in
    elim (Bool-cases (is_end e)) [
      | inl end ↦ rw end refl
      | inr more ↦ elim (Bool-cases (is_free e || is_long_name e)) [
        | inl skipped ↦ rw (more, skipped) again
        | inr visible ↦ elim (Bool-cases (name_eq (filename e) name)) [
          | inl hit ↦ rw (more, visible, hit, name_of_listed e) (rw hit refl)
          | inr miss ↦ rw (more, visible, miss, name_of_listed e) (rw miss again)
        ]
      ]
    ]

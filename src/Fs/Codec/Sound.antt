-- ===== src/Fs/Codec/Sound.antt =====
-- Whatever the bytes, a file system that `load_from` accepts is well formed.
use polaros.Prelude.{
  ℕ, zero, suc, ◌≡◌, inl, inr, ◌∙◌, sym, true, some, [], ◌∷◌, arith, length, Bytes, u16_of,
}
use mathlib.Core.Path.{subst}
use polaros.Fs.Name.{Name, is_utf8}
use polaros.Fs.Tree.{FsEntry, Dir, file, dir, nil, cons, insert}
use polaros.Fs.Tree.Order.{IsSorted, IsSortedEntry, insert-IsSorted}
use polaros.Fs.RamFs.{RamFs}
use polaros.Fs.Codec.{Outcome, done, read_name, deserialize_dir, deserialize_entries, load_from}
use polaros.Fs.Codec.Round.{
  Round, Outcome-cases, refused, took_file, took_dir, ran_out, deserialize_entries-Round,
}

-- Every name, at every depth, is valid UTF-8, as a Rust `String` must be.
abbrev mutual
  pub IsNamedEntry : FsEntry → Type 0
  IsNamedEntry (file b) = Unit
  IsNamedEntry (dir d) = IsNamed d

  pub IsNamed : Dir → Type 0
  IsNamed nil = Unit
  IsNamed (cons n e d) = (is_utf8 n ≡ true) × IsNamedEntry e × IsNamed d

insert-IsNamed :
    (n : Name) (e : FsEntry) (d : Dir)
    → is_utf8 n ≡ true
    → IsNamedEntry e
    → IsNamed d
    → IsNamed (insert n e d)
unfolding insert
insert-IsNamed n e nil u he h = (u, he, tt)
insert-IsNamed n e (cons m f d) u he h = ground (arith, insert-IsNamed n e d u he h.2)

read_name-utf8 :
    (n : ℕ) (rest : Bytes) (name : Name) (rest' : Bytes)
    → read_name n rest ≡ some (name, rest')
    → is_utf8 name ≡ true
unfolding read_name
read_name-utf8 n rest name rest' h = ground arith

record IsWellFormed (d : Dir) : Type 0 where
  sorted : IsSorted d
  named : IsNamed d

insert-IsWellFormed :
    (n : Name) (e : FsEntry) (d : Dir)
    → is_utf8 n ≡ true
    → IsSortedEntry e × IsNamedEntry e
    → IsWellFormed d
    → IsWellFormed (insert n e d)
insert-IsWellFormed n e d u he h = record {
  sorted = insert-IsSorted n e d he.0 h.sorted;
  named = insert-IsNamed n e d u he.1 h.named;
}

abbrev DirSound : ℕ → Type 0
DirSound fuel =
    (bytes : Bytes) (d : Dir) (rest : Bytes)
    → deserialize_dir fuel bytes ≡ done (d, rest)
    → IsWellFormed d

abbrev EntriesSound : ℕ → Type 0
EntriesSound fuel =
    (count : ℕ) (acc : Dir) (bytes : Bytes) (d : Dir) (rest : Bytes)
    → IsWellFormed acc
    → deserialize_entries fuel count acc bytes ≡ done (d, rest)
    → IsWellFormed d

DirSound-suc : (fuel : ℕ) → EntriesSound fuel → DirSound (suc fuel)
unfolding deserialize_dir
DirSound-suc fuel ih [] d rest h = cc
DirSound-suc fuel ih (b0 ∷ []) d rest h = cc
DirSound-suc fuel ih (b0 ∷ b1 ∷ bytes) d rest h =
    ih (u16_of b0 b1) nil bytes d rest (record { sorted = tt; named = tt }) h

stops :
    (acc d : Dir) (bytes rest : Bytes)
    → IsWellFormed acc
    → ◌≡◌ {A = Outcome (Dir × Bytes)} (done (acc, bytes)) (done (d, rest))
    → IsWellFormed d
stops acc d bytes rest w h = let e : acc ≡ d = cc in subst IsWellFormed e w

EntriesSound-suc : (fuel : ℕ) → DirSound fuel → EntriesSound fuel → EntriesSound (suc fuel)
EntriesSound-suc fuel dirs ih zero acc bytes d rest w h =
    stops acc d bytes rest w (unfold deserialize_entries in h)
EntriesSound-suc fuel dirs ih (suc count) acc [] d rest w h =
    absurd (unfold deserialize_entries in cc)
EntriesSound-suc fuel dirs ih (suc count) acc (ty ∷ []) d rest w h =
    absurd (unfold deserialize_entries in cc)
EntriesSound-suc fuel dirs ih (suc count) acc (ty ∷ n ∷ bytes) d rest w h =
    took (deserialize_entries-Round fuel count acc ty n bytes)
  where
    took :
        Round fuel count acc ty n bytes
          (deserialize_entries (suc fuel) (suc count) acc (ty ∷ n ∷ bytes))
        → IsWellFormed d
    took (refused e) = cc
    took (took_file name rest1 content rest2 k e g q) =
        ih count (insert name (file content) acc) rest2 d rest
          (insert-IsWellFormed name (file content) acc (read_name-utf8 n bytes name rest1 e)
            (tt, tt) w)
          (sym q ∙ h)
    took (took_dir name rest1 c rest2 k e g q) =
        let below = dirs rest1 c rest2 g in
        ih count (insert name (dir c) acc) rest2 d rest
          (insert-IsWellFormed name (dir c) acc (read_name-utf8 n bytes name rest1 e)
            (below.sorted, below.named) w)
          (sym q ∙ h)
    took (ran_out name rest1 e g q) = cc

DirSound-zero : DirSound zero
unfolding deserialize_dir
DirSound-zero bytes d rest h = cc

EntriesSound-zero : EntriesSound zero
unfolding deserialize_entries
EntriesSound-zero zero acc bytes d rest w h = stops acc d bytes rest w h
EntriesSound-zero (suc count) acc bytes d rest w h = cc

both-Sound : (fuel : ℕ) → DirSound fuel × EntriesSound fuel
both-Sound zero = (DirSound-zero, EntriesSound-zero)
both-Sound (suc fuel) =
    let (dirs, entries) = both-Sound fuel in
    (DirSound-suc fuel entries, EntriesSound-suc fuel dirs entries)

-- Whatever bytes are given, in a file system that `load_from` accepts the names of every directory
-- ascend strictly, at every depth, and all of them are valid UTF-8.
pub load_from_sound :
    (bytes : Bytes) (fs : RamFs) → load_from bytes ≡ some fs → IsSorted fs.root × IsNamed fs.root
unfolding load_from
load_from_sound bytes fs h = elim (Outcome-cases (deserialize_dir (suc (length bytes)) bytes)) [
  | inl e ↦ cc
  | inr (inl e) ↦ cc
  | inr (inr (d, rest, e)) ↦
      let w = (both-Sound (suc (length bytes))).0 bytes d rest e in
      let same : d ≡ fs.root = ground arith in rw (← same) (w.sorted, w.named)
]

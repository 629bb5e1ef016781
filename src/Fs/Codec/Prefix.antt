-- ===== src/Fs/Codec/Prefix.antt =====
-- More input and more fuel do not change what was read, so a stored file system that is cut short
-- does not load.
use polaros.Prelude.{
  ℕ, zero, suc, ◌≤◌, ◌<◌, ◌≡◌, refl, sym, ◌∙◌, ap, inl, inr, none, some, [], ◌∷◌, ◌++◌, append-nil,
  arith, length, take, drop, length-append, length-take, length-drop, take-append-drop, Bytes,
  u16_of,
}
use polaros.Fs.Name.{Name}
use polaros.Fs.Tree.{Dir, file, dir, nil, insert}
use polaros.Fs.Tree.Order.{IsSorted}
use polaros.Fs.RamFs.{RamFs}
use polaros.Fs.Codec.{
  done, read_name, read_file, split_bytes, deserialize_dir, deserialize_entries, load_from,
  serialize,
}
use polaros.Fs.Codec.Round.{
  Round, Outcome-cases, refused, took_file, took_dir, ran_out, deserialize_entries-Round,
  round_file, round_dir,
}
use polaros.Fs.Codec.RoundTrip.{IsStorableEntry, read_root}

take_append : (n : ℕ) (xs more : Bytes) → n ≤ length xs → take n (xs ++ more) ≡ take n xs
take_append zero xs more h = refl
take_append (suc n) [] more h = absurd (omega arith)
take_append (suc n) (x ∷ xs) more h = ap (λ l. x ∷ l) (take_append n xs more (omega arith))

drop_append : (n : ℕ) (xs more : Bytes) → n ≤ length xs → drop n (xs ++ more) ≡ drop n xs ++ more
drop_append zero xs more h = refl
drop_append (suc n) [] more h = absurd (omega arith)
drop_append (suc n) (x ∷ xs) more h = drop_append n xs more (omega arith)

module _ (more : Bytes) where
  split_more :
      (n : ℕ) (bytes a rest : Bytes)
      → split_bytes n bytes ≡ some (a, rest)
      → split_bytes n (bytes ++ more) ≡ some (a, rest ++ more)
  split_more n bytes a rest h =
      ground (arith, take_append n bytes more, drop_append n bytes more, length-append bytes more)

  read_name_more :
      (n : ℕ) (bytes : Bytes) (name : Name) (rest : Bytes)
      → read_name n bytes ≡ some (name, rest)
      → read_name n (bytes ++ more) ≡ some (name, rest ++ more)
  unfolding read_name
  read_name_more n bytes name rest h = ground (arith, split_more n bytes name rest)

  read_file_more :
      (bytes content rest : Bytes)
      → read_file bytes ≡ some (content, rest)
      → read_file (bytes ++ more) ≡ some (content, rest ++ more)
  unfolding read_file
  read_file_more (b0 ∷ b1 ∷ b2 ∷ b3 ∷ bytes) content rest h = split_more _ bytes content rest h
  read_file_more bytes content rest h = cc

  abbrev DirMore : ℕ → Type 0
  DirMore fuel =
      (fuel' : ℕ) (bytes : Bytes) (d : Dir) (rest : Bytes)
      → fuel ≤ fuel'
      → deserialize_dir fuel bytes ≡ done (d, rest)
      → deserialize_dir fuel' (bytes ++ more) ≡ done (d, rest ++ more)

  abbrev EntriesMore : ℕ → Type 0
  EntriesMore fuel =
      (fuel' count : ℕ) (acc : Dir) (bytes : Bytes) (d : Dir) (rest : Bytes)
      → fuel ≤ fuel'
      → deserialize_entries fuel count acc bytes ≡ done (d, rest)
      → deserialize_entries fuel' count acc (bytes ++ more) ≡ done (d, rest ++ more)

  DirMore-suc : (fuel : ℕ) → EntriesMore fuel → DirMore (suc fuel)
  unfolding deserialize_dir
  DirMore-suc fuel ih zero bytes d rest s h = absurd (omega arith)
  DirMore-suc fuel ih (suc fuel') [] d rest s h = cc
  DirMore-suc fuel ih (suc fuel') (b0 ∷ []) d rest s h = cc
  DirMore-suc fuel ih (suc fuel') (b0 ∷ b1 ∷ bytes) d rest s h =
      ih fuel' (u16_of b0 b1) nil bytes d rest (omega arith) h

  entries_stop :
      (fuel fuel' : ℕ) (acc : Dir) (bytes : Bytes) (d : Dir) (rest : Bytes)
      → deserialize_entries fuel zero acc bytes ≡ done (d, rest)
      → deserialize_entries fuel' zero acc (bytes ++ more) ≡ done (d, rest ++ more)
  unfolding deserialize_entries
  entries_stop zero zero acc bytes d rest h = ground arith
  entries_stop zero (suc k) acc bytes d rest h = ground arith
  entries_stop (suc f) zero acc bytes d rest h = ground arith
  entries_stop (suc f) (suc k) acc bytes d rest h = ground arith

  EntriesMore-suc : (fuel : ℕ) → DirMore fuel → EntriesMore fuel → EntriesMore (suc fuel)
  EntriesMore-suc fuel dirs ih fuel' zero acc bytes d rest s h =
      entries_stop (suc fuel) fuel' acc bytes d rest h
  EntriesMore-suc fuel dirs ih zero (suc count) acc bytes d rest s h = absurd (omega arith)
  EntriesMore-suc fuel dirs ih (suc fuel') (suc count) acc [] d rest s h =
      unfold deserialize_entries in cc
  EntriesMore-suc fuel dirs ih (suc fuel') (suc count) acc (ty ∷ []) d rest s h =
      unfold deserialize_entries in cc
  EntriesMore-suc fuel dirs ih (suc fuel') (suc count) acc (ty ∷ n ∷ bytes) d rest s h =
      took (deserialize_entries-Round fuel count acc ty n bytes)
    where
      took :
          Round fuel count acc ty n bytes
            (deserialize_entries (suc fuel) (suc count) acc (ty ∷ n ∷ bytes))
          → deserialize_entries (suc fuel') (suc count) acc (ty ∷ n ∷ (bytes ++ more))
            ≡ done (d, rest ++ more)
      took (refused e) = cc
      took (took_file name rest1 content rest2 k e g q) =
          round_file fuel' count acc ty n (bytes ++ more) name (rest1 ++ more)
            (read_name_more n bytes name rest1 e) content (rest2 ++ more) k
            (read_file_more rest1 content rest2 g)
          ∙ ih fuel' count (insert name (file content) acc) rest2 d rest (omega arith) (sym q ∙ h)
      took (took_dir name rest1 c rest2 k e g q) =
          round_dir fuel' count acc ty n (bytes ++ more) name (rest1 ++ more)
            (read_name_more n bytes name rest1 e) c (rest2 ++ more) k
            (dirs fuel' rest1 c rest2 (omega arith) g)
          ∙ ih fuel' count (insert name (dir c) acc) rest2 d rest (omega arith) (sym q ∙ h)
      took (ran_out name rest1 e g q) = cc

  DirMore-zero : DirMore zero
  unfolding deserialize_dir
  DirMore-zero fuel' bytes d rest s h = cc

  EntriesMore-zero : EntriesMore zero
  EntriesMore-zero fuel' zero acc bytes d rest s h = entries_stop zero fuel' acc bytes d rest h
  EntriesMore-zero fuel' (suc count) acc bytes d rest s h = unfold deserialize_entries in cc

  both-More : (fuel : ℕ) → DirMore fuel × EntriesMore fuel
  both-More zero = (DirMore-zero, EntriesMore-zero)
  both-More (suc fuel) =
      let (dirs, entries) = both-More fuel in
      (DirMore-suc fuel entries, EntriesMore-suc fuel dirs entries)

-- load_from returns None on every proper prefix of what serialize writes of a file system within
-- the limits of the format whose directories are in order.
pub load_from-truncated :
    (fs : RamFs) (k : ℕ)
    → IsSorted fs.root
    → IsStorableEntry (dir fs.root)
    → k < length (serialize fs)
    → load_from (take k (serialize fs)) ≡ none
unfolding load_from
load_from-truncated fs k s w h =
    elim (Outcome-cases
      (deserialize_dir (suc (length (take k (serialize fs)))) (take k (serialize fs)))) [
        | inl e ↦ cc
        | inr (inl e) ↦ cc
        | inr (inr (d, rest, e)) ↦ absurd (cut d rest e)
      ]
  where
    cut :
        (d : Dir) (rest : Bytes)
        → deserialize_dir (suc (length (take k (serialize fs)))) (take k (serialize fs))
          ≡ done (d, rest)
        → ⊥
    cut d rest e =
        let all = read_root fs (suc (length (serialize fs))) [] s w (omega arith) in
        let more =
          (both-More (drop k (serialize fs)) (suc (length (take k (serialize fs))))).0
            (suc (length (serialize fs))) (take k (serialize fs)) d rest
            (omega (arith, length-take k (serialize fs))) e in
        let whole = take-append-drop k (serialize fs) in
        let left : rest ++ drop k (serialize fs) ≡ [] =
          cc (all, more, whole, append-nil (serialize fs)) in
        omega (
          arith,
          ap length left,
          length-append rest (drop k (serialize fs)),
          length-drop k (serialize fs),
        )

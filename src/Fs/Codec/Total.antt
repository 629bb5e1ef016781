-- ===== src/Fs/Codec/Total.antt =====
-- `deserialize_dir` terminates: the fuel that `load_from` gives is enough for any input.
use polaros.Prelude.{
  ℕ, zero, suc, ◌≤◌, ◌<◌, ◌≡◌, ◌≢◌, some, [], ◌∷◌, arith, length, length-drop, Bytes, u16_of,
  u32_of,
}
use polaros.Fs.Name.{Name}
use polaros.Fs.Tree.{Dir, file, dir, nil, insert}
use polaros.Fs.Codec.{
  Outcome, done, fail, out_of_fuel, read_name, read_file, deserialize_dir, deserialize_entries,
}
use polaros.Fs.Codec.Round.{Round, refused, took_file, took_dir, ran_out, deserialize_entries-Round}

-- The recursion has come to a result, and left at most `n` bytes.
abbrev Ends : ℕ → Outcome (Dir × Bytes) → Type 0
Ends n (done (d, rest)) = length rest ≤ n
Ends n fail = Unit
Ends n out_of_fuel = ⊥

Ends-mono : (o : Outcome (Dir × Bytes)) (m n : ℕ) → m ≤ n → Ends m o → Ends n o
Ends-mono (done (d, rest)) m n h e = omega arith
Ends-mono fail m n h e = tt
Ends-mono out_of_fuel m n h e = e

pub length-read_name :
    (n : ℕ) (rest : Bytes) (name : Name) (rest' : Bytes)
    → read_name n rest ≡ some (name, rest')
    → length rest' ≤ length rest
unfolding read_name
length-read_name n rest name rest' h = ground (arith, length-drop n rest)

pub length-read_file :
    (rest content rest' : Bytes)
    → read_file rest ≡ some (content, rest')
    → length rest' ≤ length rest
unfolding read_file
length-read_file (b0 ∷ b1 ∷ b2 ∷ b3 ∷ rest) content rest' h =
    ground (arith, length-drop (u32_of b0 b1 b2 b3) rest)
length-read_file rest content rest' h = cc

abbrev DirEnds : ℕ → Type 0
DirEnds fuel = (rest : Bytes) → length rest < fuel → Ends (length rest) (deserialize_dir fuel rest)

abbrev EntriesEnd : ℕ → Type 0
EntriesEnd fuel =
    (count : ℕ) (d : Dir) (rest : Bytes)
    → length rest < fuel
    → Ends (length rest) (deserialize_entries fuel count d rest)

deserialize_dir-Ends : (fuel : ℕ) → EntriesEnd fuel → DirEnds (suc fuel)
unfolding deserialize_dir
deserialize_dir-Ends fuel ih [] h = tt
deserialize_dir-Ends fuel ih (b0 ∷ []) h = tt
deserialize_dir-Ends fuel ih (b0 ∷ b1 ∷ rest) h =
    Ends-mono _ (length rest) _ (omega arith) (ih (u16_of b0 b1) nil rest (omega arith))

EntriesEnd-suc : (fuel : ℕ) → DirEnds fuel → EntriesEnd fuel → EntriesEnd (suc fuel)
EntriesEnd-suc fuel dirs ih zero d rest h = unfold deserialize_entries in omega arith
EntriesEnd-suc fuel dirs ih (suc count) d [] h = unfold deserialize_entries in tt
EntriesEnd-suc fuel dirs ih (suc count) d (ty ∷ []) h = unfold deserialize_entries in tt
EntriesEnd-suc fuel dirs ih (suc count) d (ty ∷ n ∷ rest) h =
    ended _ (deserialize_entries-Round fuel count d ty n rest)
  where
    ended :
        (o : Outcome (Dir × Bytes))
        → Round fuel count d ty n rest o
        → Ends (suc (suc (length rest))) o
    ended o (refused e) = rw e tt
    ended o (took_file name rest1 content rest2 k e g q) =
        let a = length-read_name n rest name rest1 e in
        let b = length-read_file rest1 content rest2 g in
        rw q (
          Ends-mono _ (length rest2) _ (omega arith)
            (ih count (insert name (file content) d) rest2 (omega arith)))
    ended o (took_dir name rest1 c rest2 k e g q) =
        let a = length-read_name n rest name rest1 e in
        let b : length rest2 ≤ length rest1 = rw g at (dirs rest1 (omega arith)) in
        rw q (
          Ends-mono _ (length rest2) _ (omega arith)
            (ih count (insert name (dir c) d) rest2 (omega arith)))
    ended o (ran_out name rest1 e g q) =
        let a = length-read_name n rest name rest1 e in absurd (rw g at (dirs rest1 (omega arith)))

both-End : (fuel : ℕ) → DirEnds fuel × EntriesEnd fuel
both-End zero = ((λ rest h. elim h [ ]), λ count d rest h. elim h [ ])
both-End (suc fuel) =
    let (dirs, entries) = both-End fuel in
    (deserialize_dir-Ends fuel entries, EntriesEnd-suc fuel dirs entries)

-- With more fuel than bytes, `deserialize_dir` comes to a result: a directory, or a refusal.
pub deserialize_dir_total :
    (fuel : ℕ) (bytes : Bytes) → length bytes < fuel → deserialize_dir fuel bytes ≢ out_of_fuel
deserialize_dir_total fuel bytes h e = rw e at ((both-End fuel).0 bytes h)

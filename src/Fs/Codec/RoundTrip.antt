-- ===== src/Fs/Codec/RoundTrip.antt =====
-- What was stored loads again.
use polaros.Prelude.{
  ℕ, zero, suc, ◌+◌, ◌≤◌, ◌<◌, ◌^◌, ◌%◌, ◌/◌, ◌≡◌, ap, ◌∙◌, true, some, ◌++◌, append_assoc, arith,
  length, take, length-append, take-append_length, drop-append_length, take_all, Bytes, u16_of,
  u32_le,
}
use polaros.Fs.Name.{Name, is_utf8}
use polaros.Fs.Tree.{FsEntry, Dir, file, dir, nil, cons, insert, len, append}
use polaros.Fs.Tree.Laws.{insert-append, append-snoc, append-nil}
use polaros.Fs.Tree.Order.{IsSorted, IsSortedEntry}
use polaros.Fs.RamFs.{RamFs}
use polaros.Fs.Codec.{
  name_len, count_bytes, serialize_entry, serialize_entries, serialize, done, split_bytes,
  read_name, read_file, deserialize_dir, deserialize_entries, load_from,
}

-- The limits of the format: names are `String`s of at most 255 bytes, files are shorter than 2^32
-- bytes, and a directory has fewer than 65536 entries.
abbrev mutual
  pub IsStorableEntry : FsEntry → Type 0
  IsStorableEntry (file content) = length content < 2 ^ 32
  IsStorableEntry (dir d) = (len d < 65536) × IsStorable d

  pub IsStorable : Dir → Type 0
  IsStorable nil = Unit
  IsStorable (cons n e d) = (length n ≤ 255) × (is_utf8 n ≡ true) × IsStorableEntry e × IsStorable d

split_bytes-append :
    (xs ys : Bytes) (n : ℕ) → n ≡ length xs → split_bytes n (xs ++ ys) ≡ some (xs, ys)
split_bytes-append xs ys n e =
    ground (arith, length-append xs ys, take-append_length xs ys, drop-append_length xs ys)

read_name_lem :
    (n : Name) (rest : Bytes)
    → length n ≤ 255
    → is_utf8 n ≡ true
    → read_name (name_len n) (take (name_len n) n ++ rest) ≡ some (n, rest)
unfolding read_name
read_name_lem n rest h u =
    let e : name_len n ≡ length n = omega arith in
    let t : take (name_len n) n ≡ n = take_all (name_len n) n (omega arith) in
    rw t (ground (arith, split_bytes-append n rest (name_len n) e))

read_file_lem :
    (b rest : Bytes)
    → length b < 2 ^ 32
    → read_file ((u32_le (length b % 2 ^ 32) ++ b) ++ rest) ≡ some (b, rest)
unfolding read_file
read_file_lem b rest h = split_bytes-append b rest _ (omega arith)

-- The loop of `deserialize_dir` reads the entries of `d` off the front of its input and adds them
-- to what it has.
abbrev Reads : Dir → Type 0
Reads d =
    (acc : Dir) (fuel : ℕ) (rest : Bytes)
    → IsSorted (append acc d)
    → IsStorable d
    → length (serialize_entries d) ≤ fuel
    → deserialize_entries fuel (len d) acc (serialize_entries d ++ rest) ≡ done (append acc d, rest)

abbrev ReadsEntry : FsEntry → Type 0
ReadsEntry (file b) = Unit
ReadsEntry (dir d) = Reads d

-- With its header, a directory is read whole.
read_dir :
    (d : Dir) (fuel : ℕ) (rest : Bytes)
    → Reads d
    → IsSorted d
    → IsStorable d
    → len d < 65536
    → length (serialize_entries d) < fuel
    → deserialize_dir fuel (count_bytes d ++ (serialize_entries d ++ rest)) ≡ done (d, rest)
unfolding deserialize_dir
read_dir d zero rest r s w c h = absurd (omega arith)
read_dir d (suc fuel) rest r s w c h =
    let e : u16_of (len d % 65536 % 256) (len d % 65536 / 256 % 256) ≡ len d = omega arith in
    ap (λ k. deserialize_entries fuel k nil (serialize_entries d ++ rest)) e
    ∙ r nil fuel rest s w (omega arith)

module _ (n : Name) (acc : Dir) (fuel count : ℕ) (short : length n ≤ 255)
    (utf8 : is_utf8 n ≡ true) where
  -- One round of the loop, at a file and at a directory.
  step_file :
      (b rest : Bytes)
      → length b < 2 ^ 32
      → deserialize_entries (suc fuel) (suc count) acc (serialize_entry n (file b) ++ rest)
        ≡ deserialize_entries fuel count (insert n (file b) acc) rest
  unfolding deserialize_entries serialize_entry
  step_file b rest h =
      let named = read_name_lem n ((u32_le (length b % 2 ^ 32) ++ b) ++ rest) short utf8 in
      let body = read_file_lem b rest h in
      let split = append_assoc (take (name_len n) n) (u32_le (length b % 2 ^ 32) ++ b) rest in
      cc (named, body, split)

  step_dir :
      (c : Dir) (rest : Bytes)
      → deserialize_dir fuel (count_bytes c ++ (serialize_entries c ++ rest)) ≡ done (c, rest)
      → deserialize_entries (suc fuel) (suc count) acc (serialize_entry n (dir c) ++ rest)
        ≡ deserialize_entries fuel count (insert n (dir c) acc) rest
  unfolding deserialize_entries serialize_entry
  step_dir c rest h =
      let named = read_name_lem n (count_bytes c ++ (serialize_entries c ++ rest)) short utf8 in
      let split =
        append_assoc (take (name_len n) n) (count_bytes c ++ serialize_entries c) rest
        ∙ ap (λ l. take (name_len n) n ++ l)
            (append_assoc (count_bytes c) (serialize_entries c) rest) in
      cc (named, h, split)

-- The directory so far, with one more entry at its end.
IsSorted-prefix :
    (acc : Dir) (n : Name) (e : FsEntry) (d : Dir)
    → IsSorted (append acc (cons n e d))
    → IsSortedEntry e × IsSorted d
IsSorted-prefix nil n e d s = (s.1, s.2)
IsSorted-prefix (cons m g acc) n e d s = IsSorted-prefix acc n e d s.2

round :
    (n : Name) (e : FsEntry) (d acc : Dir) (fuel : ℕ) (rest : Bytes)
    → Reads d
    → IsSorted (append acc (cons n e d))
    → IsStorable d
    → length (serialize_entries d) ≤ fuel
    → deserialize_entries fuel (len d) (insert n e acc) (serialize_entries d ++ rest)
      ≡ done (append acc (cons n e d), rest)
round n e d acc fuel rest ih s w h =
    let put = insert-append n e acc d s in
    let joined = append-snoc acc n e d in
    let s' : IsSorted (append (append acc (cons n e nil)) d) = rw joined s in
    rw put (ih (append acc (cons n e nil)) fuel rest s' w h ∙ ap (λ x. done (x, rest)) joined)

Reads-nil : Reads nil
unfolding deserialize_entries serialize_entries
Reads-nil acc zero rest s w h = rw append-nil
Reads-nil acc (suc fuel) rest s w h = rw append-nil

-- An entry takes at least two bytes, and a directory the bytes of its entries besides.
entry_size :
    (n : Name) (e : FsEntry) (d : Dir)
    → 2 + length (serialize_entries d) ≤ length (serialize_entries (cons n e d))
unfolding serialize_entry
entry_size n (file b) d = simp length-append (omega arith)
entry_size n (dir c) d = simp length-append (omega arith)

dir_size :
    (n : Name) (c d : Dir)
    → 4 + length (serialize_entries c) ≤ length (serialize_entries (cons n (dir c) d))
unfolding serialize_entry
dir_size n c d = simp length-append (omega arith)

Reads-cons : (n : Name) (e : FsEntry) (d : Dir) → ReadsEntry e → Reads d → Reads (cons n e d)
unfolding serialize_entries
Reads-cons n e d re rd acc zero rest s w h = absurd (omega (arith, entry_size n e d))
Reads-cons n (file b) d re rd acc (suc fuel) rest s w h = rw append_assoc (
    step_file n acc fuel (len d) w.0 w.1 b (serialize_entries d ++ rest) w.2
    ∙ round n (file b) d acc fuel rest rd s w.3 (omega (arith, entry_size n (file b) d)))
Reads-cons n (dir c) d re rd acc (suc fuel) rest s w h = rw append_assoc (
    step_dir n acc fuel (len d) w.0 w.1 c (serialize_entries d ++ rest) (
      read_dir c fuel (serialize_entries d ++ rest) re (IsSorted-prefix acc n (dir c) d s).0 w.2.1
        w.2.0 (omega (arith, dir_size n c d)))
    ∙ round n (dir c) d acc fuel rest rd s w.3 (omega (arith, entry_size n (dir c) d)))

mutual
  Reads-all : (d : Dir) → Reads d
  Reads-all nil = Reads-nil
  Reads-all (cons n e d) = Reads-cons n e d (ReadsEntry-all e) (Reads-all d)

  ReadsEntry-all : (e : FsEntry) → ReadsEntry e
  ReadsEntry-all (file b) = tt
  ReadsEntry-all (dir c) = Reads-all c

-- With more fuel than the stored form is long, the root directory is read whole.
pub read_root :
    (fs : RamFs) (fuel : ℕ) (rest : Bytes)
    → IsSorted fs.root
    → IsStorableEntry (dir fs.root)
    → length (serialize fs) < fuel
    → deserialize_dir fuel (serialize fs ++ rest) ≡ done (fs.root, rest)
unfolding serialize
read_root fs fuel rest s w h =
    let enough : length (serialize_entries fs.root) < fuel = omega arith in
    let whole = read_dir fs.root fuel rest (Reads-all fs.root) s w.1 w.0 enough in
    cc (whole, append_assoc (count_bytes fs.root) (serialize_entries fs.root) rest)

-- A file system within the limits of the format, whose directories are in order, loads from what
-- serialize writes of it, whatever bytes follow.
pub load_from-serialize :
    (fs : RamFs) (padding : Bytes)
    → IsSorted fs.root
    → IsStorableEntry (dir fs.root)
    → load_from (serialize fs ++ padding) ≡ some fs
unfolding load_from
load_from-serialize fs padding s w =
    let enough : length (serialize fs) < suc (length (serialize fs ++ padding)) =
      simp length-append (omega arith) in
    cc (read_root fs (suc (length (serialize fs ++ padding))) padding s w enough)

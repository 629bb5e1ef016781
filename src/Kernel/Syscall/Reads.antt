-- ===== src/Kernel/Syscall/Reads.antt =====
-- Reading a file through its descriptor, one `sys_read` after another.
use native.Mathlib.Decide.{dec_le}
use polaros.Prelude.{
  ℕ, zero, suc, ◌+◌, ◌≤◌, ◌≡◌, ◌≢◌, inl, inr, Option-cases, refl, ap, sym, ◌∙◌, min, some, List, [],
  ◌∷◌, ◌++◌, length, length-set, take, take_all, drop, get_elem?, get_elem?-set_self,
  lt_of_get_elem?, set, arith, Bytes,
}
use polaros.Fs.RamFs.{RamFs, read}
use polaros.Kernel.Syscall.{
  OpenFile, FdTable, sys_read, sys_open, sys_stat, u64_max, parse_file_path,
}
use polaros.Kernel.Syscall.Table.{opened, refused, opened_file, sys_open-Opened}

-- The bytes that reads of these lengths copy to their buffers, together.
unfoldable pub reads : RamFs → FdTable → ℕ → List ℕ → Bytes
reads fs fds fd [] = []
reads fs fds fd (len ∷ lens) =
    let (n, bytes, fds') = sys_read fs fds fd len in bytes ++ reads fs fds' fd lens

abbrev pub sum : List ℕ → ℕ
sum [] = 0
sum (n ∷ ns) = n + sum ns

drop_all : (n : ℕ) (xs : Bytes) → length xs ≤ n → drop n xs ≡ []
drop_all zero [] h = refl
drop_all zero (x ∷ xs) h = absurd (omega arith)
drop_all (suc n) [] h = refl
drop_all (suc n) (x ∷ xs) h = drop_all n xs (omega arith)

drop-drop : (m n : ℕ) (xs : Bytes) → drop n (drop m xs) ≡ drop (m + n) xs
drop-drop zero n xs = ap (λ k. drop k xs) (omega arith)
drop-drop (suc m) n [] = drop_all n [] (omega arith) ∙ sym (drop_all (suc m + n) [] (omega arith))
drop-drop (suc m) n (x ∷ xs) =
    let e : suc (m + n) ≡ suc m + n = omega arith in drop-drop m n xs ∙ ap (λ k. drop k (x ∷ xs)) e

take_sum : (n k : ℕ) (xs : Bytes) → take n xs ++ take k (drop n xs) ≡ take (n + k) xs
take_sum zero k xs = ap (λ j. take j xs) (omega arith)
take_sum (suc n) k [] = take_all k [] (omega arith) ∙ sym (take_all (suc n + k) [] (omega arith))
take_sum (suc n) k (x ∷ xs) =
    let e : suc (n + k) ≡ suc n + k = omega arith in
    ap (λ l. x ∷ l) (take_sum n k xs) ∙ ap (λ j. take j (x ∷ xs)) e

-- A read of at most `m` bytes, and the reads after it.
take_chunk :
    (m k : ℕ) (xs : Bytes)
    → take (min (length xs) m) xs ++ take k (drop (min (length xs) m) xs) ≡ take (m + k) xs
take_chunk m k xs = take_sum (min (length xs) m) k xs ∙ elim (dec_le (length xs) m) [
  | yes h ↦
      take_all (min (length xs) m + k) xs (omega arith) ∙ sym (take_all (m + k) xs (omega arith))
  | no h ↦ ap (λ j. take j xs) (omega arith)
]

module _ (fs : RamFs) (fds : FdTable) (fd : ℕ) (f : OpenFile) (content : Bytes)
    (small : length fds ≡ 16) (at_fd : get_elem? fds fd ≡ some (some f))
    (stands : read fs f.path f.name ≡ some content) where
  abbrev rest : Bytes
  rest = drop f.offset content

  sys_read_step :
      (len : ℕ)
      → sys_read fs fds fd len ≡ (
        min (length rest) len,
        take (min (length rest) len) rest,
        set fds fd (some (record f { offset = f.offset + min (length rest) len })),
      )
  unfolding sys_read
  sys_read_step len =
      let lt = lt_of_get_elem? fds fd (some f) at_fd in
      ground (arith, at_fd, stands, drop_all f.offset content)

-- Reads of a file through its descriptor copy, together, the file's bytes from the descriptor's
-- offset on, as many as they ask for or there are.
pub reads_lem :
    (fs : RamFs) (fds : FdTable) (fd : ℕ) (f : OpenFile) (content : Bytes) (lens : List ℕ)
    → length fds ≡ 16
    → get_elem? fds fd ≡ some (some f)
    → read fs f.path f.name ≡ some content
    → reads fs fds fd lens ≡ take (sum lens) (drop f.offset content)
unfolding reads
reads_lem fs fds fd f content [] small at_fd stands = refl
reads_lem fs fds fd f content (len ∷ lens) small at_fd stands =
    let rest = drop f.offset content in
    let n = min (length rest) len in
    let f' = record f { offset = f.offset + n } in
    let fds' = set fds fd (some f') in
    let again =
      reads_lem fs fds' fd f' content lens (length-set fds fd (some f') ∙ small)
        (get_elem?-set_self fds fd (some f') (lt_of_get_elem? fds fd (some f) at_fd)) stands in
    rw (sys_read_step fs fds fd f content small at_fd stands len) (
      ap (λ l. take n rest ++ l) (again ∙ ap (take (sum lens)) (sym (drop-drop f.offset n content)))
      ∙ take_chunk len (sum lens) rest)

-- Where sys_open does not fail, on a table of 16 places, the path names a file, sys_stat gives the
-- length of its content, and reads through the new descriptor copy, together, as many of its first
-- bytes as they ask for or there are.
pub open_reads :
    (fs : RamFs) (fds : FdTable) (p : Bytes) (lens : List ℕ)
    → length fds ≡ 16
    → (sys_open fs fds p).0 ≢ u64_max
    → (content : Bytes) × (read fs (parse_file_path p).0 (parse_file_path p).1 ≡ some content)
      × (reads fs (sys_open fs fds p).1 (sys_open fs fds p).0 lens ≡ take (sum lens) content)
      × (sys_stat fs p ≡ length content)
open_reads fs fds p lens small success = elim (sys_open-Opened fs fds p small) [
  | refused why e ↦ absurd (success (ap (λ (o : ℕ × FdTable). o.0) e))
  | opened fd can ge lt at used e ↦
      elim (Option-cases (read fs (parse_file_path p).0 (parse_file_path p).1)) [
        | inl none_there ↦ absurd (ground (arith, can, none_there))
        | inr (content, stands) ↦
            let fds' = set fds fd (some (opened_file p)) in
            let all =
              reads_lem fs fds' fd (opened_file p) content lens
                (length-set fds fd (some (opened_file p)) ∙ small)
                (get_elem?-set_self fds fd (some (opened_file p)) (omega arith)) stands in
            (content, stands, rw e all, unfold sys_stat in ground (arith, can, stands))
      ]
]

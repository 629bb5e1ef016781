-- ===== src/Kernel/Syscall/Parse.antt =====
-- `parse_file_path`: paths as they are written, and their parts.
use polaros.Prelude.{
  ℕ, zero, suc, ◌≡◌, refl, ap, ◌∙◌, Bool, true, false, ◌||◌, List, [], ◌∷◌, ◌++◌, arith, Bytes,
  ◌==◌, replicate, if◌then◌else◌, All,
}
use polaros.Fs.Name.{Name}
use polaros.Fs.RamFs.{DirPath}
use polaros.Kernel.Syscall.{split, trim_start, non_empty, path_of_parts, parse_file_path}

-- No byte of the name is a slash.
abbrev pub has_slash : Bytes → Bool
has_slash [] = false
has_slash (b ∷ bs) = b == 47 || has_slash bs

-- A name that can stand in a path: not empty, and without a slash.
abbrev pub is_component : Name → Bool
is_component [] = false
is_component (b ∷ bs) = if has_slash (b ∷ bs) then false else true

-- "/docs/info.txt", with at least one slash before each part, and more of them at will.
abbrev pub written : List (ℕ × Name) → Bytes
written [] = []
written ((extra, part) ∷ parts) = 47 ∷ (replicate extra 47 ++ (part ++ written parts))

abbrev pub names_of : List (ℕ × Name) → List Name
names_of [] = []
names_of ((extra, part) ∷ parts) = part ∷ names_of parts

-- The parts of a rest of a path that begins with a slash or is empty.
parts_slashes :
    (k : ℕ) (bs : Bytes) → non_empty (split 47 (replicate k 47 ++ bs)) ≡ non_empty (split 47 bs)
unfolding split
parts_slashes zero bs = refl
parts_slashes (suc k) bs = parts_slashes k bs

-- A part, and what follows it.
split-part :
    (part : Name) (ps : List (ℕ × Name))
    → has_slash part ≡ false
    → (rest : List Name) × (split 47 (part ++ written ps) ≡ part ∷ rest)
      × (non_empty rest ≡ non_empty (split 47 (written ps)))
unfolding split
split-part [] [] h = ([], refl, refl)
split-part [] ((k, q) ∷ ps) h = (_, refl, refl)
split-part (b ∷ part) ps h =
    let (rest, e, same) = split-part part ps (ground arith) in (rest, ground (arith, e), same)

parts_lem :
    (ps : List (ℕ × Name))
    → All (λ n. is_component n ≡ true) (names_of ps)
    → non_empty (split 47 (written ps)) ≡ names_of ps
parts_lem [] h = unfold split in refl
parts_lem ((k, []) ∷ ps) h = cc (h.0)
parts_lem ((k, b ∷ part) ∷ ps) h =
    let (rest, e, same) = split-part (b ∷ part) ps (ground (arith, h.0)) in
    let skip = parts_slashes (suc k) ((b ∷ part) ++ written ps) in
    skip ∙ rw e (ap (λ l. (b ∷ part) ∷ l) (same ∙ parts_lem ps h.1))

-- Leading slashes make no parts.
parts-trim : (bs : Bytes) → non_empty (split 47 (trim_start 47 bs)) ≡ non_empty (split 47 bs)
unfolding split trim_start
parts-trim [] = refl
parts-trim (b ∷ bs) = ground (arith, parts-trim bs)

parts_last :
    (dir : List (ℕ × Name)) (extra : ℕ) (name : Name)
    → path_of_parts (names_of (dir ++ (extra, name) ∷ [])) ≡ (names_of dir, name)
parts_last [] extra name = refl
parts_last ((k, part) ∷ []) extra name = refl
parts_last ((k, part) ∷ (j, next) ∷ dir) extra name =
    ap (λ (r : DirPath × Name). (part ∷ r.0, r.1)) (parts_last ((j, next) ∷ dir) extra name)

-- A path of parts that are not empty and hold no slash, with one slash or more before each of them,
-- is taken apart into the directory's parts and the last one, as they are.
pub parse_file_path_lem :
    (dir : List (ℕ × Name)) (extra : ℕ) (name : Name)
    → All (λ n. is_component n ≡ true) (names_of (dir ++ (extra, name) ∷ []))
    → parse_file_path (written (dir ++ (extra, name) ∷ [])) ≡ (names_of dir, name)
unfolding parse_file_path
parse_file_path_lem dir extra name h =
    let ps = dir ++ (extra, name) ∷ [] in
    ap path_of_parts (parts-trim (written ps) ∙ parts_lem ps h) ∙ parts_last dir extra name

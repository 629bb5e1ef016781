-- ===== src/Fs/Tests.antt =====
-- The file system at concrete inputs: runs, and the theorems where their hypotheses hold.
use polaros.Prelude.{
  ◌≡◌, ◌≢◌, refl, ◌&&◌, none, some, List, [], ◌∷◌, ◌++◌, arith, take, if◌then◌else◌, text,
}
use polaros.Fs.Name.{Name, is_utf8, cmp}
use polaros.Fs.Tree.{file, dir, nil, cons, get, insert}
use polaros.Fs.Tree.Order.{IsSorted}
use polaros.Fs.RamFs.{RamFs, dir_not_empty, new, get_dir, get_dir_mut, remove, read, names}
use polaros.Fs.RamFs.View.{view, same}
use polaros.Fs.RamFs.Results.{is_ok, removal, remove_lem}
use polaros.Fs.RamFs.Calls.{Call, write_file, make_dir, remove_entry}
use polaros.Fs.Boot.{init}
use polaros.Fs.Codec.{out_of_fuel, deserialize_dir, serialize, serialize_entry, load_from}
use polaros.Fs.Codec.RoundTrip.{IsStorable, IsStorableEntry, load_from-serialize}
use polaros.Fs.Codec.Total.{deserialize_dir_total}
use polaros.Fs.Codec.Sound.{IsNamed, load_from_sound}
use polaros.Fs.Codec.Prefix.{load_from-truncated}

abbrev docs : Name
docs = text "docs"

abbrev note : Name
note = text "note"

-- A directory `docs` with an empty file `note`, beside a file `zz`.
abbrev sample : RamFs
sample = record {
  root = cons docs (dir (cons note (file []) nil)) (cons (text "zz") (file (7 ∷ 8 ∷ [])) nil);
}

sample-IsSorted : IsSorted sample.root
unfolding cmp
sample-IsSorted = ((refl, tt), (tt, tt, tt), (tt, tt, tt))

sample-IsStorable : IsStorableEntry (dir sample.root)
unfolding is_utf8
sample-IsStorable =
    let notes : IsStorable (cons note (file []) nil) = (omega arith, refl, omega arith, tt) in
    let last : IsStorable (cons (text "zz") (file (7 ∷ 8 ∷ [])) nil) =
      (omega arith, refl, omega arith, tt) in
    (omega arith, (omega arith, refl, (omega arith, notes), last))

boot_names :
    names (init new) [] ≡ docs ∷ text "hello.txt" ∷ text "readme.txt" ∷ text "version.txt" ∷ []
unfolding init names get_dir get_dir_mut get insert cmp
boot_names = refl

boot_docs :
    read (init new) (docs ∷ []) (text "info.txt") ≡ some (text "Katalog z dokumentacja systemu.")
unfolding init read get_dir get_dir_mut get insert cmp
boot_docs = refl

remove-docs : (remove sample [] docs).0 ≡ dir_not_empty
unfolding remove get_dir_mut get cmp
remove-docs = refl

remove_lem_example :
    ((remove sample (docs ∷ []) note).0 ≡ removal sample (docs ∷ []) note)
    × (view (remove sample (docs ∷ []) note).1.root (docs ∷ []) note ≡ (
        if is_ok (remove sample (docs ∷ []) note).0 && same (docs ∷ []) note (docs ∷ []) note
        then none
        else view sample.root (docs ∷ []) note))
remove_lem_example = remove_lem sample (docs ∷ []) note sample-IsSorted (docs ∷ []) note

abbrev script : List Call
script = make_dir [] docs ∷ write_file (docs ∷ []) note (1 ∷ []) ∷ remove_entry [] docs ∷ []

load_from-serialize_example : load_from (serialize sample ++ 0 ∷ 0 ∷ []) ≡ some sample
load_from-serialize_example =
    load_from-serialize sample (0 ∷ 0 ∷ []) sample-IsSorted sample-IsStorable

deserialize_dir_total_example : deserialize_dir 4 (255 ∷ 255 ∷ 1 ∷ []) ≢ out_of_fuel
deserialize_dir_total_example = deserialize_dir_total 4 (255 ∷ 255 ∷ 1 ∷ []) (omega arith)

load_from_sound_example : IsSorted sample.root × IsNamed sample.root
load_from_sound_example =
    load_from_sound (serialize sample ++ []) sample
      (load_from-serialize sample [] sample-IsSorted sample-IsStorable)

load_from-truncated_example : load_from (take 5 (serialize sample)) ≡ none
load_from-truncated_example =
    load_from-truncated sample 5 sample-IsSorted sample-IsStorable
      (unfold serialize serialize_entry in omega arith)

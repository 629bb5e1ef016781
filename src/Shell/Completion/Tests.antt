-- ===== src/Shell/Completion/Tests.antt =====
-- Completion at concrete inputs.
use polaros.Prelude.{◌≡◌, ◌≤◌, refl, true, [], ◌∷◌, text, length, All}
use polaros.Fs.Name.{Name}
use polaros.Fs.Tree.{file, nil, cons}
use polaros.Fs.RamFs.{RamFs, names, get_dir}
use polaros.Shell.Completion.{
  starts_with, tab_complete, shorten, shorten_all, common_prefix, slice, panics,
}
use polaros.Shell.Completion.Longest.{common_prefix_lem}

abbrev two_files : RamFs
two_files = record { root = cons (text "notes") (file []) (cons (text "now") (file []) nil) }

completes :
    tab_complete (text "cat" ∷ []) two_files (text "cat no") []
    ≡ (4, text "notes" ∷ text "now" ∷ [])
unfolding tab_complete names get_dir
completes = refl

prefix_no : common_prefix (text "notes" ∷ text "now" ∷ []) ≡ slice (text "no")
unfolding common_prefix shorten_all shorten
prefix_no = refl

-- The UTF-8 of two letters that differ in their second byte.
inside_letter : common_prefix ((0xC4 ∷ 0x85 ∷ []) ∷ (0xC4 ∷ 0x99 ∷ []) ∷ []) ≡ panics
unfolding common_prefix shorten_all shorten
inside_letter = refl

common_prefix_lem_example :
    All (λ (s : Name). starts_with s (text "no") ≡ true) (text "notes" ∷ text "now" ∷ [])
    × (length (text "n") ≤ length (text "no"))
common_prefix_lem_example =
    common_prefix_lem (text "notes") (text "now" ∷ []) (text "no") (text "n") prefix_no
      (refl, (refl, tt))

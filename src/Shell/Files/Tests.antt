-- ===== src/Shell/Files/Tests.antt =====
-- mv at a concrete input: a file "a" goes to "b".
use polaros.Prelude.{◌≡◌, refl, false, some, [], Bytes, text}
use polaros.Fs.Name.{name_eq}
use polaros.Fs.Tree.{file, nil, cons}
use polaros.Fs.RamFs.{RamFs}
use polaros.Fs.RamFs.View.{view}
use polaros.Shell.Line.{split_whitespace}
use polaros.Shell.Files.{cmd_mv, two_args}
use polaros.Shell.Files.Moves.{moved_view, cmd_mv_lem}

abbrev one_file : RamFs
one_file = record { root = cons (text "a") (file (text "x")) nil }

abbrev a_to_b : Bytes
a_to_b = text "a b"

args_of_a_to_b : two_args a_to_b ≡ some (text "a", text "b")
unfolding split_whitespace polaros.Shell.Line.split_once polaros.Shell.Line.trim
args_of_a_to_b = refl

a_is_not_b : name_eq (text "a") (text "b") ≡ false
unfolding polaros.Fs.Name.cmp
a_is_not_b = refl

cmd_mv_lem_example :
    view (cmd_mv a_to_b one_file []).1.root [] (text "a")
    ≡ moved_view one_file [] (text "a") (text "b") [] (text "a")
cmd_mv_lem_example =
    cmd_mv_lem a_to_b one_file [] (text "a") (text "b") [] (text "a") (tt, tt, tt) args_of_a_to_b
      a_is_not_b

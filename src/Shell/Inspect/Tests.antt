-- ===== src/Shell/Inspect/Tests.antt =====
-- grep at a concrete input: the output of another command.
use polaros.Prelude.{◌≡◌, refl, some, List, [], Bytes, text}
use polaros.Fs.Tree.{nil}
use polaros.Fs.RamFs.{RamFs}
use polaros.Shell.Line.{split_whitespace, first}
use polaros.Shell.Text.{lines, read_text_input}
use polaros.Shell.Inspect.{cmd_grep}
use polaros.Shell.Inspect.Matching.{Picks, Output, cmd_grep_lem}

abbrev three_lines : Bytes
three_lines = text "a task\na file\ntwo tasks\n"

abbrev no_files : RamFs
no_files = record { root = nil }

the_pattern : first (split_whitespace (text "task")) ≡ some (text "task")
unfolding split_whitespace
the_pattern = refl

cmd_grep_lem_example :
    (found : List Bytes) × Picks (text "task") (lines three_lines) found
    × (cmd_grep (text "task") no_files [] (some three_lines) ≡ Output (text "task") found)
unfolding read_text_input
cmd_grep_lem_example =
    cmd_grep_lem (text "task") no_files [] (some three_lines) 116 (text "ask") three_lines
      the_pattern refl

-- ===== src/Shell/Pipeline/Tests.antt =====
-- Command lines at concrete inputs: a file system with a file "a".
use polaros.Prelude.{true, ◌≡◌, refl, false, none, some, List, [], ◌∷◌, Bytes, text}
use polaros.Fs.Name.{Name}
use polaros.Fs.Tree.{file, nil, cons}
use polaros.Fs.RamFs.{RamFs, get_dir, is_dir}
use polaros.Fs.RamFs.View.{view}
use polaros.Kernel.Syscall.{split}
use polaros.Shell.Line.{rfind, trim, is_nil, split_once}
use polaros.Fs.Codec.{serialize}
use polaros.Shell.Disk.{Drive, header}
use polaros.Shell.Commands.{Outside, State, run_command}
use polaros.Shell.Commands.Directory.{IsSound}
use polaros.Shell.Pipeline.{
  with_input, parse_redirections, append_to, run_parts, execute_expanded, pipe_char,
}
use polaros.Shell.Pipeline.Redirections.{line_of, parse_redirections-line_of}
use polaros.Shell.Pipeline.Stored.{Stores, stored_view, execute_expanded-view}
use polaros.Shell.Pipeline.Session.{execute_lines, execute_lines-IsSound}

appends :
    parse_redirections (text "sort < a >> b")
    ≡ (text "sort ", record { input_file = some (text "a"); output_mode = append_to (text "b") })
unfolding parse_redirections rfind trim with_input
appends = refl

abbrev one_file : RamFs
one_file = record { root = cons (text "a") (file (text "x")) nil }

abbrev at_root : State Unit
at_root = record { cwd = []; fs = one_file; env = []; machine = tt }

-- A machine without a disk.
abbrev no_drive : Drive Unit
no_drive = record {
  is_available = λ s. false;
  write_sector = λ n bytes s. (false, s);
  read_sector = λ n s. none;
}

abbrev no_others : Outside Unit
no_others = record { drive = no_drive; other = λ cmd args s. ([], s.machine) }

at_root-IsSound : IsSound at_root
unfolding get_dir
at_root-IsSound = record { sorted = (tt, tt, tt); there = refl }

abbrev three_lines : List Bytes
three_lines = text "mkdir d" ∷ text "cd d" ∷ text "load" ∷ text "echo hi | sort > b" ∷ []

-- A disk on which the same file system is saved.
abbrev with_disk : Outside Unit
with_disk = record {
  drive = record {
    is_available = λ s. true;
    write_sector = λ n bytes s. (true, s);
    read_sector = λ n s. some (header no_drive (serialize one_file));
  };
  other = λ cmd args s. ([], s.machine);
}

execute_lines-IsSound_example : IsSound (execute_lines with_disk (λ c. false) three_lines at_root)
execute_lines-IsSound_example =
    execute_lines-IsSound with_disk (λ c. false) three_lines at_root at_root-IsSound

abbrev to_b : Bytes
to_b = text " b"

filled_input : is_nil (trim (text " a ")) ≡ false
unfolding trim
filled_input = refl

filled_name : is_nil (trim to_b) ≡ false
unfolding trim
filled_name = refl

parse_redirections-line_of_example :
    parse_redirections (line_of (text "sort ") (some (text " a ")) (append_to to_b)) ≡ (
      text "sort ",
      record { input_file = some (trim (text " a ")); output_mode = append_to (trim to_b) },
    )
parse_redirections-line_of_example =
    parse_redirections-line_of (text "sort ") (some (text " a ")) (append_to to_b) refl refl
      (refl, refl, refl, filled_input) (refl, refl, filled_name)

abbrev to_a : Bytes
to_a = text " a"

filled_a : is_nil (trim to_a) ≡ false
unfolding trim
filled_a = refl

echo_line :
    trim (line_of (text "echo hi ") none (append_to to_a))
    ≡ line_of (text "echo hi ") none (append_to to_a)
unfolding trim
echo_line = refl

echo_runs :
    run_parts no_others (split pipe_char (text "echo hi ")) none at_root
    ≡ (some (text "hi"), at_root)
unfolding run_parts split trim split_once run_command polaros.Fs.Name.cmp
echo_runs = refl

room_at_root : is_dir one_file [] (trim to_a) ≡ false
unfolding is_dir get_dir trim polaros.Fs.Tree.get polaros.Fs.Name.cmp
room_at_root = refl

execute_expanded-view_example :
    (stored : Bytes) × Stores (append_to to_a) (text "hi") at_root stored
    × (view
          (execute_expanded no_others
            (line_of (text "echo hi ") none (append_to to_a))
            at_root).1.fs.root
          []
          (text "a")
        ≡ stored_view (append_to to_a) stored at_root [] (text "a"))
execute_expanded-view_example =
    execute_expanded-view no_others (text "echo hi ") none (append_to to_a) at_root at_root none
      (text "hi") [] (text "a") refl refl tt (refl, refl, filled_a) echo_line refl refl echo_runs
      (at_root-IsSound.there, room_at_root)

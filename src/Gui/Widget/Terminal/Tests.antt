-- ===== src/Gui/Widget/Terminal/Tests.antt =====
-- The terminal at concrete inputs: one of four columns with one line.
use polaros.Prelude.{◌≡◌, ◌↔◌, refl, true, false, none, some, [], ◌∷◌, Bytes, text, arith}
use polaros.Prelude.Int.{pos}
use polaros.Gui.Event.{key_press, enter}
use polaros.Fs.Tree.{nil}
use polaros.Shell.Line.{trim, is_nil}
use polaros.Shell.Disk.{Drive}
use polaros.Shell.Commands.{Outside, State}
use polaros.Shell.Pipeline as Pipeline
use polaros.Shell.Pipeline.{to_screen, to_file, less, pipe_char, has_byte}
use polaros.Gui.Widget.Terminal.{Terminal, cols, push_line, parse_redirections, handle_event}
use polaros.Gui.Widget.Terminal.Wrap.{Pushed, SplitsChar, push_line-Pushed, push_line-panic}
use polaros.Gui.Widget.Terminal.Keys.{frame, Keeps, handle_event-Keeps}
use polaros.Gui.Widget.Terminal.Redirected.{parse_redirections_differ}

abbrev narrow : Terminal
narrow = record {
  id = 7;
  x = pos 1;
  y = pos 2;
  w = 40;
  h = 60;
  lines = text "$" ∷ [];
  input_buf = text "echo hi";
  cwd = [];
  cursor_visible = true;
  cursor_blink_tick = 0;
}

push_line-Pushed_example :
    (t : Terminal) × (push_line narrow (text "echo hi") ≡ some t) × Pushed narrow t (text "echo hi")
push_line-Pushed_example = push_line-Pushed narrow (text "echo hi") (omega arith) (omega arith)

-- A zero width space, of three bytes, at the edge.
abbrev wide_char : Bytes
wide_char = 97 ∷ 97 ∷ 97 ∷ 97 ∷ 226 ∷ 128 ∷ 139 ∷ []

push_line-panic_example : (push_line narrow wide_char ≡ none) ↔ SplitsChar (cols narrow) wide_char
push_line-panic_example = push_line-panic narrow wide_char (omega arith)

-- A machine without a disk.
abbrev no_drive : Drive Unit
no_drive = record {
  is_available = λ s. false;
  write_sector = λ n bytes s. (false, s);
  read_sector = λ n s. none;
}

no_others : Outside Unit
no_others = record { drive = no_drive; other = λ cmd args s. ([], s.machine) }

abbrev at_root : State Unit
at_root = record { cwd = []; fs = record { root = nil }; env = []; machine = tt }

narrow-Keeps : Keeps (frame narrow) narrow
narrow-Keeps = record {
  framed = refl;
  few = omega arith;
  fit = (omega arith, tt);
  short = omega arith;
}

handle_event-Keeps_example :
    Keeps
      (frame narrow)
      (handle_event no_others (λ c. false) narrow (key_press enter) (some at_root)).1
handle_event-Keeps_example =
    handle_event-Keeps no_others (λ c. false) (frame narrow) narrow (key_press enter) (some at_root)
      narrow-Keeps

abbrev to_b : Bytes
to_b = text " b"

filled_name : is_nil (trim to_b) ≡ false
unfolding trim
filled_name = refl

a_wc : has_byte pipe_char (trim (text " a | wc")) ≡ true
unfolding trim
a_wc = refl

parse_redirections_differ_example :
    (Pipeline.parse_redirections (text "cat < a | wc")
      ≡ (text "cat < a | wc", record { input_file = none; output_mode = to_screen }))
    × (parse_redirections (text "cat < a | wc") ≡ (
      text "cat ",
      record { input_file = some (trim (text " a | wc")); output_mode = to_screen },
    ))
parse_redirections_differ_example =
    parse_redirections_differ (text "cat ") (text " a | wc") refl refl refl refl a_wc

-- ===== src/Gui/Widget/Terminal.antt =====
-- src/gui/widget/terminal.rs: the terminal in a window, without its drawing. `none` is a panic.
pub mod Wrap
pub mod Redirected
pub mod Events
pub mod Keys
mod Tests
use polaros.Prelude.{
  ℕ, zero, suc, ◌+◌, ◌-◌, ◌/◌, Bool, true, false, not, ◌&&◌, leb, ltb, ◌==◌, if◌then◌else◌, Option,
  none, some, List, [], ◌∷◌, ◌++◌, length, take, drop, Bytes, text,
}
use polaros.Prelude.Int.{ℤ}
use polaros.Fs.Name.{Name, name_eq}
use polaros.Fs.RamFs.{DirPath, RamFs, read, write}
use polaros.Kernel.Syscall.{split}
use polaros.Gui.Event.{
  Event, KeyCode, key_press, mouse_move, mouse_down, mouse_up, tick, char, arrow_up, arrow_down,
  arrow_left, arrow_right, enter, backspace, tab, escape, f1, f2, f3,
}
use polaros.Gui.Widget.{Rect, EventResponse, consumed, ignored}
use polaros.Shell.Completion.{is_char_boundary}
use polaros.Shell.Text.{lines as text_lines}
use polaros.Shell.Line.{trim, rfind, split_once, is_nil}
use polaros.Shell.Unicode.{encode_char, pop_char, expand_text}
use polaros.Shell.Files.{quoted, components}
use polaros.Shell.Commands.{Outside, State, run_command}
use polaros.Shell.Pipeline.{
  OutputMode, to_screen, to_file, append_to, Redirect, greater, less, pipe_char, is_target,
  command_of, appended, text_of,
}

abbrev pub max_scrollback : ℕ
max_scrollback = 100

abbrev pub max_input : ℕ
max_input = 256

-- `CHAR_WIDTH` and `CHAR_HEIGHT` of src/gui/font.rs.
abbrev pub char_width : ℕ
char_width = 8

pub record Terminal : Type 0 where
  pub id : ℕ
  pub x : ℤ
  pub y : ℤ
  pub w : ℕ
  pub h : ℕ
  pub lines : List Bytes
  pub input_buf : Bytes
  pub cursor_visible : Bool
  pub cursor_blink_tick : ℕ
  pub cwd : DirPath

abbrev pub cols : Terminal → ℕ
cols t = t.w / char_width

-- The loop of `push_line`, on fuel, a round for each byte. `split_at` panics inside a character.
abbrev pub and_piece : Bytes → Option (List Bytes) → Option (List Bytes)
and_piece left none = none
and_piece left (some pieces) = some (left ∷ pieces)

unfoldable pub wrap : ℕ → ℕ → Bytes → Option (List Bytes)
wrap zero columns remaining = if leb (length remaining) columns then some (remaining ∷ []) else none
wrap (suc fuel) columns remaining =
    let further = and_piece (take columns remaining) (wrap fuel columns (drop columns remaining)) in
    if leb (length remaining) columns
    then some (remaining ∷ [])
    else if is_char_boundary remaining columns
    then further
    else none

-- `while self.lines.len() > MAX_SCROLLBACK { self.lines.remove(0); }`
abbrev pub newest : List Bytes → List Bytes
newest ls = drop (length ls - max_scrollback) ls

abbrev pub with_pieces : Terminal → Option (List Bytes) → Option Terminal
with_pieces t none = none
with_pieces t (some pieces) = some (record t { lines = newest (t.lines ++ pieces) })

unfoldable pub push_line : Terminal → Bytes → Option Terminal
unfolding wrap
push_line t line = if cols t == 0 then some t else with_pieces t (wrap (length line) (cols t) line)

abbrev pub push_on : Option Terminal → Bytes → Option Terminal
push_on none line = none
push_on (some t) line = push_line t line

unfoldable pub push_lines : Option Terminal → List Bytes → Option Terminal
unfolding push_line
push_lines t [] = t
push_lines t (l ∷ ls) = push_lines (push_on t l) ls

-- `new`, whose three lines fit or are wrapped.
unfoldable pub new : ℕ → ℤ → ℤ → ℕ → ℕ → Option Terminal
unfolding push_lines
new id x y w h =
    push_lines
      (some (record {
        id = id;
        x = x;
        y = y;
        w = w;
        h = h;
        lines = [];
        input_buf = [];
        cursor_visible = true;
        cursor_blink_tick = 0;
        cwd = [];
      }))
      (text "PolarOs Terminal v0.1.0" ∷ text "Wpisz 'help' aby zobaczyc komendy." ∷ [] ∷ [])

abbrev pub prompt_of : DirPath → Bytes
prompt_of [] = text "/> "
prompt_of (c ∷ cs) = components (c ∷ cs) ++ text "> "

-- `parse_redirections`: the file that is written, and what stands in front of it.
abbrev pub target_of : Bytes → Option (Bytes × Bytes) → ℕ → (Name → OutputMode) → Bytes × OutputMode
target_of line none width mode = (line, to_screen)
target_of line (some (before, from)) width mode =
    let filename = trim (drop width from) in
    if is_target filename then (before, mode filename) else (line, to_screen)

abbrev pub or_write : Bytes → Option (Bytes × Bytes) → Bytes × OutputMode
or_write line none = target_of line (rfind (greater ∷ []) line) 1 to_file
or_write line (some found) = target_of line (some found) 2 append_to

abbrev pub source_of : Bytes → OutputMode → Option (Bytes × Bytes) → Bytes × Redirect
source_of remaining mode none = (remaining, record { input_file = none; output_mode = mode })
source_of remaining mode (some (front, from)) =
    let filename = trim (drop 1 from) in
    if not (is_nil filename)
    then (front, record { input_file = some filename; output_mode = mode })
    else (remaining, record { input_file = none; output_mode = mode })

unfoldable pub parse_redirections : Bytes → Bytes × Redirect
parse_redirections line =
    let (remaining, mode) = or_write line (rfind (greater ∷ greater ∷ []) line) in
    source_of remaining mode (rfind (less ∷ []) remaining)

module _ {M : Type 0} (outside : Outside M) (is_alphanumeric : ℕ → Bool) where
  -- A command runs in the terminal's directory, and may change it.
  abbrev pub run_in : Terminal → Bytes → Bytes → Option Bytes → State M → Bytes × Terminal × State M
  run_in t cmd args pipe s =
      let r = run_command outside cmd args pipe (record s { cwd = t.cwd }) in
      (r.0, record t { cwd = r.1.cwd }, record r.1 { cwd = s.cwd })

  unfoldable pub run_parts :
      List Bytes → Option Bytes → Terminal → State M → Option Bytes × Terminal × State M
  run_parts [] pipe_data t s = (pipe_data, t, s)
  run_parts (part ∷ parts) pipe_data t s =
      let part1 = trim part in
      let (cmd, args) = command_of part1 (split_once 32 part1) in
      let (output, t1, s1) = run_in t cmd args pipe_data s in
      let skipped = run_parts parts pipe_data t s in
      let cleared = run_parts parts (some []) (record t { lines = [] }) s in
      let further = run_parts parts (some output) t1 s1 in
      if is_nil part1 then skipped else if name_eq cmd (text "clear") then cleared else further

  abbrev pub and_state : Option Terminal → State M → Option (Terminal × State M)
  and_state none s = none
  and_state (some t) s = some (t, s)

  abbrev pub reported :
      Bytes → Bytes → Name → Bool × RamFs → Terminal → State M → Option (Terminal × State M)
  reported done failed filename (wrote, fs) t s =
      and_state (push_line t (quoted (if wrote then done else failed) filename (text ".")))
        (record s { fs = fs })

  abbrev pub put_out : OutputMode → Option Bytes → Terminal → State M → Option (Terminal × State M)
  put_out mode none t s = some (t, s)
  put_out (to_file filename) (some output) t s =
      reported (text "Zapisano do ") (text "Nie mozna zapisac do ") filename
        (write s.fs t.cwd filename output) t s
  put_out (append_to filename) (some output) t s =
      reported (text "Dopisano do ") (text "Nie mozna dopisac do ") filename
        (write s.fs t.cwd filename (appended (read s.fs t.cwd filename) output)) t s
  put_out to_screen (some output) t s =
      and_state (push_lines (some t) (if is_nil output then [] else text_lines output)) s

  abbrev pub run_from :
      Bytes → OutputMode → Option Bytes → Terminal → State M → Option (Terminal × State M)
  run_from pipeline mode pipe_data t s =
      let (output, t1, s1) = run_parts (split pipe_char pipeline) pipe_data t s in
      put_out mode output t1 s1

  abbrev pub run_read :
      Name → Option Bytes → Bytes → OutputMode → Terminal → State M → Option (Terminal × State M)
  run_read name none pipeline mode t s =
      and_state (push_line t (quoted (text "Plik ") name (text " nie istnieje."))) s
  run_read name (some content) pipeline mode t s =
      run_from pipeline mode (some (text_of content)) t s

  abbrev pub run_input :
      Option Name → Bytes → OutputMode → Terminal → State M → Option (Terminal × State M)
  run_input none pipeline mode t s = run_from pipeline mode none t s
  run_input (some name) pipeline mode t s = run_read name (read s.fs t.cwd name) pipeline mode t s

  abbrev pub run_line : Bytes → Option Terminal → State M → Option (Terminal × State M)
  run_line cmd none s = none
  run_line cmd (some t) s =
      let t1 = record t { input_buf = [] } in
      let line = trim cmd in
      let (pipeline, redirect) =
        parse_redirections (trim (expand_text is_alphanumeric s.env line)) in
      if is_nil line
      then some (t1, s)
      else run_input redirect.input_file pipeline redirect.output_mode t1 s

  unfoldable pub execute_command : Terminal → State M → Option (Terminal × State M)
  unfolding push_line push_lines parse_redirections run_parts
  execute_command t s = run_line t.input_buf (push_line t (prompt_of t.cwd ++ t.input_buf)) s

  -- The machine is `none` once it has panicked.
  abbrev pub after_enter :
      Terminal → Option (Terminal × State M) → EventResponse × Terminal × Option (State M)
  after_enter t none = (consumed, t, none)
  after_enter t (some (t1, s)) = (consumed, t1, some s)

  unfoldable pub press_key :
      Terminal → KeyCode → State M → EventResponse × Terminal × Option (State M)
  unfolding execute_command
  press_key t (char c) s = (
    consumed,
    (if leb 32 c && ltb (length t.input_buf) max_input
        then record t { input_buf = t.input_buf ++ encode_char c }
        else t),
    some s,
  )
  press_key t enter s = after_enter t (execute_command t s)
  press_key t backspace s = (consumed, record t { input_buf = pop_char t.input_buf }, some s)
  press_key t arrow_up s = (ignored, t, some s)
  press_key t arrow_down s = (ignored, t, some s)
  press_key t arrow_left s = (ignored, t, some s)
  press_key t arrow_right s = (ignored, t, some s)
  press_key t tab s = (ignored, t, some s)
  press_key t escape s = (ignored, t, some s)
  press_key t f1 s = (ignored, t, some s)
  press_key t f2 s = (ignored, t, some s)
  press_key t f3 s = (ignored, t, some s)

  abbrev pub blink : Terminal → Terminal
  blink t =
      let ticks = t.cursor_blink_tick + 1 in
      if leb 25 ticks
      then record t { cursor_blink_tick = 0; cursor_visible = not t.cursor_visible }
      else record t { cursor_blink_tick = ticks }

  unfoldable pub handle_event :
      Terminal → Event → Option (State M) → EventResponse × Terminal × Option (State M)
  unfolding press_key
  handle_event t e none = (ignored, t, none)
  handle_event t (key_press k) (some s) = press_key t k s
  handle_event t tick (some s) = (ignored, blink t, some s)
  handle_event t (mouse_move x y) (some s) = (ignored, t, some s)
  handle_event t (mouse_down x y b) (some s) = (ignored, t, some s)
  handle_event t (mouse_up x y b) (some s) = (ignored, t, some s)

-- ===== src/Shell/Pipeline.antt =====
-- `parse_redirections` and `execute_line` of src/shell/mod.rs. What is printed comes beside the state,
-- with the colour that it has.
pub mod Redirections
pub mod Stored
pub mod Session
mod Tests
use polaros.Prelude.{
  ◌==◌, ℕ, if◌then◌else◌, not, ◌&&◌, ◌||◌, Bool, true, false, Option, none, some, List, [], ◌∷◌,
  ◌++◌, drop, Bytes, text,
}
use polaros.Fs.Name.{Name, is_utf8}
use polaros.Fs.RamFs.{RamFs, DirPath, read, write}
use polaros.Kernel.Syscall.{split}
use polaros.Shell.Line.{trim, split_once, rfind, is_nil}
use polaros.Shell.Unicode.{expand_text}
use polaros.Shell.Files.{quoted}
use polaros.Shell.Commands.{Outside, State, run_command}

pub data OutputMode : Type 0 where
  to_screen : OutputMode
  to_file append_to : Name → OutputMode

pub record Redirect : Type 0 where
  pub input_file : Option Name
  pub output_mode : OutputMode

abbrev pub has_byte : ℕ → Bytes → Bool
has_byte c [] = false
has_byte c (b ∷ bs) = b == c || has_byte c bs

-- `'|'`, `'>'` and `'<'`
abbrev pub pipe_char : ℕ
pipe_char = 124

abbrev pub greater : ℕ
greater = 62

abbrev pub less : ℕ
less = 60

-- The search for '<' in front of an output redirection.
abbrev pub input_at : Bytes → OutputMode → Option (Bytes × Bytes) → Bytes × Redirect
input_at before mode none = (before, record { input_file = none; output_mode = mode })
input_at before mode (some (front, from)) =
    let input_name = trim (drop 1 from) in
    if not (is_nil input_name)
    then (front, record { input_file = some input_name; output_mode = mode })
    else (before, record { input_file = none; output_mode = mode })

unfoldable pub with_input : Bytes → OutputMode → Bytes × Redirect
with_input before mode = input_at before mode (rfind (less ∷ []) before)

-- A file name behind a redirection: not empty, and no pipe in it.
abbrev pub is_target : Bytes → Bool
is_target filename = not (is_nil filename) && not (has_byte pipe_char filename)

abbrev pub last_is : ℕ → Bytes → Bool
last_is c [] = false
last_is c (b ∷ []) = b == c
last_is c (b ∷ d ∷ bs) = last_is c (d ∷ bs)

-- The three searches, each with what comes where it finds nothing.
abbrev pub input_only : Bytes → Option (Bytes × Bytes) → Bytes × Redirect
input_only line none = (line, record { input_file = none; output_mode = to_screen })
input_only line (some (front, from)) =
    let input_name = trim (drop 1 from) in
    if is_target input_name && not (has_byte greater input_name)
    then (front, record { input_file = some input_name; output_mode = to_screen })
    else (line, record { input_file = none; output_mode = to_screen })

unfoldable pub parse_input : Bytes → Bytes × Redirect
parse_input line = input_only line (rfind (less ∷ []) line)

abbrev pub write_at : Bytes → Option (Bytes × Bytes) → Bytes × Redirect
write_at line none = parse_input line
write_at line (some (before, from)) =
    let filename = trim (drop 1 from) in
    if not (last_is greater before) && is_target filename
    then with_input before (to_file filename)
    else parse_input line

unfoldable pub parse_write : Bytes → Bytes × Redirect
parse_write line = write_at line (rfind (greater ∷ []) line)

abbrev pub append_at : Bytes → Option (Bytes × Bytes) → Bytes × Redirect
append_at line none = parse_write line
append_at line (some (before, from)) =
    let filename = trim (drop 2 from) in
    if is_target filename then with_input before (append_to filename) else parse_write line

unfoldable pub parse_redirections : Bytes → Bytes × Redirect
parse_redirections line = append_at line (rfind (greater ∷ greater ∷ []) line)

-- `part.split_once(' ')`, or the whole part and no arguments.
abbrev pub command_of : Bytes → Option (Bytes × Bytes) → Bytes × Bytes
command_of part none = (part, [])
command_of part (some (cmd, args)) = (cmd, args)

-- What is printed: nothing, a text, or a text in the colour of errors.
pub data Shown : Type 0 where
  nothing : Shown
  plain alert : Bytes → Shown

-- What `>>` writes: the content, a line feed where it has none at its end, and the output.
abbrev pub appended : Option Bytes → Bytes → Bytes
appended none output = output
appended (some content) output =
    if not (is_nil content) && not (last_is 10 content)
    then content ++ (10 ∷ output)
    else content ++ output

abbrev pub text_of : Bytes → Bytes
text_of content = if is_utf8 content then content else []

module _ {M : Type 0} (outside : Outside M) where
  -- The loop over the parts of a pipeline; `pipe_data` is the output of the part before.
  unfoldable pub run_parts : List Bytes → Option Bytes → State M → Option Bytes × State M
  run_parts [] pipe_data s = (pipe_data, s)
  run_parts (part ∷ parts) pipe_data s =
      let part1 = trim part in
      let (cmd, args) = command_of part1 (split_once 32 part1) in
      let (output, s1) = run_command outside cmd args pipe_data s in
      let skipped = run_parts parts pipe_data s in
      let further = run_parts parts (some output) s1 in if is_nil part1 then skipped else further

  abbrev pub stored : Bytes → Bytes → Name → Bool × RamFs → State M → Shown × State M
  stored done failed filename (wrote, fs) s = (
    (if wrote
        then plain (quoted done filename (text "."))
        else alert (quoted failed filename (text "."))),
    record s { fs = fs },
  )

  abbrev pub put_out : OutputMode → Option Bytes → State M → Shown × State M
  put_out mode none s = (nothing, s)
  put_out to_screen (some output) s = ((if is_nil output then nothing else plain output), s)
  put_out (to_file filename) (some output) s =
      stored (text "Zapisano do ") (text "Nie mozna zapisac do ") filename
        (write s.fs s.cwd filename output) s
  put_out (append_to filename) (some output) s =
      stored (text "Dopisano do ") (text "Nie mozna dopisac do ") filename
        (write s.fs s.cwd filename (appended (read s.fs s.cwd filename) output)) s

  abbrev pub run_from : Bytes → OutputMode → Option Bytes → State M → Shown × State M
  run_from pipeline mode pipe_data s =
      let (output, s1) = run_parts (split pipe_char pipeline) pipe_data s in put_out mode output s1

  abbrev pub run_read : Name → Option Bytes → Bytes → OutputMode → State M → Shown × State M
  run_read name none pipeline mode s =
      (alert (quoted (text "Plik wejsciowy ") name (text " nie istnieje.")), s)
  run_read name (some content) pipeline mode s = run_from pipeline mode (some (text_of content)) s

  abbrev pub run_input : Option Name → Bytes → OutputMode → State M → Shown × State M
  run_input none pipeline mode s = run_from pipeline mode none s
  run_input (some name) pipeline mode s = run_read name (read s.fs s.cwd name) pipeline mode s

  abbrev pub run_redirected : Bytes × Redirect → State M → Shown × State M
  run_redirected (pipeline, redirect) s =
      run_input redirect.input_file pipeline redirect.output_mode s

  -- `line` is what the expansion of the variables gives.
  unfoldable pub execute_expanded : Bytes → State M → Shown × State M
  unfolding parse_redirections run_parts
  execute_expanded line s =
      let trimmed = trim line in
      if is_nil trimmed then (nothing, s) else run_redirected (parse_redirections trimmed) s

  unfoldable pub execute_line : (ℕ → Bool) → Bytes → State M → Shown × State M
  unfolding execute_expanded
  execute_line is_alphanumeric line s = execute_expanded (expand_text is_alphanumeric s.env line) s

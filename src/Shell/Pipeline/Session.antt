-- ===== src/Shell/Pipeline/Session.antt =====
-- What every command line of src/shell/mod.rs keeps.
use polaros.Prelude.{
  ℕ, inl, inr, Bool-cases, Bool, Option, none, some, List, [], ◌∷◌, if◌then◌else◌, Bytes,
}
use polaros.Fs.Name.{Name}
use polaros.Fs.RamFs.{read}
use polaros.Kernel.Syscall.{split}
use polaros.Shell.Line.{trim, split_once, is_nil}
use polaros.Shell.Commands.{Outside, State, run_command}
use polaros.Shell.Commands.Directory.{IsSound, write-IsSoundAt, run_command-IsSound}
use polaros.Shell.Pipeline.{
  OutputMode, to_screen, to_file, append_to, pipe_char, command_of, run_parts, put_out, run_from,
  run_read, run_input, parse_redirections, execute_expanded, execute_line, appended, text_of,
}
use polaros.Shell.Unicode.{expand_text}

module _ {M : Type 0} (outside : Outside M) where
  -- A round of `run`: an empty line is passed over.
  unfoldable pub enter_line : (ℕ → Bool) → Bytes → State M → State M
  unfolding execute_line
  enter_line is_alphanumeric line s =
      let trimmed = trim line in
      if is_nil trimmed then s else (execute_line outside is_alphanumeric trimmed s).1

  -- The loop of `run` on the lines that a user enters, without the prompt and the history.
  unfoldable pub execute_lines : (ℕ → Bool) → List Bytes → State M → State M
  execute_lines is_alphanumeric [] s = s
  execute_lines is_alphanumeric (line ∷ lines) s =
      execute_lines is_alphanumeric lines (enter_line is_alphanumeric line s)

module _ {M : Type 0} (outside : Outside M) where
  run_parts-IsSound :
      (parts : List Bytes) (pipe : Option Bytes) (s : State M)
      → IsSound s
      → IsSound (run_parts outside parts pipe s).1
  unfolding run_parts
  run_parts-IsSound [] pipe s h = h
  run_parts-IsSound (part ∷ parts) pipe s h =
      let part1 = trim part in
      let (cmd, args) = command_of part1 (split_once 32 part1) in
      let r = run_command outside cmd args pipe s in
      elim (Bool-cases (is_nil part1)) [
        | inl e ↦ rw e (run_parts-IsSound parts pipe s h)
        | inr f ↦
            rw f (
              run_parts-IsSound parts (some r.0) r.1
                (run_command-IsSound outside cmd args pipe s h))
      ]

  put_out-IsSound :
      (mode : OutputMode) (output : Option Bytes) (s : State M)
      → IsSound s
      → IsSound (put_out outside mode output s).1
  put_out-IsSound mode none s h = h
  put_out-IsSound to_screen (some output) s h = h
  put_out-IsSound (to_file f) (some output) s h = write-IsSoundAt s.cwd s.fs f output h
  put_out-IsSound (append_to f) (some output) s h =
      write-IsSoundAt s.cwd s.fs f (appended (read s.fs s.cwd f) output) h

  run_from-IsSound :
      (p : Bytes) (mode : OutputMode) (pipe : Option Bytes) (s : State M)
      → IsSound s
      → IsSound (run_from outside p mode pipe s).1
  run_from-IsSound p mode pipe s h =
      let parts = split pipe_char p in
      let r = run_parts outside parts pipe s in
      put_out-IsSound mode r.0 r.1 (run_parts-IsSound parts pipe s h)

  run_read-IsSound :
      (name : Name) (content : Option Bytes) (p : Bytes) (mode : OutputMode) (s : State M)
      → IsSound s
      → IsSound (run_read outside name content p mode s).1
  run_read-IsSound name none p mode s h = h
  run_read-IsSound name (some content) p mode s h =
      run_from-IsSound p mode (some (text_of content)) s h

  run_input-IsSound :
      (input : Option Name) (p : Bytes) (mode : OutputMode) (s : State M)
      → IsSound s
      → IsSound (run_input outside input p mode s).1
  run_input-IsSound none p mode s h = run_from-IsSound p mode none s h
  run_input-IsSound (some name) p mode s h = run_read-IsSound name (read s.fs s.cwd name) p mode s h

  execute_expanded-IsSound :
      (line : Bytes) (s : State M) → IsSound s → IsSound (execute_expanded outside line s).1
  unfolding execute_expanded
  execute_expanded-IsSound line s h =
      let r = parse_redirections (trim line) in
      elim (Bool-cases (is_nil (trim line))) [
        | inl e ↦ rw e h
        | inr f ↦ rw f (run_input-IsSound r.1.input_file r.0 r.1.output_mode s h)
      ]

  enter_line-IsSound :
      (is_alphanumeric : ℕ → Bool) (line : Bytes) (s : State M)
      → IsSound s
      → IsSound (enter_line outside is_alphanumeric line s)
  unfolding enter_line execute_line
  enter_line-IsSound is_alphanumeric line s h = elim (Bool-cases (is_nil (trim line))) [
    | inl e ↦ rw e h
    | inr f ↦ rw f (execute_expanded-IsSound (expand_text is_alphanumeric s.env (trim line)) s h)
  ]

  -- Whatever lines are entered, with whatever variables, pipes and redirections, and whatever is on the
  -- disk that load reads: if the names of every directory are in order and the shell is in a directory
  -- that exists, this stays so.
  pub execute_lines-IsSound :
      (is_alphanumeric : ℕ → Bool) (lines : List Bytes) (s : State M)
      → IsSound s
      → IsSound (execute_lines outside is_alphanumeric lines s)
  unfolding execute_lines
  execute_lines-IsSound is_alphanumeric [] s h = h
  execute_lines-IsSound is_alphanumeric (line ∷ lines) s h =
      execute_lines-IsSound is_alphanumeric lines _ (enter_line-IsSound is_alphanumeric line s h)

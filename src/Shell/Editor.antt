-- ===== src/Shell/Editor.antt =====
-- `read_line` of src/shell/mod.rs: the editing of a line, with the arrow keys and the tabulator.
pub mod Row
pub mod Column
pub mod Shown
pub mod Completing
pub mod Echoed
mod Tests
use polaros.Prelude.{
  ℕ, zero, suc, ◌+◌, ◌-◌, Bool, ◌&&◌, ltb, leb, ◌==◌, if◌then◌else◌, Option, none, some, List, [],
  ◌∷◌, ◌++◌, length, drop, Bytes, text,
}
use polaros.Fs.Name.{Name}
use polaros.Fs.RamFs.{RamFs, DirPath}
use polaros.Drivers.Keyboard.Decode.{KeyEvent, char, arrow_up, arrow_down}
use polaros.Shell.Line.{is_nil}
use polaros.Shell.Unicode.{encode_char, pop_char}
use polaros.Shell.Completion as Completion
use polaros.Shell.Completion.{tab_complete, common_prefix, is_char_boundary}
use polaros.Shell.History as History
use polaros.Shell.History.{CommandHistory}

abbrev pub max_line : ℕ
max_line = 256

-- What goes to the screen: `print!`, `println!()`, `delete_last_char` and `print_prompt`.
pub data Echo : Type 0 where
  print : Bytes → Echo
  new_line delete_last_char print_prompt : Echo

-- A key ends the line, or the editing goes on with a text and a history, or it panics.
pub data Step : Type 0 where
  returns : List Echo → Step
  continues : Bytes → CommandHistory → List Echo → Step
  panics : Step

unfoldable pub clear_input : ℕ → List Echo
clear_input zero = []
clear_input (suc n) = delete_last_char ∷ clear_input n

-- The text gets what a name has behind the part that is there; a slice behind the end panics too.
abbrev pub push_suffix : Bytes → CommandHistory → Name → ℕ → Step
push_suffix buf h name partial_len =
    let suffix = drop partial_len name in
    if leb partial_len (length name) && is_char_boundary name partial_len
    then continues (buf ++ suffix) h (print suffix ∷ [])
    else panics

abbrev pub listed : List Name → List Echo
listed [] = []
listed (c ∷ cs) = print (text "  " ++ c) ∷ listed cs

abbrev pub list_all : Bytes → List Name → List Echo
list_all buf completions =
    (new_line ∷ listed completions) ++ (new_line ∷ print_prompt ∷ print buf ∷ [])

abbrev pub push_prefix : Bytes → CommandHistory → List Name → ℕ → Completion.Sliced → Step
push_prefix buf h completions partial_len Completion.panics = panics
push_prefix buf h completions partial_len (Completion.slice prefix) =
    if ltb partial_len (length prefix)
    then push_suffix buf h prefix partial_len
    else continues buf h (list_all buf completions)

unfoldable pub complete : Bytes → CommandHistory → ℕ → List Name → Step
unfolding common_prefix
complete buf h partial_len [] = continues buf h []
complete buf h partial_len (c ∷ []) = push_suffix buf h c partial_len
complete buf h partial_len (c ∷ d ∷ cs) =
    push_prefix buf h (c ∷ d ∷ cs) partial_len (common_prefix (c ∷ d ∷ cs))

abbrev pub recall_up : Bytes → History.Shown × CommandHistory → Step
recall_up buf (History.shows entry, h) =
    continues entry h (clear_input (length buf) ++ (print entry ∷ []))
recall_up buf (History.nothing, h) = continues buf h []
recall_up buf (History.panics, h) = panics

abbrev pub recall_down : Bytes → History.Shown × CommandHistory → Step
recall_down buf (History.shows entry, h) =
    continues entry h (clear_input (length buf) ++ (print entry ∷ []))
recall_down buf (History.nothing, h) = continues [] h (clear_input (length buf))
recall_down buf (History.panics, h) = panics

-- `commands` are the names of the commands.
module _ (commands : List Name) (fs : RamFs) (cwd : DirPath) where
  abbrev pub press_tab : Bytes → CommandHistory → Step
  press_tab buf h =
      let (word_start, completions) = tab_complete commands fs buf cwd in
      complete buf h (length buf - word_start) completions

  abbrev pub press_char : Bytes → CommandHistory → ℕ → Step
  press_char buf h c =
      if c == 10
      then returns (new_line ∷ [])
      else if c == 8
      then (if is_nil buf
          then continues buf h []
          else continues (pop_char buf) h (delete_last_char ∷ []))
      else if c == 9
      then press_tab buf h
      else if leb 32 c && ltb (length buf) max_line
      then continues (buf ++ encode_char c) h (print (encode_char c) ∷ [])
      else continues buf h []

  unfoldable pub press : Bytes → CommandHistory → KeyEvent → Step
  unfolding tab_complete complete pop_char clear_input History.up History.down
  press buf h (char c) = press_char buf h c
  press buf h arrow_up = recall_up buf (History.up h)
  press buf h arrow_down = recall_down buf (History.down h)

-- The result of `read_line`, with the keys that are left, or the text while no key ends the line.
pub data Line : Type 0 where
  entered : Bytes → CommandHistory → List Echo → List KeyEvent → Line
  waits : Bytes → CommandHistory → List Echo → Line
  fails : Line

abbrev pub behind : List Echo → Line → Line
behind echo (entered buf h more keys) = entered buf h (echo ++ more) keys
behind echo (waits buf h more) = waits buf h (echo ++ more)
behind echo fails = fails

-- `buf` and `h` are those before the key.
abbrev pub and_edit :
    Bytes → CommandHistory → Step → List KeyEvent → (Bytes → CommandHistory → Line) → Line
and_edit buf h (returns echo) keys further = entered buf h echo keys
and_edit buf h (continues buf1 h1 echo) keys further = behind echo (further buf1 h1)
and_edit buf h panics keys further = fails

module _ (commands : List Name) (fs : RamFs) (cwd : DirPath) where
  -- The loop from a text on; `read_line` begins with none.
  unfoldable pub edit : Bytes → CommandHistory → List KeyEvent → Line
  unfolding press
  edit buf h [] = waits buf h []
  edit buf h (key ∷ keys) =
      and_edit buf h (press commands fs cwd buf h key) keys (λ buf1 h1. edit buf1 h1 keys)

  unfoldable pub read_line : CommandHistory → List KeyEvent → Line
  unfolding edit
  read_line h keys = edit [] h keys

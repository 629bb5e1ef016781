-- ===== src/Shell/Editor/Echoed.antt =====
-- What stands on the row of the screen while `read_line` of src/shell/mod.rs edits a line.
use polaros.Prelude.{
  ℕ, ◌+◌, ◌-◌, ◌≤◌, ◌<◌, ◌≡◌, refl, ap, sym, ◌∙◌, inl, inr, Option-cases, Bool-cases, true, false,
  ◌&&◌, leb, ltb, ◌==◌, List, [], ◌∷◌, ◌++◌, append_assoc, length, length-drop, drop, All,
  All-append, Bytes, arith,
}
use mathlib.Core.Path.{subst}
use polaros.Fs.Name.{Name}
use polaros.Fs.RamFs.{RamFs, DirPath, names}
use polaros.Drivers.Keyboard.Decode.{KeyEvent, char, arrow_up, arrow_down}
use polaros.Shell.Line.{is_nil}
use polaros.Shell.Unicode.{pop_char}
use polaros.Shell.Unicode.Ascii.{pop_char-IsAscii}
use polaros.Shell.Completion.{matching, last_space, tab_complete}
use polaros.Shell.History as History
use polaros.Shell.History.{CommandHistory, entry_at}
use polaros.Shell.Editor.{
  Echo, new_line, delete_last_char, Step, returns, continues, panics, press_tab, press_char, press,
  and_edit, Line, entered, waits, fails, behind, edit, read_line, max_line,
}
use polaros.Shell.Editor.Row.{
  shown, shown-append, shown-print, row_delete_lem, row_of, TextRow, prompt_text, IsPrintable,
  IsPrintable-IsAscii, Narrow,
}
use polaros.Shell.Editor.Shown.{
  StepNarrow, Ready, Echoes, up-Recalled, down-Recalled, up-Echoes, down-Echoes,
}
use polaros.Shell.Editor.Completing.{
  Completes, matching-Completes, complete-Echoes, All-without_last,
}

-- The characters that are typed; the line feed, the backspace and the tabulator are commands.
abbrev pub IsPlainKey : KeyEvent → Type 0
IsPlainKey (char c) = c < 127
IsPlainKey arrow_up = Unit
IsPlainKey arrow_down = Unit

-- What `read_line` comes to from the row with a prompt and a text `t`.
abbrev pub Echoed : Bytes → Bytes → Line → Type 0
Echoed prompt t (entered buf h echo keys) =
    (before : List Echo) × (echo ≡ before ++ (new_line ∷ []))
    × (shown prompt (row_of prompt t) before ≡ row_of prompt buf)
    × Ready h
Echoed prompt t (waits buf h echo) =
    (shown prompt (row_of prompt t) echo ≡ row_of prompt buf) × Ready h
Echoed prompt t fails = ⊥

behind-Echoed :
    (p t u : Bytes) (echo : List Echo) (l : Line)
    → shown p (row_of p t) echo ≡ row_of p u
    → Echoed p u l
    → Echoed p t (behind echo l)
behind-Echoed p t u echo (entered buf h more keys) same (before, e, s, r) = (
  echo ++ before,
  ap (λ (es : List Echo). echo ++ es) e ∙ sym (append_assoc echo before (new_line ∷ [])),
  shown-append p (row_of p t) echo before ∙ ap (λ (v : TextRow). shown p v before) same ∙ s,
  r,
)
behind-Echoed p t u echo (waits buf h more) same (s, r) =
    (shown-append p (row_of p t) echo more ∙ ap (λ (v : TextRow). shown p v more) same ∙ s, r)
behind-Echoed p t u echo fails same h = h

-- The text that a step leaves fits into the row behind a prompt, and so do those of the rest.
abbrev pub AndNarrow : Bytes → Step → (Bytes → CommandHistory → Type 0) → Type 0
AndNarrow prompt (continues buf h echo) further = Narrow prompt buf × further buf h
AndNarrow prompt (returns echo) further = Unit
AndNarrow prompt panics further = Unit

-- After each of the keys that are read, the prompt and the text fit into the row.
abbrev pub AllNarrow : List Name → RamFs → DirPath → Bytes → CommandHistory → List KeyEvent → Type 0
AllNarrow commands fs cwd buf h [] = Unit
AllNarrow commands fs cwd buf h (key ∷ keys) =
    AndNarrow (prompt_text cwd) (press commands fs cwd buf h key)
      (λ buf1 h1. AllNarrow commands fs cwd buf1 h1 keys)

step_narrow :
    (prompt : Bytes) (s : Step) (further : Bytes → CommandHistory → Type 0)
    → AndNarrow prompt s further
    → StepNarrow prompt s
step_narrow prompt (continues buf h echo) further n = n.0
step_narrow prompt (returns echo) further n = tt
step_narrow prompt panics further n = tt

module _ (commands : List Name) (fs : RamFs) (cwd : DirPath) (known : All IsPrintable commands)
    (there : All IsPrintable (names fs cwd)) (shows : IsPrintable (prompt_text cwd)) where
  tab_complete-Completes :
      (buf : Bytes)
      → All
          (Completes (length buf - (tab_complete commands fs buf cwd).0))
          (tab_complete commands fs buf cwd).1
  unfolding tab_complete
  tab_complete-Completes buf =
      let fits = λ (r : ℕ × List Name). All (Completes (length buf - r.0)) r.1 in
      elim (Option-cases (last_space buf)) [
        | inl e ↦
            let r : tab_complete commands fs buf cwd ≡ (0, matching buf commands) =
              rw (tab_complete, e) refl in
            subst fits (sym r)
              (matching-Completes buf (length buf - 0) commands (omega arith) known)
        | inr (p, e) ↦
            let word = drop (p + 1) buf in
            let r : tab_complete commands fs buf cwd ≡ (p + 1, matching word (names fs cwd)) =
              rw (tab_complete, e) refl in
            subst fits (sym r) (
              matching-Completes word (length buf - (p + 1)) (names fs cwd)
                (omega (arith, length-drop (p + 1) buf)) there)
      ]

  press_tab-Echoes :
      (buf : Bytes) (h : CommandHistory)
      → IsPrintable buf
      → Ready h
      → StepNarrow (prompt_text cwd) (press_tab commands fs cwd buf h)
      → Echoes (prompt_text cwd) buf (press_tab commands fs cwd buf h)
  press_tab-Echoes buf h a r =
      let (start, completions) = tab_complete commands fs buf cwd in
      complete-Echoes (prompt_text cwd) shows buf h (length buf - start) completions a r
        (tab_complete-Completes buf)

  backspace-Echoes :
      (buf : Bytes) (h : CommandHistory)
      → is_nil buf ≡ false
      → IsPrintable buf
      → Ready h
      → Echoes (prompt_text cwd) buf (continues (pop_char buf) h (delete_last_char ∷ []))
  backspace-Echoes [] h full a r = absurd (cc full)
  backspace-Echoes (b ∷ bs) h full a r =
      let popped = pop_char-IsAscii (b ∷ bs) (IsPrintable-IsAscii (b ∷ bs) a) in
      (
        row_delete_lem (prompt_text cwd) b bs ∙ ap (row_of (prompt_text cwd)) (sym popped),
        subst IsPrintable (sym popped)
            (All-without_last (λ (c : ℕ). (32 ≤ c) × (c < 127)) (b ∷ bs) a),
        r,
      )

  press_char-Echoes :
      (buf : Bytes) (h : CommandHistory) (c : ℕ)
      → c < 127
      → IsPrintable buf
      → Ready h
      → StepNarrow (prompt_text cwd) (press_char commands fs cwd buf h c)
      → Echoes (prompt_text cwd) buf (press_char commands fs cwd buf h c)
  press_char-Echoes buf h c small a r =
      let one : ltb c 0x80 ≡ true = ground arith in
      elim (Bool-cases (c == 10)) [
        | inl e ↦ rw e (λ n. refl)
        | inr n0 ↦ elim (Bool-cases (c == 8)) [
          | inl e ↦ elim (Bool-cases (is_nil buf)) [
            | inl empty ↦ rw (n0, e, empty) (λ n. (refl, a, r))
            | inr full ↦ rw (n0, e, full) (λ n. backspace-Echoes buf h full a r)
          ]
          | inr n1 ↦ elim (Bool-cases (c == 9)) [
            | inl e ↦ rw (n0, n1, e) (press_tab-Echoes buf h a r)
            | inr n2 ↦ elim (Bool-cases (leb 32 c && ltb (length buf) max_line)) [
              | inl fits ↦
                  let typed : IsPrintable (c ∷ []) = ((ground (arith, fits), small), tt) in
                  rw (n0, n1, n2, fits, one)
                    (λ n. (
                      shown-print (prompt_text cwd) buf (c ∷ []) typed n,
                      All-append (λ (b : ℕ). (32 ≤ b) × (b < 127)) buf (c ∷ []) a typed,
                      r,
                    ))
              | inr full ↦ rw (n0, n1, n2, full) (λ n. (refl, a, r))
            ]
          ]
        ]
      ]

  press-Echoes :
      (buf : Bytes) (h : CommandHistory) (key : KeyEvent)
      → IsPlainKey key
      → IsPrintable buf
      → Ready h
      → StepNarrow (prompt_text cwd) (press commands fs cwd buf h key)
      → Echoes (prompt_text cwd) buf (press commands fs cwd buf h key)
  unfolding press
  press-Echoes buf h (char c) k a r = press_char-Echoes buf h c k a r
  press-Echoes buf h arrow_up k a r =
      up-Echoes (prompt_text cwd) buf (History.up h) a (up-Recalled h r)
  press-Echoes buf h arrow_down k a r =
      down-Echoes (prompt_text cwd) buf (History.down h) (down-Recalled h r)

  and_edit-Echoed :
      (buf : Bytes) (h : CommandHistory) (s : Step) (keys : List KeyEvent)
      (further : Bytes → CommandHistory → Line) (narrow : Bytes → CommandHistory → Type 0)
      → Ready h
      → AndNarrow (prompt_text cwd) s narrow
      → Echoes (prompt_text cwd) buf s
      → ((buf1 : Bytes) (h1 : CommandHistory)
          → IsPrintable buf1
          → Ready h1
          → narrow buf1 h1
          → Echoed (prompt_text cwd) buf1 (further buf1 h1))
      → Echoed (prompt_text cwd) buf (and_edit buf h s keys further)
  and_edit-Echoed buf h (returns echo) keys further narrow r n e ih = ([], e, refl, r)
  and_edit-Echoed buf h (continues buf1 h1 echo) keys further narrow r n (e, a, r1) ih =
      behind-Echoed (prompt_text cwd) buf buf1 echo (further buf1 h1) e (ih buf1 h1 a r1 n.1)
  and_edit-Echoed buf h panics keys further narrow r n e ih = absurd e

  edit-Echoed :
      (buf : Bytes) (h : CommandHistory) (keys : List KeyEvent)
      → All IsPlainKey keys
      → IsPrintable buf
      → Ready h
      → AllNarrow commands fs cwd buf h keys
      → Echoed (prompt_text cwd) buf (edit commands fs cwd buf h keys)
  unfolding edit
  edit-Echoed buf h [] k a r n = (refl, r)
  edit-Echoed buf h (key ∷ keys) k a r n =
      let s = press commands fs cwd buf h key in
      let narrow : Bytes → CommandHistory → Type 0 =
        λ buf1 h1. AllNarrow commands fs cwd buf1 h1 keys in
      and_edit-Echoed buf h s keys (λ buf1 h1. edit commands fs cwd buf1 h1 keys) narrow r n
        (press-Echoes buf h key k.0 a r (step_narrow (prompt_text cwd) s narrow n))
        (λ buf1 h1 a1 r1 n1. edit-Echoed buf1 h1 keys k.1 a1 r1 n1)

  -- Where the names of the commands and of the directory, the prompt, the lines of a valid history
  -- and the keys are printable ASCII (the line feed, the backspace and other control keys are
  -- allowed), and the text that each key leaves fits behind the prompt into the 80 columns,
  -- `read_line` does not panic. From the row with the prompt on, what it sends to the screen leaves
  -- there the prompt and its text, with the column behind it, while it waits and when a key ends the
  -- line, and the history stays valid and printable.
  pub read_line-Echoed :
      (h : CommandHistory) (keys : List KeyEvent)
      → All IsPlainKey keys
      → Ready h
      → AllNarrow commands fs cwd [] h keys
      → Echoed (prompt_text cwd) [] (read_line commands fs cwd h keys)
  unfolding read_line
  read_line-Echoed h keys k r n = edit-Echoed [] h keys k tt r n

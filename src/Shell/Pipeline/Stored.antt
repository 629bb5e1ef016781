-- ===== src/Shell/Pipeline/Stored.antt =====
-- What a command line with a redirected output leaves in the file system: src/shell/mod.rs.
use mathlib.Core.Path.{subst}
use polaros.Prelude.{
  ℕ, ◌≡◌, ◌≢◌, ◌⊎◌, ◌==◌, refl, ap, sym, ◌∙◌, inl, inr, Option-cases, Bool-cases, [], ◌∷◌, ◌++◌,
  append_assoc, true, false, Option, none, some, arith, if◌then◌else◌, Bytes,
}
use polaros.Fs.Name.{Name}
use polaros.Fs.RamFs.{DirPath, read, write, is_dir}
use polaros.Fs.RamFs.View.{Node, file_node, view, same}
use polaros.Fs.RamFs.Results.{has_dir, write_lem}
use polaros.Kernel.Syscall.{split}
use polaros.Shell.Line.{trim, is_nil}
use polaros.Shell.Commands.{Outside, State}
use polaros.Shell.Pipeline.{
  OutputMode, to_screen, to_file, append_to, Redirect, greater, less, pipe_char, run_parts,
  run_read, run_redirected, run_from, put_out, execute_expanded, appended, last_is, text_of, Shown,
}
use polaros.Shell.Pipeline.Redirections.{
  Lacks, line_of, trimmed, trimmed_mode, IsPlainInput, IsPlainMode, parse_redirections-line_of,
}

-- The input of the first command: nothing, or the file that the line names; `none` if it is missing.
abbrev pub input_of : {M : Type 0} → Option Bytes → State M → Option (Option Bytes)
input_of none s = some none
input_of (some i) s = elim (read s.fs s.cwd (trim i)) [
  | none ↦ none
  | some content ↦ some (some (text_of content))
]

-- What a file holds after ">>", for what it held before: the output alone, behind a content that ends
-- with a line feed, or in a line of its own behind another content.
pub data Appends (output : Bytes) : Option Bytes → Bytes → Type 0 where
  to_none : Appends output none output
  to_empty : Appends output (some []) output
  to_lines : (front : Bytes) → Appends output (some (front ++ (10 ∷ []))) (front ++ (10 ∷ output))
  to_open :
      (front : Bytes) (last : ℕ)
      → last ≢ 10
      → Appends output (some (front ++ (last ∷ []))) (front ++ (last ∷ 10 ∷ output))

-- What is written to a file, for a state behind the last command.
abbrev pub Stores : {M : Type 0} → OutputMode → Bytes → State M → Bytes → Type 0
Stores to_screen output s stored = Unit
Stores (to_file f) output s stored = stored ≡ output
Stores (append_to f) output s stored = Appends output (read s.fs s.cwd (trim f)) stored

-- What a place holds after it has been written.
abbrev pub stored_view : {M : Type 0} → OutputMode → Bytes → State M → DirPath → Name → Option Node
stored_view to_screen stored s q m = view s.fs.root q m
stored_view (to_file f) stored s q m =
    if same q m s.cwd (trim f) then some (file_node stored) else view s.fs.root q m
stored_view (append_to f) stored s q m =
    if same q m s.cwd (trim f) then some (file_node stored) else view s.fs.root q m

ends_open : (front : Bytes) (b : ℕ) → last_is 10 (front ++ (b ∷ [])) ≡ (b == 10)
ends_open [] b = refl
ends_open (c ∷ []) b = refl
ends_open (c ∷ d ∷ front) b = ends_open (d ∷ front) b

-- A text is empty or has a last byte.
unsnoc : (bs : Bytes) → (bs ≡ []) ⊎ ((front : Bytes) × (b : ℕ) × (bs ≡ front ++ (b ∷ [])))
unsnoc [] = inl refl
unsnoc (b ∷ bs) = elim (unsnoc bs) [
  | inl e ↦ inr ([], b, ap (λ r. b ∷ r) e)
  | inr (front, c, e) ↦ inr (b ∷ front, c, ap (λ r. b ∷ r) e)
]

filled : (front : Bytes) (b : ℕ) → is_nil (front ++ (b ∷ [])) ≡ false
filled [] b = refl
filled (c ∷ front) b = refl

appended-Appends : (old : Option Bytes) (output : Bytes) → Appends output old (appended old output)
appended-Appends none output = to_none
appended-Appends (some content) output = elim (unsnoc content) [
  | inl e ↦ subst (λ c. Appends output (some c) (appended (some c) output)) (sym e) to_empty
  | inr (front, b, e) ↦
      subst (λ c. Appends output (some c) (appended (some c) output)) (sym e)
        (elim (Bool-cases (b == 10)) [
          | inl t ↦
              let is_feed : b ≡ 10 = ground (arith, t) in
              rw (is_feed, filled front 10, ends_open front 10, append_assoc front (10 ∷ []) output)
                (to_lines front)
          | inr f ↦
              rw (filled front b, ends_open front b, f, append_assoc front (b ∷ []) (10 ∷ output))
                (to_open front b (λ p. cc (p, f)))
        ])
]

-- The text that the code writes.
written : {M : Type 0} → OutputMode → Bytes → State M → Bytes
written to_screen output s = []
written (to_file f) output s = output
written (append_to f) output s = appended (read s.fs s.cwd (trim f)) output

written-Stores :
    {M : Type 0} (mode : OutputMode) (output : Bytes) (s : State M)
    → Stores mode output s (written mode output s)
unfolding written
written-Stores to_screen output s = tt
written-Stores (to_file f) output s = refl
written-Stores (append_to f) output s = appended-Appends (read s.fs s.cwd (trim f)) output

-- The output can be written.
abbrev pub HasRoom : {M : Type 0} → OutputMode → State M → Type 0
HasRoom to_screen s = Unit
HasRoom (to_file f) s = (has_dir s.fs s.cwd ≡ true) × (is_dir s.fs s.cwd (trim f) ≡ false)
HasRoom (append_to f) s = (has_dir s.fs s.cwd ≡ true) × (is_dir s.fs s.cwd (trim f) ≡ false)

some_eq : (a b : Option Bytes) → some a ≡ some b → a ≡ b
some_eq a b h = ground (arith, h)

module _ {M : Type 0} (outside : Outside M) where
  write-view :
      (s : State M) (f b : Bytes) (q : DirPath) (m : Name)
      → has_dir s.fs s.cwd ≡ true
      → is_dir s.fs s.cwd f ≡ false
      → view (write s.fs s.cwd f b).1.root q m
        ≡ (if same q m s.cwd f then some (file_node b) else view s.fs.root q m)
  write-view s f b q m h d = let w = write_lem s.fs s.cwd f b q m in ground (arith, w.0, w.1, h, d)

  put_out-view :
      (mode : OutputMode) (output : Bytes) (s : State M) (q : DirPath) (m : Name)
      → HasRoom mode s
      → view (put_out outside (trimmed_mode mode) (some output) s).1.fs.root q m
        ≡ stored_view mode (written mode output s) s q m
  unfolding written
  put_out-view to_screen output s q m h = refl
  put_out-view (to_file f) output s q m h = write-view s (trim f) output q m h.0 h.1
  put_out-view (append_to f) output s q m h =
      write-view s (trim f) (appended (read s.fs s.cwd (trim f)) output) q m h.0 h.1

  run_redirected_lem :
      (p : Bytes) (i : Option Bytes) (mode : OutputMode) (pipe : Option Bytes) (s : State M)
      → input_of i s ≡ some pipe
      → run_redirected outside (p, record { input_file = trimmed i; output_mode = mode }) s
        ≡ run_from outside p mode pipe s
  run_redirected_lem p none mode pipe s h =
      ap (λ (o : Option Bytes). run_from outside p mode o s) (some_eq none pipe h)
  run_redirected_lem p (some i) mode pipe s h = elim (Option-cases (read s.fs s.cwd (trim i))) [
    | inl e ↦ absurd (ground (arith, e, h))
    | inr (content, e) ↦
        ap (λ (o : Option Bytes). run_read outside (trim i) o p mode s) e
        ∙ ap (λ (o : Option Bytes). run_from outside p mode o s)
            (some_eq (some (text_of content)) pipe (ground (arith, e, h)))
  ]

  execute_expanded_lem :
      (p : Bytes) (i : Option Bytes) (mode : OutputMode) (s s1 : State M) (pipe : Option Bytes)
      (output : Bytes)
      → Lacks less p
      → Lacks greater p
      → IsPlainInput i
      → IsPlainMode mode
      → trim (line_of p i mode) ≡ line_of p i mode
      → is_nil (line_of p i mode) ≡ false
      → input_of i s ≡ some pipe
      → run_parts outside (split pipe_char p) pipe s ≡ (some output, s1)
      → execute_expanded outside (line_of p i mode) s
        ≡ put_out outside (trimmed_mode mode) (some output) s1
  unfolding execute_expanded
  execute_expanded_lem p i mode s s1 pipe output hl hg hi hm at filled begins runs =
      rw (at, filled)
        (ap (λ (r : Bytes × Redirect). run_redirected outside r s)
            (parse_redirections-line_of p i mode hl hg hi hm)
          ∙ run_redirected_lem p i (trimmed_mode mode) pipe s begins
          ∙ ap (λ (r : Option Bytes × State M). put_out outside (trimmed_mode mode) r.0 r.1) runs)

  -- Given is a line that runs `p` with its input from a file or not, and its output to a file by '>' or
  -- ">>" or to the screen; it is not empty and has no blanks around it, `p` holds no redirection, and
  -- the files' names are not blank and hold no pipe and no redirection that would be read otherwise. If
  -- the input is there, `p` ends with an output, and the directory that the shell is in by then exists
  -- and does not hold a directory of the file's name, then the file holds the output behind '>'; behind
  -- ">>" it holds what it held and the output, with a line feed between the two if what it held is not
  -- empty and does not end with one. All other places are as `p` left them.
  pub execute_expanded-view :
      (p : Bytes) (i : Option Bytes) (mode : OutputMode) (s s1 : State M) (pipe : Option Bytes)
      (output : Bytes) (q : DirPath) (m : Name)
      → Lacks less p
      → Lacks greater p
      → IsPlainInput i
      → IsPlainMode mode
      → trim (line_of p i mode) ≡ line_of p i mode
      → is_nil (line_of p i mode) ≡ false
      → input_of i s ≡ some pipe
      → run_parts outside (split pipe_char p) pipe s ≡ (some output, s1)
      → HasRoom mode s1
      → (stored : Bytes) × Stores mode output s1 stored
        × (view (execute_expanded outside (line_of p i mode) s).1.fs.root q m
            ≡ stored_view mode stored s1 q m)
  execute_expanded-view p i mode s s1 pipe output q m hl hg hi hm at filled begins runs room = (
    written mode output s1,
    written-Stores mode output s1,
    ap (λ (r : Shown × State M). view r.1.fs.root q m)
          (execute_expanded_lem p i mode s s1 pipe output hl hg hi hm at filled begins runs)
        ∙ put_out-view mode output s1 q m room,
  )

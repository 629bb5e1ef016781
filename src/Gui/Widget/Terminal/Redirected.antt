-- ===== src/Gui/Widget/Terminal/Redirected.antt =====
-- The two copies of `parse_redirections`, of src/shell/mod.rs and of src/gui/widget/terminal.rs: where
-- they agree, and where they do not.
use polaros.Prelude.{
  ◌≡◌, refl, ap, sym, ◌∙◌, true, false, Option, none, some, [], ◌∷◌, ◌++◌, append-nil, Bytes, arith,
}
use polaros.Shell.Line.{trim, rfind, is_nil}
use polaros.Shell.Pipeline
use polaros.Shell.Pipeline.{
  OutputMode, to_screen, to_file, append_to, Redirect, greater, less, pipe_char, has_byte,
  is_target,
}
use polaros.Shell.Pipeline.Redirections.{
  Lacks, front_of, line_of, trimmed, trimmed_mode, IsPlainInput, IsPlainMode,
  parse_redirections-line_of, rfind-none, rfind_last, rfind_two_none, rfind_two_one, rfind_two_last,
  is_target-trim, front_of-Lacks, Lacks-append,
}
use polaros.Gui.Widget.Terminal.{parse_redirections, source_of, or_write, target_of}

source_of_lem :
    (p : Bytes) (i : Option Bytes) (mode : OutputMode)
    → Lacks less p
    → IsPlainInput i
    → source_of (front_of p i) mode (rfind (less ∷ []) (front_of p i))
      ≡ (p, record { input_file = trimmed i; output_mode = mode })
source_of_lem p none mode h k = ap (source_of p mode) (rfind-none less p h)
source_of_lem p (some i) mode h k =
    ap (source_of (p ++ (less ∷ i)) mode) (rfind_last less p i k.0) ∙ rw k.3 refl

-- What the searches for the output give.
output_lem :
    (p : Bytes) (i : Option Bytes) (mode : OutputMode)
    → Lacks greater p
    → IsPlainInput i
    → IsPlainMode mode
    → or_write (line_of p i mode) (rfind (greater ∷ greater ∷ []) (line_of p i mode))
      ≡ (front_of p i, trimmed_mode mode)
output_lem p i to_screen hg hi hm =
    let front = front_of p i in
    let free = front_of-Lacks p i hg hi in
    ap (λ (l : Bytes). or_write l (rfind (greater ∷ greater ∷ []) l)) (append-nil front)
    ∙ ap (or_write front) (rfind_two_none greater front free)
    ∙ ap (λ (o : Option (Bytes × Bytes)). target_of front o 1 to_file)
        (rfind-none greater front free)
output_lem p i (to_file f) hg hi hm =
    let front = front_of p i in
    let line = front ++ (greater ∷ f) in
    let free = front_of-Lacks p i hg hi in
    ap (or_write line) (rfind_two_one greater front f free hm.0)
    ∙ ap (λ (o : Option (Bytes × Bytes)). target_of line o 1 to_file)
        (rfind_last greater front f hm.0)
    ∙ rw (is_target-trim f hm.1 hm.2) refl
output_lem p i (append_to f) hg hi hm =
    let front = front_of p i in
    let line = front ++ (greater ∷ greater ∷ f) in
    ap (or_write line) (rfind_two_last greater front f hm.0) ∙ rw (is_target-trim f hm.1 hm.2) refl

-- On a line that is written as what runs, '<' and a file, and '>' or ">>" and a file, the
-- redirections as wanted, the terminal and the shell agree, if what runs holds no '<' and no '>',
-- the input's name no '<', no '>' and no pipe, the output's name no '>' and no pipe, and no name is
-- blank.
pub parse_redirections_same :
    (p : Bytes) (i : Option Bytes) (mode : OutputMode)
    → Lacks less p
    → Lacks greater p
    → IsPlainInput i
    → IsPlainMode mode
    → parse_redirections (line_of p i mode) ≡ Pipeline.parse_redirections (line_of p i mode)
unfolding parse_redirections
parse_redirections_same p i mode hl hg hi hm =
    ap (λ (r : Bytes × OutputMode). source_of r.0 r.1 (rfind (less ∷ []) r.0))
      (output_lem p i mode hg hi hm)
    ∙ source_of_lem p i (trimmed_mode mode) hl hi
    ∙ sym (parse_redirections-line_of p i mode hl hg hi hm)

filled_lem : (bs : Bytes) → has_byte pipe_char bs ≡ true → is_nil bs ≡ false
filled_lem [] h = cc
filled_lem (b ∷ bs) h = refl

-- On a line that reads its input from a file and has a pipe behind the file's name, as "cat < a |
-- wc", with no other '<' and no '>', the terminal and the shell do not agree: the shell finds no
-- redirection, and the terminal takes the rest of the line, with the pipe, for the name of the
-- file.
pub parse_redirections_differ :
    (p i : Bytes)
    → Lacks less p
    → Lacks greater p
    → Lacks less i
    → Lacks greater i
    → has_byte pipe_char (trim i) ≡ true
    → (Pipeline.parse_redirections (p ++ (less ∷ i))
        ≡ (p ++ (less ∷ i), record { input_file = none; output_mode = to_screen }))
      × (parse_redirections (p ++ (less ∷ i))
          ≡ (p, record { input_file = some (trim i); output_mode = to_screen }))
unfolding parse_redirections Pipeline.parse_redirections Pipeline.parse_write Pipeline.parse_input
parse_redirections_differ p i pl pg il ig pipe =
    let line = p ++ (less ∷ i) in
    let free = Lacks-append greater p (less ∷ i) pg ig in
    let no_target : is_target (trim i) ≡ false = ground (arith, pipe) in
    let filled : is_nil (trim i) ≡ false = filled_lem (trim i) pipe in
    (
      ap (Pipeline.append_at line) (rfind_two_none greater line free)
          ∙ ap (Pipeline.write_at line) (rfind-none greater line free)
          ∙ ap (Pipeline.input_only line) (rfind_last less p i il)
          ∙ rw no_target refl,
      ap (λ (r : Bytes × OutputMode). source_of r.0 r.1 (rfind (less ∷ []) r.0))
            (ap (or_write line) (rfind_two_none greater line free)
              ∙ ap (λ (o : Option (Bytes × Bytes)). target_of line o 1 to_file)
                  (rfind-none greater line free))
          ∙ ap (source_of line to_screen) (rfind_last less p i il)
          ∙ rw filled refl,
    )

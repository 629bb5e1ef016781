-- ===== src/Shell/Inspect/Matching.antt =====
-- Which lines grep of src/shell/commands.rs puts out.
use polaros.Prelude.{
  ℕ, ◌≡◌, refl, text, Option, some, ap, sym, ◌∙◌, inl, inr, Bool-cases, Bool, true, false, ◌||◌,
  List, [], ◌∷◌, ◌++◌, Bytes, arith,
}
use polaros.Shell.Line.{has_prefix, has_text}
use polaros.Fs.RamFs.{RamFs, DirPath}
use polaros.Shell.Line.{split_whitespace, first, second, is_nil}
use polaros.Shell.Files.{quoted}
use polaros.Shell.Text.{input_text, read_text_input, lines}
use polaros.Shell.Text.Joined.{between, trim-joined}
use polaros.Shell.Inspect.{matching_lines, grep_text, cmd_grep}

-- The pattern stands somewhere in the text.
abbrev pub Occurs : Bytes → Bytes → Type 0
Occurs pattern bs = (before : Bytes) × (after : Bytes) × (bs ≡ before ++ (pattern ++ after))

prefix-append : (p after : Bytes) → has_prefix p (p ++ after) ≡ true
prefix-append [] after = refl
prefix-append (x ∷ p) after = ground (arith, prefix-append p after)

prefix_rest : (p bs : Bytes) → has_prefix p bs ≡ true → (after : Bytes) × (bs ≡ p ++ after)
prefix_rest [] bs h = (bs, refl)
prefix_rest (x ∷ p) [] h = cc
prefix_rest (x ∷ p) (b ∷ bs) h =
    let r = prefix_rest p bs (ground (arith, h)) in
    let same : x ≡ b = ground (arith, h) in (r.0, λ i. sym same i ∷ r.1 i)

has_text_here : (p after : Bytes) → has_text p (p ++ after) ≡ true
unfolding has_text
has_text_here [] [] = refl
has_text_here [] (b ∷ after) = refl
has_text_here (x ∷ p) after = ground (arith, prefix-append (x ∷ p) after)

or_true : (a b : Bool) → b ≡ true → (a || b) ≡ true
or_true true b h = refl
or_true false b h = h

has_text_behind : (p before after : Bytes) → has_text p (before ++ (p ++ after)) ≡ true
unfolding has_text
has_text_behind p [] after = has_text_here p after
has_text_behind p (b ∷ before) after =
    let ih = has_text_behind p before after in
    or_true (has_prefix p (b ∷ (before ++ (p ++ after)))) (has_text p (before ++ (p ++ after))) ih

text-Occurs : (p bs : Bytes) → has_text p bs ≡ true → Occurs p bs
unfolding has_text
text-Occurs [] [] h = ([], [], refl)
text-Occurs (x ∷ p) [] h = cc
text-Occurs p (b ∷ bs) h = elim (Bool-cases (has_prefix p (b ∷ bs))) [
  | inl t ↦ let r = prefix_rest p (b ∷ bs) t in ([], r.0, r.1)
  | inr f ↦
      let (before, after, e) = text-Occurs p bs (ground (arith, f, h)) in
      (b ∷ before, after, ap (λ l. b ∷ l) e)
]

-- The lines that are left of some: those with the pattern in them, each as often as it is there and in
-- the same order.
pub data Picks (pattern : Bytes) : List Bytes → List Bytes → Type 0 where
  end : Picks pattern [] []
  picked :
      {l : Bytes} {ls found : List Bytes}
      → Occurs pattern l
      → Picks pattern ls found
      → Picks pattern (l ∷ ls) (l ∷ found)
  passed :
      {l : Bytes} {ls found : List Bytes}
      → ¬ Occurs pattern l
      → Picks pattern ls found
      → Picks pattern (l ∷ ls) found

Occurs-has_text : (pattern l : Bytes) → Occurs pattern l → has_text pattern l ≡ true
Occurs-has_text pattern l (before, after, e) =
    ap (has_text pattern) e ∙ has_text_behind pattern before after

matching_lines-Picks :
    (pattern : Bytes) (ls : List Bytes) → Picks pattern ls (matching_lines pattern ls)
unfolding matching_lines
matching_lines-Picks pattern [] = end
matching_lines-Picks pattern (l ∷ ls) = elim (Bool-cases (has_text pattern l)) [
  | inl t ↦ rw t (picked (text-Occurs pattern l t) (matching_lines-Picks pattern ls))
  | inr f ↦ rw f (
      passed (λ o. absurd (ground (arith, f, Occurs-has_text pattern l o)))
        (matching_lines-Picks pattern ls))
]

Picks-first :
    (pattern : Bytes) (ls : List Bytes) (l : Bytes) (found : List Bytes)
    → Picks pattern ls (l ∷ found)
    → Occurs pattern l
Picks-first pattern ls l found (picked o h) = o
Picks-first pattern ls l found (passed {ls = rest} without h) = Picks-first pattern rest l found h

Occurs-filled : (b : ℕ) (pattern l : Bytes) → Occurs (b ∷ pattern) l → is_nil l ≡ false
Occurs-filled b pattern [] ([], after, e) = cc e
Occurs-filled b pattern [] (c ∷ before, after, e) = cc e
Occurs-filled b pattern (c ∷ l) o = refl

-- What grep puts out for a pattern and the text that it reads.
abbrev pub Output : Bytes → List Bytes → Bytes
Output pattern [] = quoted (text "Brak wynikow dla ") pattern (text ".")
Output pattern (l ∷ ls) = between (l ∷ ls)

between_filled :
    (b : ℕ) (pattern : Bytes) (ls : List Bytes) (l : Bytes) (found : List Bytes)
    → Picks (b ∷ pattern) ls (l ∷ found)
    → is_nil (between (l ∷ found)) ≡ false
between_filled b pattern ls [] found h =
    absurd (cc (Occurs-filled b pattern [] (Picks-first _ ls [] found h)))
between_filled b pattern ls (c ∷ l) [] h = refl
between_filled b pattern ls (c ∷ l) (m ∷ found) h = refl

grep_text-Output :
    (b : ℕ) (pattern content : Bytes) (found : List Bytes)
    → matching_lines (b ∷ pattern) (lines content) ≡ found
    → Picks (b ∷ pattern) (lines content) found
    → grep_text (b ∷ pattern) (input_text content) ≡ Output (b ∷ pattern) found
grep_text-Output b pattern content [] e h = rw (e, trim-joined []) refl
grep_text-Output b pattern content (l ∷ found) e h =
    rw (e, trim-joined (l ∷ found), between_filled b pattern (lines content) l found h) refl

-- grep with a pattern and a text to read, from a pipe or a file, puts out the lines in which the pattern
-- stands somewhere, each as often as it is there and in the same order, with a line feed between each two,
-- or that it found none.
pub cmd_grep_lem :
    (args : Bytes) (fs : RamFs) (cwd : DirPath) (pipe : Option Bytes) (b : ℕ)
    (pattern content : Bytes)
    → first (split_whitespace args) ≡ some (b ∷ pattern)
    → read_text_input fs pipe (second (split_whitespace args)) cwd ≡ input_text content
    → (found : List Bytes) × Picks (b ∷ pattern) (lines content) found
      × (cmd_grep args fs cwd pipe ≡ Output (b ∷ pattern) found)
unfolding cmd_grep
cmd_grep_lem args fs cwd pipe b pattern content named reads =
    let found = matching_lines (b ∷ pattern) (lines content) in
    let h = matching_lines-Picks (b ∷ pattern) (lines content) in
    (found, h, rw (named, reads) (grep_text-Output b pattern content found refl h))

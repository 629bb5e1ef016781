-- ===== src/Shell/Text/Piped.antt =====
-- The output of `cmd_sort` of src/shell/commands.rs as the input of `cmd_uniq`.
use Prim.Native.Nat.{Ordering}
use polaros.Prelude.{
  ◌≡◌, refl, ◌∙◌, ap, sym, inl, inr, Bool-cases, true, false, Option, none, some, List, [], ◌∷◌,
  All, Bytes, arith,
}
use mathlib.Core.Path.{subst}
use polaros.Fs.Name.{cmp, name_eq, eq-cmp}
use polaros.Shell.Line.{is_nil}
use polaros.Shell.Text.{
  input_text, printed, lines, insert_line, sort, uniq_from, with_lines, joined,
  trim_trailing_newline, cmd_sort, cmd_uniq,
}
use polaros.Shell.Text.Joined.{between, trim-joined}
use polaros.Shell.Text.Order.{
  leq, Sorted, sort-Sorted, insert_line_cases, Ascending, uniq-Ascending, holds, holds-sort,
  holds-uniq,
}
use polaros.Shell.Text.Pieces.{AllInner, Ends, lines-between, NoReturn, lines-AllInner}

module _ (P : Bytes → Type 0) where
  All-insert : (l : Bytes) (ms : List Bytes) → P l → All P ms → All P (insert_line l ms)
  All-insert l [] p h = (p, tt)
  All-insert l (m ∷ ms) p h = elim (insert_line_cases l m ms) [
    | inl (before, e) ↦ rw (e, All) (p, h)
    | inr (after, e) ↦ rw (e, All) (h.0, All-insert l ms p h.1)
  ]

  All-sort : (ls : List Bytes) → All P ls → All P (sort ls)
  All-sort [] h = tt
  All-sort (l ∷ ls) h = All-insert l (sort ls) h.0 (All-sort ls h.1)

  All-uniq : (prev : Option Bytes) (ls : List Bytes) → All P ls → All P (uniq_from prev ls)
  unfolding uniq_from
  All-uniq none [] h = tt
  All-uniq (some p) [] h = tt
  All-uniq none (l ∷ ls) h = (h.0, All-uniq (some l) ls h.1)
  All-uniq (some p) (l ∷ ls) h =
      let same = All-uniq (some p) ls h.1 in
      let other = All-uniq (some l) ls h.1 in
      elim (Bool-cases (name_eq p l)) [ inl e ↦ rw e same | inr e ↦ rw e (h.0, other) ]

-- What comes behind a line that is not empty is not empty.
leq-nonempty : (l m : Bytes) → leq l m ≡ true → is_nil l ≡ false → is_nil m ≡ false
unfolding cmp
leq-nonempty [] m h e = absurd (cc e)
leq-nonempty (b ∷ l) [] h e = absurd (cc h)
leq-nonempty (b ∷ l) (c ∷ m) h e = refl

nonempty-eq : (a l : Bytes) → name_eq a l ≡ true → is_nil a ≡ false → is_nil l ≡ false
nonempty-eq a l h e =
    let same : a ≡ l = eq-cmp a l (ground arith) in subst (λ m. is_nil m ≡ false) same e

-- Lines in order that begin with one that is not empty end with one.
first-Ends : (l : Bytes) (ls : List Bytes) → is_nil l ≡ false → Sorted (l ∷ ls) → Ends (l ∷ ls)
first-Ends l [] e s = e
first-Ends l (m ∷ ls) e s = first-Ends m ls (leq-nonempty l m s.0.0 e) s.1

-- If a line that is not empty stands among lines in order, the last is not empty.
Sorted-Ends :
    (a : Bytes) (ls : List Bytes) → is_nil a ≡ false → Sorted ls → holds a ls ≡ true → Ends ls
Sorted-Ends a [] e s h = tt
Sorted-Ends a (l ∷ []) e s h = nonempty-eq a l (ground arith) e
Sorted-Ends a (l ∷ m ∷ ls) e s h = elim (Bool-cases (name_eq a l)) [
  | inl t ↦ first-Ends l (m ∷ ls) (nonempty-eq a l t e) s
  | inr f ↦ Sorted-Ends a (m ∷ ls) e s.1 (ground arith)
]

All-lt-leq :
    (l : Bytes) (ls : List Bytes)
    → All (λ m. cmp l m ≡ Ordering.lt) ls
    → All (λ m. leq l m ≡ true) ls
All-lt-leq l [] h = tt
All-lt-leq l (m ∷ ls) h = (rw (h.0, leq) refl, All-lt-leq l ls h.1)

Ascending-Sorted : (ls : List Bytes) → Ascending ls → Sorted ls
Ascending-Sorted [] h = tt
Ascending-Sorted (l ∷ ls) h = (All-lt-leq l ls h.0, Ascending-Sorted ls h.1)

-- For a text without carriage returns that has a line which is not empty, `cmd_uniq` behind
-- `cmd_sort` puts out a text whose lines are in strictly ascending order, so each of them once, and
-- are exactly the lines of the text.
pub cmd_uniq-cmd_sort :
    (content a : Bytes)
    → NoReturn content
    → is_nil a ≡ false
    → holds a (lines content) ≡ true
    → (out : Bytes) × (out1 : Bytes) × (cmd_sort (input_text content) ≡ printed out)
      × (cmd_uniq (some out) ≡ printed out1)
      × Ascending (lines out1)
      × ((l : Bytes) → holds l (lines out1) ≡ holds l (lines content))
unfolding cmd_sort cmd_uniq with_lines
cmd_uniq-cmd_sort content a r e h =
    let ls = lines content in
    let inner = All-sort AllInner ls (lines-AllInner content r) in
    let ends = Sorted-Ends a (sort ls) e (sort-Sorted ls) (holds-sort a ls ∙ h) in
    let us = uniq_from none (sort ls) in
    let again : lines (between (sort ls)) ≡ sort ls = lines-between (sort ls) inner ends in
    let ascends = uniq-Ascending (sort ls) (sort-Sorted ls) in
    let kept = λ (l : Bytes). holds-uniq l (sort ls) ∙ holds-sort l ls in
    let last : lines (between us) ≡ us =
      lines-between us (All-uniq AllInner none (sort ls) inner)
        (Sorted-Ends a us e (Ascending-Sorted us ascends) (kept a ∙ h)) in
    (
      between (sort ls),
      between us,
      ap printed (trim-joined (sort ls)),
      ap printed (
          ap (λ (m : List Bytes). trim_trailing_newline (joined (uniq_from none m))) again
          ∙ trim-joined us),
      subst Ascending (sym last) ascends,
      λ l. ap (holds l) last ∙ kept l,
    )

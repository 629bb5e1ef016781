-- ===== src/Shell/Text/Pieces.antt =====
-- The lines of a text that the commands of src/shell/commands.rs put together.
use polaros.Prelude.{
  ℕ, ◌≡◌, refl, ap, ◌∙◌, inl, inr, Bool-cases, false, List, [], ◌∷◌, ◌++◌, ◌==◌, All, Bytes,
}
use polaros.Shell.Line.{is_nil}
use polaros.Kernel.Syscall.{split, into_first}
use polaros.Shell.Text.{strip_return, closed_lines, lines}
use polaros.Shell.Text.Joined.{between}

-- A byte that ends no line.
abbrev pub IsInner : ℕ → Type 0
IsInner b = ((b == 10) ≡ false) × ((b == 13) ≡ false)

abbrev pub AllInner : Bytes → Type 0
AllInner l = All IsInner l

strip_inner : (l : Bytes) → AllInner l → strip_return l ≡ l
strip_inner [] h = refl
strip_inner (b ∷ []) h = rw (h.0.1) refl
strip_inner (b ∷ c ∷ l) h = ap (λ (r : Bytes). b ∷ r) (strip_inner (c ∷ l) h.1)

split-inner : (l : Bytes) → AllInner l → split 10 l ≡ l ∷ []
unfolding split
split-inner [] h = refl
split-inner (b ∷ l) h = rw (h.0.0, split-inner l h.1) refl

split-line : (l bs : Bytes) → AllInner l → split 10 (l ++ (10 ∷ bs)) ≡ l ∷ split 10 bs
unfolding split
split-line [] bs h = refl
split-line (b ∷ l) bs h = rw (h.0.0, split-line l bs h.1) refl

-- The last line is not empty.
abbrev pub Ends : List Bytes → Type 0
Ends [] = Unit
Ends (l ∷ []) = is_nil l ≡ false
Ends (l ∷ m ∷ ls) = Ends (m ∷ ls)

closed_last : (l : Bytes) → is_nil l ≡ false → closed_lines (l ∷ []) ≡ l ∷ []
closed_last [] h = absurd (cc h)
closed_last (b ∷ l) h = refl

split-between :
    (l : Bytes) (ls : List Bytes) → All AllInner (l ∷ ls) → split 10 (between (l ∷ ls)) ≡ l ∷ ls
split-between l [] h = split-inner l h.0
split-between l (m ∷ ls) h =
    split-line l (between (m ∷ ls)) h.0 ∙ ap (λ (r : List Bytes). l ∷ r) (split-between m ls h.1)

closed_inner : (ls : List Bytes) → All AllInner ls → Ends ls → closed_lines ls ≡ ls
closed_inner [] h e = refl
closed_inner (l ∷ []) h e = closed_last l e
closed_inner (l ∷ m ∷ ls) h e = rw (strip_inner l h.0, closed_inner (m ∷ ls) h.1 e) refl

pub lines-between : (ls : List Bytes) → All AllInner ls → Ends ls → lines (between ls) ≡ ls
unfolding lines
lines-between [] h e = rw (split-inner [] tt) refl
lines-between (l ∷ ls) h e = ap closed_lines (split-between l ls h) ∙ closed_inner (l ∷ ls) h e

-- No carriage return.
abbrev pub NoReturn : Bytes → Type 0
NoReturn content = All (λ (b : ℕ). (b == 13) ≡ false) content

into_first-AllInner :
    (b : ℕ) (ls : List Bytes) → IsInner b → All AllInner ls → All AllInner (into_first b ls)
into_first-AllInner b [] i h = ((i, tt), tt)
into_first-AllInner b (l ∷ ls) i h = ((i, h.0), h.1)

split-AllInner : (content : Bytes) → NoReturn content → All AllInner (split 10 content)
unfolding split
split-AllInner [] h = (tt, tt)
split-AllInner (b ∷ content) h =
    let rest = split-AllInner content h.1 in
    elim (Bool-cases (b == 10)) [
      | inl e ↦ rw e (tt, rest)
      | inr e ↦ rw e (into_first-AllInner b (split 10 content) (e, h.0) rest)
    ]

closed_lines-AllInner : (ls : List Bytes) → All AllInner ls → All AllInner (closed_lines ls)
closed_lines-AllInner [] h = tt
closed_lines-AllInner ([] ∷ []) h = tt
closed_lines-AllInner ((b ∷ l) ∷ []) h = h
closed_lines-AllInner (l ∷ m ∷ ls) h =
    let rest = closed_lines-AllInner (m ∷ ls) h.1 in rw (strip_inner l h.0) (h.0, rest)

pub lines-AllInner : (content : Bytes) → NoReturn content → All AllInner (lines content)
unfolding lines
lines-AllInner content h = closed_lines-AllInner (split 10 content) (split-AllInner content h)

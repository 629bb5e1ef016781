-- ===== src/Shell/Text/Joined.antt =====
-- What the commands of src/shell/commands.rs put out for a list of lines.
use polaros.Prelude.{ℕ, ◌≡◌, refl, ap, ◌∙◌, List, [], ◌∷◌, ◌++◌, append-nil, Bytes}
use polaros.Shell.Text.{trim_trailing_newline, joined}

-- Lines with a line feed between each two.
abbrev pub between : List Bytes → Bytes
between [] = []
between (l ∷ []) = l
between (l ∷ m ∷ ls) = l ++ (10 ∷ between (m ∷ ls))

trim-append :
    (l : Bytes) (b : ℕ) (bs : Bytes)
    → trim_trailing_newline (l ++ (b ∷ bs)) ≡ l ++ trim_trailing_newline (b ∷ bs)
unfolding trim_trailing_newline
trim-append [] b bs = refl
trim-append (c ∷ []) b bs = refl
trim-append (c ∷ d ∷ l) b bs = ap (λ r. c ∷ r) (trim-append (d ∷ l) b bs)

trim-cons :
    (m : Bytes) (ls : List Bytes)
    → trim_trailing_newline (10 ∷ joined (m ∷ ls)) ≡ 10 ∷ trim_trailing_newline (joined (m ∷ ls))
unfolding trim_trailing_newline
trim-cons [] ls = refl
trim-cons (b ∷ m) ls = refl

pub trim-joined : (ls : List Bytes) → trim_trailing_newline (joined ls) ≡ between ls
unfolding trim_trailing_newline
trim-joined [] = refl
trim-joined (l ∷ []) = trim-append l 10 [] ∙ append-nil l
trim-joined (l ∷ m ∷ ls) =
    trim-append l 10 (joined (m ∷ ls))
    ∙ ap (λ r. l ++ r) (trim-cons m ls ∙ ap (λ r. 10 ∷ r) (trim-joined (m ∷ ls)))

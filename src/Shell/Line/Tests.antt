-- ===== src/Shell/Line/Tests.antt =====
-- The texts at concrete inputs.
use polaros.Prelude.{◌≡◌, refl, none, some, [], ◌∷◌, text}
use polaros.Shell.Line.{trim, split_whitespace, split_once, rfind, decimal, parse_usize}

trims : trim (0xE2 ∷ 0x80 ∷ 0x83 ∷ 32 ∷ 97 ∷ 32 ∷ 98 ∷ 0xC2 ∷ 0xA0 ∷ 10 ∷ []) ≡ text "a b"
unfolding trim
trims = refl

splits : split_whitespace (text "  one  two ") ≡ text "one" ∷ text "two" ∷ []
unfolding split_whitespace
splits = refl

cuts : split_once 32 (text "a b c") ≡ some (text "a", text "b c")
unfolding split_once
cuts = refl

finds : rfind (text ">>") (text "a >> b >> c") ≡ some (text "a >> b ", text ">> c")
unfolding rfind
finds = refl

prints : decimal 1024 ≡ text "1024"
unfolding decimal
prints = refl

parses : parse_usize (text "+10") ≡ some 10
unfolding parse_usize
parses = refl

parses_not : parse_usize (text "18446744073709551616") ≡ none
unfolding parse_usize
parses_not = refl

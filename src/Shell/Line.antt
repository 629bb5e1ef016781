-- ===== src/Shell/Line.antt =====
-- How src/shell takes texts apart: `trim`, `split_whitespace`, `split_once`, `rfind`, `contains`,
-- `parse` and `format!` of numbers, on the bytes of a text that is UTF-8.
mod Tests
use polaros.Prelude.{
  ℕ, zero, suc, ◌+◌, ◌-◌, ◌*◌, ◌/◌, ◌%◌, ◌^◌, Bool, true, false, not, ◌&&◌, ◌||◌, ltb, leb, ◌==◌,
  if◌then◌else◌, Option, none, some, List, [], ◌∷◌, ◌++◌, Bytes, text,
}
use polaros.Fs.Name.{Name}

-- `char::is_whitespace`, by the bytes: those of ASCII, U+0085 and U+00A0, and U+1680,
-- U+2000 to U+200A, U+2028, U+2029, U+202F, U+205F and U+3000.
abbrev pub ascii_white : ℕ → Bool
ascii_white a = (leb 9 a && leb a 13) || a == 32

abbrev pub white_two : ℕ → Bytes → Bool
white_two a [] = false
white_two a (b ∷ bs) = a == 0xC2 && (b == 0x85 || b == 0xA0)

abbrev pub is_white_three : ℕ → ℕ → ℕ → Bool
is_white_three a b c =
    (a == 0xE1 && b == 0x9A && c == 0x80)
    || (a == 0xE2
        && b == 0x80
        && ((leb 0x80 c && leb c 0x8A) || c == 0xA8 || c == 0xA9 || c == 0xAF))
    || (a == 0xE2 && b == 0x81 && c == 0x9F)
    || (a == 0xE3 && b == 0x80 && c == 0x80)

abbrev pub white_three : ℕ → Bytes → Bool
white_three a [] = false
white_three a (b ∷ []) = false
white_three a (b ∷ c ∷ bs) = is_white_three a b c

-- How many bytes the whitespace has that stands first, if any does.
unfoldable pub white_len : Bytes → ℕ
white_len [] = 0
white_len (a ∷ bs) =
    if ascii_white a then 1 else if white_two a bs then 2 else if white_three a bs then 3 else 0

-- In these, `k` bytes are left of a whitespace that has been found.
unfoldable pub trim_start_from : ℕ → Bytes → Bytes
unfolding white_len
trim_start_from k [] = []
trim_start_from (suc k) (b ∷ bs) = trim_start_from k bs
trim_start_from zero (b ∷ bs) =
    let n = white_len (b ∷ bs) in
    let rest = trim_start_from (n - 1) bs in if n == 0 then b ∷ bs else rest

abbrev pub is_nil : Bytes → Bool
is_nil [] = true
is_nil (b ∷ bs) = false

unfoldable pub trim_end_from : ℕ → Bytes → Bytes
unfolding white_len
trim_end_from k [] = []
trim_end_from (suc k) (b ∷ bs) =
    let rest = trim_end_from k bs in if is_nil rest then [] else b ∷ rest
trim_end_from zero (b ∷ bs) =
    let n = white_len (b ∷ bs) in
    let rest = trim_end_from (n - 1) bs in if not (n == 0) && is_nil rest then [] else b ∷ rest

unfoldable pub trim : Bytes → Bytes
unfolding trim_start_from trim_end_from
trim bytes = trim_end_from 0 (trim_start_from 0 bytes)

-- A word that is not empty, and the words behind it.
abbrev pub and_word : Bytes → List Bytes → List Bytes
and_word [] words = words
and_word (b ∷ bs) words = (b ∷ bs) ∷ words

-- `word` is the word up to here.
unfoldable pub words_from : ℕ → Bytes → Bytes → List Bytes
unfolding white_len
words_from k word [] = and_word word []
words_from (suc k) word (b ∷ bs) = words_from k word bs
words_from zero word (b ∷ bs) =
    let n = white_len (b ∷ bs) in
    let further = words_from 0 (word ++ (b ∷ [])) bs in
    let behind = words_from (n - 1) [] bs in if n == 0 then further else and_word word behind

unfoldable pub split_whitespace : Bytes → List Bytes
unfolding words_from
split_whitespace bytes = words_from 0 [] bytes

abbrev pub first : List Bytes → Option Bytes
first [] = none
first (w ∷ ws) = some w

abbrev pub second : List Bytes → Option Bytes
second [] = none
second (w ∷ ws) = first ws

-- What stands before the first `sep` and behind it.
abbrev pub before_first : ℕ → Option (Bytes × Bytes) → Option (Bytes × Bytes)
before_first b none = none
before_first b (some (before, after)) = some (b ∷ before, after)

unfoldable pub split_once : ℕ → Bytes → Option (Bytes × Bytes)
split_once sep [] = none
split_once sep (b ∷ bs) =
    let rest = before_first b (split_once sep bs) in if b == sep then some ([], bs) else rest

-- The text begins with `pattern`.
abbrev pub has_prefix : Bytes → Bytes → Bool
has_prefix [] bytes = true
has_prefix (p ∷ ps) [] = false
has_prefix (p ∷ ps) (b ∷ bs) = p == b && has_prefix ps bs

-- `contains(pattern)`
unfoldable pub has_text : Bytes → Bytes → Bool
has_text pattern [] = is_nil pattern
has_text pattern (b ∷ bs) = has_prefix pattern (b ∷ bs) || has_text pattern bs

-- `rfind(pattern)`: what stands before its last place, and what stands from there on.
abbrev pub rfind_here : Bool → ℕ → Bytes → Option (Bytes × Bytes) → Option (Bytes × Bytes)
rfind_here here b bs (some (before, after)) = some (b ∷ before, after)
rfind_here here b bs none = if here then some ([], b ∷ bs) else none

unfoldable pub rfind : Bytes → Bytes → Option (Bytes × Bytes)
rfind pattern [] = none
rfind pattern (b ∷ bs) = rfind_here (has_prefix pattern (b ∷ bs)) b bs (rfind pattern bs)

-- `{}` of a number below 2 ^ 64, which has at most 20 digits.
abbrev pub digits : ℕ → ℕ → Bytes
digits zero n = []
digits (suc fuel) n =
    let rest = digits fuel (n / 10) in
    if ltb n 10 then (48 + n) ∷ [] else rest ++ ((48 + n % 10) ∷ [])

unfoldable pub decimal : ℕ → Bytes
decimal n = digits 20 n

-- `parse::<usize>()`: a sign '+' may stand first, digits follow, and the value fits in 64 bits.
abbrev pub value_from : ℕ → Bytes → Option ℕ
value_from n [] = some n
value_from n (b ∷ bs) =
    let rest = value_from (10 * n + (b - 48)) bs in
    if leb 48 b && leb b 57 && ltb (10 * n + (b - 48)) (2 ^ 64) then rest else none

abbrev pub without_plus : Bytes → Bytes
without_plus [] = []
without_plus (b ∷ bs) = if b == 43 then bs else b ∷ bs

unfoldable pub parse_usize : Bytes → Option ℕ
parse_usize bytes = let body = without_plus bytes in if is_nil body then none else value_from 0 body

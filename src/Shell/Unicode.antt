-- ===== src/Shell/Unicode.antt =====
-- Texts as bytes and as characters: what `String::push`, `pop` and `chars` do, and with them
-- `expand_env_vars` of src/shell/commands.rs on a text.
pub mod Ascii
use polaros.Prelude.{
  ℕ, ◌+◌, ◌-◌, ◌*◌, ◌/◌, ◌%◌, Bool, true, ◌&&◌, ltb, leb, if◌then◌else◌, Option, none, some, List,
  [], ◌∷◌, ◌++◌, Bytes,
}
use polaros.Shell.Env.{Env, expand_env_vars}

-- The encoding of a character.
abbrev pub encode_char : ℕ → Bytes
encode_char c =
    if ltb c 0x80
    then c ∷ []
    else if ltb c 0x800
    then (0xC0 + c / 64) ∷ (0x80 + c % 64) ∷ []
    else if ltb c 0x10000
    then (0xE0 + c / 4096) ∷ (0x80 + c / 64 % 64) ∷ (0x80 + c % 64) ∷ []
    else (0xF0 + c / 262144) ∷ (0x80 + c / 4096 % 64) ∷ (0x80 + c / 64 % 64) ∷ (0x80 + c % 64) ∷ []

unfoldable pub encode : List ℕ → Bytes
encode [] = []
encode (c ∷ cs) = encode_char c ++ encode cs

-- A byte that does not begin a character.
abbrev pub continues : ℕ → Bool
continues b = leb 0x80 b && ltb b 0xC0

-- What the first byte of a character tells of it.
abbrev pub lead_bits : ℕ → ℕ
lead_bits b =
    if ltb b 0x80
    then b
    else if ltb b 0xE0
    then b - 0xC0
    else if ltb b 0xF0
    then b - 0xE0
    else b - 0xF0

-- The characters of a text that is UTF-8; `c` is the one that is being read.
unfoldable pub decode_from : Option ℕ → Bytes → List ℕ
decode_from none [] = []
decode_from (some c) [] = c ∷ []
decode_from none (b ∷ bs) = decode_from (some (lead_bits b)) bs
decode_from (some c) (b ∷ bs) =
    let more = decode_from (some (c * 64 + (b - 0x80))) bs in
    let next = decode_from (some (lead_bits b)) bs in if continues b then more else c ∷ next

unfoldable pub decode : Bytes → List ℕ
unfolding decode_from
decode bytes = decode_from none bytes

-- `String::pop`: the last byte that begins a character, and all behind it, go.
abbrev pub ends_char : Bytes → Bool
ends_char [] = true
ends_char (b ∷ bs) = continues b && ends_char bs

unfoldable pub pop_char : Bytes → Bytes
pop_char [] = []
pop_char (b ∷ bs) = let rest = pop_char bs in if ends_char bs then [] else b ∷ rest

abbrev pub decode_env : Env → Env
decode_env [] = []
decode_env ((key, value) ∷ env) = (decode key, decode value) ∷ decode_env env

-- The fuel of the expansion is enough (Shell/Env), so that it has a result.
abbrev pub or_nothing : Option (List ℕ) → List ℕ
or_nothing none = []
or_nothing (some cs) = cs

unfoldable pub expand_text : (ℕ → Bool) → Env → Bytes → Bytes
unfolding encode decode
expand_text is_alphanumeric env input =
    encode (or_nothing (expand_env_vars is_alphanumeric (decode_env env) (decode input)))

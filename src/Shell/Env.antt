-- ===== src/Shell/Env.antt =====
-- The environment variables of src/shell/commands.rs, and their expansion. A text is the list of its
-- characters, as code points.
pub mod Expand
mod Tests
use polaros.Prelude.{
  ℕ, zero, suc, Bool, true, false, not, ◌&&◌, ◌||◌, Option, none, some, List, [], ◌∷◌, ◌++◌, length,
  ◌==◌, if◌then◌else◌, text,
}
use polaros.Fs.Name.{Name, cmp, name_eq}
use Prim.Native.Nat.{Ordering}

-- `ENV_VARS`, in the order of the keys.
abbrev pub Env : Type 0
Env = List (Name × Name)

unfoldable pub lookup : Name → Env → Option Name
lookup key [] = none
lookup key ((k, value) ∷ env) = if name_eq key k then some value else lookup key env

-- `env.insert(key, value)`.
unfoldable pub insert_var : Name → Name → Env → Env
insert_var key value [] = (key, value) ∷ []
insert_var key value ((k, v) ∷ env) = elim (cmp key k) [
  | Ordering.lt ↦ (key, value) ∷ (k, v) ∷ env
  | Ordering.eq ↦ (key, value) ∷ env
  | Ordering.gt ↦ (k, v) ∷ insert_var key value env
]

unfoldable pub first_env : Env
first_env =
    (text "HOME", text "/")
    ∷ (text "OS", text "PolarOs")
    ∷ (text "PATH", text "/")
    ∷ (text "SHELL", text "polarsh")
    ∷ []

-- What `char::is_alphanumeric` says is a parameter, by the tables of Unicode.
module _ (is_alphanumeric : ℕ → Bool) where
  abbrev pub is_name_char : ℕ → Bool
  is_name_char c = is_alphanumeric c || c == 95

  -- The inner loop: the name, and the characters behind it. The brace is the code of '}'.
  unfoldable pub name_part : Bool → Name → Name × Name
  name_part braced [] = ([], [])
  name_part true (c ∷ cs) =
      let (name, rest) = name_part true cs in if c == 125 then ([], cs) else (c ∷ name, rest)
  name_part false (c ∷ cs) =
      let (name, rest) = name_part false cs in
      if is_name_char c then (c ∷ name, rest) else ([], c ∷ cs)

  -- Behind a '$': whether a '{' stands there, and what follows it.
  abbrev pub opened : Name → Bool × Name
  opened [] = (false, [])
  opened (c ∷ cs) = if c == 123 then (true, cs) else (false, c ∷ cs)

  abbrev pub value_of : Env → Name → Name
  value_of env name = elim (lookup name env) [ none ↦ [] | some value ↦ value ]

  -- The outer loop, on fuel, a round for each character.
  unfoldable pub expand : ℕ → Env → Name → Option Name
  expand fuel env [] = some []
  expand zero env (c ∷ cs) = none
  expand (suc fuel) env (c ∷ cs) =
      let (braced, behind) = opened cs in
      let (name, rest) = name_part braced behind in
      let plain = expand fuel env cs in
      let further = expand fuel env rest in
      if c == 36
      then (elim further [ none ↦ none | some r ↦ some (value_of env name ++ r) ])
      else (elim plain [ none ↦ none | some r ↦ some (c ∷ r) ])

  unfoldable pub expand_env_vars : Env → Name → Option Name
  expand_env_vars env input = expand (length input) env input

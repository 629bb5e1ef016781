-- ===== src/Shell/Env/Expand.antt =====
-- The expansion comes to an end, and what it makes of a text.
use polaros.Prelude.{
  ℕ, zero, suc, ◌≤◌, ◌≡◌, refl, ◌∙◌, inl, inr, Bool, Bool-cases, true, false, not, some, [], ◌∷◌,
  ◌++◌, length, length-append, ◌==◌, All, arith,
}
use polaros.Fs.Name.{Name}
use polaros.Shell.Env.{Env, is_name_char, name_part, opened, value_of, expand, expand_env_vars}

module _ (is_alphanumeric : ℕ → Bool) where
  length-name_part :
      (braced : Bool) (cs : Name) → length (name_part is_alphanumeric braced cs).1 ≤ length cs
  unfolding name_part
  length-name_part braced [] = omega arith
  length-name_part true (c ∷ cs) = ground (arith, length-name_part true cs)
  length-name_part false (c ∷ cs) = ground (arith, length-name_part false cs)

  length-opened : (cs : Name) → length (opened is_alphanumeric cs).1 ≤ length cs
  length-opened [] = omega arith
  length-opened (c ∷ cs) = ground arith

  step_plain :
      (fuel : ℕ) (env : Env) (c : ℕ) (cs r : Name)
      → (c == 36) ≡ false
      → expand is_alphanumeric fuel env cs ≡ some r
      → expand is_alphanumeric (suc fuel) env (c ∷ cs) ≡ some (c ∷ r)
  unfolding expand
  step_plain fuel env c cs r h e = cc (h, e)

  step_var :
      (fuel : ℕ) (env : Env) (cs r : Name)
      → expand is_alphanumeric fuel env
          (name_part is_alphanumeric (opened is_alphanumeric cs).0 (opened is_alphanumeric cs).1).1
        ≡ some r
      → expand is_alphanumeric (suc fuel) env (36 ∷ cs)
        ≡ some (
            value_of is_alphanumeric env
              (name_part is_alphanumeric
                (opened is_alphanumeric cs).0
                (opened is_alphanumeric cs).1).0
            ++ r)
  unfolding expand
  step_var fuel env cs r e = cc e

  expand_total :
      (fuel : ℕ) (env : Env) (cs : Name)
      → length cs ≤ fuel
      → (r : Name) × (expand is_alphanumeric fuel env cs ≡ some r)
  expand_total fuel env [] h = ([], unfold expand in refl)
  expand_total zero env (c ∷ cs) h = absurd (omega arith)
  expand_total (suc fuel) env (c ∷ cs) h =
      let (plain, e) = expand_total fuel env cs (omega arith) in
      let (braced, behind) = opened is_alphanumeric cs in
      let short = length-name_part braced behind in
      let (further, e') =
        expand_total fuel env (name_part is_alphanumeric braced behind).1
          (omega (arith, short, length-opened cs)) in
      elim (Bool-cases (c == 36)) [
        | inr other ↦ (c ∷ plain, step_plain fuel env c cs plain other e)
        | inl dollar ↦ let q : c ≡ 36 = ground arith in rw q (_, step_var fuel env cs further e')
      ]

  -- The expansion of any text comes to an end.
  pub expand_env_vars_total :
      (env : Env) (input : Name) → (r : Name) × (expand_env_vars is_alphanumeric env input ≡ some r)
  unfolding expand_env_vars
  expand_env_vars_total env input = expand_total (length input) env input (omega arith)

  -- The characters are no '$'.
  abbrev pub IsPlain : Name → Type 0
  IsPlain cs = All (λ c. (c == 36) ≡ false) cs

  expand_plain :
      (fuel : ℕ) (env : Env) (cs : Name)
      → length cs ≤ fuel
      → IsPlain cs
      → expand is_alphanumeric fuel env cs ≡ some cs
  expand_plain fuel env [] h k = unfold expand in refl
  expand_plain zero env (c ∷ cs) h k = absurd (omega arith)
  expand_plain (suc fuel) env (c ∷ cs) h k =
      step_plain fuel env c cs cs k.0 (expand_plain fuel env cs (omega arith) k.1)

  -- The first character, if there is one, is none of a name.
  abbrev pub ends_name : Name → Bool
  ends_name [] = true
  ends_name (c ∷ cs) = not (is_name_char is_alphanumeric c)

  name_part-append :
      (name rest : Name)
      → All (λ c. is_name_char is_alphanumeric c ≡ true) name
      → ends_name rest ≡ true
      → name_part is_alphanumeric false (name ++ rest) ≡ (name, rest)
  unfolding name_part
  name_part-append [] [] h k = refl
  name_part-append [] (c ∷ rest) h k = ground arith
  name_part-append (c ∷ name) rest h k = cc (h.0, name_part-append name rest h.1 k)

  opened_name :
      (c : ℕ) (cs : Name)
      → is_alphanumeric 123 ≡ false
      → is_name_char is_alphanumeric c ≡ true
      → opened is_alphanumeric (c ∷ cs) ≡ (false, c ∷ cs)
  opened_name c cs brace h = elim (Bool-cases (c == 123)) [
    | inl e ↦ let q : c ≡ 123 = ground arith in absurd (open_brace (rw q at h))
    | inr ne ↦ rw ne refl
  ]
    where
      open_brace : is_name_char is_alphanumeric 123 ≡ true → ⊥
      open_brace k = cc (k, brace)

  expand_from :
      (fuel : ℕ) (env : Env) (pre : Name) (c : ℕ) (name rest : Name)
      → is_alphanumeric 123 ≡ false
      → All (λ x. is_name_char is_alphanumeric x ≡ true) (c ∷ name)
      → ends_name rest ≡ true
      → IsPlain pre
      → IsPlain rest
      → length (pre ++ 36 ∷ c ∷ name ++ rest) ≤ fuel
      → expand is_alphanumeric fuel env (pre ++ 36 ∷ c ∷ name ++ rest)
        ≡ some (pre ++ value_of is_alphanumeric env (c ∷ name) ++ rest)
  expand_from zero env [] c name rest brace word end p q h = absurd (omega arith)
  expand_from zero env (x ∷ pre) c name rest brace word end p q h = absurd (omega arith)
  expand_from (suc fuel) env (x ∷ pre) c name rest brace word end p q h =
      step_plain fuel env x (pre ++ 36 ∷ c ∷ name ++ rest)
        (pre ++ value_of is_alphanumeric env (c ∷ name) ++ rest) p.0
        (expand_from fuel env pre c name rest brace word end p.1 q (omega arith))
  expand_from (suc fuel) env [] c name rest brace word end p q h =
      let cs = c ∷ name ++ rest in
      let e1 = opened_name c (name ++ rest) brace word.0 in
      let e2 = name_part-append (c ∷ name) rest word end in
      let e3 = expand_plain fuel env rest (omega (arith, length-append name rest)) q in
      let s = step_var fuel env cs rest (rw (e1, e2) e3) in s ∙ rw (e1, e2) refl

  -- Where the left brace is not alphanumeric, a variable behind a '$', with no letter, digit or
  -- underscore behind its name and no other '$' around it, is replaced by its value, or by nothing
  -- where it has none, and the text around it stays as it is.
  pub expand_env_vars_lem :
      (env : Env) (pre : Name) (c : ℕ) (name rest : Name)
      → is_alphanumeric 123 ≡ false
      → All (λ x. is_name_char is_alphanumeric x ≡ true) (c ∷ name)
      → ends_name rest ≡ true
      → IsPlain pre
      → IsPlain rest
      → expand_env_vars is_alphanumeric env (pre ++ 36 ∷ c ∷ name ++ rest)
        ≡ some (pre ++ value_of is_alphanumeric env (c ∷ name) ++ rest)
  unfolding expand_env_vars
  expand_env_vars_lem env pre c name rest brace word end p q =
      expand_from (length (pre ++ 36 ∷ c ∷ name ++ rest)) env pre c name rest brace word end p q
        (omega arith)

-- ===== src/Shell/Env/Tests.antt =====
-- The environment at concrete inputs, with the letters A to Z.
use polaros.Prelude.{ℕ, ◌≡◌, refl, Bool, ◌&&◌, some, ◌++◌, leb, text}
use polaros.Fs.Name.{cmp}
use polaros.Shell.Env.{first_env, lookup, insert_var, value_of, name_part, expand, expand_env_vars}
use polaros.Shell.Env.Expand.{expand_env_vars_lem}

abbrev is_letter : ℕ → Bool
is_letter c = leb 65 c && leb c 90

braced : expand_env_vars is_letter first_env (text "a${OS}b$X") ≡ some (text "aPolarOsb")
unfolding expand_env_vars expand name_part lookup first_env cmp
braced = refl

exported : lookup (text "X") (insert_var (text "X") (text "1") first_env) ≡ some (text "1")
unfolding lookup insert_var first_env cmp
exported = refl

expand_env_vars_lem_example :
    expand_env_vars is_letter first_env (text "cd $HOME-x")
    ≡ some (text "cd " ++ value_of is_letter first_env (text "HOME") ++ text "-x")
expand_env_vars_lem_example =
    expand_env_vars_lem is_letter first_env (text "cd ") 72 (text "OME") (text "-x") refl
      (refl, (refl, (refl, (refl, tt)))) refl (refl, (refl, (refl, tt))) (refl, (refl, tt))

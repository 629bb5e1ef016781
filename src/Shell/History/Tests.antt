-- ===== src/Shell/History/Tests.antt =====
-- The history at concrete inputs.
use polaros.Prelude.{◌≡◌, ◌≢◌, refl, [], ◌∷◌, text, arith, All}
use polaros.Fs.Name.{cmp}
use polaros.Shell.History.{Shown, shows, nothing, panics, new, push, up, down}
use polaros.Shell.History.Calls.{enter, arrow_up, arrow_down, IsValid, run, history-IsValid}

two_lines :
    (run new (
      enter (text "ls")
      ∷ enter (text "ls")
      ∷ enter (text "ps")
      ∷ arrow_up
      ∷ arrow_up
      ∷ arrow_down
      ∷ [])).0
    ≡ nothing ∷ nothing ∷ nothing ∷ shows (text "ps") ∷ shows (text "ls") ∷ shows (text "ps") ∷ []
unfolding run new push up down cmp
two_lines = refl

new-IsValid : IsValid new
unfolding new
new-IsValid = record { few = omega arith; inside = omega arith; differs = tt }

history-IsValid_example :
    All (λ (s : Shown). s ≢ panics) (run new (enter (text "ls") ∷ arrow_up ∷ arrow_down ∷ [])).0
    × IsValid (run new (enter (text "ls") ∷ arrow_up ∷ arrow_down ∷ [])).1
history-IsValid_example =
    history-IsValid new (enter (text "ls") ∷ arrow_up ∷ arrow_down ∷ []) new-IsValid

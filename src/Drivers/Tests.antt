-- ===== src/Drivers/Tests.antt =====
-- The keyboard's buffer and its layouts at concrete inputs.
use polaros.Prelude.{◌≡◌, refl, none, some, [], ◌∷◌, text}
use polaros.Fs.Name.{cmp}
use polaros.Drivers.Keyboard.Buffer.{new, push, pop, run, run_fifo, buffer-eq-fifo}
use polaros.Drivers.Keyboard.Layout.{azerty, layout_from_name}

two_codes : run new (some 30 ∷ some 158 ∷ none ∷ none ∷ none ∷ []) ≡ some 30 ∷ some 158 ∷ none ∷ []
unfolding run new push pop
two_codes = refl

buffer-eq-fifo_example :
    run new (none ∷ some 30 ∷ none ∷ []) ≡ run_fifo [] (none ∷ some 30 ∷ none ∷ [])
buffer-eq-fifo_example = buffer-eq-fifo (none ∷ some 30 ∷ none ∷ [])

azerty_name : layout_from_name (text "azerty") ≡ some azerty
unfolding layout_from_name cmp
azerty_name = refl

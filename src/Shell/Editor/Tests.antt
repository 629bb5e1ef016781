-- ===== src/Shell/Editor/Tests.antt =====
-- The editing of a line at concrete inputs.
use polaros.Prelude.{◌≡◌, refl, ◌&&◌, Bool, true, leb, ltb, List, [], ◌∷◌, Bytes, arith, text}
use polaros.Fs.Name.{Name}
use polaros.Fs.Tree.{file, nil, cons}
use polaros.Fs.RamFs.{RamFs, names, get_dir}
use polaros.Drivers.Keyboard.Decode.{KeyEvent, char, arrow_up}
use polaros.Shell.History.{CommandHistory}
use polaros.Shell.Completion.{tab_complete, common_prefix}
use polaros.Shell.Unicode.{pop_char}
use polaros.Shell.Editor.{press, complete, read_line}
use polaros.Shell.Editor.Row.{IsPrintable}
use polaros.Shell.Editor.Shown.{Ready}
use polaros.Shell.Editor.Echoed.{Echoed, AllNarrow, read_line-Echoed}

abbrev two_commands : List Name
two_commands = text "cat" ∷ text "cd" ∷ []

abbrev one_file : RamFs
one_file = record { root = cons (text "hello") (file (text "x")) nil }

abbrev one_line : CommandHistory
one_line = record { entries = text "ls" ∷ []; cursor = 1 }

-- The line before, its end taken back, "ca", a tabulator, a space and another tabulator.
abbrev some_keys : List KeyEvent
some_keys =
    arrow_up ∷ char 8 ∷ char 8 ∷ char 99 ∷ char 97 ∷ char 9 ∷ char 32 ∷ char 9 ∷ char 10 ∷ []

abbrev is_printable : Bytes → Bool
is_printable [] = true
is_printable (b ∷ bs) = leb 32 b && ltb b 127 && is_printable bs

printable : (bs : Bytes) → is_printable bs ≡ true → IsPrintable bs
printable [] h = tt
printable (b ∷ bs) h = ((ground arith, ground arith), printable bs (ground arith))

one_line-Ready : Ready one_line
one_line-Ready = record {
  valid = record { few = omega arith; inside = omega arith; differs = tt };
  plain = (printable (text "ls") refl, tt);
}

some_keys-AllNarrow : AllNarrow two_commands one_file [] [] one_line some_keys
unfolding press tab_complete complete common_prefix pop_char names get_dir polaros.Shell.History.up
some_keys-AllNarrow = (
  omega arith,
  (
    omega arith,
    (omega arith, (omega arith, (omega arith, (omega arith, (omega arith, (omega arith, tt)))))),
  ),
)

read_line-Echoed_example :
    Echoed (text "myos:/> ") [] (read_line two_commands one_file [] one_line some_keys)
unfolding names get_dir
read_line-Echoed_example =
    read_line-Echoed two_commands one_file []
      (printable (text "cat") refl, (printable (text "cd") refl, tt))
      (printable (text "hello") refl, tt) (printable (text "myos:/> ") refl) one_line some_keys
      (
        tt,
        (
          omega arith,
          (
            omega arith,
            (
              omega arith,
              (omega arith, (omega arith, (omega arith, (omega arith, (omega arith, tt))))),
            ),
          ),
        ),
      )
      one_line-Ready some_keys-AllNarrow

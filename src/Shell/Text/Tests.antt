-- ===== src/Shell/Text/Tests.antt =====
-- The commands on lines at concrete inputs.
use polaros.Prelude.{◌≡◌, refl, Bytes, some, text}
use polaros.Fs.Name.{cmp}
use polaros.Kernel.Syscall.{split}
use polaros.Shell.Text.{
  input_text, printed, with_lines, lines, trim_trailing_newline, uniq_from, cmd_head, cmd_tail,
  cmd_sort, cmd_uniq,
}
use polaros.Shell.Text.Order.{Ascending, holds}
use polaros.Shell.Text.Piped.{cmd_uniq-cmd_sort}

head_two : cmd_head 2 (input_text (text "c\na\nb\n")) ≡ printed (text "c\na")
unfolding cmd_head with_lines lines trim_trailing_newline split
head_two = refl

tail_two : cmd_tail 2 (input_text (text "c\na\nb")) ≡ printed (text "a\nb")
unfolding cmd_tail with_lines lines trim_trailing_newline split
tail_two = refl

sort_three : cmd_sort (input_text (text "c\na\nc\n")) ≡ printed (text "a\nc\nc")
unfolding cmd_sort with_lines lines trim_trailing_newline split cmp
sort_three = refl

uniq_three : cmd_uniq (some (text "a\nc\nc")) ≡ printed (text "a\nc")
unfolding cmd_uniq with_lines lines trim_trailing_newline split uniq_from cmp
uniq_three = refl

cmd_uniq-cmd_sort_example :
    (out : Bytes) × (out1 : Bytes) × (cmd_sort (input_text (text "c\na\nc\n")) ≡ printed out)
    × (cmd_uniq (some out) ≡ printed out1)
    × Ascending (lines out1)
    × ((l : Bytes) → holds l (lines out1) ≡ holds l (lines (text "c\na\nc\n")))
unfolding lines split cmp
cmd_uniq-cmd_sort_example =
    cmd_uniq-cmd_sort (text "c\na\nc\n") (text "a")
      (refl, (refl, (refl, (refl, (refl, (refl, tt)))))) refl refl

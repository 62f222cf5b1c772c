-- ===== src/Terminal/Tests.antt =====
-- Runs of the terminal, and its theorems at concrete states.
use os_dev_mtk.Base.{ℕ, ◌≡◌, List, [], ◌∷◌, ◌++◌, some, arith, negsuc}
use os_dev_mtk.Base.Decimal.{IsSigned}
use os_dev_mtk.Terminal.{Terminal, terminal_write, printint}
use os_dev_mtk.Terminal.Write.{IsWritten, write-IsWritten}
use os_dev_mtk.Terminal.Numbers.{puts_all, printint-decimal}

-- The end of the second line, in white on black.
abbrev line_end : Terminal
line_end = record {
  terminal_x = 79;
  terminal_y = 1;
  terminal_fg_color = 15;
  terminal_bg_color = 0;
  screen = λ i. 0;
}

abbrev hello : List ℕ
hello = b'H' ∷ b'i' ∷ []

write-IsWritten_example :
    (st' : Terminal) × (terminal_write line_end (hello ++ 0 ∷ []) ≡ some st')
    × IsWritten line_end st' hello
write-IsWritten_example =
    write-IsWritten line_end hello [] (omega arith)
      (
        (omega arith, omega arith, omega arith, omega arith, omega arith),
        ((omega arith, omega arith, omega arith, omega arith, omega arith), tt),
      )
      (omega arith)

printint-decimal_example :
    (cs : List ℕ) × (printint line_end (negsuc 41) ≡ some (puts_all line_end cs))
    × IsSigned (negsuc 41) cs
printint-decimal_example = printint-decimal line_end (negsuc 41) (omega arith)

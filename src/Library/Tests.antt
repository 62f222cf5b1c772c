-- ===== src/Library/Tests.antt =====
-- Runs of the library for programs, and its theorems at concrete inputs.
use os_dev_mtk.Base.{
  ℕ, suc, true, length, ◌≡◌, refl, List, [], ◌∷◌, ◌++◌, some, none, arith, negsuc, replicate, take,
  drop, length-replicate,
}
use os_dev_mtk.Base.Decimal.{IsSigned}
use os_dev_mtk.Text.{strlen, strlen_loop}
use os_dev_mtk.Library.{
  Line, terminal_readline, int, printf, directive, printed, itoa, itoa_digits, itoa_loop,
  put_before,
}
use os_dev_mtk.Library.Tokens.{basic_os_parse_command}
use os_dev_mtk.Library.Itoa.{itoa-decimal}
use os_dev_mtk.Library.Editing.{edited, readline-edited}
use os_dev_mtk.Library.Arguments.{copies, parse_command-words}
use os_dev_mtk.Library.Words.{words}

abbrev empty_text : List ℕ
empty_text = replicate 12 0

-- `printf("%i%%", -40)`
printf_runs :
    printf (b'%' ∷ b'i' ∷ b'%' ∷ b'%' ∷ 0 ∷ []) empty_text (int (negsuc 39) ∷ [])
    ≡ some (b'-' ∷ b'4' ∷ b'0' ∷ b'%' ∷ [])
unfolding printf directive printed itoa itoa_digits itoa_loop put_before strlen strlen_loop
printf_runs = refl

-- A format that ends with a percent sign is read behind its NUL.
printf_percent : printf (b'5' ∷ b'%' ∷ 0 ∷ []) empty_text [] ≡ none
unfolding printf directive
printf_percent = refl

itoa-decimal_example :
    (text' : List ℕ) × (loc : ℕ) × (cs : List ℕ) × (itoa empty_text (negsuc (2147483647))
      ≡ some (text', loc))
    × (drop loc text' ≡ cs ++ 0 ∷ [])
    × IsSigned (negsuc (2147483647)) cs
itoa-decimal_example = itoa-decimal empty_text (negsuc (2147483647)) refl (omega arith)

-- `l`, `a`, backspace, `s`
abbrev keys : List ℕ
keys = b'l' ∷ b'a' ∷ 8 ∷ b's' ∷ []

readline-edited_example :
    (l : Line) × (terminal_readline (replicate 8 7) 8 true (keys ++ 13 ∷ []) ≡ some l)
    × (l.count ≡ length (edited [] keys))
    × (take (suc l.count) l.out ≡ edited [] keys ++ 0 ∷ [])
    × (l.echo ≡ keys)
readline-edited_example = readline-edited (replicate 8 7) 8 true keys [] (omega arith) (
  omega arith,
  omega arith,
  omega arith,
  (
    omega arith,
    omega arith,
    omega arith,
    (omega arith, omega arith, omega arith, (omega arith, omega arith, omega arith, omega arith)),
  ),
)

abbrev node : (k : ℕ) → List ℕ
node k = replicate 512 k

abbrev command : List ℕ
command = b'l' ∷ b's' ∷ b' ' ∷ b' ' ∷ b'a' ∷ []

parse_command-words_example :
    basic_os_parse_command (replicate 1025 7) (command ++ 0 ∷ []) 1024 (λ k. some (node k))
    ≡ some (copies node (λ k. length-replicate 512 k) 0 (words (take 1024 command)))
parse_command-words_example =
    parse_command-words node (λ k. length-replicate 512 k) (replicate 1025 7) command [] 1024
      (length-replicate {A = ℕ} 1025 7)
      (omega arith, (omega arith, (omega arith, (omega arith, (omega arith, tt))))) (omega arith)

-- ===== src/Shell.antt =====
-- programs/shell/src/shell.c: the shell. It runs rounds without an end; one of them is modelled, with
-- the banner before the first. The buffers are the bytes of the arrays on the stack, and `malloc` gives
-- the blocks of the arguments. What is shown is the list of the characters.
pub mod Typing
mod Tests
use os_dev_mtk.Base.{ℕ, Option, some, List, [], ◌∷◌, ◌++◌, ◌>>=◌, ℤ, true}
use os_dev_mtk.Library.{terminal_readline}
use os_dev_mtk.Library.Tokens.{basic_os_system_run}

abbrev pub banner : List ℕ
banner =
    b'B' ∷ b'a' ∷ b's' ∷ b'i' ∷ b'c' ∷ b'O' ∷ b'S' ∷ b' ' ∷ b'v' ∷ b'1' ∷ b'.' ∷ b'0' ∷ b'.' ∷ b'0'
    ∷ b'\n' ∷ []

abbrev pub prompt : List ℕ
prompt = b'$' ∷ b' ' ∷ []

-- The result of the command, the arguments that the kernel is called with, and what is shown.
pub record Round : Type 0 where
  pub result : ℤ
  pub arguments : List (List ℕ)
  pub shown : List ℕ

unfoldable pub shell_round :
    (buf copy scommand polls : List ℕ) → (malloc : ℕ → Option (List ℕ)) → Option Round
shell_round buf copy scommand polls malloc = terminal_readline buf 1024 true polls >>= λ line.
    basic_os_system_run copy scommand line.out malloc >>= λ (result, arguments).
    some
      (record { result = result; arguments = arguments; shown = prompt ++ line.echo ++ b'\n' ∷ [] })

-- The first round, with the banner.
unfoldable pub shell_start :
    (buf copy scommand polls : List ℕ) → (malloc : ℕ → Option (List ℕ)) → Option Round
shell_start buf copy scommand polls malloc = shell_round buf copy scommand polls malloc >>= λ r.
    some (record r { shown = banner ++ r.shown })

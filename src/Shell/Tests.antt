-- ===== src/Shell/Tests.antt =====
-- A round of the shell in which `ls` is typed, with a slip that is taken back.
use os_dev_mtk.Base.{ℕ, ◌≡◌, some, List, [], ◌∷◌, ◌++◌, arith, replicate, length-replicate}
use os_dev_mtk.Library.Editing.{edited, IsTyped}
use os_dev_mtk.Library.Words.{words}
use os_dev_mtk.Library.Arguments.{copies}
use os_dev_mtk.Shell.{Round, shell_round}
use os_dev_mtk.Shell.Typing.{result_of, round-Words}

-- `l`, `d`, backspace, `s`
abbrev keys : List ℕ
keys = b'l' ∷ b'd' ∷ 8 ∷ b's' ∷ []

abbrev node : (k : ℕ) → List ℕ
node k = replicate 512 k

keys-IsTyped : IsTyped 1024 [] keys
keys-IsTyped = (
  omega arith,
  omega arith,
  omega arith,
  (
    omega arith,
    omega arith,
    omega arith,
    (omega arith, omega arith, omega arith, (omega arith, omega arith, omega arith, omega arith)),
  ),
)

round-Words_example :
    (r : Round) × (shell_round
        (replicate 1024 7)
        (replicate 1024 7)
        (replicate 1025 7)
        (keys ++ 13 ∷ [])
        (λ k. some (node k))
      ≡ some r)
    × (r.arguments ≡ copies node (λ k. length-replicate 512 k) 0 (words (edited [] keys)))
    × (r.result ≡ result_of (copies node (λ k. length-replicate 512 k) 0 (words (edited [] keys))))
    × (r.shown ≡ b'$' ∷ b' ' ∷ keys ++ b'\n' ∷ [])
round-Words_example =
    round-Words node (λ k. length-replicate 512 k) (replicate 1024 7) (replicate 1024 7)
      (replicate 1025 7) keys [] (length-replicate {A = ℕ} 1024 7) (length-replicate {A = ℕ} 1024 7)
      (length-replicate {A = ℕ} 1025 7) keys-IsTyped

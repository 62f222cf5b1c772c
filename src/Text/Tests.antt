-- ===== src/Text/Tests.antt =====
-- Runs of string.c, and its theorems at concrete strings.
use os_dev_mtk.Base.{ℕ, ◌≡◌, refl, some, List, [], ◌∷◌, ◌++◌, negsuc}
use os_dev_mtk.Text.{strncmp, strnlen_terminator}

-- "AB", "ab" and "Ac"
abbrev upper : List ℕ
upper = b'A' ∷ b'B' ∷ []

abbrev lower : List ℕ
lower = b'a' ∷ b'b' ∷ []

abbrev mixed : List ℕ
mixed = b'A' ∷ b'c' ∷ []

compare_runs : strncmp (upper ++ 0 ∷ []) (mixed ++ 0 ∷ []) 9 ≡ some (negsuc 32)
unfolding strncmp
compare_runs = refl

terminator_runs : strnlen_terminator (upper ++ 0 ∷ []) 9 b'B' ≡ some 1
unfolding strnlen_terminator
terminator_runs = refl

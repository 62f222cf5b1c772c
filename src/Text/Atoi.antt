-- ===== src/Text/Atoi.antt =====
-- The loop of `atoi`, whose condition holds of every byte.
use os_dev_mtk.Base.{ℕ, ◌+◌, ◌-◌, ◌*◌, ◌%◌, ◌^◌, ◌≡◌, refl, none, List, [], ◌∷◌, arith}
use os_dev_mtk.Text.{atoi_loop, atoi}

atoi_loop-none : (str : List ℕ) (result : ℕ) → atoi_loop str result ≡ none
unfolding atoi_loop
atoi_loop-none [] result = refl
atoi_loop-none (c ∷ str) result =
    ground (arith, atoi_loop-none str ((result + result * 10 + (c + 2 ^ 32 - 48)) % 2 ^ 32))

-- `atoi` returns for no text: it reads past the NUL and past the end of the object.
pub atoi-none : (str : List ℕ) → atoi str ≡ none
unfolding atoi
atoi-none [] = refl
atoi-none (c ∷ str) = ground (arith, atoi_loop-none str 0, atoi_loop-none (c ∷ str) 0)

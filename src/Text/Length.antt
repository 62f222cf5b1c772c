-- ===== src/Text/Length.antt =====
-- `strlen` and `strnlen` count the bytes before the NUL.
use os_dev_mtk.Base.{ℕ, zero, suc, ◌+◌, ◌≡◌, ◌∙◌, ap, some, List, [], ◌∷◌, ◌++◌, arith, length}
use Prim.Native.Nat.{min}
use os_dev_mtk.Text.{NoNul, strlen_loop, strlen, strnlen_loop, strnlen}

strlen_loop_lem :
    (s rest : List ℕ) (ctr : ℕ) → NoNul s → strlen_loop (s ++ 0 ∷ rest) ctr ≡ some (ctr + length s)
unfolding strlen_loop
strlen_loop_lem [] rest ctr h = ap some (omega arith)
strlen_loop_lem (c ∷ s) rest ctr h = ground (arith, strlen_loop_lem s rest (ctr + 1) h.1)

pub strlen_lem : (s rest : List ℕ) → NoNul s → strlen (s ++ 0 ∷ rest) ≡ some (length s)
unfolding strlen
strlen_lem s rest h = strlen_loop_lem s rest 0 h ∙ ap some (omega arith)

strnlen_loop_lem :
    (room : ℕ) (s rest : List ℕ) (ctr : ℕ)
    → NoNul s
    → strnlen_loop room (s ++ 0 ∷ rest) ctr ≡ some (ctr + min room (length s))
unfolding strnlen_loop
strnlen_loop_lem zero s rest ctr h = ap some (omega arith)
strnlen_loop_lem (suc k) [] rest ctr h = ap some (omega arith)
strnlen_loop_lem (suc k) (c ∷ s) rest ctr h =
    ground (arith, strnlen_loop_lem k s rest (ctr + 1) h.1)

-- `strnlen` is the length, cut off at the bound.
pub strnlen_lem :
    (s rest : List ℕ) (max_len : ℕ)
    → NoNul s
    → strnlen (s ++ 0 ∷ rest) max_len ≡ some (min max_len (length s))
unfolding strnlen
strnlen_lem s rest max_len h = strnlen_loop_lem max_len s rest 0 h ∙ ap some (omega arith)

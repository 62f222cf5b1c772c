-- ===== src/Text/Copy.antt =====
-- `strcpy` and `strncpy`: what they write, and that `strncpy` keeps to its bound.
use os_dev_mtk.Base.{
  ℕ, zero, suc, ◌<◌, ◌≤◌, ◌≡◌, refl, none, some, List, [], ◌∷◌, ◌++◌, arith, length, take, drop,
}
use os_dev_mtk.Text.{NoNul, put, strcpy, strncpy_loop, strncpy}

-- The destination after a string and its NUL have been written to its front.
abbrev pub written : (s dst : List ℕ) → List ℕ
written s dst = s ++ 0 ∷ drop (suc (length s)) dst

-- `strcpy` copies a string that fits with its NUL.
pub strcpy_lem :
    (s rest dst : List ℕ)
    → NoNul s
    → length s < length dst
    → strcpy dst (s ++ 0 ∷ rest) ≡ some (written s dst)
unfolding strcpy
strcpy_lem s rest [] h l = elim l [ ]
strcpy_lem [] rest (d ∷ dst) h l = refl
strcpy_lem (c ∷ s) rest (d ∷ dst) h l =
    let ih = strcpy_lem s rest dst h.1 (omega arith) in ground (arith, ih)

-- `strcpy` writes past the end of a destination that is too short.
pub strcpy-none :
    (s rest dst : List ℕ) → NoNul s → length dst ≤ length s → strcpy dst (s ++ 0 ∷ rest) ≡ none
unfolding strcpy
strcpy-none [] rest [] h l = refl
strcpy-none (c ∷ s) rest [] h l = refl
strcpy-none [] rest (d ∷ dst) h l = elim l [ ]
strcpy-none (c ∷ s) rest (d ∷ dst) h l =
    let ih = strcpy-none s rest dst h.1 (omega arith) in ground (arith, ih)

strncpy_loop_lem :
    (n : ℕ) (s rest dst : List ℕ)
    → NoNul s
    → n < length dst
    → strncpy_loop n dst (s ++ 0 ∷ rest) ≡ some (written (take n s) dst)
unfolding strncpy_loop put
strncpy_loop_lem n s rest [] h l = elim l [ ]
strncpy_loop_lem zero s rest (d ∷ dst) h l = refl
strncpy_loop_lem (suc n) [] rest (d ∷ dst) h l = refl
strncpy_loop_lem (suc n) (c ∷ s) rest (d ∷ dst) h l =
    let ih = strncpy_loop_lem n s rest dst h.1 (omega arith) in ground (arith, ih)

-- `strncpy` with a bound that the destination holds copies the string, cut off so that its NUL is
-- within the bound, and writes nothing behind that NUL.
pub strncpy_lem :
    (n : ℕ) (s rest dst : List ℕ)
    → NoNul s
    → suc n ≤ length dst
    → strncpy dst (s ++ 0 ∷ rest) (suc n) ≡ some (written (take n s) dst)
unfolding strncpy
strncpy_lem n s rest dst h l = strncpy_loop_lem n s rest dst h l

-- A part of a string without a NUL.
pub take-NoNul : (n : ℕ) (s : List ℕ) → NoNul s → NoNul (take n s)
take-NoNul zero s h = tt
take-NoNul (suc n) [] h = tt
take-NoNul (suc n) (c ∷ s) h = (h.0, take-NoNul n s h.1)

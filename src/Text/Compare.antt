-- ===== src/Text/Compare.antt =====
-- `strncmp` and `istrncmp` return 0 exactly on strings that agree.
use os_dev_mtk.Base.{ℕ, zero, suc, ◌≡◌, refl, ◌↔◌, some, List, [], ◌∷◌, ◌++◌, arith, take, map, pos}
use os_dev_mtk.Text.{NoNul, strncmp, istrncmp, tolower}

-- On two strings that end with a NUL, `strncmp` returns 0 exactly when they agree in their first
-- `size` bytes.
pub strncmp-zero_iff :
    (size : ℕ) (s t r q : List ℕ)
    → NoNul s
    → NoNul t
    → (strncmp (s ++ 0 ∷ r) (t ++ 0 ∷ q) size ≡ some (pos 0)) ↔ (take size s ≡ take size t)
unfolding strncmp
strncmp-zero_iff zero s t r q h k = (λ _. refl, λ _. refl)
strncmp-zero_iff (suc n) [] [] r q h k = (λ _. refl, λ _. refl)
strncmp-zero_iff (suc n) [] (b ∷ t) r q h k = (λ e. ground arith, λ e. cc)
strncmp-zero_iff (suc n) (a ∷ s) [] r q h k = (λ e. ground arith, λ e. cc)
strncmp-zero_iff (suc n) (a ∷ s) (b ∷ t) r q h k =
    let ih = strncmp-zero_iff n s t r q h.1 k.1 in
    (λ e. ground (arith, ih.0), λ e. ground (arith, ih.1))

tolower-zero : (c : ℕ) → tolower c ≡ 0 → c ≡ 0
unfolding tolower
tolower-zero c h = ground arith

-- On two strings that end with a NUL, `istrncmp` returns 0 exactly when they agree in their first
-- `max` bytes up to the case of letters.
pub istrncmp-zero_iff :
    (max : ℕ) (s t r q : List ℕ)
    → NoNul s
    → NoNul t
    → (istrncmp (s ++ 0 ∷ r) (t ++ 0 ∷ q) max ≡ some (pos 0))
      ↔ (map tolower (take max s) ≡ map tolower (take max t))
unfolding istrncmp
istrncmp-zero_iff zero s t r q h k = (λ _. refl, λ _. refl)
istrncmp-zero_iff (suc n) [] [] r q h k = (λ _. refl, λ _. refl)
istrncmp-zero_iff (suc n) [] (b ∷ t) r q h k = (λ e. ground arith, λ e. cc)
istrncmp-zero_iff (suc n) (a ∷ s) [] r q h k = (λ e. ground arith, λ e. cc)
istrncmp-zero_iff (suc n) (a ∷ s) (b ∷ t) r q h k =
    let ih = istrncmp-zero_iff n s t r q h.1 k.1 in
    (λ e. ground (arith, ih.0), λ e. ground (arith, ih.1))

-- ===== src/Base/Decimal.antt =====
-- What a number in decimal notation is.
use Prim.Native.Nat.{ℕ, suc, ◌+◌, ◌-◌, ◌*◌, ◌^◌, ◌≤◌}
use mathlib.Core.Path.{◌≡◌, ◌∙◌, ap}
use mathlib.Core.Logic.{◌≢◌}
use mathlib.Core.List.{List, [], ◌∷◌}
use native.Mathlib.Omega.{arith}
use native.Mathlib.Nat.{pow-suc, mul_assoc, mul_comm, add-mul}
use os_dev_mtk.Base.Lists.{length}
use os_dev_mtk.Base.Errno.{ℤ, pos, negsuc}

-- The number that digits stand for, after those of `acc`.
abbrev pub value_from : (acc : ℕ) → List ℕ → ℕ
value_from acc [] = acc
value_from acc (d ∷ ds) = value_from (acc * 10 + (d - 48)) ds

abbrev pub AreDigits : List ℕ → Type 0
AreDigits [] = Unit {0}
AreDigits (d ∷ ds) = (48 ≤ d) × (d ≤ 57) × AreDigits ds

-- There is a digit, and the first of several is not 0.
abbrev pub IsCanonical : List ℕ → Type 0
IsCanonical [] = ◌≡◌ {A = ℕ} 0 1
IsCanonical (d ∷ []) = Unit {0}
IsCanonical (d ∷ e ∷ ds) = d ≢ 48

pub record IsDecimal (n : ℕ) (ds : List ℕ) : Type 0 where
  pub are_digits : AreDigits ds
  pub value_eq : value_from 0 ds ≡ n
  pub canonical : IsCanonical ds

-- The digits before others weigh ten times as much for each of them.
pub value_from_lem :
    (acc : ℕ) (ds : List ℕ) → value_from acc ds ≡ acc * 10 ^ length ds + value_from 0 ds
value_from_lem acc [] = omega arith
value_from_lem acc (d ∷ ds) =
    let all = value_from_lem (acc * 10 + (d - 48)) ds in
    let low = value_from_lem (0 + (d - 48)) ds in
    let p : ℕ = 10 ^ length ds in
    all
    ∙ omega (
      arith,
      low,
      add-mul (acc * 10) (d - 48) p,
      mul_assoc acc 10 p,
      mul_comm 10 p,
      pow-suc 10 (length ds),
      ap (λ (t : ℕ). acc * t) (pow-suc 10 (length ds)),
    )

-- The same of a signed number.
abbrev pub IsSigned : ℤ → List ℕ → Type 0
IsSigned (pos n) ds = IsDecimal n ds
IsSigned (negsuc n) ds = (es : List ℕ) × (ds ≡ b'-' ∷ es) × IsDecimal (suc n) es

abbrev pub magnitude : ℤ → ℕ
magnitude (pos n) = n
magnitude (negsuc n) = suc n

pub first-IsCanonical : (d : ℕ) (ds : List ℕ) → d ≢ 48 → IsCanonical (d ∷ ds)
first-IsCanonical d [] ne = tt
first-IsCanonical d (e ∷ ds) ne = ne

-- A digit before as many as its weight has zeros.
pub cons_value :
    (q r : ℕ) (ds : List ℕ)
    → value_from 0 ds ≡ r
    → value_from 0 ((48 + q) ∷ ds) ≡ q * 10 ^ length ds + r
cons_value q r ds e =
    let digit : 0 * 10 + (48 + q - 48) ≡ q = omega arith in
    ap (λ x. value_from x ds) digit ∙ value_from_lem q ds ∙ ap (λ x. q * 10 ^ length ds + x) e

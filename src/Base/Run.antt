-- ===== src/Base/Run.antt =====
-- The outcome of kernel code that can touch memory that it must not, or call `kernel_panic`, which
-- does not return.
use mathlib.Core.Path.{◌≡◌, refl}
use mathlib.Core.Logic.{◌⊎◌, inl, inr}
use mathlib.Core.Option.{Option, none, some}

pub data Run {ℓ} (A : Type ℓ) : Type ℓ where
  ok : A → Run A
  fault : Run A
  panic : Run A

-- An access that `none` refuses is a fault.
abbrev pub of_option {ℓ} : {A : Type ℓ} → Option A → Run A
of_option none = fault
of_option (some a) = ok a

infixl 5 ◌>>=◌
abbrev pub ◌>>=◌ {ℓ κ} : {A : Type ℓ} {B : Type κ} → Run A → (A → Run B) → Run B
ok a >>= f = f a
fault >>= f = fault
panic >>= f = panic

pub Run-cases {ℓ} : {A : Type ℓ} (r : Run A) → (r ≡ fault) ⊎ ((r ≡ panic) ⊎ ((a : A) × (r ≡ ok a)))
Run-cases (ok a) = inr (inr (a, refl))
Run-cases fault = inl refl
Run-cases panic = inr (inl refl)

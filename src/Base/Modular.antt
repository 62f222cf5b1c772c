-- ===== src/Base/Modular.antt =====
-- Products and powers modulo a number.
use Prim.Native.Nat.{ℕ, zero, suc, ◌+◌, ◌*◌, ◌/◌, ◌%◌, ◌^◌}
use mathlib.Core.Path.{◌≡◌, refl, ◌∙◌, sym, ap}
use native.Mathlib.Omega.{arith}
use native.Mathlib.Nat.{
  pow-zero, pow-suc, mul_assoc, mul_comm, mul-add, div-add-mod, add-mul-mod_self_left,
}

pub mul-mod : (a b m : ℕ) → a * (b % m) % m ≡ a * b % m
mul-mod a b m =
    let whole : a * b ≡ a * (b % m) + m * (a * (b / m)) = grind (arith, div-add-mod b m, mul-add) in
    sym (add-mul-mod_self_left (a * (b % m)) m (a * (b / m))) ∙ ap (λ (t : ℕ). t % m) (sym whole)

pub mod-mul : (a b m : ℕ) → a % m * b % m ≡ a * b % m
mod-mul a b m =
    ap (λ (t : ℕ). t % m) (mul_comm (a % m) b)
    ∙ mul-mod b a m
    ∙ ap (λ (t : ℕ). t % m) (mul_comm b a)

-- A power of a remainder, in a product.
pub pow-mod : (c a k m : ℕ) → c * (a % m) ^ k % m ≡ c * a ^ k % m
pow-mod c a zero m = rw (pow-zero (a % m), pow-zero a) refl
pow-mod c a (suc k) m =
    let p : ℕ = (a % m) ^ k in
    let q : ℕ = a ^ k in
    let left : c * (a % m) ^ suc k ≡ c * p * (a % m) =
      ap (λ (t : ℕ). c * t) (pow-suc (a % m) k) ∙ sym (mul_assoc c p (a % m)) in
    let middle : c * p * a ≡ c * a * p = grind arith in
    let right : c * a * q ≡ c * a ^ suc k =
      mul_assoc c a q ∙ ap (λ (t : ℕ). c * t) (mul_comm a q ∙ sym (pow-suc a k)) in
    ap (λ (t : ℕ). t % m) left
    ∙ mul-mod (c * p) a m
    ∙ ap (λ (t : ℕ). t % m) middle
    ∙ pow-mod (c * a) a k m
    ∙ ap (λ (t : ℕ). t % m) right

pub pow_square : (a k : ℕ) → (a * a) ^ k ≡ a ^ (k * 2)
pow_square a zero = pow-zero (a * a) ∙ sym (pow-zero a)
pow_square a (suc k) =
    pow-suc (a * a) k
    ∙ ap (λ (t : ℕ). t * (a * a)) (pow_square a k)
    ∙ sym (mul_assoc (a ^ (k * 2)) a a)
    ∙ ap (λ (t : ℕ). t * a) (sym (pow-suc a (k * 2)))
    ∙ sym (pow-suc a (suc (k * 2)))
    ∙ ap (λ (t : ℕ). a ^ t) (omega arith)

-- A step of the power by squaring.
pub pow-halve : (c a k m : ℕ) → c * (a * a % m) ^ k % m ≡ c * a ^ (k * 2) % m
pow-halve c a k m = pow-mod c (a * a) k m ∙ ap (λ (t : ℕ). c * t % m) (pow_square a k)

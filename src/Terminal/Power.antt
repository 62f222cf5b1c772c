-- ===== src/Terminal/Power.antt =====
-- `pow` of includes/math/math.h against the power.
use os_dev_mtk.Base.{
  ℕ, zero, suc, ◌-◌, ◌*◌, ◌/◌, ◌%◌, ◌^◌, ◌≤◌, ◌<◌, ◌≡◌, ◌≢◌, ◌⊎◌, refl, ◌∙◌, sym, ap, false, some,
  ◌==◌, ltb, Bool-cases, inl, inr, arith, pos,
}
use os_dev_mtk.Base.Modular.{mod-mul, pow-halve}
use native.Mathlib.Nat.{pow-zero, pow-suc, mul_comm, mul_assoc}
use os_dev_mtk.Terminal.{Terminal, pow, pow_loop}

one_mul : (a : ℕ) → 1 * a ≡ a
one_mul a = omega arith

pow_one : (a : ℕ) → a ^ 1 ≡ a
pow_one a = pow-suc a 0 ∙ ap (λ (t : ℕ). t * a) (pow-zero a) ∙ one_mul a

pub pow_loop_lem :
    (fuel exp ans base : ℕ)
    → 0 < exp
    → exp ≤ fuel
    → pow_loop fuel exp ans base ≡ some (base * ans ^ exp % 2 ^ 32)
unfolding pow_loop
pow_loop_lem zero exp ans base p h = absurd (omega (arith, p, h))
pow_loop_lem (suc fuel) exp ans base p h = elim (Bool-cases (ltb 1 exp)) [
  | inr last ↦
      let one : exp ≡ 1 = ground (arith, last) in
      rw (last, one)
        (ap (λ (t : ℕ). some (t % 2 ^ 32))
          (mul_comm ans base ∙ ap (λ (t : ℕ). base * t) (sym (pow_one ans))))
  | inl more ↦ elim (Bool-cases (exp % 2 == 1)) [
    | inl odd ↦
        let k : ℕ = (exp - 1) / 2 in
        let ih =
          pow_loop_lem fuel k (ans * ans % 2 ^ 32) (base * ans % 2 ^ 32) (ground arith)
            (omega arith) in
        let whole : exp ≡ suc (k * 2) = ground arith in
        rw (more, odd, ih)
          (ap some (
            mod-mul (base * ans) ((ans * ans % 2 ^ 32) ^ k) (2 ^ 32)
            ∙ pow-halve (base * ans) ans k (2 ^ 32)
            ∙ ap (λ (t : ℕ). t % 2 ^ 32)
                (mul_assoc base ans (ans ^ (k * 2))
                  ∙ ap (λ (t : ℕ). base * t)
                      (mul_comm ans (ans ^ (k * 2))
                        ∙ sym (pow-suc ans (k * 2))
                        ∙ ap (λ (t : ℕ). ans ^ t) (sym whole)))))
    | inr even ↦
        let k : ℕ = exp / 2 in
        let ih = pow_loop_lem fuel k (ans * ans % 2 ^ 32) base (ground arith) (omega arith) in
        let whole : exp ≡ k * 2 = ground arith in
        rw (more, even, ih)
          (ap some
            (pow-halve base ans k (2 ^ 32) ∙ ap (λ (t : ℕ). base * ans ^ t % 2 ^ 32) (sym whole)))
  ]
]

pow_cases :
    (st : Terminal) (num n : ℕ)
    → num ≢ 0
    → num ≢ 1
    → n ≢ 0
    → pow st num (pos n) ≡ some (num ^ n % 2 ^ 32, st)
unfolding pow
pow_cases st num n n0 n1 e0 =
    let t0 : (num == 0) ≡ false = ground (arith, n0) in
    let t1 : (num == 1) ≡ false = ground (arith, n1) in
    let te : (n == 0) ≡ false = ground (arith, e0) in
    rw (t0, t1, te, pow_loop_lem (suc n) n num 1 (omega (arith, e0)) (omega arith))
      (ap (λ (t : ℕ). some (t % 2 ^ 32, st)) (one_mul (num ^ n)))

zero_pow : (n : ℕ) → n ≢ 0 → 0 ^ n ≡ 0
zero_pow zero h = absurd (h refl)
zero_pow (suc n) h = pow-suc 0 n ∙ omega arith

one_pow : (n : ℕ) → 1 ^ n ≡ 1
one_pow zero = pow-zero 1
one_pow (suc n) = pow-suc 1 n ∙ omega (arith, one_pow n)

-- With an exponent that is not negative, `pow` prints nothing and returns the power modulo 2^32, but
-- for the base and the exponent zero.
pub pow_lem :
    (st : Terminal) (num n : ℕ)
    → (num ≢ 0) ⊎ (n ≢ 0)
    → pow st num (pos n) ≡ some (num ^ n % 2 ^ 32, st)
unfolding pow
pow_lem st zero n (inl h) = absurd (h refl)
pow_lem st zero n (inr h) = ap (λ (t : ℕ). some (t % 2 ^ 32, st)) (sym (zero_pow n h))
pow_lem st (suc zero) n h = ap (λ (t : ℕ). some (t % 2 ^ 32, st)) (sym (one_pow n))
pow_lem st (suc (suc num)) zero h =
    let t0 : (suc (suc num) == 0) ≡ false = ground arith in
    let t1 : (suc (suc num) == 1) ≡ false = ground arith in
    rw (t0, t1) (ap (λ (t : ℕ). some (t % 2 ^ 32, st)) (sym (pow-zero (suc (suc num)))))
pow_lem st (suc (suc num)) (suc n) h =
    pow_cases st (suc (suc num)) (suc n) (omega arith) (omega arith) (omega arith)

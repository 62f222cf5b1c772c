-- ===== src/Terminal/Numbers.antt =====
-- `printint` prints the decimal notation of a number.
use os_dev_mtk.Base.{
  ℕ, zero, suc, ◌+◌, ◌*◌, ◌/◌, ◌%◌, ◌^◌, ◌≤◌, ◌<◌, ◌≡◌, ◌≢◌, refl, ◌∙◌, sym, ap, false, List, [],
  ◌∷◌, some, ◌==◌, ltb, Bool-cases, inl, inr, arith, ℤ, pos, negsuc, length,
}
use os_dev_mtk.Base.Decimal.{
  IsDecimal, IsSigned, AreDigits, IsCanonical, value_from, magnitude, cons_value, first-IsCanonical,
}
use native.Mathlib.Nat.{
  pow-zero, pow-suc, one-le-pow, pow-le-pow_right, div-lt_iff_lt-mul, le-div_iff_mul-le,
  mod-eq_of_lt, mod-lt, div-add-mod',
}
use os_dev_mtk.Terminal.{
  Terminal, terminal_puts, count_digits, print_digits, print_magnitude, printint,
}
use os_dev_mtk.Terminal.Power.{pow_lem}

-- One character after the other.
abbrev pub puts_all : Terminal → List ℕ → Terminal
puts_all st [] = st
puts_all st (c ∷ cs) = puts_all (terminal_puts st c) cs

-- The powers of ten that an `int` has digits for.
ten_pow : (n : ℕ) → n ≤ 9 → 10 ^ n % 2 ^ 32 ≡ 10 ^ n
ten_pow n h =
    mod-eq_of_lt {n = 10 ^ n} {m = 2 ^ 32}
      (omega (arith, pow-le-pow_right {n = 10} (omega arith) {i = n} {j = 9} h))

-- As many digits as are asked for.
record ArePrinted (n m : ℕ) (ds : List ℕ) : Type 0 where
  are_digits : AreDigits ds
  length_eq : length ds ≡ n
  value_eq : value_from 0 ds ≡ m
  leading : (k : ℕ) → n ≡ suc k → 10 ^ k ≤ m → IsCanonical ds

print_digits_lem :
    (n : ℕ) (st : Terminal) (m : ℕ)
    → n ≤ 10
    → m < 10 ^ n
    → (ds : List ℕ) × (print_digits n st false m ≡ some (puts_all st ds)) × ArePrinted n m ds
unfolding print_digits
print_digits_lem zero st m h l =
    let none_left : m ≡ 0 = omega (arith, pow-zero 10, l) in
    (
      [],
      refl,
      record {
        are_digits = tt;
        length_eq = refl;
        value_eq = sym none_left;
        leading = λ k e least. omega (arith, e);
      },
    )
print_digits_lem (suc n) st m h l =
    let d : ℕ = 10 ^ n in
    let q : ℕ = m / d in
    let r : ℕ = m % d in
    let d0 : 0 < d = one-le-pow n 10 (omega arith) in
    let whole : q * d + r ≡ m = omega (arith, div-add-mod' m d) in
    let q9 : q ≤ 9 =
      let less : q < 10 =
        (div-lt_iff_lt-mul {k = d} {x = m} {y = 10} d0).1 (omega (arith, l, pow-suc 10 n)) in
      omega (arith, less) in
    let real : (d == 0) ≡ false = ground (arith, d0) in
    let divisor = pow_lem st 10 n (inl (omega arith)) in
    let (ds, eq, p) =
      print_digits_lem n (terminal_puts st (48 + q)) r (omega (arith, h)) (mod-lt m d0) in
    (
      (48 + q) ∷ ds,
      rw (divisor, ten_pow n (omega (arith, h)), real, eq) refl,
      record {
        are_digits = (omega arith, omega (arith, q9), p.are_digits);
        length_eq = ap suc p.length_eq;
        value_eq =
            cons_value q r ds p.value_eq ∙ ap (λ (k : ℕ). q * 10 ^ k + r) p.length_eq ∙ whole;
        leading = λ k e least.
            let same : 10 ^ k ≡ d = ap (λ (i : ℕ). 10 ^ i) (omega (arith, e)) in
            let some_left : 1 ≤ q =
              (le-div_iff_mul-le {k = d} {x = 1} {y = m} d0).1 (omega (arith, least, same)) in
            first-IsCanonical (48 + q) ds (λ f. omega (arith, f, some_left));
      },
    )

count_zero : (fuel : ℕ) → 0 < fuel → count_digits fuel 0 ≡ some 0
unfolding count_digits
count_zero zero h = absurd (omega (arith, h))
count_zero (suc fuel) h = refl

ten_digits : (k num : ℕ) → 10 ^ k ≤ num → num < 2 ^ 31 → k ≤ 9
ten_digits k num least h = elim (Bool-cases (ltb 9 k)) [
  | inl more ↦
      let big : 10 ^ 10 ≤ 10 ^ k =
        pow-le-pow_right {n = 10} (omega arith) {i = 10} {j = k} (ground (arith, more)) in
      absurd (omega (arith, big, least, h))
  | inr few ↦ ground (arith, few)
]

count_digits_lem :
    (fuel num : ℕ)
    → num < fuel
    → num ≢ 0
    → (k : ℕ) × (count_digits fuel num ≡ some (suc k)) × (10 ^ k ≤ num) × (num < 10 ^ suc k)
unfolding count_digits
count_digits_lem zero num h ne = absurd (omega (arith, h))
count_digits_lem (suc fuel) num h ne =
    let real : (num == 0) ≡ false = ground (arith, ne) in
    elim (Bool-cases (num / 10 == 0)) [
      | inl last ↦
          let one : num / 10 ≡ 0 = ground (arith, last) in
          (
            0,
            rw (real, one, count_zero fuel (omega (arith, h, ne))) refl,
            omega (arith, ne),
            omega (arith, one),
          )
      | inr more ↦
          let (k, eq, least, most) =
            count_digits_lem fuel (num / 10) (omega (arith, h, ne)) (ground (arith, more)) in
          (
            suc k,
            rw (real, eq) refl,
            omega (arith, least, pow-suc 10 k),
            omega (arith, most, pow-suc 10 (suc k)),
          )
    ]

print_magnitude_lem :
    (st : Terminal) (num : ℕ)
    → num < 2 ^ 31
    → (ds : List ℕ) × (print_magnitude st false num ≡ some (puts_all st ds)) × IsDecimal num ds
unfolding print_magnitude
print_magnitude_lem st num h = elim (Bool-cases (num == 0)) [
  | inl none_left ↦
      let zero_is : num ≡ 0 = ground (arith, none_left) in
      (
        b'0' ∷ [],
        rw none_left refl,
        record {
          are_digits = (omega arith, omega arith, tt);
          value_eq = sym zero_is;
          canonical = tt;
        },
      )
  | inr some_left ↦
      let (k, eq, least, most) =
        count_digits_lem (suc num) num (omega arith) (ground (arith, some_left)) in
      let k9 : k ≤ 9 = ten_digits k num least h in
      let (ds, printed, p) = print_digits_lem (suc k) st num (omega (arith, k9)) most in
      (
        ds,
        rw (some_left, eq, printed) refl,
        record {
          are_digits = p.are_digits;
          value_eq = p.value_eq;
          canonical = p.leading k refl least;
        },
      )
]

-- `printint` prints the decimal notation of every `int` but the least one: with a minus sign if it is
-- negative, and without leading zeros.
pub printint-decimal :
    (st : Terminal) (num : ℤ)
    → magnitude num < 2 ^ 31
    → (cs : List ℕ) × (printint st num ≡ some (puts_all st cs)) × IsSigned num cs
unfolding printint
printint-decimal st (pos n) h = print_magnitude_lem st n h
printint-decimal st (negsuc n) h =
    let (ds, eq, p) = print_magnitude_lem (terminal_puts st b'-') (suc n) h in
    let other : (suc n == 2 ^ 31) ≡ false = ground (arith, h) in
    (b'-' ∷ ds, rw (other, eq) refl, (ds, refl, p))

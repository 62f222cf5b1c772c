-- ===== src/Base/Bits.antt =====
-- `&` and `|` with a mask or between disjoint fields, as arithmetic.
use Prim.Native.Nat.{
  ℕ, zero, suc, ◌+◌, ◌-◌, ◌*◌, ◌/◌, ◌%◌, ◌^◌, ◌≤◌, ◌<◌, min, max, bit_and, bit_or, digits, bitwise,
  bit_and-bitwise, bit_or-bitwise,
}
use mathlib.Core.Path.{◌≡◌, refl, ap, ◌∙◌}
use native.Mathlib.Omega.{arith}
use native.Mathlib.Nat.{
  pow-suc, one-le-pow, mul-one, div-one, div-div-eq-div-mul, mul_comm, mul_assoc, div-add-mod',
  add-mul-mod_self_left, mod-eq_of_lt, mod-lt,
}

-- The recursion behind the native operations gives the same digits on any fuel that suffices.
module _ (rest : ℕ → ℕ) (op : ℕ → ℕ → ℕ) where
  digits_more : (a n m b : ℕ) → a ≤ n → a ≤ m → digits rest op n a b ≡ digits rest op m a b
  digits_more zero zero zero b p q = refl
  digits_more zero zero (suc m) b p q = refl
  digits_more zero (suc n) zero b p q = refl
  digits_more zero (suc n) (suc m) b p q = refl
  digits_more (suc a) zero m b p q = elim p [ ]
  digits_more (suc a) (suc n) zero b p q = elim q [ ]
  digits_more (suc a) (suc n) (suc m) b p q =
      ap (λ (t : ℕ). t * 2 + op (suc a % 2) (b % 2))
        (digits_more (suc a / 2) n m (b / 2) (omega arith) (omega arith))

  lowest_digit :
      (a b : ℕ)
      → bitwise rest op (suc a) b ≡ bitwise rest op (suc a / 2) (b / 2) * 2 + op (suc a % 2) (b % 2)
  lowest_digit a b =
      ap (λ (t : ℕ). t * 2 + op (suc a % 2) (b % 2))
        (digits_more (suc a / 2) a (suc a / 2) (b / 2) (omega arith) (omega arith))

pub bit_and-lowest : (a b : ℕ) → bit_and a b ≡ bit_and (a / 2) (b / 2) * 2 + min (a % 2) (b % 2)
bit_and-lowest zero b = simp bit_and-bitwise (omega arith)
bit_and-lowest (suc a) b = simp bit_and-bitwise (lowest_digit (λ _. 0) min a b)

pub bit_or-lowest : (a b : ℕ) → bit_or a b ≡ bit_or (a / 2) (b / 2) * 2 + max (a % 2) (b % 2)
bit_or-lowest zero b = simp bit_or-bitwise (omega arith)
bit_or-lowest (suc a) b = simp bit_or-bitwise (lowest_digit (λ y. y) max a b)

-- Halving reaches zero, so a bound on the operand serves as fuel.
and-zero_upto : (n a : ℕ) → a ≤ n → bit_and a 0 ≡ 0
and-zero_upto n zero h = refl
and-zero_upto zero (suc a) h = elim h [ ]
and-zero_upto (suc n) (suc a) h =
    omega (arith, bit_and-lowest (suc a) 0, and-zero_upto n (suc a / 2) (omega arith))

or-zero_upto : (n a : ℕ) → a ≤ n → bit_or a 0 ≡ a
or-zero_upto n zero h = refl
or-zero_upto zero (suc a) h = elim h [ ]
or-zero_upto (suc n) (suc a) h =
    omega (arith, bit_or-lowest (suc a) 0, or-zero_upto n (suc a / 2) (omega arith))

pub bit_and-zero : (a : ℕ) → bit_and a 0 ≡ 0
bit_and-zero a = and-zero_upto a a (omega arith)

pub bit_or-zero : (a : ℕ) → bit_or a 0 ≡ a
bit_or-zero a = or-zero_upto a a (omega arith)

-- `(q << k) | r`, where `r` fits below.
pub bit_or-shifted : (k q r : ℕ) → r < 2 ^ k → bit_or (q * 2 ^ k) r ≡ q * 2 ^ k + r
bit_or-shifted zero q r h = ground (arith, bit_or-zero q)
bit_or-shifted (suc k) q r h = ground (
  arith,
  bit_or-lowest (q * 2 ^ suc k) r,
  ap (λ (t : ℕ). q * t) (pow-suc 2 k),
  bit_or-shifted k q (r / 2) (omega arith),
)

-- `a & (m << k)` looks at `a >> k` alone.
pub bit_and-high : (k a m : ℕ) → bit_and a (m * 2 ^ k) ≡ bit_and (a / 2 ^ k) m * 2 ^ k
bit_and-high zero a m = rw (mul-one m, mul-one (bit_and (a / 1) m), div-one)
bit_and-high (suc k) a m = ground (
  arith,
  ap (λ (t : ℕ). m * t) (pow-suc 2 k),
  pow-suc 2 k,
  bit_and-lowest a (m * 2 ^ suc k),
  bit_and-high k (a / 2) m,
  div-div-eq-div-mul a 2 (2 ^ k),
  mul_comm 2 (2 ^ k),
  mul_assoc (bit_and (a / 2 ^ suc k) m) (2 ^ k) 2,
)

half_mod : (a n : ℕ) → 0 < n → a % (n * 2) ≡ a / 2 % n * 2 + a % 2
half_mod a n h =
    ap (λ (t : ℕ). t % (n * 2)) whole
    ∙ add-mul-mod_self_left r (n * 2) q
    ∙ mod-eq_of_lt {n = r} {m = n * 2} (omega (arith, mod-lt (a / 2) h))
  where
    r : ℕ
    r = a / 2 % n * 2 + a % 2

    q : ℕ
    q = a / 2 / n

    whole : a ≡ r + n * 2 * q
    whole = omega (arith, div-add-mod' (a / 2) n)

-- `a & ((1 << k) - 1)` is the remainder.
pub bit_and-low : (k a : ℕ) → bit_and a (2 ^ k - 1) ≡ a % 2 ^ k
bit_and-low zero a = omega (arith, bit_and-zero a)
bit_and-low (suc k) a = ground (
  arith,
  pow-suc 2 k,
  one-le-pow k 2,
  bit_and-lowest a (2 ^ suc k - 1),
  bit_and-low k (a / 2),
  half_mod a (2 ^ k),
)

-- `a & 0xFFFFF000`, the page frame of a 32-bit word.
pub bit_and_frame : (a : ℕ) → a < 2 ^ 32 → bit_and a 0xffff_f000 ≡ a / 4096 * 4096
bit_and_frame a h = ground (arith, bit_and-high 12 a (2 ^ 20 - 1), bit_and-low 20 (a / 4096))

-- A page frame with flags in its low twelve bits.
pub bit_or_flags : (a f : ℕ) → a % 4096 ≡ 0 → f < 4096 → bit_or a f ≡ a + f
bit_or_flags a f h l =
    let e : a ≡ a / 4096 * 4096 = omega arith in
    ap (λ (t : ℕ). bit_or t f) e ∙ bit_or-shifted 12 (a / 4096) f l ∙ omega arith

-- The second lowest bit is set.
pub bit_or-two : (a : ℕ) → bit_or a 2 ≡ a / 4 * 4 + 2 + a % 2
bit_or-two a = ground (
  arith,
  bit_or-lowest a 2,
  bit_or-lowest (a / 2) 1,
  bit_or-zero (a / 2 / 2),
  div-div-eq-div-mul a 2 2,
)

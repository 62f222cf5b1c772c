-- ===== src/Library/Itoa.antt =====
-- `itoa` gives the decimal notation of every `int`.
use os_dev_mtk.Base.{
  ℕ, zero, suc, ◌+◌, ◌-◌, ◌*◌, ◌/◌, ◌%◌, ◌^◌, ◌≤◌, ◌<◌, ◌≡◌, ◌≢◌, refl, ◌∙◌, sym, ap, true, false,
  some, List, [], ◌∷◌, ◌++◌, ◌==◌, set, drop, length, ℤ, pos, negsuc, inl, inr, Bool-cases, arith,
  length-set, length-append, drop_all, snoc-append,
}
use os_dev_mtk.Base.Decimal.{IsDecimal, IsSigned, AreDigits, IsCanonical, value_from, magnitude}
use os_dev_mtk.Library.{put_before, itoa_loop, itoa_digits, itoa}
use native.Mathlib.Nat.{pow-zero, pow-suc}

-- The first digit, if there is one, is not 0.
abbrev Leads : List ℕ → Type 0
Leads [] = Unit {0}
Leads (d ∷ ds) = d ≢ 48

-- From `loc` on, the buffer holds a text.
record Holds (at : List ℕ × ℕ) (cs : List ℕ) : Type 0 where
  inside : at.1 < length at.0
  text : drop at.1 at.0 ≡ cs

drop-set : (xs : List ℕ) (i c : ℕ) → i < length xs → drop i (set xs i c) ≡ c ∷ drop (suc i) xs
drop-set [] i c h = absurd (omega (arith, h))
drop-set (x ∷ xs) zero c h = refl
drop-set (x ∷ xs) (suc i) c h = drop-set xs i c (omega (arith, h))

put_before-Holds :
    (at : List ℕ × ℕ) (c : ℕ) (cs : List ℕ)
    → Holds at cs
    → 0 < at.1
    → (at' : List ℕ × ℕ) × (put_before at c ≡ some at') × Holds at' (c ∷ cs) × (suc at'.1 ≡ at.1)
unfolding put_before
put_before-Holds (text, zero) c cs h p = absurd (omega (arith, p))
put_before-Holds (text, suc loc) c cs h p =
    let some_left : (suc loc == 0) ≡ false = ground arith in
    let fits : loc < length text = omega (arith, h.inside) in
    (
      (set text loc c, loc),
      rw some_left (ap (λ (i : ℕ). some (set text i c, i)) (omega arith)),
      record {
        inside = omega (arith, fits, length-set text loc c);
        text = drop-set text loc c fits ∙ ap (λ r. c ∷ r) h.text;
      },
      refl,
    )

value-snoc :
    (acc d : ℕ) (ds : List ℕ) → value_from acc (ds ++ d ∷ []) ≡ value_from acc ds * 10 + (d - 48)
value-snoc acc d [] = refl
value-snoc acc d (x ∷ ds) = value-snoc (acc * 10 + (x - 48)) d ds

snoc-AreDigits : (d : ℕ) (ds : List ℕ) → 48 ≤ d → d ≤ 57 → AreDigits ds → AreDigits (ds ++ d ∷ [])
snoc-AreDigits d [] l h p = (l, h, tt)
snoc-AreDigits d (x ∷ ds) l h (a, b, p) = (a, b, snoc-AreDigits d ds l h p)

snoc-Leads :
    (n d : ℕ) (ds : List ℕ)
    → value_from 0 ds ≡ n / 10
    → d ≡ 48 + n % 10
    → n ≢ 0
    → Leads ds
    → Leads (ds ++ d ∷ [])
snoc-Leads n d [] v e ne p = λ f. omega (arith, v, e, ne, f)
snoc-Leads n d (x ∷ ds) v e ne p = p

-- The digits of a number, before the text.
record AreWritten (num loc : ℕ) (at' : List ℕ × ℕ) (cs ds : List ℕ) : Type 0 where
  are_digits : AreDigits ds
  value_eq : value_from 0 ds ≡ num
  leads : Leads ds
  count : at'.1 + length ds ≡ loc
  holds : Holds at' (ds ++ cs)

no_digits :
    (num : ℕ) (at : List ℕ × ℕ) (cs : List ℕ) → num ≡ 0 → Holds at cs → AreWritten num at.1 at cs []
no_digits num at cs done held = record {
  are_digits = tt;
  value_eq = sym done;
  leads = tt;
  count = omega arith;
  holds = held;
}

itoa_loop_lem :
    (fuel n num : ℕ) (at : List ℕ × ℕ) (cs : List ℕ)
    → num < fuel
    → num < 10 ^ n
    → n ≤ at.1
    → Holds at cs
    → (at' : List ℕ × ℕ) × (ds : List ℕ) × (itoa_loop fuel at num ≡ some at')
      × AreWritten num at.1 at' cs ds
      × (length ds ≤ n)
unfolding itoa_loop
itoa_loop_lem zero n num at cs f l h held = absurd (omega (arith, f))
itoa_loop_lem (suc fuel) zero num at cs f l h held =
    let done : num ≡ 0 = omega (arith, l, pow-zero 10) in
    let end : (num == 0) ≡ true = ground (arith, done) in
    (at, [], rw end refl, no_digits num at cs done held, omega arith)
itoa_loop_lem (suc fuel) (suc n) num at cs f l h held = elim (Bool-cases (num == 0)) [
  | inl end ↦
      let done : num ≡ 0 = ground (arith, end) in
      (at, [], rw end refl, no_digits num at cs done held, omega arith)
  | inr more ↦
      let some_left : num ≢ 0 = ground (arith, more) in
      let d : ℕ = 48 + num % 10 in
      let (at1, put, held1, before) = put_before-Holds at d cs held (omega (arith, h)) in
      let (at', ds, eq, w, few) =
        itoa_loop_lem fuel n (num / 10) at1 (d ∷ cs) (omega (arith, f, some_left))
          (omega (arith, l, pow-suc 10 n)) (omega (arith, h, before)) held1 in
      let longer = length-append ds (d ∷ []) in
      (
        at',
        ds ++ d ∷ [],
        rw (more, put, eq) refl,
        record {
          are_digits = snoc-AreDigits d ds (omega arith) (omega arith) w.are_digits;
          value_eq = value-snoc 0 d ds ∙ omega (arith, w.value_eq);
          leads = snoc-Leads num d ds w.value_eq refl some_left w.leads;
          count = omega (arith, longer, w.count, before);
          holds = rw (snoc-append d ds cs) w.holds;
        },
        omega (arith, longer, few),
      )
]

Leads-IsCanonical : (ds : List ℕ) → Leads ds → value_from 0 ds ≢ 0 → IsCanonical ds
Leads-IsCanonical [] p ne = absurd (ne refl)
Leads-IsCanonical (d ∷ []) p ne = tt
Leads-IsCanonical (d ∷ e ∷ ds) p ne = p

some_digits : (ds : List ℕ) → value_from 0 ds ≢ 0 → 0 < length ds
some_digits [] h = absurd (h refl)
some_digits (d ∷ ds) h = omega arith

itoa_loop_zero : (num : ℕ) (at : List ℕ × ℕ) → num ≡ 0 → itoa_loop (suc num) at num ≡ some at
unfolding itoa_loop
itoa_loop_zero num at e = let end : (num == 0) ≡ true = ground (arith, e) in rw end refl

-- Behind at most ten digits, a byte of the buffer is left for the sign.
itoa_digits_lem :
    (text : List ℕ) (num : ℕ)
    → length text ≡ 12
    → num < 10 ^ 10
    → (at : List ℕ × ℕ) × (ds : List ℕ) × (itoa_digits text num ≡ some at)
      × Holds at (ds ++ 0 ∷ [])
      × IsDecimal num ds
      × (0 < at.1)
unfolding itoa_digits
itoa_digits_lem text num len h =
    let start : List ℕ × ℕ = (set text 11 0, 11) in
    let size = length-set text 11 0 in
    let held : Holds start (0 ∷ []) = record {
      inside = omega (arith, size, len);
      text = drop-set text 11 0 (omega (arith, len)) ∙ ap (λ r. 0 ∷ r) (drop_all text 12 (sym len));
    } in
    let (at, ds, eq, w, few) =
      itoa_loop_lem (suc num) 10 num start (0 ∷ []) (omega arith) h (omega arith) held in
    elim (Bool-cases (num == 0)) [
      | inl none_left ↦
          let zero_is : num ≡ 0 = ground (arith, none_left) in
          let (at', put, held', before) = put_before-Holds start b'0' (0 ∷ []) held (omega arith) in
          (
            at',
            b'0' ∷ [],
            rw (itoa_loop_zero num start zero_is, put) refl,
            held',
            record {
              are_digits = (omega arith, omega arith, tt);
              value_eq = sym zero_is;
              canonical = tt;
            },
            omega (arith, before),
          )
      | inr some_left ↦
          let value_ne : value_from 0 ds ≢ 0 = λ f. ground (arith, some_left, w.value_eq, f) in
          let moved : (at.1 == 11) ≡ false = ground (arith, w.count, some_digits ds value_ne) in
          (
            at,
            ds,
            rw (eq, moved) refl,
            w.holds,
            record {
              are_digits = w.are_digits;
              value_eq = w.value_eq;
              canonical = Leads-IsCanonical ds w.leads value_ne;
            },
            omega (arith, w.count, few),
          )
    ]

-- For every `int`, the least one too, `itoa` stays in its buffer of 12 bytes and returns the decimal
-- notation of the number, with a NUL behind it: with a minus sign if it is negative, and without
-- leading zeros.
pub itoa-decimal :
    (text : List ℕ) (num : ℤ)
    → length text ≡ 12
    → magnitude num ≤ 2 ^ 31
    → (text' : List ℕ) × (loc : ℕ) × (cs : List ℕ) × (itoa text num ≡ some (text', loc))
      × (drop loc text' ≡ cs ++ 0 ∷ [])
      × IsSigned num cs
unfolding itoa
itoa-decimal text (pos n) len h =
    let (at, ds, eq, held, p, left) = itoa_digits_lem text n len (omega (arith, h)) in
    (at.0, at.1, ds, eq, held.text, p)
itoa-decimal text (negsuc n) len h =
    let (at, ds, eq, held, p, left) = itoa_digits_lem text (suc n) len (omega (arith, h)) in
    let (at', put, held', before) = put_before-Holds at b'-' (ds ++ 0 ∷ []) held left in
    (at'.0, at'.1, b'-' ∷ ds, rw eq put, held'.text, (ds, refl, p))

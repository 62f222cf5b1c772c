-- ===== src/Files/Table.antt =====
-- The table of descriptors: where a new one goes, and that each has its place as its number.
use os_dev_mtk.Base.{
  ℕ, zero, suc, ◌+◌, ◌-◌, ◌<◌, ◌≤◌, ◌≡◌, refl, ◌∙◌, sym, ap, inl, inr, Option, none, some, List, [],
  ◌∷◌, arith, length, get_elem?, set, get_elem?-set_self, get_elem?-set_ne, length-set,
  get_elem?-length, Bool-cases, ◌==◌,
}
use os_dev_mtk.Files.{FileDescriptor, Descriptors, max_descriptors, free_slot}

-- The slot found is free, and every slot before it is taken.
pub free_slot-first :
    {A : Type 0} (slots : List (Option A)) (i k : ℕ)
    → free_slot slots i ≡ some k
    → (i ≤ k)
      × (k < i + length slots)
      × (get_elem? slots (k - i) ≡ some none)
      × ((j : ℕ) → i + j < k → (a : A) × (get_elem? slots j ≡ some (some a)))
unfolding free_slot
free_slot-first [] i k h = cc
free_slot-first (none ∷ slots) i k h =
    let e : i ≡ k = ground arith in
    let first : k - i ≡ 0 = omega arith in
    (omega arith, omega arith, rw first, λ j l. absurd (omega arith))
free_slot-first {A} (some a ∷ slots) i k h =
    let (from, to, free, taken) = free_slot-first slots (i + 1) k h in
    let e : k - i ≡ suc (k - (i + 1)) = omega arith in
    (omega arith, omega arith, rw (e, free), earlier taken)
  where
    earlier :
        ((j : ℕ) → i + 1 + j < k → (b : A) × (get_elem? slots j ≡ some (some b)))
        → (j : ℕ) → i + j < k
        → (b : A) × (get_elem? (some a ∷ slots) j ≡ some (some b))
    earlier taken zero l = (a, refl)
    earlier taken (suc j) l = taken j (omega arith)

module _ {A : Type 0} where
  pub set-set_free :
      (xs : List (Option A)) (i : ℕ) (v : Option A)
      → get_elem? xs i ≡ some none
      → set (set xs i v) i none ≡ xs
  set-set_free [] i v h = refl
  set-set_free (x ∷ xs) zero v h = let e : x ≡ none = ground arith in rw e
  set-set_free (x ∷ xs) (suc i) v h = ap (λ l. x ∷ l) (set-set_free xs i v h)

module _ {P : Type 0} where
  -- Each descriptor has its place, counted from 1, as its number.
  pub record IsTable (table : Descriptors P) : Type 0 where
    pub size : length table ≡ max_descriptors
    pub numbered : (i : ℕ) (d : FileDescriptor P) → get_elem? table i ≡ some (some d) → d.id ≡ i + 1

  pub set-IsTable :
      (table : Descriptors P) (i : ℕ) (slot : Option (FileDescriptor P))
      → IsTable table
      → ((d : FileDescriptor P) → slot ≡ some d → d.id ≡ i + 1)
      → IsTable (set table i slot)
  set-IsTable table i slot is own = record {
    size = length-set table i slot ∙ is.size;
    numbered = λ k d e. elim (Bool-cases (k == i)) [
      | inr other ↦ is.numbered k d (sym (get_elem?-set_ne table i k slot (λ s. ground arith)) ∙ e)
      | inl same ↦
          let s : k ≡ i = ground arith in
          let e' = rw s at e in
          let l = get_elem?-length (set table i slot) i e' in
          let inside : i < length table = omega (arith, length-set table i slot) in
          let stored : some slot ≡ some (some d) =
            sym (get_elem?-set_self table i slot inside) ∙ e' in
          let here : slot ≡ some d = cc in own d here ∙ ap (λ (n : ℕ). n + 1) (sym s)
    ];
  }

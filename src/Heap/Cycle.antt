-- ===== src/Heap/Cycle.antt =====
-- `heap_alloc_blocks` whenever it returns, and `heap_free` after it.
use os_dev_mtk.Base.{
  ℕ, suc, ◌+◌, ◌*◌, ◌≡◌, sym, ap, ◌∙◌, Option, none, some, inl, inr, Option-cases,
}
use os_dev_mtk.Heap.{Heap, block_size, heap_alloc_blocks, heap_free}
use os_dev_mtk.Heap.Search.{first_fit}
use os_dev_mtk.Heap.Alloc.{
  IsValid, allocated, alloc_blocks-first_fit, allocated-IsValid, free-allocated,
  alloc_blocks-no_fit,
}

some-injective : (x y : ℕ × Heap) → ◌≡◌ {A = Option (ℕ × Heap)} (some x) (some y) → x ≡ y
some-injective x y e =
    ap (λ (o : Option (ℕ × Heap)). elim o as (λ _. ℕ × Heap) [ none ↦ x | some a ↦ a ]) e

-- The block at which the allocation begins.
alloc_blocks-allocated :
    (h h' : Heap) (n ptr : ℕ)
    → IsValid h
    → heap_alloc_blocks h (suc n) ≡ some (ptr, h')
    → (s : ℕ) × (first_fit h.table.entries (suc n) ≡ some s)
      × (ptr ≡ h.base_addr + s * block_size)
      × (h' ≡ allocated h s n)
alloc_blocks-allocated h h' n ptr v e = elim (Option-cases (first_fit h.table.entries (suc n))) [
  | inl none_fits ↦ let never = alloc_blocks-no_fit n v none_fits in absurd cc
  | inr (s, fit) ↦
      let given = some-injective _ _ (sym e ∙ alloc_blocks-first_fit v n s fit) in
      (s, fit, ap (λ (r : ℕ × Heap). r.0) given, ap (λ (r : ℕ × Heap). r.1) given)
]

-- Every allocation of one block or more that returns leaves a valid heap valid.
pub alloc_blocks-IsValid :
    (h h' : Heap) (n ptr : ℕ)
    → IsValid h
    → heap_alloc_blocks h (suc n) ≡ some (ptr, h')
    → IsValid h'
alloc_blocks-IsValid h h' n ptr v e =
    let (s, fit, _, same) = alloc_blocks-allocated h h' n ptr v e in
    rw same (allocated-IsValid v n s fit)

-- `heap_free` of the address that an allocation of one block or more has returned, on a valid heap,
-- gives the heap back as it was before the allocation.
pub free-alloc_blocks :
    (h h' : Heap) (n ptr : ℕ)
    → IsValid h
    → heap_alloc_blocks h (suc n) ≡ some (ptr, h')
    → heap_free h' ptr ≡ h
free-alloc_blocks h h' n ptr v e =
    let (s, fit, at, same) = alloc_blocks-allocated h h' n ptr v e in
    ap (λ (k : Heap). heap_free k ptr) same
    ∙ ap (λ (p : ℕ). heap_free (allocated h s n) p) at
    ∙ free-allocated v n s fit

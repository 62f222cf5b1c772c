-- ===== src/Processes/Reuse.antt =====
-- A process that frees what it has just allocated.
use os_dev_mtk.Base.{
  ℕ, zero, suc, ◌+◌, ◌%◌, ◌^◌, ◌≡◌, ◌≢◌, refl, ◌∙◌, sym, ap, true, false, some, List, [], ◌∷◌,
  arith, ◌==◌, get_elem?, set, Bool-cases, inl, inr, ℤ, pos, is_neg,
}
use os_dev_mtk.Paging.{paging_align_address}
use os_dev_mtk.Processes.{
  Allocation, no_allocation, Services, allocation_slot, process_find_free_allocation_slot,
  malloc_at, process_malloc, process_free,
}
use os_dev_mtk.Processes.Release.{CanUnmap, free_entry_lem}

-- A free entry is empty, and no entry has the address.
abbrev pub AreTidy : (ptr : ℕ) → List Allocation → Type 0
AreTidy ptr [] = Unit {0}
AreTidy ptr (a ∷ allocations) =
    (a.ptr ≡ 0 → a ≡ no_allocation) × (a.ptr ≢ ptr) × AreTidy ptr allocations

slot_of :
    (allocations : List Allocation) (j : ℕ)
    → process_find_free_allocation_slot allocations ≡ pos j
    → allocation_slot allocations 0 ≡ pos j
unfolding process_find_free_allocation_slot
slot_of allocations j e = e

-- The slot that is found holds a free entry.
slot_free :
    (allocations : List Allocation) (i j : ℕ)
    → allocation_slot allocations i ≡ pos j
    → (k : ℕ) × (j ≡ i + k) × (a : Allocation) × (get_elem? allocations k ≡ some a) × (a.ptr ≡ 0)
unfolding allocation_slot
slot_free [] i j e = cc
slot_free (a ∷ allocations) i j e = elim (Bool-cases (a.ptr == 0)) [
  | inl free ↦
      let e' : pos i ≡ pos j = rw (allocation_slot, free) at e in
      let same : i ≡ j = cc in (0, omega (arith, same), a, refl, ground (arith, free))
  | inr used ↦
      let (k, index, b, at, free) =
        slot_free allocations (i + 1) j (rw (allocation_slot, used) at e) in
      (suc k, omega (arith, index), b, at, free)
]

module _ {S : Type 0} (services : Services S) where
  free-set :
      (st : S) (allocations : List Allocation) (k ptr size : ℕ) (a : Allocation)
      → get_elem? allocations k ≡ some a
      → a.ptr ≡ 0
      → AreTidy ptr allocations
      → CanUnmap services (record { ptr = ptr; size = size })
      → (process_free services st (set allocations k (record { ptr = ptr; size = size })) ptr).1
        ≡ allocations
  unfolding process_free
  free-set st [] k ptr size a at free tidy can = cc
  free-set st (b ∷ allocations) zero ptr size a at free (clean, other, tidy) can =
      let same : (ptr == ptr) ≡ true = ground arith in
      let is : b ≡ a = cc in
      let empty : b ≡ no_allocation = clean (ap (λ x. x.ptr) is ∙ free) in
      rw (same, free_entry_lem services st (record { ptr = ptr; size = size }) can)
        (ap (λ x. x ∷ allocations) (sym empty))
  free-set st (b ∷ allocations) (suc k) ptr size a at free (clean, other, tidy) can =
      let differs : (b.ptr == ptr) ≡ false = ground (arith, other) in
      rw differs (ap (λ xs. b ∷ xs) (free-set st allocations k ptr size a at free tidy can))

  -- In a table whose free entries are empty: when a slot is free, the heap gives a block that is no
  -- allocation of the process yet, and its pages can be mapped, and unmapped at any state, then
  -- `process_malloc` returns the block, and freeing it at any later state gives back the table of
  -- allocations as it was.
  pub malloc-free :
      (st st1 st2 later : S) (allocations : List Allocation) (size ptr j : ℕ) (res : ℤ)
      → AreTidy ptr allocations
      → process_find_free_allocation_slot allocations ≡ pos j
      → services.kzalloc st size ≡ some (ptr, st1)
      → ptr ≢ 0
      → services.paging_map_to st1 ptr ptr (paging_align_address ((ptr + size) % 2 ^ 32)) 7
        ≡ (res, st2)
      → is_neg res ≡ false
      → CanUnmap services (record { ptr = ptr; size = size })
      → (allocations' : List Allocation) × (process_malloc services st allocations size
          ≡ some (ptr, st2, allocations'))
        × ((process_free services later allocations' ptr).1 ≡ allocations)
  unfolding process_malloc malloc_at
  malloc-free st st1 st2 later allocations size ptr j res tidy slot given real mapped good can =
      let nonnull : (ptr == 0) ≡ false = ground (arith, real) in
      let (k, index, a, at, free) = slot_free allocations 0 j (slot_of allocations j slot) in
      let same : k ≡ j = omega (arith, index) in
      let new : Allocation = record { ptr = ptr; size = size } in
      (
        set allocations j new,
        rw (process_malloc, slot, malloc_at, given, mapped, nonnull, good) refl,
        ap (λ (i : ℕ). (process_free services later (set allocations i new) ptr).1) (sym same)
            ∙ free-set later allocations k ptr size a at free tidy can,
      )

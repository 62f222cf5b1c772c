-- ===== src/Heap/Search.antt =====
-- `heap_get_start_block` against a first-fit search.

use mathlib.Core.Path.{ap}
use os_dev_mtk.Base.{
  ℕ, zero, suc, ◌+◌, ◌-◌, ◌≤◌, ◌<◌, ◌≡◌, refl, ◌⊎◌, ◌∙◌, inl, inr, Bool, true, false, ◌&&◌, Option,
  none, some, List, [], ◌∷◌, arith, ◌==◌, if◌then◌else◌, Bool-cases, length, take, ℤ, pos, negsuc,
  enomem,
}
use os_dev_mtk.Heap.{
  HeapTable, entry_free, heap_get_entry_type, is_minus_one, start_block_loop, heap_get_start_block,
}

abbrev pub is_free : ℕ → Bool
is_free entry = heap_get_entry_type entry == entry_free

-- The first `n` entries exist and are free.
unfoldable pub free_run : List ℕ → ℕ → Bool
free_run es zero = true
free_run [] (suc n) = false
free_run (e ∷ es) (suc n) = is_free e && free_run es n

-- The least index at which `n` free entries begin.
unfoldable pub first_fit : List ℕ → ℕ → Option ℕ
unfolding free_run
first_fit [] n = none
first_fit (e ∷ es) n =
    let later = first_fit es n in
    if free_run (e ∷ es) n then some 0 else elim later [ none ↦ none | some s ↦ some (suc s) ]

free_run_shorter : (es : List ℕ) (n m : ℕ) → n ≤ m → free_run es m ≡ true → free_run es n ≡ true
unfolding free_run
free_run_shorter es zero m h r = refl
free_run_shorter es (suc n) zero h r = elim h [ ]
free_run_shorter [] (suc n) (suc m) h r = cc
free_run_shorter (e ∷ es) (suc n) (suc m) h r =
    ground (arith, free_run_shorter es n m (omega arith))

-- The variable `bs` of the loop, after `bc` free entries before index `i`.
abbrev begun : ℕ → ℕ → ℤ
begun i bc = if bc == 0 then negsuc 0 else pos (i - bc)

-- A free entry leaves `bs` at the start of its run.
begun_next :
    (i bc : ℕ)
    → bc ≤ i
    → (if is_minus_one (begun i bc) then pos i else begun i bc) ≡ begun (i + 1) (bc + 1)
begun_next i bc h = ground arith

begun_pos : (i bc : ℕ) → bc ≤ i → begun (i + 1) (bc + 1) ≡ pos (i - bc)
begun_pos i bc h = ground arith

-- The loop stops inside a run that is long enough.
loop-free_run :
    (es : List ℕ) (i bc left total : ℕ)
    → total ≡ bc + suc left
    → bc ≤ i
    → free_run es (suc left) ≡ true
    → start_block_loop es i bc (begun i bc) total ≡ pos (i - bc)
unfolding start_block_loop free_run
loop-free_run [] i bc left total h k r = cc
loop-free_run (e ∷ es) i bc zero total h k r = ground (arith, begun_next i bc k, begun_pos i bc k)
loop-free_run (e ∷ es) i bc (suc l) total h k r =
    rw (begun_next i bc k)
      (ground (arith, loop-free_run es (i + 1) (bc + 1) l total (omega arith) (omega arith)))

-- A run at the front is the first one.
first_fit-zero : (es : List ℕ) (n : ℕ) → free_run es (suc n) ≡ true → first_fit es (suc n) ≡ some 0
unfolding first_fit
first_fit-zero [] n r = cc
first_fit-zero (e ∷ es) n r = rw r

pub first_fit-cons :
    (e : ℕ) (es : List ℕ) (n s : ℕ)
    → free_run (e ∷ es) n ≡ false
    → first_fit (e ∷ es) n ≡ some s
    → (s' : ℕ) × (s ≡ suc s') × (first_fit es n ≡ some s')
unfolding first_fit
first_fit-cons e es n s r f = later (first_fit es n) (rw r at f)
  where
    later :
        (o : Option ℕ)
        → elim o as (λ _. Option ℕ) [ none ↦ none | some s' ↦ some (suc s') ] ≡ some s
        → (s' : ℕ) × (s ≡ suc s') × (o ≡ some s')
    later none e' = cc
    later (some s') e' = (s', ground arith, refl)

short-suc :
    (e : ℕ) (es : List ℕ) (left : ℕ)
    → is_free e ≡ true
    → free_run (e ∷ es) (suc left) ≡ false
    → (l : ℕ) × (left ≡ suc l) × (free_run es (suc l) ≡ false)
unfolding free_run
short-suc e es zero free r = absurd (ground arith)
short-suc e es (suc l) free r = (l, refl, ground arith)

first_fit-none : (es : List ℕ) (n : ℕ) → first_fit es (suc n) ≡ none → free_run es (suc n) ≡ false
first_fit-none es n f = ground (arith, first_fit-zero es n)

first_fit-none-cons :
    (e : ℕ) (es : List ℕ) (n : ℕ)
    → first_fit (e ∷ es) n ≡ none
    → (first_fit es n ≡ none) × (free_run (e ∷ es) n ≡ false)
unfolding first_fit
first_fit-none-cons e es n f = ground arith

module _ (n : ℕ) where
  -- Where the run at hand is too short, the loop goes on to the first that fits.
  loop-first_fit :
      (es : List ℕ) (i bc left s : ℕ)
      → suc n ≡ bc + suc left
      → bc ≤ i
      → free_run es (suc left) ≡ false
      → first_fit es (suc n) ≡ some s
      → start_block_loop es i bc (begun i bc) (suc n) ≡ pos (i + s)
  unfolding start_block_loop first_fit
  loop-first_fit [] i bc left s h k r f = cc
  loop-first_fit (e ∷ es) i bc left s h k r f = elim (Bool-cases (is_free e)) [
    | inr taken ↦
        let (s', es', f') = first_fit-cons e es (suc n) s (unfold free_run in rw taken refl) f in
        rw (taken, es')
          (elim (Bool-cases (free_run es (suc n))) [
            | inl run ↦
                loop-free_run es (i + 1) 0 n (suc n) (omega arith) (omega arith) run
                ∙ ground (arith, first_fit-zero es n run)
            | inr short ↦
                loop-first_fit es (i + 1) 0 n s' (omega arith) (omega arith) short f'
                ∙ ap pos (omega arith)
          ])
    | inl free ↦
        let (l, el, r') = short-suc e es left free r in
        let far : free_run (e ∷ es) (suc n) ≡ false =
          ground (arith, free_run_shorter (e ∷ es) (suc left) (suc n) (omega arith)) in
        let (s', es', f') = first_fit-cons e es (suc n) s far f in
        let ih = loop-first_fit es (i + 1) (bc + 1) l s' (omega arith) (omega arith) r' f' in
        rw (free, es', begun_next i bc k) (ground (arith, ih))
  ]

  -- With no fit the loop ends with the start of the run that ends the table, which is too short,
  -- or with -1 where there is none.
  loop-no_fit :
      (es : List ℕ) (i bc left : ℕ)
      → suc n ≡ bc + suc left
      → bc ≤ i
      → free_run es (suc left) ≡ false
      → first_fit es (suc n) ≡ none
      → (c : ℕ) × (c ≤ n)
        × (c ≤ i + length es)
        × (start_block_loop es i bc (begun i bc) (suc n) ≡ begun (i + length es) c)
  unfolding start_block_loop
  loop-no_fit [] i bc left h k r f =
      (bc, omega arith, omega arith, ap (λ (j : ℕ). begun j bc) (omega arith))
  loop-no_fit (e ∷ es) i bc left h k r f = elim (Bool-cases (is_free e)) [
    | inr taken ↦
        let (c, small, inside, at) =
          loop-no_fit es (i + 1) 0 n (omega arith) (omega arith) (first_fit-none es n f'.0) f'.0 in
        (c, small, omega arith, rw taken (at ∙ ap (λ (j : ℕ). begun j c) (omega arith)))
    | inl free ↦
        let (l, el, r') = short-suc e es left free r in
        let (c, small, inside, at) =
          loop-no_fit es (i + 1) (bc + 1) l (omega arith) (omega arith) r' f'.0 in
        let same : i + 1 + length es ≡ i + suc (length es) = omega arith in
        let more : (bc + 1 == suc n) ≡ false = ground arith in
        (
          c,
          small,
          omega arith,
          rw (free, more, begun_next i bc k) (at ∙ ap (λ (j : ℕ). begun j c) same),
        )
  ]
    where
      f' : (first_fit es (suc n) ≡ none) × (free_run (e ∷ es) (suc n) ≡ false)
      f' = first_fit-none-cons e es (suc n) f

-- For `n` blocks, one or more, `heap_get_start_block` returns the least block at which `n` free
-- entries begin, where there is one.
pub start_block-first_fit :
    (table : HeapTable) (n s : ℕ)
    → 0 < n
    → first_fit (take table.total_entries table.entries) n ≡ some s
    → heap_get_start_block table n ≡ pos s
unfolding heap_get_start_block
start_block-first_fit table zero s h f = elim h [ ]
start_block-first_fit table (suc n) s h f = elim (Bool-cases (free_run es (suc n))) [
  | inl run ↦
      let start = loop-free_run es 0 0 n (suc n) (omega arith) (omega arith) run in
      ground (arith, start, first_fit-zero es n run)
  | inr short ↦
      let start = loop-first_fit n es 0 0 n s (omega arith) (omega arith) short f in
      ground (arith, start)
]
  where
    es : List ℕ
    es = take table.total_entries table.entries

-- With no run of `n + 1` free entries the result is -ENOMEM, or the start of a run that is too
-- short and ends the table.
pub start_block-no_fit :
    (table : HeapTable) (n : ℕ)
    → first_fit (take table.total_entries table.entries) (suc n) ≡ none
    → let size = length (take table.total_entries table.entries) in
      (heap_get_start_block table (suc n) ≡ enomem)
      ⊎ ((c : ℕ) × (0 < c)
          × (c ≤ n)
          × (c ≤ size)
          × (heap_get_start_block table (suc n) ≡ pos (size - c)))
unfolding heap_get_start_block
start_block-no_fit table n f =
    result (loop-no_fit n es 0 0 n (omega arith) (omega arith) (first_fit-none es n f) f)
  where
    es : List ℕ
    es = take table.total_entries table.entries

    result :
        (c : ℕ) × (c ≤ n)
          × (c ≤ 0 + length es)
          × (start_block_loop es 0 0 (negsuc 0) (suc n) ≡ begun (0 + length es) c)
        → (heap_get_start_block table (suc n) ≡ enomem)
          ⊎ ((c : ℕ) × (0 < c)
              × (c ≤ n)
              × (c ≤ length es)
              × (heap_get_start_block table (suc n) ≡ pos (length es - c)))
    result (zero, small, inside, at) = inl (ground (arith, at))
    result (suc c, small, inside, at) =
        inr (suc c, omega arith, small, omega arith, ground (arith, at))

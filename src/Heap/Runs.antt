-- ===== src/Heap/Runs.antt =====
-- Runs of free bytes in tables that are made of whole allocations.
use mathlib.Core.List.{append_assoc}
use os_dev_mtk.Base.{
  ℕ, zero, suc, ◌+◌, ◌≤◌, ◌≡◌, refl, ◌∙◌, ap, true, false, some, List, [], ◌∷◌, ◌++◌, arith, length,
  take, drop, take-append_add, drop-append_add, replicate, inl, inr, Bool-cases,
}
use os_dev_mtk.Heap.{heap_get_entry_type}
use os_dev_mtk.Heap.Blocks.{
  chunk, continued, length-chunk, IsBlocks, none_left, free_block, allocation,
}
use os_dev_mtk.Heap.Search.{free_run, first_fit, first_fit-cons}

pub free_run-length : (es : List ℕ) (n : ℕ) → free_run es n ≡ true → n ≤ length es
unfolding free_run
free_run-length es zero r = omega arith
free_run-length [] (suc n) r = absurd (ground arith)
free_run-length (e ∷ es) (suc n) r = ground (arith, free_run-length es n)

-- The run that a first fit names.
pub first_fit-free_run :
    (es : List ℕ) (n s : ℕ) → first_fit es n ≡ some s → free_run (drop s es) n ≡ true
unfolding first_fit
first_fit-free_run [] n s f = cc
first_fit-free_run (e ∷ es) n s f = elim (Bool-cases (free_run (e ∷ es) n)) [
  | inl run ↦ let at_zero : 0 ≡ s = ground arith in rw (← at_zero) run
  | inr short ↦
      let (s', es', f') = first_fit-cons e es n s short f in rw es' (first_fit-free_run es n s' f')
]

chunk-taken : (k n : ℕ) (es : List ℕ) → free_run (chunk k ++ es) (suc n) ≡ false
unfolding free_run chunk heap_get_entry_type
chunk-taken zero n es = refl
chunk-taken (suc k) n es = refl

-- Free bytes of whole allocations are zero.
pub IsBlocks-front :
    {es : List ℕ} (n : ℕ)
    → IsBlocks es
    → free_run es n ≡ true
    → IsBlocks (drop n es) × (es ≡ replicate n 0 ++ drop n es)
unfolding free_run
IsBlocks-front zero b r = (b, refl)
IsBlocks-front (suc n) none_left r = cc
IsBlocks-front (suc n) (free_block b) r =
    let (rest, split) = IsBlocks-front n b (ground arith) in (rest, ap (λ l. 0 ∷ l) split)
IsBlocks-front (suc n) (allocation k {es = es0} b e) r = cc (chunk-taken k n es0)

-- No free byte lies within an allocation.
continued-outside :
    (k s n : ℕ) (es : List ℕ)
    → free_run (drop s (continued k ++ es)) (suc n) ≡ true
    → (s' : ℕ) × (s ≡ k + s')
unfolding free_run continued heap_get_entry_type
continued-outside zero s n es r = (s, omega arith)
continued-outside (suc zero) zero n es r = cc
continued-outside (suc zero) (suc s) n es r = (s, omega arith)
continued-outside (suc (suc k)) zero n es r = cc
continued-outside (suc (suc k)) (suc s) n es r =
    let (s', e) = continued-outside (suc k) s n es r in (s', omega arith)

chunk-outside :
    (k s n : ℕ) (es : List ℕ)
    → free_run (drop s (chunk k ++ es)) (suc n) ≡ true
    → (s' : ℕ) × (s ≡ suc k + s')
unfolding free_run chunk heap_get_entry_type
chunk-outside zero zero n es r = cc
chunk-outside zero (suc s) n es r = (s, omega arith)
chunk-outside (suc k) zero n es r = cc
chunk-outside (suc k) (suc s) n es r =
    let (s', e) = continued-outside (suc k) s n es r in (s', omega arith)

-- Taking a run of free blocks leaves whole allocations.
pub IsBlocks-alloc :
    {es : List ℕ} (s n : ℕ)
    → IsBlocks es
    → free_run (drop s es) (suc n) ≡ true
    → IsBlocks (take s es ++ (chunk n ++ drop (suc n) (drop s es)))
IsBlocks-alloc zero n b r = allocation n (IsBlocks-front (suc n) b r).0 refl
IsBlocks-alloc (suc s) n none_left r = absurd (unfold free_run in ground arith)
IsBlocks-alloc (suc s) n (free_block b) r = free_block (IsBlocks-alloc s n b r)
IsBlocks-alloc (suc s) n (allocation k {es = es0} {fs} b e) r =
    let (s', at) = chunk-outside k (suc s) n es0 (rw e at r) in
    let past : suc s ≡ length (chunk k) + s' = omega (arith, length-chunk k) in
    let r' : free_run (drop s' es0) (suc n) ≡ true =
      rw (e, drop-append_add (chunk k) es0 (suc s) s' past) at r in
    let same =
      ap (λ (l : List ℕ). take (suc s) l ++ (chunk n ++ drop (suc n) (drop (suc s) l))) e
      ∙ rw
          (
            take-append_add (chunk k) es0 (suc s) s' past,
            drop-append_add (chunk k) es0 (suc s) s' past,
          )
          (append_assoc (chunk k) _ _) in
    allocation k (IsBlocks-alloc s' n b r') same

pub IsBlocks-drop :
    {es : List ℕ} (s n : ℕ)
    → IsBlocks es
    → free_run (drop s es) (suc n) ≡ true
    → IsBlocks (drop s es)
IsBlocks-drop zero n b r = b
IsBlocks-drop (suc s) n none_left r = absurd (unfold free_run in ground arith)
IsBlocks-drop (suc s) n (free_block b) r = IsBlocks-drop s n b r
IsBlocks-drop (suc s) n (allocation k {es = es0} {fs} b e) r =
    let (s', at) = chunk-outside k (suc s) n es0 (rw e at r) in
    let past : suc s ≡ length (chunk k) + s' = omega (arith, length-chunk k) in
    let r' : free_run (drop s' es0) (suc n) ≡ true =
      rw (e, drop-append_add (chunk k) es0 (suc s) s' past) at r in
    rw (e, drop-append_add (chunk k) es0 (suc s) s' past) (IsBlocks-drop s' n b r')

-- Given back, the blocks of an allocation leave whole allocations.
pub IsBlocks-zeros : {es : List ℕ} (n : ℕ) → IsBlocks es → IsBlocks (replicate n 0 ++ es)
IsBlocks-zeros zero b = b
IsBlocks-zeros (suc n) b = free_block (IsBlocks-zeros n b)

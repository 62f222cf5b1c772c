-- ===== src/Heap/Pages.antt =====
-- Blocks of one page that `kzalloc` takes one after the other from an empty heap.
use os_dev_mtk.Base.{
  ℕ, zero, suc, ◌+◌, ◌*◌, ◌<◌, ◌≡◌, refl, ◌∙◌, ap, Option, some, List, [], ◌∷◌, ◌++◌, arith, get_or,
  take, drop, replicate, ◌>>=◌,
}
use os_dev_mtk.Heap.{block_size, heap_align_size, heap_get_entry_type}
use os_dev_mtk.Heap.Search.{free_run, first_fit}
use os_dev_mtk.Heap.Blocks.{chunk}
use os_dev_mtk.Heap.Alloc.{IsValid, allocated-IsValid}
use os_dev_mtk.Heap.Kernel.{KernelHeap, heap_base, kzalloc, kzalloc_lem}

-- The entry of an allocation of one block.
abbrev taken : ℕ
taken = 0x41

-- The first `n` blocks are allocations of one block each, and `m` more are free.
pub record IsFilled (k : KernelHeap) (n m : ℕ) : Type 0 where
  pub valid : IsValid k.heap
  pub base : k.heap.base_addr ≡ heap_base
  pub entries : k.heap.table.entries ≡ replicate n taken ++ replicate m 0

-- The address of block `n`.
abbrev pub block_at : (n : ℕ) → ℕ
block_at n = heap_base + n * block_size

pub IsFilled-eq :
    (k : KernelHeap) (n n' m m' : ℕ) → n ≡ n' → m ≡ m' → IsFilled k n m → IsFilled k n' m'
IsFilled-eq k n n' m m' e e' f = rw (← e, ← e') f

filled-first_fit : (n m : ℕ) → first_fit (replicate n taken ++ replicate (suc m) 0) 1 ≡ some n
unfolding first_fit free_run heap_get_entry_type
filled-first_fit zero m = refl
filled-first_fit (suc n) m = rw (filled-first_fit n m) refl

filled-next :
    (n m : ℕ)
    → take n (replicate n taken ++ replicate (suc m) 0)
        ++ (taken ∷ drop (suc n) (replicate n taken ++ replicate (suc m) 0))
      ≡ replicate (suc n) taken ++ replicate m 0
filled-next zero m = refl
filled-next (suc n) m = ap (λ es. taken ∷ es) (filled-next n m)

pub kzalloc-IsFilled :
    (k : KernelHeap) (n m size : ℕ)
    → IsFilled k n (suc m)
    → heap_align_size size ≡ block_size
    → (k' : KernelHeap) × (kzalloc k size ≡ some (block_at n, k')) × IsFilled k' (suc n) m
unfolding chunk
kzalloc-IsFilled k n m size f one =
    let next : n + 1 ≡ suc n = omega arith in
    let fit : first_fit k.heap.table.entries 1 ≡ some n = rw (f.entries) (filled-first_fit n m) in
    let (k', eq, heap, _) =
      kzalloc_lem k size 0 n f.valid (omega (arith, f.base)) (omega (arith, one)) fit in
    (
      k',
      eq ∙ ap (λ (b : ℕ). some (b + n * block_size, k')) f.base,
      record {
        valid = rw heap (allocated-IsValid f.valid 0 n fit);
        base = rw heap f.base;
        entries = rw (heap, f.entries, next) (filled-next n m);
      },
    )

-- What `n` calls for one page each return, in order.
unfoldable pub kzalloc_pages : (n : ℕ) → KernelHeap → Option (List ℕ × KernelHeap)
kzalloc_pages zero k = some ([], k)
kzalloc_pages (suc n) k =
    kzalloc k block_size >>= λ (ptr, k1). kzalloc_pages n k1 >>= λ (ptrs, k2). some (ptr ∷ ptrs, k2)

block_at-cons :
    (i n : ℕ) (ptrs : List ℕ)
    → ((d : ℕ) → d < n → get_or ptrs d 0 ≡ block_at (suc i + d))
    → (d : ℕ) → d < suc n
    → get_or (block_at i ∷ ptrs) d 0 ≡ block_at (i + d)
block_at-cons i n ptrs at zero h = omega arith
block_at-cons i n ptrs at (suc d) h = at d (omega (arith, h)) ∙ omega arith

pub kzalloc_pages-IsFilled :
    (n : ℕ) (k : KernelHeap) (i m : ℕ)
    → IsFilled k i (n + m)
    → (ptrs : List ℕ) × (k' : KernelHeap) × (kzalloc_pages n k ≡ some (ptrs, k'))
      × IsFilled k' (i + n) m
      × ((d : ℕ) → d < n → get_or ptrs d 0 ≡ block_at (i + d))
unfolding kzalloc_pages heap_align_size
kzalloc_pages-IsFilled zero k i m f = (
  [],
  k,
  refl,
  IsFilled-eq k i (i + 0) (0 + m) m (omega arith) (omega arith) f,
  λ d h. absurd (omega (arith, h)),
)
kzalloc_pages-IsFilled (suc n) k i m f =
    let (k1, eq, f1) =
      kzalloc-IsFilled k i (n + m) block_size
        (IsFilled-eq k i i (suc n + m) (suc (n + m)) refl (omega arith) f) refl in
    let (ptrs, k', eq', f', at) = kzalloc_pages-IsFilled n k1 (suc i) m f1 in
    (
      block_at i ∷ ptrs,
      k',
      rw (eq, eq') refl,
      IsFilled-eq k' (suc i + n) (i + suc n) m m (omega arith) refl f',
      block_at-cons i n ptrs at,
    )

-- ===== src/Start/Chunk.antt =====
-- The page directory of the kernel on the heap that `kheap_init` has made.
use os_dev_mtk.Base.{ℕ, suc, ◌+◌, ◌^◌, ◌<◌, ◌≡◌, refl, arith, get_or}
use os_dev_mtk.Base.Run.{ok}
use os_dev_mtk.Heap.{heap_align_size}
use os_dev_mtk.Heap.Kernel.{KernelHeap}
use os_dev_mtk.Heap.Pages.{
  IsFilled, IsFilled-eq, block_at, kzalloc-IsFilled, kzalloc_pages-IsFilled,
}
use os_dev_mtk.Paging.{Words, page_size, total_entries, paging_get_physical_address}
use os_dev_mtk.Paging.Map.{Layout, IsDirectory}
use os_dev_mtk.Paging.Identity.{IsApart, gen_paging-identity}
use os_dev_mtk.Start.{allocate_paging_4gb}

-- The tables on the pages behind the first block of the heap, that of the directory.
abbrev pub AreTables : (tables : ℕ → ℕ) → Type 0
AreTables tables = (d : ℕ) → d < total_entries → tables d ≡ block_at (1 + d)

tables-Layout : (tables : ℕ → ℕ) → AreTables tables → Layout (block_at 0) tables
tables-Layout tables at = record {
  aligned = λ d h. omega (arith, at d h);
  in_memory = λ d h. omega (arith, at d h, h);
  apart = λ d e t hd he ht eq. omega (arith, at e he, hd, eq);
  distinct = λ d e t u hd he ht hu other eq. other (omega (arith, at d hd, at e he, ht, hu, eq));
}

tables-IsApart :
    (tables : ℕ → ℕ) (at : AreTables tables)
    → IsApart (block_at 0) tables (tables-Layout tables at) 7 (block_at 1025)
tables-IsApart tables at =
    ((λ d h e. omega (arith, h, e)), λ d t h h' e. omega (arith, at d h, h, h', e))

-- On a heap whose blocks are free, 1026 of them or more, `_gen_paging_4gb` takes the first 1026: it makes a
-- page directory that translates each address to itself.
pub allocate-identity :
    (k : KernelHeap) (words : Words) (m : ℕ)
    → IsFilled k 0 (1026 + m)
    → (k' : KernelHeap) × (words' : Words) × (tables : ℕ → ℕ) × (allocate_paging_4gb k words 7
        ≡ ok (k', words', record { d_entry = block_at 0 }))
      × IsFilled k' 1026 m
      × IsDirectory words' (block_at 0) tables 7
      × ((v : ℕ) → v < 2 ^ 32 → paging_get_physical_address words' (block_at 0) v ≡ v)
      × (words' (block_at 1025) ≡ block_at 0)
unfolding allocate_paging_4gb heap_align_size
allocate-identity k words m f =
    let (k1, e1, f1) =
      kzalloc-IsFilled k 0 (1025 + m) page_size
        (IsFilled-eq k 0 0 (1026 + m) (suc (1025 + m)) refl (omega arith) f) refl in
    let (ptrs, k2, e2, f2, at) =
      kzalloc_pages-IsFilled 1024 k1 1 (suc m)
        (IsFilled-eq k1 1 1 (1025 + m) (1024 + suc m) refl (omega arith) f1) in
    let (k3, e3, f3) = kzalloc-IsFilled k2 1025 m 4 f2 refl in
    let tables : ℕ → ℕ = λ d. get_or ptrs d 0 in
    let (words', made, is, identity, kept) =
      gen_paging-identity (block_at 0) tables (tables-Layout tables at) 7 words (block_at 1025)
        (omega arith) (omega arith) (omega arith) refl (tables-IsApart tables at) in
    (k3, words', tables, rw (e1, e2, e3, made) refl, f3, is, identity, kept)

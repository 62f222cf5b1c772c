-- ===== src/Heap/Kernel.antt =====
-- src/kernel/memory/heap/kheap.c: the kernel's heap at fixed addresses.
use os_dev_mtk.Base.{
  ℕ, suc, ◌+◌, ◌*◌, ◌/◌, ◌<◌, ◌≡◌, refl, false, Option, none, some, List, arith, ◌==◌,
  if◌then◌else◌, length, is_neg, ltb, leb, ◌&&◌, ap, ◌∙◌, ◌++◌, replicate, drop_all,
}
use mathlib.Core.List.{append-nil}
use os_dev_mtk.Base.Run.{Run, ok, panic, of_option, ◌>>=◌}
use os_dev_mtk.Memory.{Memory, memset}
use os_dev_mtk.Memory.Laws.{memset_lem}
use os_dev_mtk.Heap.{
  Heap, HeapTable, block_size, make_heap, heap_alloc, heap_alloc_blocks, heap_align_size, heap_free,
}
use os_dev_mtk.Heap.Search.{first_fit}
use os_dev_mtk.Heap.Alloc.{IsValid, allocated, alloc_blocks-first_fit}
use os_dev_mtk.Heap.Make.{emptied, make_heap_lem, made-IsValid}

-- `HEAP_BASE_ADDRESS`, `HEAP_MAX_HEAP_SIZE` and `HEAP_MAX_HEAP_BLOCKS_ENTRIES`
abbrev pub heap_base : ℕ
heap_base = 0x01000000

abbrev pub max_heap_size : ℕ
max_heap_size = 104857600

abbrev pub max_entries : ℕ
max_entries = 25600

-- `kernel_heap`, with its table, and the memory that it gives out
pub record KernelHeap : Type 0 where
  pub heap : Heap
  pub memory : Memory

-- `kheap_init` up to its print (Start). `bytes` is what lies at `HEAP_TABLE_ADDRESS`.
unfoldable pub make_kernel_heap : (bytes : List ℕ) → KernelHeap → Run KernelHeap
make_kernel_heap bytes k = do
  (res, heap, m) ← of_option (
      make_heap k.memory k.heap heap_base (heap_base + max_heap_size)
        (record { entries = bytes; total_entries = max_entries }))
  if is_neg res then panic else ok (record { heap = heap; memory = m })

unfoldable pub kmalloc : KernelHeap → (size : ℕ) → Option (ℕ × KernelHeap)
kmalloc k size = elim (heap_alloc k.heap size) [
  | none ↦ none
  | some (ptr, heap) ↦ some (ptr, record k { heap = heap })
]

unfoldable pub kzalloc : KernelHeap → (size : ℕ) → Option (ℕ × KernelHeap)
kzalloc k size = elim (kmalloc k size) [
  | none ↦ none
  | some (ptr, k') ↦
      if ptr == 0
      then some (0, k')
      else some (ptr, record k' { memory = memset k'.memory ptr 0 size })
]

unfoldable pub kfree : KernelHeap → (ptr : ℕ) → KernelHeap
kfree k ptr = record k { heap = heap_free k.heap ptr }

-- `kheap_init` does not panic, and makes a valid heap whose blocks are free, whatever the table's memory
-- held.
pub make_kernel_heap-IsValid :
    (bytes : List ℕ) (k : KernelHeap)
    → length bytes ≡ max_entries
    → (k' : KernelHeap) × (make_kernel_heap bytes k ≡ ok k')
      × IsValid k'.heap
      × (k'.heap.base_addr ≡ heap_base)
      × (k'.heap.table.entries ≡ replicate max_entries 0)
unfolding make_kernel_heap
make_kernel_heap-IsValid bytes k h =
    let table : HeapTable = record { entries = bytes; total_entries = max_entries } in
    let made =
      make_heap_lem k.memory k.heap heap_base (heap_base + max_heap_size) table (omega arith)
        (omega arith) refl refl (omega arith) in
    (
      record {
        heap = record { table = emptied table; base_addr = heap_base };
        memory = memset k.memory heap_base 0 8;
      },
      rw made,
      made-IsValid heap_base (heap_base + max_heap_size) table (omega arith) (omega arith)
          (omega arith) (omega arith),
      refl,
      ap (λ (es : List ℕ). replicate max_entries 0 ++ es)
            (drop_all bytes max_entries (omega (arith, h)))
          ∙ append-nil (replicate max_entries 0),
    )

heap_alloc_lem :
    (h : Heap) (size n s : ℕ)
    → IsValid h
    → heap_align_size size ≡ suc n * block_size
    → first_fit h.table.entries (suc n) ≡ some s
    → heap_alloc h size ≡ some (h.base_addr + s * block_size, allocated h s n)
unfolding heap_alloc
heap_alloc_lem h size n s v al f =
    let blocks : heap_align_size size / block_size ≡ suc n = omega arith in
    ap (heap_alloc_blocks h) blocks ∙ alloc_blocks-first_fit v n s f

-- On a valid heap that does not begin at address 0, `kzalloc` of a size that fills `n + 1` blocks, where the first run of them begins at block `s`,
-- returns the address of that block, with `size` zero bytes at it and the memory else unchanged.
pub kzalloc_lem :
    (k : KernelHeap) (size n s : ℕ)
    → IsValid k.heap
    → 0 < k.heap.base_addr
    → heap_align_size size ≡ suc n * block_size
    → first_fit k.heap.table.entries (suc n) ≡ some s
    → let ptr = k.heap.base_addr + s * block_size in
      (k' : KernelHeap) × (kzalloc k size ≡ some (ptr, k'))
      × (k'.heap ≡ allocated k.heap s n)
      × ((a : ℕ) → k'.memory a ≡ (if leb ptr a && ltb a (ptr + size) then 0 else k.memory a))
unfolding kzalloc kmalloc
kzalloc_lem k size n s v base al f =
    let ptr : ℕ = k.heap.base_addr + s * block_size in
    let nonnull : (k.heap.base_addr + s * block_size == 0) ≡ false = ground arith in
    (
      record { heap = allocated k.heap s n; memory = memset k.memory ptr 0 size },
      rw (heap_alloc_lem k.heap size n s v al f, kzalloc, kmalloc) (rw nonnull),
      refl,
      λ a. memset_lem size ptr 0 a k.memory,
    )

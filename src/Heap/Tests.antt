-- ===== src/Heap/Tests.antt =====
-- Runs of heap.c on a table of six entries, and its theorems at concrete heaps.
use os_dev_mtk.Base.{◌≡◌, refl, none, some, [], ◌∷◌, arith}
use os_dev_mtk.Memory.{Memory}
use os_dev_mtk.Heap.{
  Heap, HeapTable, heap_align_size, heap_alloc, heap_alloc_blocks, heap_free, heap_get_start_block,
  heap_block_to_address, heap_mark_blocks_as_taken, heap_get_entry_type,
}
use os_dev_mtk.Heap.Blocks.{none_left, free_block, allocation, chunk}
use os_dev_mtk.Heap.Search.{first_fit}
use os_dev_mtk.Heap.Alloc.{IsValid, allocated, alloc_blocks-first_fit, alloc_blocks-no_fit}
use os_dev_mtk.Heap.Cycle.{alloc_blocks-IsValid, free-alloc_blocks}

-- One block is taken, and three are free behind an allocation of two.
abbrev table : HeapTable
table = record { entries = 0 ∷ 0xc1 ∷ 0x01 ∷ 0 ∷ 0 ∷ 0 ∷ []; total_entries = 6 }

abbrev heap : Heap
heap = record { table = table; base_addr = 0x01000000 }

heap-IsValid : IsValid heap
unfolding chunk
heap-IsValid = record {
  covers = refl;
  blocks = free_block (allocation 1 (free_block (free_block (free_block none_left))) refl);
  space = omega arith;
}

fit_two : first_fit table.entries 2 ≡ some 3
unfolding first_fit heap_get_entry_type
fit_two = refl

fit_four : first_fit table.entries 4 ≡ none
unfolding first_fit heap_get_entry_type
fit_four = refl

alloc_runs : heap_alloc heap 5000 ≡ some (0x01003000, allocated heap 3 1)
unfolding heap_alloc heap_alloc_blocks heap_align_size heap_get_start_block heap_block_to_address
    heap_mark_blocks_as_taken chunk
alloc_runs = refl

alloc_blocks-first_fit_example : heap_alloc_blocks heap 2 ≡ some (0x01003000, allocated heap 3 1)
alloc_blocks-first_fit_example = alloc_blocks-first_fit heap-IsValid 1 3 fit_two

two_blocks : heap_alloc_blocks heap 2 ≡ some (0x01003000, allocated heap 3 1)
two_blocks = alloc_blocks-first_fit heap-IsValid 1 3 fit_two

alloc_blocks-IsValid_example : IsValid (allocated heap 3 1)
alloc_blocks-IsValid_example =
    alloc_blocks-IsValid heap (allocated heap 3 1) 1 0x01003000 heap-IsValid two_blocks

free-alloc_blocks_example : heap_free (allocated heap 3 1) 0x01003000 ≡ heap
free-alloc_blocks_example =
    free-alloc_blocks heap (allocated heap 3 1) 1 0x01003000 heap-IsValid two_blocks

alloc_blocks-no_fit_example : heap_alloc_blocks heap 4 ≡ none
alloc_blocks-no_fit_example = alloc_blocks-no_fit 3 heap-IsValid fit_four

abbrev blank : Memory
blank a = 7

-- ===== src/Heap/Make.antt =====
-- `heap_align_size` and `make_heap`.
use os_dev_mtk.Base.{
  ℕ, ◌+◌, ◌-◌, ◌/◌, ◌%◌, ◌^◌, ◌≤◌, ◌<◌, ◌≡◌, ◌≢◌, some, ◌++◌, arith, ◌==◌, if◌then◌else◌, length,
  length-replicate, drop, replicate, drop_all, length-append, length-drop, pos, einvarg,
}
use os_dev_mtk.Memory.{Memory, memset}
use os_dev_mtk.Memory.Laws.{memset_object_lem}
use os_dev_mtk.Heap.{Heap, HeapTable, block_size, heap_align_size, make_heap}
use os_dev_mtk.Heap.Blocks.{none_left}
use os_dev_mtk.Heap.Runs.{IsBlocks-zeros}
use os_dev_mtk.Heap.Alloc.{IsValid}

-- A size that leaves room for one more block below 2 ^ 32 is rounded up to the least multiple of the
-- block size that holds it.
pub align_size_lem :
    (size : ℕ)
    → size + block_size ≤ 2 ^ 32
    → (heap_align_size size % block_size ≡ 0)
      × (size ≤ heap_align_size size)
      × (heap_align_size size < size + block_size)
unfolding heap_align_size
align_size_lem size h = ground arith

-- The table with all of its entries free.
abbrev pub emptied : HeapTable → HeapTable
emptied table = record table {
  entries = replicate table.total_entries 0 ++ drop table.total_entries table.entries;
}

-- `make_heap` on aligned bounds in order, with as many entries as the table says, clears the table
-- whatever its size; a table of the wrong size shows only in the result, which is 254 then and not
-- negative.
pub make_heap_lem :
    (m : Memory) (old : Heap) (ptr end : ℕ) (table : HeapTable)
    → ptr ≤ end
    → end < 2 ^ 32
    → ptr % block_size ≡ 0
    → end % block_size ≡ 0
    → table.total_entries ≤ length table.entries
    → make_heap m old ptr end table
      ≡ some (
        pos (if table.total_entries == (end - ptr) / block_size then 0 else 254),
        record { table = emptied table; base_addr = ptr },
        memset m ptr 0 8,
      )
unfolding make_heap
make_heap_lem m old ptr end table h k a b l =
    let size : (end + 2 ^ 32 - ptr) % 2 ^ 32 ≡ end - ptr = omega arith in
    rw (size) (ground (arith, memset_object_lem table.total_entries 0 table.entries))

-- `make_heap` refuses bounds that are not aligned, and changes nothing.
pub make_heap_misaligned :
    (m : Memory) (old : Heap) (ptr end : ℕ) (table : HeapTable)
    → (ptr % block_size) + (end % block_size) ≢ 0
    → make_heap m old ptr end table ≡ some (einvarg, old, m)
unfolding make_heap
make_heap_misaligned m old ptr end table h = ground arith

-- A heap that was made over a table of the right size is valid.
pub made-IsValid :
    (ptr end : ℕ) (table : HeapTable)
    → ptr ≤ end
    → end < 2 ^ 32
    → table.total_entries ≡ (end - ptr) / block_size
    → table.total_entries ≡ length table.entries
    → IsValid (record { table = emptied table; base_addr = ptr })
made-IsValid ptr end table h k e l = record {
  covers = omega (
    arith,
    l,
    length-append (replicate table.total_entries 0) (drop table.total_entries table.entries),
    length-replicate {A = ℕ} table.total_entries 0,
    length-drop table.total_entries table.entries,
  );
  blocks =
      rw (drop_all table.entries table.total_entries l)
        (IsBlocks-zeros table.total_entries none_left);
  space = omega arith;
}

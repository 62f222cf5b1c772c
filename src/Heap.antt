-- ===== src/Heap.antt =====
-- src/kernel/memory/heap/heap.c: a heap of 4096-byte blocks with one table byte for each.
-- `none` is an access outside of the table.
pub mod Blocks
pub mod Search
pub mod Mark
pub mod Runs
pub mod Alloc
pub mod Cycle
pub mod Make
pub mod Kernel
pub mod Pages
mod Tests
use os_dev_mtk.Base.{
  ℕ, zero, suc, ◌+◌, ◌-◌, ◌*◌, ◌/◌, ◌%◌, ◌^◌, Bool, true, false, not, ◌&&◌, ◌||◌, Option, none,
  some, List, [], ◌∷◌, ◌>>=◌, bit_and, bit_or, ◌==◌, ltb, if◌then◌else◌, length, get_or, set, take,
  ℤ, pos, negsuc, is_neg, ne, einvarg, enomem, to_word,
}
use os_dev_mtk.Memory.{Memory, memset, memset_object}

-- `HEAP_BLOCK_SIZE`, and the bits of a table byte
abbrev pub block_size : ℕ
block_size = 4096

abbrev pub entry_free : ℕ
entry_free = 0x00

abbrev pub entry_taken : ℕ
entry_taken = 0x01

abbrev pub extends_next : ℕ
extends_next = 0x80

abbrev pub is_first : ℕ
is_first = 0x40

-- `struct heap_table`: the memory behind `entries`, and the count.
pub record HeapTable : Type 0 where
  pub entries : List ℕ
  pub total_entries : ℕ

-- `struct heap`
pub record Heap : Type 0 where
  pub table : HeapTable
  pub base_addr : ℕ

-- The result is an `unsigned char`, so -EINVARG comes back as 254.
unfoldable pub heap_validate_table : (ptr end : ℕ) → HeapTable → ℕ
heap_validate_table ptr end table =
    let t_size = (end + 2 ^ 32 - ptr) % 2 ^ 32 in
    let total_blocks = t_size / block_size in
    if not (table.total_entries == total_blocks) then to_word einvarg % 256 else 0

unfoldable pub heap_validate_alignment : ℕ → Bool
heap_validate_alignment ptr = ptr % block_size == 0

-- The result, the heap and the memory. The `memset` at `ptr` is over the 8 bytes of a `struct heap`.
unfoldable pub make_heap : Memory → Heap → (ptr end : ℕ) → HeapTable → Option (ℤ × Heap × Memory)
unfolding heap_validate_alignment heap_validate_table
make_heap m heap ptr end table =
    if not (heap_validate_alignment ptr) || not (heap_validate_alignment end)
    then some (einvarg, heap, m)
    else let m' = memset m ptr 0 8 in
      let res = pos (heap_validate_table ptr end table) in
      if is_neg res
      then some (res, record { table = table; base_addr = ptr }, m')
      else memset_object entry_free table.total_entries table.entries >>= λ entries.
          some (res, record { table = record table { entries = entries }; base_addr = ptr }, m')

-- `size_t` addition wraps.
unfoldable pub heap_align_size : ℕ → ℕ
heap_align_size size =
    if size % block_size == 0 then size else (size + (block_size - size % block_size)) % 2 ^ 32

unfoldable pub heap_get_entry_type : ℕ → ℕ
heap_get_entry_type entry = bit_and 0x0f entry

abbrev pub is_minus_one : ℤ → Bool
is_minus_one (pos n) = false
is_minus_one (negsuc n) = n == 0

-- The loop over the entries that are left, with `i`, `bc` and `bs`; its result is the last `bs`.
unfoldable pub start_block_loop : List ℕ → (i bc : ℕ) → (bs : ℤ) → (total_blocks : ℕ) → ℤ
unfolding heap_get_entry_type
start_block_loop [] i bc bs total = bs
start_block_loop (entry ∷ rest) i bc bs total =
    let skip = start_block_loop rest (i + 1) 0 (negsuc 0) total in
    let bs' = if is_minus_one bs then pos i else bs in
    let more = start_block_loop rest (i + 1) (bc + 1) bs' total in
    if not (heap_get_entry_type entry == entry_free)
    then skip
    else if bc + 1 == total
    then bs'
    else more

unfoldable pub heap_get_start_block : HeapTable → (total_blocks : ℕ) → ℤ
unfolding start_block_loop
heap_get_start_block table total =
    let bs = start_block_loop (take table.total_entries table.entries) 0 0 (negsuc 0) total in
    if is_minus_one bs then enomem else bs

unfoldable pub heap_block_to_address : Heap → ℕ → ℕ
heap_block_to_address heap block = (heap.base_addr + block * block_size) % 2 ^ 32

unfoldable pub heap_address_to_block : Heap → ℕ → ℕ
heap_address_to_block heap addr = (addr + 2 ^ 32 - heap.base_addr) % 2 ^ 32 / block_size

-- `entries[i] = e`
unfoldable pub write_entry : List ℕ → ℕ → ℕ → Option (List ℕ)
write_entry es i e = if ltb i (length es) then some (set es i e) else none

-- The `for` loop with the rounds that are left; `entry` is the byte that the next round stores.
unfoldable pub mark_loop : (rounds i end_block entry : ℕ) → List ℕ → Option (List ℕ)
unfolding write_entry
mark_loop zero i end_block entry es = some es
mark_loop (suc k) i end_block entry es = write_entry es i entry >>= λ es'.
    mark_loop k (i + 1) end_block
      (if i + 1 == end_block then entry_taken else bit_or entry_taken extends_next) es'

-- A negative `start_block` has its first store before the table.
unfoldable pub heap_mark_blocks_as_taken :
    List ℕ → (start_block : ℤ) → (total_blocks : ℕ) → Option (List ℕ)
unfolding mark_loop
heap_mark_blocks_as_taken es (negsuc k) zero = some es
heap_mark_blocks_as_taken es (negsuc k) (suc n) = none
heap_mark_blocks_as_taken es (pos start) total =
    let entry = bit_or entry_taken is_first in
    mark_loop total start (start + total - 1)
      (if ltb 1 total then bit_or entry extends_next else entry) es

-- The `for` loop with the rounds up to `total_entries` that are left.
unfoldable pub free_loop : (rounds i : ℕ) → List ℕ → List ℕ
free_loop zero i es = es
free_loop (suc k) i es =
    let entry = get_or es i 0 in
    let es' = set es i entry_free in
    let rest = free_loop k (i + 1) es' in if bit_and entry extends_next == 0 then es' else rest

unfoldable pub heap_mark_blocks_as_free : HeapTable → (starting_block : ℕ) → HeapTable
unfolding free_loop
heap_mark_blocks_as_free table start = record table {
  entries = free_loop (table.total_entries - start) start table.entries;
}

-- `start_block` is unsigned here, so the test on it never holds.
unfoldable pub heap_alloc_blocks : Heap → (total_blocks : ℕ) → Option (ℕ × Heap)
heap_alloc_blocks heap total =
    let start = heap_get_start_block heap.table total in
    if ltb (to_word start) 0
    then some (0, heap)
    else let address = heap_block_to_address heap (to_word start) in
      heap_mark_blocks_as_taken heap.table.entries start total >>= λ es.
      some (address, record heap { table = record (heap.table) { entries = es } })

unfoldable pub heap_alloc : Heap → (size : ℕ) → Option (ℕ × Heap)
heap_alloc heap size = heap_alloc_blocks heap (heap_align_size size / block_size)

unfoldable pub heap_free : Heap → (ptr : ℕ) → Heap
heap_free heap ptr = record heap {
  table = heap_mark_blocks_as_free heap.table (heap_address_to_block heap ptr);
}

-- ===== src/Paging.antt =====
-- src/kernel/memory/paging/paging.c over the words of the memory: `mem a` is the 32-bit word at the
-- byte address `a`. What `kzalloc` returns is an argument of `gen_paging_4gb`; the zeroes that it
-- stores are overwritten there. The register of the directory in use (paging.asm) is not kept.
pub mod Words
pub mod Map
pub mod Range
pub mod Identity
mod Tests
use os_dev_mtk.Base.{
  ℕ, zero, suc, ◌+◌, ◌-◌, ◌*◌, ◌/◌, ◌%◌, ◌^◌, Bool, true, false, not, ◌||◌, Option, none, some,
  ◌==◌, ltb, if◌then◌else◌, bit_and, bit_or, ℤ, is_neg, ne, einvarg,
}
use os_dev_mtk.Base.Run.{Run, ok, panic}

abbrev pub is_present : ℕ
is_present = 1

abbrev pub is_writable : ℕ
is_writable = 2

abbrev pub page_size : ℕ
page_size = 0x1000

-- `PAGING_TOTAL_TABLE_ENTRIES_PER_DIRECTORY` and `PAGING_TOTAL_ENTRIES_PER_TABLE`
abbrev pub total_entries : ℕ
total_entries = 0x400

abbrev pub Words : Type 0
Words = ℕ → ℕ

unfoldable pub store_word : Words → (address value : ℕ) → Words
store_word mem address value x = if x == address then value else mem x

-- `struct paging_4gb_memory_map`
pub record MemoryMap : Type 0 where
  pub d_entry : ℕ

-- The inner loop of `_gen_paging_4gb`, with the entries that are left, from entry `j` on.
unfoldable pub table_loop : Words → (entry offset flags n j : ℕ) → Words
table_loop mem entry offset flags zero j = mem
table_loop mem entry offset flags (suc n) j =
    table_loop (store_word mem (entry + 4 * j) (bit_or ((offset + j * page_size) % 2 ^ 32) flags))
      entry offset flags n (j + 1)

-- The outer loop, with the tables that are left, from table `i` on; `tables i` is what the call of
-- `kzalloc` for it returns.
unfoldable pub directory_loop :
    Words → (directory : ℕ) → (tables : ℕ → ℕ) → (flags n i offset : ℕ) → Words
directory_loop mem directory tables flags zero i offset = mem
directory_loop mem directory tables flags (suc n) i offset =
    let filled = table_loop mem (tables i) offset flags total_entries 0 in
    directory_loop
      (store_word filled (directory + 4 * i) (bit_or (bit_or (tables i) flags) is_writable))
      directory tables flags n (i + 1) ((offset + total_entries * page_size) % 2 ^ 32)

-- `directory` and `chunk` are what the calls for the directory and the map return. The directory's address
-- is stored in the block of the map, and the map is returned as a record.
unfoldable pub gen_paging_4gb :
    Words → (directory : ℕ) → (tables : ℕ → ℕ) → (chunk flags : ℕ) → Run (Words × MemoryMap)
gen_paging_4gb mem directory tables chunk flags =
    if directory == 0
    then panic
    else if chunk == 0
    then panic
    else ok (
      store_word (directory_loop mem directory tables flags total_entries 0 0) chunk directory,
      record { d_entry = directory },
    )

abbrev pub paging_is_aligned : (addr : ℕ) → Bool
paging_is_aligned addr = addr % page_size == 0

unfoldable pub paging_align_address : (addr : ℕ) → ℕ
paging_align_address addr =
    if not (addr % page_size == 0) then (addr + (page_size - addr % page_size)) % 2 ^ 32 else addr

unfoldable pub paging_align_to_lower_page_addr : (addr : ℕ) → ℕ
paging_align_to_lower_page_addr addr = addr - addr % page_size

-- The directory index and the table index, or -EINVARG.
unfoldable pub paging_get_indexes : (virtual_address : ℕ) → Option (ℕ × ℕ)
paging_get_indexes virtual_address =
    if not (paging_is_aligned virtual_address)
    then none
    else some (
      virtual_address / (total_entries * page_size),
      virtual_address % (total_entries * page_size) / page_size,
    )

-- `entry & 0xFFFFF000`
abbrev pub table_of : (entry : ℕ) → ℕ
table_of entry = bit_and entry 0xffff_f000

unfoldable pub paging_set : Words → (directory v_addr val : ℕ) → ℤ × Words
paging_set mem directory v_addr val =
    if not (paging_is_aligned v_addr) then (einvarg, mem) else elim (paging_get_indexes v_addr) [
      | none ↦ (einvarg, mem)
      | some (d_index, t_index) ↦
          (ne, store_word mem (table_of (mem (directory + 4 * d_index)) + 4 * t_index) val)
    ]

unfoldable pub paging_map : Words → MemoryMap → (v_addr p_addr flags : ℕ) → ℤ × Words
paging_map mem directory v_addr p_addr flags =
    if not (v_addr % page_size == 0) || not (p_addr % page_size == 0)
    then (einvarg, mem)
    else paging_set mem directory.d_entry v_addr (bit_or p_addr flags)

-- The loop with the pages that are left, and the result so far.
unfoldable pub paging_map_range :
    Words → MemoryMap → (v_addr p_addr count flags : ℕ) → (res : ℤ) → ℤ × Words
paging_map_range mem directory v_addr p_addr zero flags res = (res, mem)
paging_map_range mem directory v_addr p_addr (suc n) flags res =
    let (res', mem') = paging_map mem directory v_addr p_addr flags in
    let rest =
      paging_map_range mem' directory ((v_addr + page_size) % 2 ^ 32)
        ((p_addr + page_size) % 2 ^ 32) n flags res' in
    if is_neg res' then (res', mem') else rest

unfoldable pub paging_map_to : Words → MemoryMap → (v_addr p_addr p_addr_end flags : ℕ) → ℤ × Words
paging_map_to mem directory v_addr p_addr p_addr_end flags =
    if not (v_addr % page_size == 0)
      || not (p_addr % page_size == 0)
      || not (p_addr_end % page_size == 0)
      || ltb p_addr_end p_addr
    then (einvarg, mem)
    else paging_map_range mem directory v_addr p_addr ((p_addr_end - p_addr) / page_size) flags ne

-- For an address that is not aligned the indexes stay 0.
unfoldable pub paging_get : Words → (directory v_addr : ℕ) → ℕ
paging_get mem directory v_addr =
    let (directory_index, table_index) = elim (paging_get_indexes v_addr) as (λ _. ℕ × ℕ) [
      | none ↦ (0, 0)
      | some i ↦ i
    ] in
    let entry = mem (directory + 4 * directory_index) in
    if bit_and entry 1 == 0 then 0 else mem (table_of entry + 4 * table_index)

unfoldable pub paging_get_physical_address : Words → (directory v_addr : ℕ) → ℕ
paging_get_physical_address mem directory v_addr =
    let v_addr_aligned = paging_align_to_lower_page_addr v_addr in
    (bit_and (paging_get mem directory v_addr_aligned) 0xffff_f000 + (v_addr - v_addr_aligned))
    % 2 ^ 32

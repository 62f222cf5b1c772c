-- ===== src/UserMemory.antt =====
-- src/kernel/task/task.c, where it goes through the pages of a task: the words on its stack and its
-- strings. The processor translates an address by the page directory in use, and faults (`none`) at a
-- page that is not present. The pages of the kernel map each address to itself. The words of the page
-- tables are kept apart from the bytes that programs and the heap use.
pub mod Copy
pub mod Strings
pub mod Sample
mod Tests
use os_dev_mtk.Base.{
  ℕ, zero, suc, ◌+◌, ◌*◌, ◌%◌, ◌^◌, Option, none, some, ◌==◌, leb, if◌then◌else◌, bit_and, ◌>>=◌, ℤ,
  is_neg, eio, einvarg, enomem, List, [], ◌∷◌,
}
use os_dev_mtk.Memory.{Memory, store}
use os_dev_mtk.Heap.Kernel.{KernelHeap, kzalloc, kfree}
use os_dev_mtk.Paging.{
  Words, MemoryMap, page_size, paging_get, paging_set, paging_map, paging_align_to_lower_page_addr,
  paging_get_physical_address,
}

-- The kernel's heap, whose memory is that of the machine, and the words of the page tables.
pub record Machine : Type 0 where
  pub kheap : KernelHeap
  pub words : Words

-- What the processor does with an address.
abbrev pub Pages : Type 0
Pages = ℕ → Option ℕ

abbrev pub translate : Words → (directory : ℕ) → Pages
translate words directory v_addr =
    if bit_and (paging_get words directory (paging_align_to_lower_page_addr v_addr)) 1 == 0
    then none
    else some (paging_get_physical_address words directory v_addr)

-- A byte and a 32-bit word, from its lowest byte on.
abbrev pub load_byte : Pages → Memory → (v_addr : ℕ) → Option ℕ
load_byte pages bytes v_addr = pages v_addr >>= λ p. some (bytes p)

abbrev pub load_word : Pages → Memory → (v_addr : ℕ) → Option ℕ
load_word pages bytes v_addr = do
  b0 ← load_byte pages bytes v_addr
  b1 ← load_byte pages bytes ((v_addr + 1) % 2 ^ 32)
  b2 ← load_byte pages bytes ((v_addr + 2) % 2 ^ 32)
  b3 ← load_byte pages bytes ((v_addr + 3) % 2 ^ 32)
  some (b0 + 2 ^ 8 * b1 + 2 ^ 16 * b2 + 2 ^ 24 * b3)

-- `*p = b`
abbrev pub store_byte : Pages → Memory → (p b : ℕ) → Option Memory
store_byte pages bytes p b = pages p >>= λ at. some (store bytes at b)

-- `strncpy` on addresses: the loop after `--size`, which leaves `n`.
unfoldable pub strncpy_at_loop : Pages → Memory → (n dst src : ℕ) → Option Memory
strncpy_at_loop pages bytes zero dst src = store_byte pages bytes dst 0
strncpy_at_loop pages bytes (suc n) dst src = load_byte pages bytes src >>= λ c.
    let more = store_byte pages bytes dst c >>= λ bytes'.
    strncpy_at_loop pages bytes' n (dst + 1) (src + 1) in
    if c == 0 then store_byte pages bytes dst 0 else more

unfoldable pub strncpy_at : Pages → Memory → (dst src size : ℕ) → Option Memory
strncpy_at pages bytes dst src zero = some bytes
strncpy_at pages bytes dst src (suc n) = strncpy_at_loop pages bytes n dst src

-- The task is given by its stack pointer and its page directory.
unfoldable pub task_get_stack_item :
    Machine → (esp : ℕ) → (page_directory : MemoryMap) → (idx : ℕ) → Option ℕ
task_get_stack_item m esp page_directory idx =
    load_word (translate m.words page_directory.d_entry) m.kheap.memory ((esp + 4 * idx) % 2 ^ 32)

unfoldable pub task_virtual_address_to_physical :
    Machine → (page_directory : MemoryMap) → (v_addr : ℕ) → ℕ
task_virtual_address_to_physical m page_directory v_addr =
    paging_get_physical_address m.words page_directory.d_entry v_addr

-- The copy through the pages of the task, with `tmp` mapped there, to the result of the last
-- `paging_set`.
unfoldable pub copy_to_tmp :
    Words → MemoryMap → Memory → (tmp virtual max : ℕ) → Option (ℤ × Words × Memory)
copy_to_tmp words directory bytes tmp virtual max =
    let old_entry = paging_get words directory.d_entry tmp in
    let (_, mapped) = paging_map words directory tmp tmp 7 in
    strncpy_at (translate mapped directory.d_entry) bytes tmp virtual max >>= λ bytes'.
    let (res, restored) = paging_set mapped directory.d_entry tmp old_entry in
    some (res, restored, bytes')

-- The part behind the allocation. The memory of the machine is that of its heap.
unfoldable pub copy_with_tmp :
    KernelHeap → Words → MemoryMap → (tmp virtual physical max : ℕ) → Option (ℤ × Machine)
copy_with_tmp k words directory tmp virtual physical max =
    copy_to_tmp words directory k.memory tmp virtual max >>= λ (res, words', bytes).
    if is_neg res
    then some (eio, record { kheap = kfree (record k { memory = bytes }) tmp; words = words' })
    else strncpy_at some bytes physical tmp max >>= λ bytes'.
        some (res, record { kheap = kfree (record k { memory = bytes' }) tmp; words = words' })

-- The callers give a `max` that is not negative.
unfoldable pub copy_string_from_task :
    Machine → (page_directory : MemoryMap) → (virtual physical max : ℕ) → Option (ℤ × Machine)
copy_string_from_task m page_directory virtual physical max =
    if leb page_size max
    then some (einvarg, m)
    else kzalloc m.kheap max >>= λ (tmp, k).
        if tmp == 0
        then some (enomem, record m { kheap = k })
        else copy_with_tmp k m.words page_directory tmp virtual physical max

-- ===== src/Processes.antt =====
-- src/kernel/task/process.c and includes/task/process.h: the slots of the processes, and the memory
-- that a process has allocated. An address of 0 is NULL. What the kernel heap and the paging do is
-- given by a record of their operations, which Kernel fills.
pub mod Kernel
pub mod Loading
pub mod Steps
pub mod Slots
pub mod Arguments
pub mod Segments
pub mod Mapping
pub mod Release
pub mod Reuse
mod Tests
use os_dev_mtk.Base.{
  ℕ, zero, suc, ◌+◌, ◌%◌, ◌^◌, Bool, true, false, Option, none, some, List, [], ◌∷◌, ◌==◌, leb,
  if◌then◌else◌, get_elem?, set, length, ℤ, pos, negsuc, is_neg, ne, einvarg, enomem, eproc_nomem,
}
use os_dev_mtk.Base.Run
use os_dev_mtk.Base.Run.{Run, ok, panic, of_option, ◌>>=◌}
use os_dev_mtk.Paging.{paging_align_address}
use os_dev_mtk.Tasks.{Tasks, task_free}
use os_dev_mtk.Keyboard.{KeyboardBuffer}

-- `struct process_allocation`
pub record Allocation : Type 0 where
  pub ptr : ℕ
  pub size : ℕ

-- The operations on the state of the kernel that the allocations use; `paging_map_to` is on the page
-- directory of the task of the process.
pub record Services (S : Type 0) : Type 0 where
  pub kzalloc : S → (size : ℕ) → Option (ℕ × S)
  pub kfree : S → (ptr : ℕ) → S
  pub paging_map_to : S → (v_addr p_addr p_addr_end flags : ℕ) → ℤ × S

abbrev pub max_allocations : ℕ
max_allocations = 0x400

abbrev pub max_processes : ℕ
max_processes = 12

abbrev pub no_allocation : Allocation
no_allocation = record { ptr = 0; size = 0 }

-- The loop over the slots from `i` on.
unfoldable pub allocation_slot : List Allocation → (i : ℕ) → ℤ
allocation_slot [] i = enomem
allocation_slot (a ∷ allocations) i =
    let rest = allocation_slot allocations (i + 1) in if a.ptr == 0 then pos i else rest

unfoldable pub process_find_free_allocation_slot : List Allocation → ℤ
process_find_free_allocation_slot allocations = allocation_slot allocations 0

module _ {S : Type 0} (services : Services S) where
  -- The address that is returned, the state and the allocations.
  unfoldable pub malloc_at : S → List Allocation → (idx size : ℕ) → Option (ℕ × S × List Allocation)
  malloc_at st allocations idx size = elim (services.kzalloc st size) [
    | none ↦ none
    | some (ptr, st1) ↦
        let (res, st2) =
          services.paging_map_to st1 ptr ptr (paging_align_address ((ptr + size) % 2 ^ 32)) 7 in
        if ptr == 0
        then some (0, st1, allocations)
        else if is_neg res
        then some (0, services.kfree st2 ptr, allocations)
        else some (ptr, st2, set allocations idx (record { ptr = ptr; size = size }))
  ]

  unfoldable pub process_malloc :
      S → List Allocation → (size : ℕ) → Option (ℕ × S × List Allocation)
  process_malloc st allocations size = elim (process_find_free_allocation_slot allocations) [
    | negsuc n ↦ some (0, st, allocations)
    | pos idx ↦ malloc_at st allocations idx size
  ]

  -- One entry whose address is that of the call.
  unfoldable pub free_entry : S → (a : Allocation) → S × Allocation
  free_entry st a =
      let (res, st1) =
        services.paging_map_to st a.ptr a.ptr (paging_align_address ((a.ptr + a.size) % 2 ^ 32))
          0 in
      if is_neg res then (st1, a) else (services.kfree st1 a.ptr, no_allocation)

  unfoldable pub process_free : S → List Allocation → (ptr : ℕ) → S × List Allocation
  process_free st [] ptr = (st, [])
  process_free st (a ∷ allocations) ptr =
      let (st_rest, rest) = process_free st allocations ptr in
      let (st_here, here) = free_entry st a in
      if a.ptr == ptr then (st_here, here ∷ allocations) else (st_rest, a ∷ rest)

  unfoldable pub terminal_entry : S → List Allocation → Option Allocation → S × List Allocation
  terminal_entry st allocations none = (st, allocations)
  terminal_entry st allocations (some a) =
      if a.ptr == 0 then (st, allocations) else process_free st allocations a.ptr

  -- The loop over the slots from `i` on.
  unfoldable pub terminal_loop : (n i : ℕ) → S → List Allocation → S × List Allocation
  terminal_loop zero i st allocations = (st, allocations)
  terminal_loop (suc n) i st allocations =
      let (st1, allocations1) = terminal_entry st allocations (get_elem? allocations i) in
      terminal_loop n (i + 1) st1 allocations1

  unfoldable pub process_terminal_allocations : S → List Allocation → S × List Allocation
  process_terminal_allocations st allocations = terminal_loop max_allocations 0 st allocations

-- The processes by their slots, and the current one, each by its address.
pub record ProcessTable : Type 0 where
  pub processes : List ℕ
  pub current_process : ℕ

-- NULL outside of the table.
unfoldable pub get_process : ProcessTable → (pid : ℤ) → ℕ
get_process t (negsuc n) = 0
get_process t (pos n) =
    if leb max_processes n then 0 else elim (get_elem? t.processes n) [ none ↦ 0 | some p ↦ p ]

unfoldable pub get_current_process : ProcessTable → ℕ
get_current_process t = t.current_process

unfoldable pub process_switch : ProcessTable → (process : ℕ) → ProcessTable
process_switch t process = record t { current_process = process }

unfoldable pub process_slot : List ℕ → (i : ℕ) → ℤ
process_slot [] i = eproc_nomem
process_slot (p ∷ processes) i =
    let rest = process_slot processes (i + 1) in if p == 0 then pos i else rest

unfoldable pub get_free_process_slot : ProcessTable → ℤ
get_free_process_slot t = process_slot t.processes 0

unfoldable pub first_process : List ℕ → Option ℕ
first_process [] = none
first_process (p ∷ processes) =
    let rest = first_process processes in if p == 0 then rest else some p

unfoldable pub process_switch_available : ProcessTable → Run ProcessTable
process_switch_available t = elim (first_process t.processes) [
  | none ↦ panic
  | some p ↦ ok (process_switch t p)
]

-- The process at an address, with the slot that its `id` names.
unfoldable pub process_unlink : ProcessTable → (process id : ℕ) → Run ProcessTable
process_unlink t process id =
    let t1 = record t { processes = set t.processes id 0 } in
    if t.current_process == process then process_switch_available t1 else ok t1

-- `struct process`; `ptr` is the union with `elf_file`, and `argc` and `argv` are the arguments.
pub record Process : Type 0 where
  pub id : ℕ
  pub filename : List ℕ
  pub task : ℕ
  pub allocations : List Allocation
  pub filetype : ℕ
  pub ptr : ℕ
  pub stack : ℕ
  pub size : ℕ
  pub keyboard : KeyboardBuffer
  pub argc : ℕ
  pub argv : ℕ

-- `PROCESS_FORMAT_ELF` and `PROCESS_FORMAT_FBIN`
abbrev pub format_elf : ℕ
format_elf = 0

abbrev pub format_fbin : ℕ
format_fbin = 1

module _ {S : Type 0} (services : Services S) (elf_close : S → (elf_file : ℕ) → S) where
  unfoldable pub process_unload_process : S → Process → ℤ × S
  process_unload_process st process =
      if process.filetype == format_fbin
      then (ne, services.kfree st process.ptr)
      else if process.filetype == format_elf
      then (ne, elf_close st process.ptr)
      else (einvarg, st)

  -- `process` is the address of the block `p`; `process_terminal_allocations` returns no error.
  unfoldable pub process_terminate :
      S → Tasks → ProcessTable → (process : ℕ) → (p : Process) → Run (ℤ × S × Tasks × ProcessTable)
  process_terminate st tasks t process p =
      let (st1, allocations) = process_terminal_allocations services st p.allocations in
      let (res, st2) = process_unload_process st1 p in
      let st3 = services.kfree st2 p.stack in
      of_option (task_free tasks p.task) >>= λ tasks'.
      process_unlink t process p.id >>= λ t'. ok (res, st3, tasks', t')

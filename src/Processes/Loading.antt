-- ===== src/Processes/Loading.antt =====
-- src/kernel/task/process.c: a process is made from a file. What the files, the ELF loader, the heap, the
-- tasks and the paging do is given by a record of their operations. A function that takes the
-- address of a process takes the content of its block here, and returns it.
use os_dev_mtk.Base.{
  ℕ, zero, suc, ◌+◌, ◌%◌, ◌^◌, Bool, false, not, Option, none, some, List, ◌==◌, if◌then◌else◌,
  bit_and, bit_or, replicate, set, ℤ, pos, negsuc, is_neg, ne, eio, enomem, einvformat, eproc_nomem,
}
use os_dev_mtk.Base.Run.{Run, ok, fault, of_option, ◌>>=◌}
use os_dev_mtk.Text.{strncpy}
use os_dev_mtk.Keyboard.{buffer_size}
use os_dev_mtk.Paging.{paging_align_address, paging_align_to_lower_page_addr}
use os_dev_mtk.Elf.{
  ElfFile, ElfPhdr, elf_header, elf_program_header, elf_phdr_compute_physical_address,
}
use os_dev_mtk.Tasks.{program_address}
use os_dev_mtk.Processes.{
  Process, ProcessTable, get_process, get_free_process_slot, process_switch, no_allocation,
  max_allocations, format_elf, format_fbin,
}

-- `paging_map_to` is on the page directory of the task at an address; `elf_file` is the structure at
-- an address, with the bytes of the file in its memory. `elf_load` and `fread` return their results,
-- `fstat` the result and the size. A pointer is 0 where there is none.
pub record Loader (S : Type 0) : Type 0 where
  pub kzalloc : S → (size : ℕ) → Run (ℕ × S)
  pub kfree : S → (ptr : ℕ) → S
  pub fopen : S → (filename : List ℕ) → Run (ℕ × S)
  pub fstat : S → (fd : ℕ) → ℤ × ℕ
  pub fread : S → (ptr size fd : ℕ) → Run (ℤ × S)
  pub fclose : S → (fd : ℕ) → S
  pub elf_load : S → (filename : List ℕ) → Run (ℤ × ℕ × S)
  pub elf_file : S → (ptr : ℕ) → ElfFile × List ℕ
  pub task_new : S → (process : ℕ) → Process → Run (ℕ × S)
  pub task_free : S → (task : ℕ) → Run S
  pub paging_map_to : S → (task v_addr p_addr p_addr_end flags : ℕ) → ℤ × S

-- `sizeof(struct process)`, `_FS_MAX_PATH_LEN` and `BKE_TASK_USER_STACK_SIZE`
abbrev pub process_bytes : ℕ
process_bytes = 9364

abbrev pub max_path : ℕ
max_path = 108

abbrev pub user_stack_size : ℕ
user_stack_size = 0x4000

-- `BKE_TASK_PROGRAM_VIRTUAL_STACK_ADDR_END`
abbrev pub stack_end : ℕ
stack_end = 0x3f_b000

unfoldable pub process_init : Process
process_init = record {
  id = 0;
  filename = replicate max_path 0;
  task = 0;
  allocations = replicate max_allocations no_allocation;
  filetype = 0;
  ptr = 0;
  stack = 0;
  size = 0;
  keyboard = record { buffer = replicate buffer_size 0; tail = 0; head = 0 };
  argc = 0;
  argv = 0;
}

abbrev pub address : Option (ℕ × Process) → ℕ
address none = 0
address (some (process, _)) = process

abbrev pub is_einvformat : ℤ → Bool
is_einvformat (pos n) = false
is_einvformat (negsuc n) = n == 9

abbrev pub is_one : ℤ → Bool
is_one (pos n) = n == 1
is_one (negsuc n) = false

abbrev pub is_ne : ℤ → Bool
is_ne (pos n) = n == 0
is_ne (negsuc n) = false

module _ {S : Type 0} (loader : Loader S) where
  -- The part of `process_load_binary` from `kzalloc` on.
  unfoldable pub binary_sized : S → Process → (fd file_size : ℕ) → Run (ℤ × Process × S)
  binary_sized st process fd file_size = loader.kzalloc st file_size >>= λ (program_data_ptr, st1).
      if program_data_ptr == 0
      then ok (enomem, process, st1)
      else loader.fread st1 program_data_ptr file_size fd >>= λ (res, st2).
          if not (is_one res)
          then ok (eio, process, st2)
          else ok (
            ne,
            record process { filetype = format_fbin; ptr = program_data_ptr; size = file_size },
            st2,
          )

  -- The part between `fopen` and `fclose`.
  unfoldable pub binary_opened : S → Process → (fd : ℕ) → Run (ℤ × Process × S)
  binary_opened st process fd =
      if fd == 0
      then ok (eio, process, st)
      else let (res, file_size) = loader.fstat st fd in
        if not (is_ne res) then ok (res, process, st) else binary_sized st process fd file_size

  unfoldable pub process_load_binary : S → (filename : List ℕ) → Process → Run (ℤ × Process × S)
  process_load_binary st filename process = loader.fopen st filename >>= λ (fd, st1).
      binary_opened st1 process fd >>= λ (res, process', st2).
      ok (res, process', loader.fclose st2 fd)

  unfoldable pub process_load_elf : S → (filename : List ℕ) → Process → Run (ℤ × Process × S)
  process_load_elf st filename process = loader.elf_load st filename >>= λ (res, elf_file, st1).
      if is_neg res
      then ok (res, process, st1)
      else ok (res, record process { filetype = format_elf; ptr = elf_file }, st1)

  unfoldable pub process_load_data : S → (filename : List ℕ) → Process → Run (ℤ × Process × S)
  process_load_data st filename process =
      process_load_elf st filename process >>= λ (res, process', st1).
      if is_einvformat res
      then process_load_binary st1 filename process'
      else ok (res, process', st1)

  unfoldable pub process_map_binary : S → Process → ℤ × S
  process_map_binary st process =
      let (_, st1) =
        loader.paging_map_to st process.task program_address process.ptr
          (paging_align_address ((process.ptr + process.size) % 2 ^ 32)) 7 in
      (ne, st1)

  abbrev pub phdr_flags : ElfPhdr → ℕ
  phdr_flags phdr = if not (bit_and phdr.p_flags 2 == 0) then bit_or 5 2 else 5

  abbrev pub map_phdr : S → (task : ℕ) → ElfFile → ElfPhdr → ℤ × S
  map_phdr st task elf_file phdr =
      let phdr_physical_addr = elf_phdr_compute_physical_address elf_file phdr in
      loader.paging_map_to st task (paging_align_to_lower_page_addr phdr.p_vaddr)
        (paging_align_to_lower_page_addr phdr_physical_addr)
        (paging_align_address ((phdr_physical_addr + phdr.p_memsz) % 2 ^ 32)) (phdr_flags phdr)

  -- The loop over the headers that are left, from header `i` on, with the result so far.
  unfoldable pub phdrs_loop :
      S → (task : ℕ) → ElfFile → (memory : List ℕ) → (n i : ℕ) → (res : ℤ) → ℤ × S
  phdrs_loop st task elf_file memory zero i res = (res, st)
  phdrs_loop st task elf_file memory (suc n) i res =
      let (res', st') =
        map_phdr st task elf_file (elf_program_header memory (elf_header memory) i) in
      let rest = phdrs_loop st' task elf_file memory n (i + 1) res' in
      if is_neg res' then (res', st') else rest

  unfoldable pub process_map_elf : S → Process → ℤ × S
  process_map_elf st process =
      let (elf_file, memory) = loader.elf_file st process.ptr in
      phdrs_loop st process.task elf_file memory (elf_header memory).e_phnum 0 ne

  unfoldable pub map_program : S → Process → ℤ × S
  map_program st process =
      if process.filetype == format_elf
      then process_map_elf st process
      else if process.filetype == format_fbin
      then process_map_binary st process
      else (einvformat, st)

  unfoldable pub process_map_memory : S → Process → ℤ × S
  process_map_memory st process =
      let (res, st1) = map_program st process in
      let (_, st2) =
        loader.paging_map_to st1 process.task stack_end process.stack
          (paging_align_address ((process.stack + user_stack_size) % 2 ^ 32)) 7 in
      if is_neg res then (res, st1) else (res, st2)

  -- What follows `out` when the result is an error, for a process that has a block.
  unfoldable pub free_failed : S → (process : ℕ) → Process → Run S
  free_failed st process p = (if p.task == 0 then ok st else loader.task_free st p.task) >>= λ st1.
      let st2 = if p.stack == 0 then st1 else loader.kfree st1 p.stack in
      let st3 = if p.ptr == 0 then st2 else loader.kfree st2 p.ptr in ok (loader.kfree st3 process)

  -- Either end of the function: the result, what is stored in `*process` (the address and the block), and
  -- the table.
  abbrev pub fail :
      S
      → ProcessTable
      → (process : ℕ) → Process
      → (res : ℤ) → Run (ℤ × Option (ℕ × Process) × S × ProcessTable)
  fail st t process p res = free_failed st process p >>= λ st'. ok (res, none, st', t)

  abbrev pub finish_load :
      S
      → ProcessTable
      → (process process_slot : ℕ) → Process
      → Run (ℤ × Option (ℕ × Process) × S × ProcessTable)
  finish_load st t process process_slot p =
      let (res, st1) = process_map_memory st p in
      if is_neg res
      then fail st1 t process p res
      else ok (
        res,
        some (process, p),
        st1,
        record t { processes = set t.processes process_slot process },
      )

  -- The part from `task_new` on.
  unfoldable pub load_task :
      S
      → ProcessTable
      → (process process_slot : ℕ) → Process
      → Run (ℤ × Option (ℕ × Process) × S × ProcessTable)
  load_task st t process process_slot p = loader.task_new st process p >>= λ (task, st1).
      if task == 0
      then ok (ne, none, st1, t)
      else finish_load st1 t process process_slot (record p { task = task })

  -- The part from the allocation of the stack on, with the name.
  unfoldable pub load_stack :
      S
      → ProcessTable
      → (filename : List ℕ) → (process process_slot : ℕ) → Process
      → Run (ℤ × Option (ℕ × Process) × S × ProcessTable)
  load_stack st t filename process process_slot p =
      loader.kzalloc st user_stack_size >>= λ (program_stack_ptr, st1).
      if program_stack_ptr == 0
      then fail st1 t process p enomem
      else of_option (strncpy p.filename filename max_path) >>= λ name.
          load_task st1 t process process_slot
            (record p { stack = program_stack_ptr; filename = name; id = process_slot })

  -- The part from `process_init` on.
  unfoldable pub load_block :
      S
      → ProcessTable
      → (filename : List ℕ) → (process process_slot : ℕ)
      → Run (ℤ × Option (ℕ × Process) × S × ProcessTable)
  load_block st t filename process process_slot =
      process_load_data st filename process_init >>= λ (res, p, st1).
      if is_neg res
      then fail st1 t process p res
      else load_stack st1 t filename process process_slot p

  -- With a slot that is taken, the error path reads `_process`, which has no value. `*process` is 0
  -- before the call, which is `none`.
  unfoldable pub process_load_for_slot :
      S
      → ProcessTable
      → (filename : List ℕ) → (process_slot : ℕ) → Run (ℤ × Option (ℕ × Process) × S × ProcessTable)
  process_load_for_slot st t filename process_slot =
      if not (get_process t (pos process_slot) == 0)
      then fault
      else loader.kzalloc st process_bytes >>= λ (process, st1).
          if process == 0
          then ok (enomem, none, st1, t)
          else load_block st1 t filename process process_slot

  unfoldable pub process_load :
      S → ProcessTable → (filename : List ℕ) → Run (ℤ × Option (ℕ × Process) × S × ProcessTable)
  process_load st t filename = elim (get_free_process_slot t) [
    | negsuc n ↦ ok (eproc_nomem, none, st, t)
    | pos process_slot ↦ process_load_for_slot st t filename process_slot
  ]

  unfoldable pub process_load_switch :
      S → ProcessTable → (filename : List ℕ) → Run (ℤ × Option (ℕ × Process) × S × ProcessTable)
  process_load_switch st t filename = process_load st t filename >>= λ (res, process, st1, t1).
      ok (res, process, st1, if is_ne res then process_switch t1 (address process) else t1)

-- ===== src/SystemCalls/Programs.antt =====
-- src/kernel/isr80h/memory.c and process.c, and the end of a process that has raised an exception
-- (idt/interrupts.c). `process_load_switch` and `process_inject_arguments` on the state of the kernel
-- are arguments of the handlers that start a program.
use os_dev_mtk.Base.{
  ℕ, ◌+◌, Option, none, some, List, ◌==◌, if◌then◌else◌, ℤ, is_neg, einvarg, to_word,
}
use os_dev_mtk.Base.Run.{Run, ok, fault, of_option, ◌>>=◌}
use os_dev_mtk.Heap.Kernel.{KernelHeap}
use os_dev_mtk.Paging.{Words}
use os_dev_mtk.Text.{strlen}
use os_dev_mtk.Elf.Load.{elf_close}
use os_dev_mtk.Tasks.{task_next, task_switch}
use os_dev_mtk.Processes.{Process, process_malloc, process_free, process_terminate}
use os_dev_mtk.Processes.Kernel.{kernel_services}
use os_dev_mtk.Processes.Loading.{address}
use os_dev_mtk.Processes.Arguments.{process_get_arguments}
use os_dev_mtk.SystemCalls.Paths.{start_path, invoke_path}
use os_dev_mtk.SystemCalls.{
  Kernel, Ending, returned, resumed, memory_of, with_memory, bytes_at, store_word_at, store_process,
  stack_item, copy_string, physical_address, current_process_of, directory_of,
}

-- The state of the kernel as the allocations of a process see it.
abbrev pub with_pair : Kernel → KernelHeap × Words → Kernel
with_pair k (kheap, words) = record k { machine = record { kheap = kheap; words = words } }

unfoldable pub sys_malloc : Kernel → Run (ℕ × Kernel)
sys_malloc k = of_option (stack_item k 0) >>= λ size.
    of_option (current_process_of k) >>= λ (a, process).
    of_option (directory_of k process) >>= λ directory.
    of_option (
      process_malloc (kernel_services (k.map_at directory)) (k.machine.kheap, k.machine.words)
        process.allocations size)
    >>= λ (ptr, st, allocations).
        ok (ptr, store_process (with_pair k st) a (record process { allocations = allocations }))

unfoldable pub isr_sys_free : Kernel → Run (ℕ × Kernel)
isr_sys_free k = of_option (stack_item k 0) >>= λ ptr.
    of_option (current_process_of k) >>= λ (a, process).
    of_option (directory_of k process) >>= λ directory.
    let (st, allocations) =
      process_free (kernel_services (k.map_at directory)) (k.machine.kheap, k.machine.words)
        process.allocations ptr in
    ok (0, store_process (with_pair k st) a (record process { allocations = allocations }))

-- `elf_close` on the structure at an address.
abbrev pub close_file : Kernel → KernelHeap × Words → (elf_file : ℕ) → KernelHeap × Words
close_file k (kheap, words) elf_file = (elf_close kheap elf_file (k.elf_at elf_file), words)

-- `process_terminate` of the process of the current task. The block of the process is not freed.
unfoldable pub terminate_current : Kernel → Run Kernel
terminate_current k = of_option (current_process_of k) >>= λ (a, process).
    of_option (directory_of k process) >>= λ directory.
    process_terminate (kernel_services (k.map_at directory)) (close_file k)
      (k.machine.kheap, k.machine.words) k.tasks k.table a process
    >>= λ (_, st, tasks, table). ok (record (with_pair k st) { tasks = tasks; table = table })

-- `task_next`, which does not return.
abbrev pub next_task : Kernel → Run Ending
next_task k = task_next k.tasks >>= λ (task, tasks). ok (resumed task (record k { tasks = tasks }))

unfoldable pub sys_exit : Kernel → Run Ending
sys_exit k = terminate_current k >>= λ k1. next_task k1

-- The exceptions end the process in the same way.
unfoldable pub interrupt_handlers_terminate_current_process : Kernel → Run Ending
interrupt_handlers_terminate_current_process k = terminate_current k >>= λ k1. next_task k1

unfoldable pub sys_get_process_arguments : Kernel → Run (ℕ × Kernel)
sys_get_process_arguments k = of_option (current_process_of k) >>= λ (_, process).
    of_option (stack_item k 0) >>= λ v_addr. of_option (physical_address k v_addr) >>= λ arguments.
    let (argc, argv) = process_get_arguments process in
    ok (
      0,
      with_memory k
          (store_word_at (store_word_at (memory_of k) arguments argc) (arguments + 4) argv),
    )

module _
    (process_load_switch : Kernel
      → (filename : List ℕ) → Run (ℤ × Option (ℕ × Process) × Kernel)) where
  -- `task_switch` and `task_return` to the task of a process; NULL has none.
  abbrev pub switch_to : Kernel → Option (ℕ × Process) → Run Ending
  switch_to k none = fault
  switch_to k (some (_, process)) = of_option (task_switch k.tasks process.task) >>= λ tasks.
      ok (resumed process.task (record k { tasks = tasks }))

  -- The local arrays: `filename` at an address, and `path` as its bytes.
  unfoldable pub sys_process_load_start : Kernel → (filename : ℕ) → (path : List ℕ) → Run Ending
  sys_process_load_start k filename path = of_option (stack_item k 0) >>= λ filename_ptr.
      of_option (copy_string k filename_ptr filename 108) >>= λ (res, k1).
      if is_neg res
      then ok (returned (to_word res) k1)
      else of_option (start_path path (bytes_at (memory_of k1) filename 108)) >>= λ name.
          process_load_switch k1 name >>= λ (loaded, process, k2).
          if is_neg loaded then ok (returned (to_word loaded) k2) else switch_to k2 process

  -- The part of the next function from the path on; the first argument is the name of the program.
  abbrev pub invoke_program :
      (process_inject_arguments : Kernel → (process root_argument : ℕ) → Run (ℤ × Kernel))
      → Kernel
      → (root_argument : ℕ) → (path : List ℕ) → Run Ending
  invoke_program process_inject_arguments k root_argument path =
      of_option (invoke_path path (bytes_at (memory_of k) root_argument 512)) >>= λ name.
      process_load_switch k name >>= λ (res, process, k1).
      if is_neg res
      then ok (returned (to_word res) k1)
      else process_inject_arguments k1 (address process) root_argument >>= λ (injected, k2).
          if is_neg injected then ok (returned (to_word injected) k2) else switch_to k2 process

  unfoldable pub sys_invoke_sys_command :
      (process_inject_arguments : Kernel → (process root_argument : ℕ) → Run (ℤ × Kernel))
      → Kernel
      → (path : List ℕ) → Run Ending
  sys_invoke_sys_command process_inject_arguments k path = of_option (stack_item k 0) >>= λ v_addr.
      of_option (physical_address k v_addr) >>= λ arguments.
      if arguments == 0
      then ok (returned (to_word einvarg) k)
      else of_option (strlen (bytes_at (memory_of k) arguments 512)) >>= λ n.
          if n == 0
          then ok (returned (to_word einvarg) k)
          else invoke_program process_inject_arguments k arguments path

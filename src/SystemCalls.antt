-- ===== src/SystemCalls.antt =====
-- src/kernel/isr80h: the handlers of the system calls, over the state of the kernel. They run on the
-- pages of the kernel, so that an address is that of its byte. A local array of a handler lies at an
-- address that is an argument.
pub mod Io
pub mod Programs
pub mod Printing
pub mod Paths
pub mod Exit
mod Tests
use os_dev_mtk.Base.{
  ℕ, zero, suc, ◌+◌, ◌*◌, ◌/◌, ◌%◌, ◌^◌, Option, none, some, List, [], ◌∷◌, ◌==◌, if◌then◌else◌,
  ◌>>=◌, ℤ,
}
use os_dev_mtk.Memory.{Memory, store}
use os_dev_mtk.Heap.Kernel.{KernelHeap}
use os_dev_mtk.Paging.{MemoryMap}
use os_dev_mtk.Elf.{ElfFile}
use os_dev_mtk.Tasks.{Tasks, Task, load}
use os_dev_mtk.Terminal.{Terminal}
use os_dev_mtk.Processes.{Process, ProcessTable}
use os_dev_mtk.UserMemory.{
  Machine, task_get_stack_item, task_virtual_address_to_physical, copy_string_from_task,
}

-- The structures stand at addresses: the processes, the page directories, and the files of the loader.
pub record Kernel : Type 0 where
  pub machine : Machine
  pub terminal : Terminal
  pub tasks : Tasks
  pub table : ProcessTable
  pub process_at : ℕ → Option Process
  pub map_at : ℕ → MemoryMap
  pub elf_at : ℕ → ElfFile

-- A handler returns a word for `eax`, or `task_return` resumes a task.
pub data Ending : Type 0 where
  returned : (eax : ℕ) → Kernel → Ending
  resumed : (task : ℕ) → Kernel → Ending

abbrev pub memory_of : Kernel → Memory
memory_of k = k.machine.kheap.memory

abbrev pub with_memory : Kernel → Memory → Kernel
with_memory k bytes = record k {
  machine = record { kheap = record k.machine.kheap { memory = bytes }; words = k.machine.words };
}

abbrev pub store_process : Kernel → (a : ℕ) → Process → Kernel
store_process k a p = record k { process_at = λ x. if x == a then some p else k.process_at x }

-- The `n` bytes from an address on.
abbrev pub bytes_at : Memory → (a n : ℕ) → List ℕ
bytes_at bytes a zero = []
bytes_at bytes a (suc n) = bytes a ∷ bytes_at bytes (a + 1) n

-- A 32-bit word is stored from its lowest byte on.
abbrev pub store_word_at : Memory → (a w : ℕ) → Memory
store_word_at bytes a w =
    store
      (store (store (store bytes a (w % 2 ^ 8)) (a + 1) (w / 2 ^ 8 % 2 ^ 8)) (a + 2)
        (w / 2 ^ 16 % 2 ^ 8))
      (a + 3) (w / 2 ^ 24 % 2 ^ 8)

-- The task that `task_current` gives.
abbrev pub current : Kernel → Option Task
current k = load k.tasks k.tasks.current_task

-- `task_get_stack_item(task_current(), idx)`
abbrev pub stack_item : Kernel → (idx : ℕ) → Option ℕ
stack_item k idx = current k >>= λ task.
    task_get_stack_item k.machine task.registers.esp (k.map_at task.page_directory) idx

-- `copy_string_from_task(task_current(), virtual, physical, max)`
abbrev pub copy_string : Kernel → (virtual physical max : ℕ) → Option (ℤ × Kernel)
copy_string k virtual physical max = current k >>= λ task.
    copy_string_from_task k.machine (k.map_at task.page_directory) virtual physical max
    >>= λ (res, machine). some (res, record k { machine = machine })

-- `task_virtual_address_to_physical(task_current(), v_addr)`
abbrev pub physical_address : Kernel → (v_addr : ℕ) → Option ℕ
physical_address k v_addr = current k >>= λ task.
    some (task_virtual_address_to_physical k.machine (k.map_at task.page_directory) v_addr)

-- `task_current()->process` as an address, and its block.
abbrev pub current_process_of : Kernel → Option (ℕ × Process)
current_process_of k =
    current k >>= λ task. k.process_at task.process >>= λ process. some (task.process, process)

-- The page directory of the task of a process.
abbrev pub directory_of : Kernel → Process → Option ℕ
directory_of k process = load k.tasks process.task >>= λ task. some task.page_directory

-- ===== src/SystemCalls/Tests.antt =====
-- System calls of a task whose argument is on its stack.
use os_dev_mtk.Base.{
  ℕ, ◌+◌, ◌≡◌, refl, none, some, List, [], ◌∷◌, ◌++◌, arith, ◌==◌, if◌then◌else◌, inl, take,
  replicate, length, ◌≤◌, get_elem?, length-replicate,
}
use os_dev_mtk.Memory.{memset, store}
use os_dev_mtk.Heap.{
  heap_align_size, heap_alloc, heap_alloc_blocks, heap_get_start_block, heap_block_to_address,
  heap_mark_blocks_as_taken, heap_get_entry_type,
}
use os_dev_mtk.Heap.Blocks.{chunk}
use os_dev_mtk.Heap.Alloc.{allocated}
use os_dev_mtk.Heap.Kernel.{KernelHeap, kmalloc, kzalloc}
use os_dev_mtk.Paging.{
  paging_get, paging_get_indexes, paging_get_physical_address, paging_align_to_lower_page_addr,
}
use os_dev_mtk.Base.Run.{ok}
use os_dev_mtk.Tasks.{Task, Tasks}
use os_dev_mtk.Tasks.Links.{Linked}
use os_dev_mtk.Tasks.Queue.{IsQueue}
use os_dev_mtk.Processes.{Process}
use os_dev_mtk.Processes.Loading.{process_init}
use os_dev_mtk.Terminal.{print}
use os_dev_mtk.UserMemory.{translate, task_get_stack_item}
use os_dev_mtk.UserMemory.Sample.{
  directory, tables, layout, words, words-IsDirectory, bytes, heap, machine, text,
}
use os_dev_mtk.UserMemory.Strings.{Reads}
use os_dev_mtk.SystemCalls.{Kernel, resumed, stack_item}
use os_dev_mtk.SystemCalls.Programs.{sys_exit}
use os_dev_mtk.SystemCalls.Exit.{exit-Resumes}
use os_dev_mtk.SystemCalls.Io.{isr_sys_print}
use os_dev_mtk.SystemCalls.Printing.{sys_print-Prints}
use os_dev_mtk.SystemCalls.Paths.{start_path, start_path-bounds}

abbrev task : Task
task = record {
  page_directory = 0x50;
  registers = record {
    edi = 0;
    esi = 0;
    ebp = 0;
    ebx = 0;
    edx = 0;
    ecx = 0;
    eax = 0;
    eip = 0x40_1000;
    cs = 0x1b;
    eflags = 0;
    esp = 0x30_0000;
    ss = 0x23;
  };
  process = 0x60;
  prev = 0;
  next = 0;
}

abbrev kernel : Kernel
kernel = record {
  machine = machine;
  terminal = record {
    terminal_x = 0;
    terminal_y = 0;
    terminal_fg_color = 0;
    terminal_bg_color = 0;
    screen = λ _. 0;
  };
  tasks = record {
    task_at = λ a. if a == 0x70 then some task else none;
    task_head = 0x70;
    task_tail = 0x70;
    current_task = 0x70;
  };
  table = record { processes = replicate 12 0; current_process = 0 };
  process_at = λ a. none;
  map_at = λ a. record { d_entry = directory };
  elf_at = λ a. record {
    elf_memory = 0;
    virtual_base_addr = 0;
    virtual_end_addr = 0;
    physical_base_addr = 0;
    physical_end_addr = 0;
  };
}

abbrev after : KernelHeap
after = record { heap = allocated heap 0 0; memory = memset bytes 0x01000000 0 1024 }

alloc_runs : kzalloc machine.kheap 1024 ≡ some (0x01000000, after)
unfolding kzalloc kmalloc heap_alloc heap_alloc_blocks heap_align_size heap_get_start_block
    heap_block_to_address heap_mark_blocks_as_taken chunk heap_get_entry_type
alloc_runs = refl

text-Reads :
    Reads (translate words directory) after.memory 0x01000000 (0x01000000 + 1024) 0x40_0000 text
unfolding memset store paging_get paging_get_indexes paging_get_physical_address
    paging_align_to_lower_page_addr
text-Reads = (
  (0x40_0000, refl, refl, refl),
  omega arith,
  ((0x40_0001, refl, refl, refl), omega arith, (0x40_0002, refl, refl, refl)),
)

item_runs : stack_item kernel 0 ≡ some 0x40_0000
unfolding task_get_stack_item paging_get paging_get_indexes paging_get_physical_address
    paging_align_to_lower_page_addr
item_runs = refl

next_runs : stack_item kernel 1 ≡ some 0
unfolding task_get_stack_item paging_get paging_get_indexes paging_get_physical_address
    paging_align_to_lower_page_addr
next_runs = refl

sys_print-Prints_example :
    (k' : Kernel) × (isr_sys_print kernel 0x7_0000 ≡ some (0, k'))
    × (print kernel.terminal (take 1023 text ++ 0 ∷ []) ≡ some k'.terminal)
    × ((x : ℕ) → k'.machine.words x ≡ words x)
    × (k'.tasks ≡ kernel.tasks)
sys_print-Prints_example =
    sys_print-Prints directory tables layout 7 (omega arith) refl kernel task after 0x01000000
      0x40_0000 0x7_0000 text refl refl item_runs words-IsDirectory alloc_runs (omega arith) refl
      (omega arith) (omega arith) (inl (omega arith)) (inl (omega arith)) text-Reads

start_path-bounds_example :
    (length text ≤ 104
      → (behind : List ℕ) × (start_path (replicate 108 0) (text ++ 0 ∷ [])
          ≡ some (b'0' ∷ b':' ∷ b'/' ∷ (text ++ 0 ∷ behind))))
    × (105 ≤ length text → start_path (replicate 108 0) (text ++ 0 ∷ []) ≡ none)
start_path-bounds_example =
    start_path-bounds (replicate 108 0) text [] (length-replicate {A = ℕ} 108 0)
      (omega arith, (omega arith, tt))

-- Two processes: the task at 0x70 runs the process at 0x60, and the task at 0x90 another one.
abbrev first_task : Task
first_task = record task { next = 0x90 }

abbrev second_task : Task
second_task = record task { process = 0x80; prev = 0x70 }

abbrev first_process_block : Process
first_process_block = record process_init { task = 0x70; stack = 0x9000 }

abbrev two_tasks : Tasks
two_tasks = record {
  task_at =
      λ a. if a == 0x70 then some first_task else if a == 0x90 then some second_task else none;
  task_head = 0x70;
  task_tail = 0x90;
  current_task = 0x70;
}

abbrev two_processes : Kernel
two_processes = record kernel {
  tasks = two_tasks;
  table = record { processes = 0x60 ∷ 0x80 ∷ replicate 10 0; current_process = 0x60 };
  process_at = λ a. if a == 0x60 then some first_process_block else none;
}

two-IsQueue : IsQueue two_tasks (0x70 ∷ 0x90 ∷ [])
two-IsQueue = record {
  backed = (
    refl,
    omega arith,
    (omega arith, tt),
    first_task,
    refl,
    refl,
    (refl, omega arith, tt, second_task, refl, refl, refl),
  );
  tail_at = refl;
  current_in = (0, refl);
}

exit-Resumes_example :
    (b : ℕ) × (k' : Kernel) × (j : ℕ) × (sys_exit two_processes ≡ ok (resumed b k'))
    × (get_elem? (0x90 ∷ []) j ≡ some b)
    × Linked k'.tasks.task_at k'.tasks.task_head (0x90 ∷ [])
    × (k'.tasks.current_task ≡ b)
    × (get_elem? k'.table.processes 0 ≡ some 0)
unfolding process_init
exit-Resumes_example =
    exit-Resumes two_processes 0x60 0x50 1 0x80 first_process_block [] (0x90 ∷ []) refl refl
      two-IsQueue (omega arith) (omega arith) refl (omega arith) (omega arith)

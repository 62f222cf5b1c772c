-- ===== src/Start.antt =====
-- `kernel_main` of src/kernel/kernel.c, and src/kernel/keyboard/keyboard.c and classic.c where they make the
-- list of the keyboards: the order in which the kernel is set up, and the start of the shell. The
-- addresses of the wrappers in assembly and of the task state segment are arguments. The instructions that load a register of the processor are not
-- kept.
pub mod Chunk
pub mod Ready
mod Tests
use os_dev_mtk.Base.{
  ℕ, Bool, true, false, Option, none, some, List, [], ◌∷◌, ◌==◌, if◌then◌else◌, get_or, replicate,
  ℤ, pos, negsuc, ne, einvarg,
}
use os_dev_mtk.Base.Run.{Run, ok, panic, of_option, ◌>>=◌}
use os_dev_mtk.Heap.Kernel.{KernelHeap, make_kernel_heap, kzalloc}
use os_dev_mtk.Heap.Pages.{kzalloc_pages}
use os_dev_mtk.Disk.{Disk, the_disk}
use os_dev_mtk.Paging.{Words, MemoryMap, page_size, total_entries, gen_paging_4gb}
use os_dev_mtk.Files.{FileSystem, FileSystems, Descriptors, fs_init, fs_resolve}
use os_dev_mtk.Gdt.{GdtEntryStructured, GdtEntry, unpack_structured_gdt}
use os_dev_mtk.Tasks.{Tasks, Registers, task_run_first_task}
use os_dev_mtk.Terminal.{Terminal, terminal_init, terminal_clear, print}
use os_dev_mtk.Interrupts.{
  IdtDescriptor, Callback, registered, SystemCall, idt_init_descriptors, idt_init_callbacks,
  idt_register_interrupt_callback, isr80h_register_commands,
}

-- The list of the keyboards: the driver at an address has a next one, 0 for none.
pub record Keyboards : Type 0 where
  pub keyboard_list_head : ℕ
  pub keyboard_list_tail : ℕ
  pub next : ℕ → ℕ

abbrev pub Callbacks : Type 0
Callbacks = List (Option Callback)

-- The driver's `caps_lock_state`, and the callbacks.
unfoldable pub classic_keyboard_init : Callbacks → (handler : ℕ) → ℤ × (Callbacks × ℕ)
classic_keyboard_init callbacks handler =
    let (_, callbacks') =
      idt_register_interrupt_callback callbacks (pos 0x21) (registered handler) in
    (ne, (callbacks', 0))

unfoldable pub link_keyboard : Keyboards → (keyboard : ℕ) → Keyboards
link_keyboard list keyboard =
    let used = list.keyboard_list_tail == 0 in
    record {
      keyboard_list_head = if used then keyboard else list.keyboard_list_head;
      keyboard_list_tail = keyboard;
      next = λ a.
          if used
          then list.next a
          else if a == list.keyboard_list_tail
          then keyboard
          else list.next a;
    }

abbrev pub no_init_text : List ℕ
no_init_text =
    b'K' ∷ b'e' ∷ b'y' ∷ b'b' ∷ b'o' ∷ b'a' ∷ b'r' ∷ b'd' ∷ b' ' ∷ b'd' ∷ b'o' ∷ b'e' ∷ b's' ∷ b'n'
    ∷ 39 ∷ b't' ∷ b' ' ∷ b'h' ∷ b'a' ∷ b'v' ∷ b'e' ∷ b' ' ∷ b'i' ∷ b'n' ∷ b'i' ∷ b't' ∷ b' ' ∷ b'f'
    ∷ b'u' ∷ b'n' ∷ b'c' ∷ b't' ∷ b'i' ∷ b'o' ∷ b'n' ∷ b'.' ∷ 0 ∷ []

-- `init` is what the driver's function does to the callbacks, if it has one; `S` is what it changes.
unfoldable pub keyboard_insert :
    {S : Type 0}
    → Keyboards
    → Terminal
    → (keyboard : ℕ) → (init : Option (S → ℤ × S)) → S
    → Option (ℤ × Keyboards × Terminal × S)
keyboard_insert list st keyboard none s = elim (print st no_init_text) [
  | none ↦ none
  | some st' ↦ some (einvarg, list, st', s)
]
keyboard_insert list st keyboard (some init) s =
    let (res, s') = init s in some (res, link_keyboard list keyboard, st, s')

-- The driver's structure is at `keyboard`. The state is the callbacks and the caps lock.
unfoldable pub keyboard_init :
    Keyboards
    → Terminal
    → Callbacks
    → (keyboard handler : ℕ) → Option (ℤ × Keyboards × Terminal × (Callbacks × ℕ))
keyboard_init list st callbacks keyboard handler =
    keyboard_insert list st keyboard
      (some (λ (s : Callbacks × ℕ). classic_keyboard_init s.0 handler)) (callbacks, 0)

-- `gdt_structured`, with the address of `tss`; `sizeof(tss)` is 100.
abbrev pub gdt_structured : (tss : ℕ) → List GdtEntryStructured
gdt_structured tss =
    record { base = 0; limit = 0; access_byte = 0 }
    ∷ record { base = 0; limit = 0xffff_ffff; access_byte = 0x9a }
    ∷ record { base = 0; limit = 0xffff_ffff; access_byte = 0x92 }
    ∷ record { base = 0; limit = 0xffff_ffff; access_byte = 0xf8 }
    ∷ record { base = 0; limit = 0xffff_ffff; access_byte = 0xf2 }
    ∷ record { base = tss; limit = 100; access_byte = 0xe9 }
    ∷ []

-- The addresses.
pub record Addresses : Type 0 where
  pub interrupt_pointer_table : ℕ → ℕ
  pub isr80h_wrapper : ℕ
  pub tss : ℕ
  pub classic_keyboard : ℕ
  pub classic_keyboard_handle_interrupt : ℕ

-- The kernel before the start: its terminal and heap, what lies at the address of the heap's table, and the
-- words of the memory. The static variables are 0.
pub record Before : Type 0 where
  pub terminal : Terminal
  pub kheap : KernelHeap
  pub heap_table : List ℕ
  pub words : Words

-- The kernel that is set up.
pub record Started (P : Type 0) : Type 0 where
  pub terminal : Terminal
  pub kheap : KernelHeap
  pub file_descriptors : Descriptors P
  pub filesystems : FileSystems P
  pub disk : Disk
  pub filesystem : Option (FileSystem P)
  pub tss_esp0 : ℕ
  pub tss_ss0 : ℕ
  pub idt_descriptors : List IdtDescriptor
  pub callbacks : Callbacks
  pub gdt_kernel : List GdtEntry
  pub words : Words
  pub kernel_paging_chunk : MemoryMap
  pub isr80h_commands : List (Option SystemCall)
  pub keyboards : Keyboards
  pub caps_lock_state : ℕ

abbrev pub finished_text : List ℕ
finished_text =
    b'K' ∷ b'e' ∷ b'r' ∷ b'n' ∷ b'e' ∷ b'l' ∷ b' ' ∷ b'S' ∷ b'e' ∷ b't' ∷ b'u' ∷ b'p' ∷ b' ' ∷ b'f'
    ∷ b'i' ∷ b'n' ∷ b'i' ∷ b's' ∷ b'h' ∷ b'e' ∷ b'd' ∷ b'.' ∷ b'\n' ∷ 0 ∷ []

abbrev pub heap_text : List ℕ
heap_text =
    b'\n' ∷ b'H' ∷ b'e' ∷ b'a' ∷ b'p' ∷ b' ' ∷ b'i' ∷ b'n' ∷ b'i' ∷ b't' ∷ b'i' ∷ b'a' ∷ b't' ∷ b'e'
    ∷ b'd' ∷ b'.' ∷ b'\n' ∷ 0 ∷ []

unfoldable pub kheap_init :
    (heap_table : List ℕ) → KernelHeap → Terminal → Run (KernelHeap × Terminal)
kheap_init heap_table k st =
    make_kernel_heap heap_table k >>= λ k'. of_option (print st heap_text) >>= λ st'. ok (k', st')

-- `KERNEL_DATA_SELECTOR`
abbrev pub kernel_data_selector : ℕ
kernel_data_selector = 0x10

-- `_gen_paging_4gb` with its allocations, of the directory, of each table, and of the map.
unfoldable pub allocate_paging_4gb :
    KernelHeap → Words → (flags : ℕ) → Run (KernelHeap × Words × MemoryMap)
allocate_paging_4gb k words flags = of_option (kzalloc k page_size) >>= λ (directory, k1).
    if directory == 0
    then panic
    else of_option (kzalloc_pages total_entries k1) >>= λ (tables, k2).
        of_option (kzalloc k2 4) >>= λ (chunk, k3).
        gen_paging_4gb words directory (λ d. get_or tables d 0) chunk flags >>= λ (words', map).
        ok (k3, words', map)

-- The disk, and its file system, the first that resolves it.
unfoldable pub disk_search_and_init :
    {P : Type 0} → FileSystems P → Option (Disk × Option (FileSystem P))
disk_search_and_init filesystems = elim (fs_resolve filesystems the_disk.id) [
  | none ↦ none
  | some fs ↦ some (the_disk, fs)
]

module _ {P : Type 0} (addresses : Addresses) (fat16 : FileSystem P) where
  -- The part up to the second `terminal_clear`. 7 are the flags of the pages of the kernel.
  unfoldable pub setup : Before → Run (Started P)
  setup before =
      let terminal1 = terminal_init before.terminal in
      kheap_init before.heap_table before.kheap terminal1 >>= λ (kheap1, terminal2).
      fs_init fat16 >>= λ (file_descriptors, filesystems).
      of_option (disk_search_and_init filesystems) >>= λ (disk, filesystem).
      let callbacks1 = idt_init_callbacks (replicate 256 none) in
      unpack_structured_gdt (gdt_structured addresses.tss) >>= λ gdt.
      allocate_paging_4gb kheap1 before.words 7 >>= λ (kheap, words, chunk).
      isr80h_register_commands (replicate 1024 none) >>= λ commands.
      of_option (
        keyboard_init (record { keyboard_list_head = 0; keyboard_list_tail = 0; next = λ _. 0 })
          terminal2 callbacks1 addresses.classic_keyboard
          addresses.classic_keyboard_handle_interrupt)
      >>= λ (_, keyboards, terminal3, (callbacks2, caps)).
          of_option (print terminal3 finished_text) >>= λ terminal4. ok (record {
            terminal = terminal_clear terminal4;
            kheap = kheap;
            file_descriptors = file_descriptors;
            filesystems = filesystems;
            disk = disk;
            filesystem = filesystem;
            tss_esp0 = 0x60_0000;
            tss_ss0 = kernel_data_selector;
            idt_descriptors =
                idt_init_descriptors addresses.interrupt_pointer_table addresses.isr80h_wrapper;
            callbacks = callbacks2;
            gdt_kernel = gdt;
            words = words;
            kernel_paging_chunk = chunk;
            isr80h_commands = commands;
            keyboards = keyboards;
            caps_lock_state = caps;
          })

abbrev pub shell_path : List ℕ
shell_path =
    b'0' ∷ b':' ∷ b'/' ∷ b's' ∷ b'h' ∷ b'e' ∷ b'l' ∷ b'l' ∷ b'.' ∷ b'e' ∷ b'l' ∷ b'f' ∷ 0 ∷ []

-- The rest, on a state that has the tasks: a shell that is not loaded is a panic, and else the first task
-- runs.
unfoldable pub start_shell :
    {S : Type 0}
    → (process_load_switch : S → (filename : List ℕ) → Run (ℤ × S)) → (tasks : S → Tasks) → S
    → Run (Registers × Tasks)
start_shell process_load_switch tasks s = process_load_switch s shell_path >>= λ (res, s').
    elim res [ negsuc n ↦ panic | pos n ↦ if n == 0 then task_run_first_task (tasks s') else panic ]

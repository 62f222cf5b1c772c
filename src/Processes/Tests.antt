-- ===== src/Processes/Tests.antt =====
-- The end of a process with two allocations, the start of one, and the memory that one sees.
use os_dev_mtk.Base.{
  arith, ◌+◌, ℕ, zero, suc, ◌++◌, ◌<◌, ◌≡◌, refl, List, [], ◌∷◌, some, inr, replicate, ne,
}
use os_dev_mtk.Processes.{
  Process, ProcessTable, Allocation, no_allocation, Services, process_terminal_allocations,
  process_find_free_allocation_slot, allocation_slot, process_malloc, process_free,
}
use os_dev_mtk.Base.Run.{ok, of_option}
use os_dev_mtk.Processes.Loading.{Loader, process_init, process_map_memory}
use os_dev_mtk.Processes.Mapping.{map_memory-Shows}
use os_dev_mtk.Paging.{Words, paging_map_to, paging_get_physical_address}
use os_dev_mtk.UserMemory.Sample.{directory, tables, layout, words, words-IsDirectory}
use os_dev_mtk.Elf.{
  ElfFile, ElfPhdr, elf_header, elf_program_header, phdr_at, elf_phdr_compute_physical_address,
}
use os_dev_mtk.Heap.Kernel.{KernelHeap, kzalloc, kfree}
use os_dev_mtk.Processes.Reuse.{AreTidy, malloc-free}
use os_dev_mtk.Processes.Release.{AreFree, AllUnmap, released, terminal_allocations-AreFree}

-- The state is what has been freed, the last first.
abbrev log : Services (List ℕ)
log = record {
  kzalloc = λ st size. some (0x1000, st);
  kfree = λ st ptr. ptr ∷ st;
  paging_map_to = λ st v_addr p_addr p_addr_end flags. (ne, st);
}

abbrev entries : List Allocation
entries =
    record { ptr = 0x1000; size = 8 }
    ∷ no_allocation
    ∷ record { ptr = 0x3000; size = 9 }
    ∷ replicate 1021 no_allocation

all_unmap : (n : ℕ) → AllUnmap log (replicate n no_allocation)
all_unmap zero = tt
all_unmap (suc n) = ((λ st. refl), all_unmap n)

terminal_allocations-AreFree_example :
    (after : List Allocation) × (process_terminal_allocations log [] entries
      ≡ (released log [] entries, after))
    × AreFree after
terminal_allocations-AreFree_example =
    terminal_allocations-AreFree log [] entries refl
      ((λ st. refl), ((λ st. refl), ((λ st. refl), all_unmap 1021)))

abbrev one_entry : List Allocation
one_entry = record { ptr = 0x3000; size = 9 } ∷ replicate 1023 no_allocation

all_tidy : (n : ℕ) → AreTidy 0x1000 (replicate n no_allocation)
all_tidy zero = tt
all_tidy (suc n) = ((λ _. refl), omega arith, all_tidy n)

malloc-free_example :
    (allocations' : List Allocation) × (process_malloc log [] one_entry 8
      ≡ some (0x1000, [], allocations'))
    × ((process_free log [] allocations' 0x1000).1 ≡ one_entry)
unfolding process_find_free_allocation_slot allocation_slot
malloc-free_example =
    malloc-free log [] [] [] [] one_entry 8 0x1000 1 ne
      ((λ e. absurd (omega (arith, e))), omega arith, all_tidy 1023) refl refl (omega arith) refl
      refl (λ st. refl)

-- The state is the heap of the kernel, of 64 blocks. Every file is loaded, and its structure is at 0x5000.
abbrev loader : Loader KernelHeap
loader = record {
  kzalloc = λ k size. of_option (kzalloc k size);
  kfree = kfree;
  fopen = λ k filename. ok (1, k);
  fstat = λ k fd. (ne, 12);
  fread = λ k ptr size fd. ok (ne, k);
  fclose = λ k fd. k;
  elf_load = λ k filename. ok (ne, 0x5000, k);
  elf_file = λ k ptr. (
    record {
      elf_memory = 0x6000;
      virtual_base_addr = 0;
      virtual_end_addr = 0;
      physical_base_addr = 0;
      physical_end_addr = 0;
    },
    [],
  );
  task_new = λ k process p. of_option (kzalloc k 64);
  task_free = λ k task. ok (kfree k task);
  paging_map_to = λ k task v_addr p_addr p_addr_end flags. (ne, k);
}

abbrev small_heap : KernelHeap
small_heap = record {
  heap = record {
    table = record { entries = replicate 64 0; total_entries = 64 };
    base_addr = 0x100_0000;
  };
  memory = λ _. 0;
}

abbrev one_process : ProcessTable
one_process = record { processes = 0x4000 ∷ replicate 11 0; current_process = 0x4000 }

-- An ELF file with one segment, that of the whole file: 84 bytes at 0x400000.
abbrev program : List ℕ
program =
    0x7f ∷ b'E' ∷ b'L' ∷ b'F' ∷ 1 ∷ 1 ∷ replicate 10 0
    ++ (2 ∷ 0 ∷ 3 ∷ 0 ∷ 1 ∷ 0 ∷ 0 ∷ 0 ∷ 0 ∷ 0 ∷ 0x40 ∷ 0 ∷ 52 ∷ 0 ∷ 0 ∷ 0 ∷ replicate 8 0
        ++ (52 ∷ 0 ∷ 32 ∷ 0 ∷ 1 ∷ 0 ∷ replicate 6 0
            ++ (1 ∷ replicate 7 0
                ++ (0 ∷ 0 ∷ 0x40 ∷ 0 ∷ replicate 4 0
                    ++ (84 ∷ 0 ∷ 0 ∷ 0 ∷ 84 ∷ 0 ∷ 0 ∷ 0 ∷ 5 ∷ replicate 7 0)))))

abbrev program_file : ElfFile
program_file = record {
  elf_memory = 0x180_0000;
  virtual_base_addr = 0x40_0000;
  virtual_end_addr = 0x40_0054;
  physical_base_addr = 0x180_0000;
  physical_end_addr = 0x180_0054;
}

-- The state is the memory of the tables; the only task is at 0x2000.
abbrev mapper : Loader Words
mapper = record {
  kzalloc = λ st size. ok (0, st);
  kfree = λ st ptr. st;
  fopen = λ st filename. ok (0, st);
  fstat = λ st fd. (ne, 0);
  fread = λ st ptr size fd. ok (ne, st);
  fclose = λ st fd. st;
  elf_load = λ st filename. ok (ne, 0x3000, st);
  elf_file = λ st ptr. (program_file, program);
  task_new = λ st process p. ok (0x2000, st);
  task_free = λ st task. ok st;
  paging_map_to = λ st task v_addr p_addr p_addr_end flags.
      paging_map_to st (record { d_entry = directory }) v_addr p_addr p_addr_end flags;
}

abbrev loaded : Process
loaded = record process_init { task = 0x2000; filetype = 0; ptr = 0x3000; stack = 0x170_0000 }

abbrev program_header : (k : ℕ) → ElfPhdr
program_header k = elf_program_header program (elf_header program) k

only_header : (k : ℕ) → k < (elf_header program).e_phnum → k ≡ 0
unfolding elf_header
only_header zero h = refl
only_header (suc k) h = absurd (omega arith)

map_memory-Shows_example :
    (st' : Words) × (process_map_memory mapper words loaded ≡ (ne, st'))
    × ((k j : ℕ)
        → k < (elf_header program).e_phnum
        → j < (program_header k).p_memsz
        → paging_get_physical_address st' directory ((program_header k).p_vaddr + j)
          ≡ elf_phdr_compute_physical_address program_file (program_header k) + j)
    × ((j : ℕ)
        → j < 0x4000
        → paging_get_physical_address st' directory (0x3f_b000 + j) ≡ 0x170_0000 + j)
unfolding elf_header elf_program_header phdr_at elf_phdr_compute_physical_address
map_memory-Shows_example =
    map_memory-Shows mapper (λ w. w) 0x2000 directory tables layout 7 (omega arith) refl
      (λ st v p e f. (refl, refl)) program_file program words loaded refl refl refl
      words-IsDirectory (λ k h. rw (only_header k h) (refl, omega arith, omega arith))
      (λ k l order h. absurd (omega (arith, order, only_header l h)))
      (λ k h. rw (only_header k h) (inr (omega arith))) refl (omega arith)

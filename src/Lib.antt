-- ===== src/Lib.antt =====
-- BasicOS: a 32-bit kernel in C (src/kernel), started by a boot loader and small assembly files,
-- with a library for programs (programs/stdlib) and a shell. kernel_main sets up the segments, the
-- heap, paging, the disk and its file system, the interrupts and the keyboard, and runs the first
-- program. This library models the parts of the kernel below, and proves what makes them correct.
--
-- Base passes on the names that every part uses: Boolean tests (Tests), lists (Lists), the error
-- numbers of includes/status.h as signed results (Errno), faults as Option (Fault), the outcome of
-- code that can panic (Run), and masks and shifts as arithmetic (Bits). A number is a natural
-- number; a 32-bit word has its wrap-around written out. `none` is an access outside of an object, a
-- division by zero, or a loop that does not end.
--
-- - Memory: src/kernel/memory/memory.c, on the bytes at addresses and on the bytes of an object.
-- - Heap: src/kernel/memory/heap/heap.c and kheap.c. The table of blocks is a list of bytes. Blocks
--   says which tables hold whole allocations, Search has the independent search for the first fit,
--   Mark and Runs are about the loops that set and clear entries, Alloc and Cycle about allocation,
--   Make about make_heap, Kernel about kheap_init, kmalloc, kzalloc and kfree, and Pages about blocks that
--   are taken one after the other.
-- - Text: src/kernel/string/string.c, on the bytes from a pointer on.
-- - PathParser: src/kernel/fs/pparser.c. Parts has the specification of the split, RoundTrip the
--   parser against it and against printing. It uses Text and Memory.
-- - Disk: src/kernel/disk/disk.c and streamer.c. The ATA controller is an argument that gives the
--   words it sends after a command; Read assumes that it answers as the ATA standard says (IsAta).
--   A client sees a function from sectors to results and bytes (BlockDevice).
-- - Fat16: src/kernel/fs/fat/fat16.c over a BlockDevice. Layout reads the packed structures from
--   bytes, Clusters has the allocation table and the reads, Names the names, Directory the way from a
--   path to an item, Driver the operations of `fat16_fs`. Reading, Count and Defects hold theorems.
-- - Files: src/kernel/fs/file.c. A file system is a record of its operations, which Fat fills with the
--   FAT16 driver; Table, Calls, Sessions and Reopen are about the table of descriptors.
-- - Paging: src/kernel/memory/paging/paging.c over the 32-bit words of the memory. Map and Range are
--   about mapping pages, Identity about a new page directory.
-- - Keyboard: src/kernel/keyboard/keyboard.c and classic.c. Queue reads the ring as a queue.
-- - Gdt: src/kernel/gdt/gdt.c. Decode says what the processor reads in a descriptor.
-- - Elf: src/kernel/loader/formats/elf_loader.c, from the bytes of a file to its segments; Load has
--   elf_load, over Files.
-- - Tasks: src/kernel/task/task.c. The tasks are blocks at addresses, linked both ways. Links says how a
--   list of addresses is linked through blocks, Queue is about task_new, Rounds about the turns that
--   task_next gives, Removal and Free about task_free.
-- - Terminal: src/kernel/kernel.c and includes/math/math.h. The state is the cursor, the colors and the
--   screen. Column bounds the cursor, Write says which cells a text takes, Power is about pow, and
--   Numbers about printint.
-- - Library: programs/stdlib/src. itoa, printf and terminal_readline are in Library, strtok and the
--   parsing of a command in Tokens. Itoa and Editing hold the theorems of the first two; Words, Cut and
--   Arguments lead from the words of a text to the arguments of a command. It uses Text.
-- - Shell: programs/shell/src/shell.c, one round of its loop over Library and the banner; Typing goes from the
--   keys to the arguments of the system call.
-- - Interrupts: src/kernel/idt and src/kernel/isr80h/isr80h.c. Gates is about the descriptors, Timer about the switch of tasks, and Calls about the numbers of the
--   system calls. It uses Tasks; what a callback other than the timer's and what the handler of a system
--   call does are arguments.
-- - Processes: src/kernel/task/process.c. The slots, what a process allocates, and its end; Kernel fills
--   what these use with the heap and the paging, Reuse is about an allocation that is freed, Release about
--   the end of all of them. Loading makes a process from a file, over a record of the operations of the
--   other components; Steps and Slots are about how that ends. Arguments has the arguments of a command;
--   Segments and Mapping are about the pages of a program.
-- - UserMemory: src/kernel/task/task.c, where it goes through the pages of a task, over the bytes of the
--   memory, the heap and the page tables. Strings says which string stands at an address seen through
--   pages, Copy is about copy_string_from_task, and Sample is a machine for the tests.
-- - SystemCalls: the handlers in src/kernel/isr80h, over the state of the kernel, which puts the memory,
--   the terminal, the tasks and the processes together. Io has io.c and misc.c, Programs memory.c and
--   process.c, and Paths the path of a program; Printing and Exit hold theorems.
-- - Exceptions: the callbacks of the exceptions in src/kernel/idt/interrupts.c, over that state.
-- - Start: kernel_main of src/kernel/kernel.c, with the list of the keyboards. Chunk
--   is about the page directory on the heap, and Ready says what the kernel is after it has been set up, from the theorems of the components.
--
-- Bounds and fuel. A loop that counts is recursion on the rounds that are left. The loop of the
-- streamer and the one of fat16_read_internal take as many rounds as there are bytes, since each
-- round reads one byte or more. The parser of a path of n bytes takes n + 1 calls. The loop that
-- counts the records of a directory takes fuel, of which one more than the records is enough
-- (Fat16.Count). The search in a directory passes that fuel on. The loops of pow and of the digits of a
-- number take one round more than the number they halve or divide, those of strtok and of the
-- arguments one more than the bytes of the object, and that of a line one more than the polls. The
-- copies of SYS_PRINT_EXT take four rounds for at most 4096 bytes, and one to see that nothing is left.
--
-- Not modelled. Assembly: the boot loader, the ports, the switches of context, the loading of the
-- registers of paging and segments. The disk is taken to become ready. What is freed is not kept
-- outside of Heap, and the allocations inside of the path parser, the FAT16 driver and the
-- descriptors are taken to succeed; paging takes the addresses that its allocations return as
-- arguments, which Start takes from the heap, and a task's page directory is not freed. The states of the components are put together
-- where a behaviour goes through several of them, the bytes that the heap gives out apart from the words of
-- the page tables: the heap and the page tables for a process, these
-- with the tasks, the processes and the terminal for the system calls. The loading of a process takes
-- the other components as a record of operations, and the handlers that start a program take
-- process_load_switch on their state as an argument. malloc, free and putchar of the library for
-- programs are system calls; its string.c, but strtok, and its memory.c repeat the kernel's. The shell has
-- no end: one round is modelled. The start of a program, which passes its arguments to main, is not.

pub mod Base
pub mod Memory
pub mod Heap
pub mod Text
pub mod PathParser
pub mod Disk
pub mod Fat16
pub mod Paging
pub mod Files
pub mod Keyboard
pub mod Gdt
pub mod Elf
pub mod Tasks
pub mod Terminal
pub mod Library
pub mod Interrupts
pub mod Processes
pub mod UserMemory
pub mod SystemCalls
pub mod Start
pub mod Exceptions
pub mod Shell

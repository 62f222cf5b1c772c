-- ===== src/Start/Tests.antt =====
-- The set-up of the kernel at concrete addresses, from a memory that holds anything.
use os_dev_mtk.Base.{ℕ, ◌+◌, ◌*◌, ◌%◌, none, some, [], replicate, ne}
use os_dev_mtk.Files.{FileSystem, refused}
use os_dev_mtk.Start.{Addresses, Before}

abbrev addresses : Addresses
addresses = record {
  interrupt_pointer_table = λ i. 0x10_0000 + 16 * (i % 256);
  isr80h_wrapper = 0x10_2000;
  tss = 0x10_3000;
  classic_keyboard = 0x10_4000;
  classic_keyboard_handle_interrupt = 0x10_5000;
}

-- A file system without files, which resolves every disk.
abbrev no_files : FileSystem ℕ
no_files = record {
  resolve = λ disk. some 0;
  open_file = λ part parts mode. some (refused ne);
  read_items = λ p size nmemb. none;
  seek = λ p offset mode. (ne, p);
  stat = λ p stat. (ne, stat);
  close = λ p. ne;
}

abbrev before : Before
before = record {
  terminal = record {
    terminal_x = 7;
    terminal_y = 7;
    terminal_fg_color = 0;
    terminal_bg_color = 0;
    screen = λ _. 0;
  };
  kheap = record {
    heap = record { table = record { entries = []; total_entries = 0 }; base_addr = 0 };
    memory = λ _. 1;
  };
  heap_table = replicate 25600 9;
  words = λ _. 1;
}

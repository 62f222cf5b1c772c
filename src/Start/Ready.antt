-- ===== src/Start/Ready.antt =====
-- What the kernel is after it has been set up.
use os_dev_mtk.Base.{
  ℕ, zero, suc, ◌^◌, ◌<◌, ◌≡◌, none, some, List, [], ◌∷◌, get_elem?, replicate, Bool, true, false,
  set, ◌==◌, if◌then◌else◌, Option,
}
use os_dev_mtk.Heap.Kernel.{KernelHeap}
use os_dev_mtk.Heap.Pages.{IsFilled, block_at}
use os_dev_mtk.Paging.{paging_get_physical_address, Words}
use os_dev_mtk.Files.{FileSystem}
use os_dev_mtk.Disk.{the_disk}
use os_dev_mtk.Gdt.{GdtEntry}
use os_dev_mtk.Gdt.Decode.{AllEncode}
use os_dev_mtk.Terminal.{Terminal, terminal_clear}
use os_dev_mtk.Interrupts.{
  IdtDescriptor, timer_interrupt, registered, idt_init_callbacks, idt_init_descriptors,
}
use os_dev_mtk.Interrupts.Gates.{IsGate, wrapper_of, gate_of}
use os_dev_mtk.Interrupts.Calls.{registered_calls}
use os_dev_mtk.Start.{Addresses, Started, gdt_structured}

-- A kernel that is set up: the heap is valid, its first 1026 blocks, the page directory with its tables and
-- map, are taken and the others free; no file is open, the driver is the first file system, and that of
-- the disk if it resolves the disk; the gates of the interrupts and the descriptors of the segments are
-- those of the tables; the pages of the kernel map each address to itself; the system calls and the
-- callbacks of the timer and of the keyboard are registered, the keyboard is the one driver, and the
-- cursor is in the corner.
pub record IsReady {P : Type 0} (addresses : Addresses) (fat16 : FileSystem P) (s : Started P)
    : Type 0 where
  pub heap : IsFilled s.kheap 1026 24574
  pub files : s.file_descriptors ≡ replicate 512 none
  pub driver : get_elem? s.filesystems 0 ≡ some (some fat16)
  pub filesystem :
      (r : ℕ) → fat16.resolve 0 ≡ some r → s.filesystem ≡ (if r == 0 then some fat16 else none)
  pub gates :
      (i : ℕ)
      → i < 256
      → (d : IdtDescriptor) × (get_elem? s.idt_descriptors i ≡ some d)
        × IsGate d
            (wrapper_of addresses.interrupt_pointer_table addresses.isr80h_wrapper i)
            8
            (gate_of i)
  pub segments : AllEncode (gdt_structured addresses.tss) s.gdt_kernel
  pub pages :
      (v : ℕ) → v < 2 ^ 32 → paging_get_physical_address s.words s.kernel_paging_chunk.d_entry v ≡ v
  pub map_stored : s.words (block_at 1025) ≡ s.kernel_paging_chunk.d_entry
  pub commands : s.isr80h_commands ≡ registered_calls
  pub timer : get_elem? s.callbacks 0x20 ≡ some (some timer_interrupt)
  pub keyboard :
      get_elem? s.callbacks 0x21
      ≡ some (some (registered addresses.classic_keyboard_handle_interrupt))
  pub keyboards : s.keyboards.keyboard_list_head ≡ addresses.classic_keyboard
  pub column : s.terminal.terminal_x ≡ 0
  pub row : s.terminal.terminal_y ≡ 0

-- The text before its NUL.
abbrev finished_line : List ℕ
finished_line =
    b'K' ∷ b'e' ∷ b'r' ∷ b'n' ∷ b'e' ∷ b'l' ∷ b' ' ∷ b'S' ∷ b'e' ∷ b't' ∷ b'u' ∷ b'p' ∷ b' ' ∷ b'f'
    ∷ b'i' ∷ b'n' ∷ b'i' ∷ b's' ∷ b'h' ∷ b'e' ∷ b'd' ∷ b'.' ∷ b'\n' ∷ []

-- No NUL, as a test.
abbrev nul_free : List ℕ → Bool
nul_free [] = true
nul_free (zero ∷ s) = false
nul_free (suc n ∷ s) = nul_free s

-- The text of `kheap_init` before its NUL.
abbrev heap_line : List ℕ
heap_line =
    b'\n' ∷ b'H' ∷ b'e' ∷ b'a' ∷ b'p' ∷ b' ' ∷ b'i' ∷ b'n' ∷ b'i' ∷ b't' ∷ b'i' ∷ b'a' ∷ b't' ∷ b'e'
    ∷ b'd' ∷ b'.' ∷ b'\n' ∷ []

module _ {P : Type 0} (addresses : Addresses) (fat16 : FileSystem P) where
  -- The kernel from the parts that are computed before the terminal is cleared.
  abbrev started : KernelHeap → Option (FileSystem P) → List GdtEntry → Words → Terminal → Started P
  started kheap filesystem gdt words terminal = record {
    terminal = terminal_clear terminal;
    kheap = kheap;
    file_descriptors = replicate 512 none;
    filesystems = set (replicate 12 none) 0 (some fat16);
    disk = the_disk;
    filesystem = filesystem;
    tss_esp0 = 0x60_0000;
    tss_ss0 = 0x10;
    idt_descriptors =
        idt_init_descriptors addresses.interrupt_pointer_table addresses.isr80h_wrapper;
    callbacks =
        set (idt_init_callbacks (replicate 256 none)) 0x21
          (some (registered addresses.classic_keyboard_handle_interrupt));
    gdt_kernel = gdt;
    words = words;
    kernel_paging_chunk = record { d_entry = block_at 0 };
    isr80h_commands = registered_calls;
    keyboards = record {
      keyboard_list_head = addresses.classic_keyboard;
      keyboard_list_tail = addresses.classic_keyboard;
      next = λ _. 0;
    };
    caps_lock_state = 0;
  }

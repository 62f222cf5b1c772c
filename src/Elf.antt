-- ===== src/Elf.antt =====
-- src/kernel/loader/formats/elf_loader.c and elf.c: the checks of a loaded ELF file and the addresses
-- that its segments cover. The file is the list of its bytes at the address `elf_memory`; a field
-- behind its end, which the code reads from the memory there, is taken to be 0, and so is what an
-- `e_phoff` of 2^31 or more refers to, which the code takes as negative. The fields that nothing reads
-- are left out of the headers.
pub mod Bounds
pub mod Load
mod Tests
use os_dev_mtk.Base.{
  ℕ, zero, suc, ◌+◌, ◌*◌, ◌%◌, ◌^◌, Bool, true, false, not, ◌&&◌, ◌||◌, Option, none, some, List,
  [], ◌∷◌, ◌>>=◌, ◌==◌, leb, if◌then◌else◌, drop, get_or, ℤ, pos, is_neg, ne, eio, einvformat,
}
use os_dev_mtk.Memory.{memcmp}
use os_dev_mtk.PathParser.{is_zero}
use os_dev_mtk.Fat16.Layout.{u8, u16, u32}

-- `struct elf_header`
pub record ElfHeader : Type 0 where
  pub class_byte : ℕ
  pub data_byte : ℕ
  pub e_type : ℕ
  pub e_entry : ℕ
  pub e_phoff : ℕ
  pub e_shoff : ℕ
  pub e_phnum : ℕ
  pub e_shstrndx : ℕ

-- `e_ident[EI_CLASS]` and `e_ident[EI_DATA]` are bytes 4 and 5.
unfoldable pub elf_header : (memory : List ℕ) → ElfHeader
elf_header memory = record {
  class_byte = u8 memory 4;
  data_byte = u8 memory 5;
  e_type = u16 memory 16;
  e_entry = u32 memory 24;
  e_phoff = u32 memory 28;
  e_shoff = u32 memory 32;
  e_phnum = u16 memory 44;
  e_shstrndx = u16 memory 50;
}

-- `struct elf32_phdr`
pub record ElfPhdr : Type 0 where
  pub p_type : ℕ
  pub p_offset : ℕ
  pub p_vaddr : ℕ
  pub p_filesz : ℕ
  pub p_memsz : ℕ
  pub p_flags : ℕ

unfoldable pub phdr_at : (memory : List ℕ) → (at : ℕ) → ElfPhdr
phdr_at memory at = record {
  p_type = u32 memory at;
  p_offset = u32 memory (at + 4);
  p_vaddr = u32 memory (at + 8);
  p_filesz = u32 memory (at + 16);
  p_memsz = u32 memory (at + 20);
  p_flags = u32 memory (at + 24);
}

-- `struct elf_file`, without its name: the addresses are words, and 0 until they are stored.
pub record ElfFile : Type 0 where
  pub elf_memory : ℕ
  pub virtual_base_addr : ℕ
  pub virtual_end_addr : ℕ
  pub physical_base_addr : ℕ
  pub physical_end_addr : ℕ

abbrev pub elf_signature : List ℕ
elf_signature = 0x7f ∷ b'E' ∷ b'L' ∷ b'F' ∷ []

-- `none` is a read behind a file of less than four bytes.
unfoldable pub elf_valid_signature : (buffer : List ℕ) → Option Bool
elf_valid_signature buffer = memcmp buffer elf_signature 4 >>= λ r. some (is_zero r)

unfoldable pub elf_valid_class : ElfHeader → Bool
elf_valid_class header = header.class_byte == 0 || header.class_byte == 1

unfoldable pub elf_valid_encoding : ElfHeader → Bool
elf_valid_encoding header = header.data_byte == 0 || header.data_byte == 1

unfoldable pub elf_is_executable : ElfHeader → Bool
elf_is_executable header = header.e_type == 2 && leb 0x40_0000 header.e_entry

unfoldable pub elf_has_program_header : ElfHeader → Bool
elf_has_program_header header = not (header.e_phoff == 0)

-- A program header takes 32 bytes. The callers have seen that there are program headers.
unfoldable pub elf_program_header : (memory : List ℕ) → ElfHeader → (idx : ℕ) → ElfPhdr
elf_program_header memory header idx = phdr_at memory (header.e_phoff + 32 * idx)

unfoldable pub elf_phdr_compute_physical_address : ElfFile → ElfPhdr → ℕ
elf_phdr_compute_physical_address file phdr = (file.elf_memory + phdr.p_offset) % 2 ^ 32

unfoldable pub elf_validate_loaded : (memory : List ℕ) → Option ℤ
elf_validate_loaded memory = elf_valid_signature memory >>= λ signature. some (
    let header = elf_header memory in
    if signature
      && (elf_valid_class header && (elf_valid_encoding header && elf_has_program_header header))
    then ne
    else einvformat)

-- The two `if`s in turn.
unfoldable pub store_base : ElfFile → ElfPhdr → ElfFile
store_base file phdr =
    if leb phdr.p_vaddr file.virtual_base_addr || file.virtual_base_addr == 0
    then record file {
      virtual_base_addr = phdr.p_vaddr;
      physical_base_addr = (file.elf_memory + phdr.p_offset) % 2 ^ 32;
    }
    else file

unfoldable pub store_end : ElfFile → ElfPhdr → ElfFile
store_end file phdr =
    let end_virtual_address = (phdr.p_vaddr + phdr.p_filesz) % 2 ^ 32 in
    if leb file.virtual_end_addr end_virtual_address || file.virtual_end_addr == 0
    then record file {
      virtual_end_addr = end_virtual_address;
      physical_end_addr = (file.elf_memory + phdr.p_offset + phdr.p_filesz) % 2 ^ 32;
    }
    else file

unfoldable pub elf_process_phdr_pt_load : ElfFile → ElfPhdr → ℤ × ElfFile
elf_process_phdr_pt_load elf_file phdr = (ne, store_end (store_base elf_file phdr) phdr)

-- `PT_LOAD` is 1.
unfoldable pub elf_process_pheader : ElfFile → ElfPhdr → ℤ × ElfFile
elf_process_pheader elf_file phdr =
    if phdr.p_type == 1 then elf_process_phdr_pt_load elf_file phdr else (eio, elf_file)

-- The loop over the headers that are left, from header `i` on, with the result so far.
unfoldable pub pheaders_loop : (memory : List ℕ) → (n i : ℕ) → ElfFile → (res : ℤ) → ℤ × ElfFile
pheaders_loop memory zero i file res = (res, file)
pheaders_loop memory (suc n) i file res =
    let (res', file') =
      elf_process_pheader file (elf_program_header memory (elf_header memory) i) in
    let rest = pheaders_loop memory n (i + 1) file' res' in
    if is_neg res' then (res', file') else rest

unfoldable pub elf_process_pheaders : (memory : List ℕ) → ElfFile → ℤ × ElfFile
elf_process_pheaders memory file =
    let header = elf_header memory in pheaders_loop memory header.e_phnum 0 file ne

unfoldable pub elf_process_loaded : (memory : List ℕ) → ElfFile → Option (ℤ × ElfFile)
elf_process_loaded memory file = elf_validate_loaded memory >>= λ res.
    some (if is_neg res then (res, file) else elf_process_pheaders memory file)

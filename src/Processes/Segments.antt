-- ===== src/Processes/Segments.antt =====
-- The segments of a program in an ELF file: their pages, and where these are in the file.
use os_dev_mtk.Base.{ℕ, ◌+◌, ◌-◌, ◌*◌, ◌/◌, ◌%◌, ◌^◌, ◌<◌, ◌≤◌, ◌≡◌, ◌⊎◌, List, arith}
use os_dev_mtk.Paging.{page_size, paging_align_address, paging_align_to_lower_page_addr}
use os_dev_mtk.Elf.{
  ElfFile, ElfPhdr, elf_header, elf_program_header, elf_phdr_compute_physical_address,
}

-- The pages that some bytes take from an address on.
abbrev pub pages_of : (at size : ℕ) → ℕ
pages_of at size = (at % page_size + size + (page_size - 1)) / page_size

pub align_end :
    (at size : ℕ)
    → at + size + page_size < 2 ^ 32
    → paging_align_address ((at + size) % 2 ^ 32)
      ≡ paging_align_to_lower_page_addr at + pages_of at size * page_size
unfolding paging_align_address paging_align_to_lower_page_addr
align_end at size h =
    let small : (at + size) % 2 ^ 32 ≡ at + size = omega arith in rw small (ground arith)

abbrev pub header_at : (memory : List ℕ) → (k : ℕ) → ElfPhdr
header_at memory k = elf_program_header memory (elf_header memory) k

-- Where its bytes are in the memory.
abbrev pub physical : ElfFile → ElfPhdr → ℕ
physical file phdr = elf_phdr_compute_physical_address file phdr

-- A segment whose place in the file has the offset of its address in a page, within 32 bits.
abbrev pub IsPlaced : ElfFile → ElfPhdr → Type 0
IsPlaced file phdr =
    (phdr.p_vaddr % page_size ≡ physical file phdr % page_size)
    × (phdr.p_vaddr + phdr.p_memsz + page_size < 2 ^ 32)
    × (physical file phdr + phdr.p_memsz + page_size < 2 ^ 32)

abbrev pub first_page : ElfPhdr → ℕ
first_page phdr = phdr.p_vaddr - phdr.p_vaddr % page_size

abbrev pub pages_end : ElfPhdr → ℕ
pages_end phdr = first_page phdr + pages_of phdr.p_vaddr phdr.p_memsz * page_size

-- Two segments that share no page.
abbrev pub AreApart : (p q : ElfPhdr) → Type 0
AreApart p q = (pages_end p ≤ first_page q) ⊎ (pages_end q ≤ first_page p)

-- The stack, from the end of the loop on.
pub stack_end_lem :
    (stack : ℕ)
    → stack % page_size ≡ 0
    → stack + 0x4000 < 2 ^ 32
    → paging_align_address ((stack + 0x4000) % 2 ^ 32) ≡ stack + 4 * page_size
unfolding paging_align_address
stack_end_lem stack s0 l =
    let whole : (stack + 0x4000) % 2 ^ 32 ≡ stack + 0x4000 = omega arith in
    rw whole (ground (arith, s0))

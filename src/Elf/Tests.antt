-- ===== src/Elf/Tests.antt =====
-- The theorem of the loader at a file with one segment.
use os_dev_mtk.Base.{
  none, some, [], pos, ne, ℕ, zero, suc, ◌<◌, ◌≡◌, refl, List, ◌∷◌, ◌++◌, arith, replicate,
}
use os_dev_mtk.Memory.{memcmp}
use os_dev_mtk.Elf.{
  ElfFile, elf_header, phdr_at, elf_program_header, elf_process_loaded, elf_validate_loaded,
  elf_valid_signature, elf_valid_class, elf_valid_encoding, elf_has_program_header,
  elf_process_pheaders, pheaders_loop, elf_process_pheader, elf_process_phdr_pt_load, store_base,
  store_end,
}
use os_dev_mtk.Text.{strlen, strnlen, strncmp, isdigit, atoic}
use os_dev_mtk.PathParser.{
  pparser_parse, get_drive_by_path, path_valid_format, parse_parts, pparser_get_path_part,
}
use os_dev_mtk.Fat16.Driver.{FileStat}
use os_dev_mtk.Files.{
  FileSystem, Descriptors, opening, max_descriptors, file_get_fd, fopen, fclose, fstat, fread,
  file_get_mode_by_str, open_with, file_new_descriptor, file_free_descriptor, free_slot,
}
use os_dev_mtk.Files.Sessions.{empty, Reachable-IsTable}
use os_dev_mtk.Elf.Load.{elf_load, load_opened, load_bytes, elf_load-descriptors}
use os_dev_mtk.Elf.Bounds.{segment, IsSegment, Covers, process_loaded-Covers}

-- 52 bytes of header, and one program header: 84 bytes at 0x400000.
abbrev program : List ℕ
program =
    0x7f ∷ b'E' ∷ b'L' ∷ b'F' ∷ 1 ∷ 1 ∷ replicate 10 0
    ++ (2 ∷ 0 ∷ 3 ∷ 0 ∷ 1 ∷ 0 ∷ 0 ∷ 0 ∷ 0 ∷ 0 ∷ 0x40 ∷ 0 ∷ 52 ∷ 0 ∷ 0 ∷ 0 ∷ replicate 8 0
        ++ (52 ∷ 0 ∷ 32 ∷ 0 ∷ 1 ∷ 0 ∷ replicate 6 0
            ++ (1 ∷ replicate 7 0
                ++ (0 ∷ 0 ∷ 0x40 ∷ 0 ∷ replicate 4 0
                    ++ (84 ∷ 0 ∷ 0 ∷ 0 ∷ 84 ∷ 0 ∷ 0 ∷ 0 ∷ 5 ∷ replicate 7 0)))))

abbrev new_file : ElfFile
new_file = record {
  elf_memory = 0x180_0000;
  virtual_base_addr = 0;
  virtual_end_addr = 0;
  physical_base_addr = 0;
  physical_end_addr = 0;
}

abbrev processed : ElfFile
processed = record {
  elf_memory = 0x180_0000;
  virtual_base_addr = 0x40_0000;
  virtual_end_addr = 0x40_0054;
  physical_base_addr = 0x180_0000;
  physical_end_addr = 0x180_0054;
}

one_segment : (k : ℕ) → k < (elf_header program).e_phnum → IsSegment (segment program k)
unfolding elf_header elf_program_header phdr_at
one_segment zero h = (omega arith, omega arith)
one_segment (suc k) h = absurd (omega arith)

process_loaded-Covers_example :
    ((segment program 0).p_type ≡ 1) × Covers processed (segment program 0)
unfolding elf_header elf_process_loaded elf_validate_loaded elf_valid_signature memcmp
    elf_valid_class elf_valid_encoding elf_has_program_header elf_process_pheaders pheaders_loop
    elf_process_pheader elf_process_phdr_pt_load store_base store_end elf_program_header phdr_at
process_loaded-Covers_example =
    process_loaded-Covers program new_file processed one_segment refl 0 (omega arith)

-- Every path is that program.
abbrev program_fs : FileSystem ℕ
program_fs = record {
  resolve = λ disk. some 0;
  open_file = λ part parts mode. some (opening 7);
  read_items = λ p size nmemb. some (record { res = pos 1; bytes = program });
  seek = λ p offset mode. (ne, offset);
  stat = λ p stat. (ne, record { flags = 0; file_size = 84 });
  close = λ p. ne;
}

abbrev no_files : Descriptors ℕ
no_files = replicate max_descriptors none

abbrev program_name : List ℕ
program_name = b'0' ∷ b':' ∷ b'/' ∷ b'a' ∷ 0 ∷ []

abbrev no_stat : FileStat
no_stat = record { flags = 0; file_size = 0 }

program_loads :
    elf_load no_files (some program_fs) program_name 0x170_0000 0x180_0000 no_stat
    ≡ some (ne, some (processed, program), no_files)
unfolding elf_load load_opened load_bytes fopen pparser_parse strlen get_drive_by_path
    path_valid_format strnlen isdigit memcmp atoic parse_parts pparser_get_path_part
    file_get_mode_by_str strncmp open_with file_new_descriptor free_slot fread fclose fstat
    file_get_fd file_free_descriptor elf_header elf_process_loaded elf_validate_loaded
    elf_valid_signature elf_valid_class elf_valid_encoding elf_has_program_header
    elf_process_pheaders pheaders_loop elf_process_pheader elf_process_phdr_pt_load store_base
    store_end elf_program_header phdr_at
program_loads = refl

elf_load-descriptors_example : no_files ≡ no_files
elf_load-descriptors_example =
    elf_load-descriptors no_files no_files program_fs program_name 0x170_0000 0x180_0000 no_stat ne
      (some (processed, program)) (Reachable-IsTable (some program_fs) no_files empty) (λ p. refl)
      (omega arith) program_loads

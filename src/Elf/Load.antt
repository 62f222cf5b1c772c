-- ===== src/Elf/Load.antt =====
-- `elf_load` and `elf_close` of src/kernel/loader/formats/elf_loader.c, over the files. What `kzalloc` returns for the
-- structure and for the memory of the file are arguments, 0 for NULL; the content of the variable that
-- `fstat` fills is one too. Without a block for the structure, `fclose` is called on a variable that
-- has no value: `none`.
use os_dev_mtk.Base.{
  ℕ, zero, suc, ◌-◌, ◌≡◌, ◌≢◌, ◌∙◌, sym, ap, false, Option, none, some, List, [], ◌∷◌, ◌++◌, arith,
  replicate, length, ◌==◌, if◌then◌else◌, ◌>>=◌, >>=-eq-some, ℤ, pos, is_neg, ne, eio, enomem, inl,
  inr,
}
use os_dev_mtk.Fat16.Driver.{FileStat}
use os_dev_mtk.Heap.Kernel.{KernelHeap, kfree}
use os_dev_mtk.Files.{FileSystem, Descriptors, file_get_fd, fopen, fstat, fread, fclose}
use os_dev_mtk.Files.Table.{IsTable}
use os_dev_mtk.Files.Calls.{fopen-Opens}
use os_dev_mtk.Files.Reopen.{fclose-fopen}
use os_dev_mtk.Elf.{ElfFile, elf_process_loaded}

-- The structure at the address `elf_file`.
unfoldable pub elf_close : KernelHeap → (elf_file : ℕ) → ElfFile → KernelHeap
elf_close k elf_file file = if elf_file == 0 then k else kfree (kfree k file.elf_memory) elf_file

abbrev pub read_mode : List ℕ
read_mode = b'r' ∷ 0 ∷ []

-- The structure after `kzalloc`, with the address of the file's memory.
abbrev pub new_elf_file : (elf_memory : ℕ) → ElfFile
new_elf_file elf_memory = record {
  elf_memory = elf_memory;
  virtual_base_addr = 0;
  virtual_end_addr = 0;
  physical_base_addr = 0;
  physical_end_addr = 0;
}

module _ {P : Type 0} where
  -- The part behind `fstat`: the result, and the file with the bytes in its memory, of which those that
  -- the file does not fill are 0.
  unfoldable pub load_bytes :
      Descriptors P → (fd elf_memory file_size : ℕ) → Option (ℤ × Option (ElfFile × List ℕ))
  load_bytes table fd elf_memory file_size =
      if elf_memory == 0
      then some (enomem, none)
      else fread table file_size 1 (pos fd) >>= λ got.
          if is_neg got.res
          then some (got.res, none)
          else let memory = got.bytes ++ replicate (file_size - length got.bytes) 0 in
            elf_process_loaded memory (new_elf_file elf_memory) >>= λ (res, file).
            some (res, if is_neg res then none else some (file, memory))

  -- The part between `fopen` and `fclose`.
  unfoldable pub load_opened :
      Descriptors P
      → (fd elf_memory : ℕ) → (stat : FileStat) → Option (ℤ × Option (ElfFile × List ℕ))
  load_opened table fd elf_memory stat =
      if fd == 0
      then some (eio, none)
      else let (res, stat') = fstat table (pos fd) stat in
        if is_neg res then some (res, none) else load_bytes table fd elf_memory stat'.file_size

  -- The result, `file_out` and the descriptors.
  unfoldable pub elf_load :
      Descriptors P
      → (filesystem : Option (FileSystem P)) → (filename : List ℕ) → (elf_file elf_memory : ℕ)
      → (stat : FileStat) → Option (ℤ × Option (ElfFile × List ℕ) × Descriptors P)
  elf_load table filesystem filename elf_file elf_memory stat =
      if elf_file == 0
      then none
      else fopen table filesystem filename read_mode >>= λ (fd, opened).
          load_opened opened fd elf_memory stat >>= λ (res, file_out).
          some (res, file_out, (fclose opened (pos fd)).1)

  abbrev descriptors_of :
      Descriptors P → Option (ℤ × Option (ElfFile × List ℕ) × Descriptors P) → Descriptors P
  descriptors_of table none = table
  descriptors_of table (some r) = r.2

  -- Closing what `fopen` has returned, an error included, gives back the table.
  closes :
      (table table' : Descriptors P) (fs : FileSystem P) (filename : List ℕ) (fd : ℕ)
      → IsTable table
      → ((p : P) → fs.close p ≡ ne)
      → fopen table (some fs) filename read_mode ≡ some (fd, table')
      → (fclose table' (pos fd)).1 ≡ table
  unfolding fclose file_get_fd
  closes table table' fs filename zero is well h =
      elim (fopen-Opens table (some fs) filename read_mode zero table' h) [
        | inl (_, same) ↦ same
        | inr added ↦ absurd (omega (arith, added.number))
      ]
  closes table table' fs filename (suc n) is well h =
      ap (λ r. r.1) (fclose-fopen table table' fs filename read_mode n is well h)

  -- When it has a block for its structure, `elf_load` leaves the table of descriptors as it was on every
  -- path, whether the file is loaded, missing, unreadable or no ELF file: in a table whose descriptors
  -- have their places as numbers, and on a file system whose `close` returns 0.
  pub elf_load-descriptors :
      (table table' : Descriptors P) (fs : FileSystem P) (filename : List ℕ)
      (elf_file elf_memory : ℕ) (stat : FileStat) (res : ℤ) (file_out : Option (ElfFile × List ℕ))
      → IsTable table
      → ((p : P) → fs.close p ≡ ne)
      → elf_file ≢ 0
      → elf_load table (some fs) filename elf_file elf_memory stat ≡ some (res, file_out, table')
      → table' ≡ table
  unfolding elf_load
  elf_load-descriptors table table' fs filename elf_file elf_memory stat res file_out is well block
        h =
      let real : (elf_file == 0) ≡ false = ground (arith, block) in
      let h0 = rw (elf_load, real) at h in
      let (opened, eq, h1) = >>=-eq-some (fopen table (some fs) filename read_mode) _ h0 in
      let (loaded, _, h2) = >>=-eq-some (load_opened opened.1 opened.0 elf_memory stat) _ h1 in
      let same : (fclose opened.1 (pos opened.0)).1 ≡ table' = ap (descriptors_of table) h2 in
      sym same ∙ closes table opened.1 fs filename opened.0 is well eq

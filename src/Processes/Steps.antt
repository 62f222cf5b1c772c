-- ===== src/Processes/Steps.antt =====
-- The steps of the loading of a process return unless an operation that they use does not.
use os_dev_mtk.Base.{
  ℕ, suc, zero, ◌+◌, ◌≡◌, refl, ◌∙◌, Bool, true, false, not, List, ◌==◌, if◌then◌else◌, ℤ, is_neg,
  ne, ◌⊎◌, inl, inr, Bool-cases,
}
use os_dev_mtk.Base.Run.{Run, ok, fault, panic, Run-cases, ◌>>=◌}
use os_dev_mtk.Elf.{ElfFile, elf_header, elf_program_header}
use os_dev_mtk.Processes.{Process}
use os_dev_mtk.Processes.Loading.{
  Loader, is_ne, is_one, is_einvformat, binary_sized, binary_opened, process_load_binary,
  process_load_elf, process_load_data, process_map_memory, map_program, map_phdr, phdrs_loop,
  process_map_elf, process_map_binary, free_failed,
}

-- A call that does not return.
abbrev pub Stops {ℓ} : {A : Type ℓ} → Run A → Type ℓ
Stops m = (m ≡ fault) ⊎ (m ≡ panic)

-- A call of one of the operations does not return.
pub data Breaks {S : Type 0} (loader : Loader S) : Type 0 where
  kzalloc_breaks : (st : S) (size : ℕ) → Stops (loader.kzalloc st size) → Breaks loader
  fopen_breaks : (st : S) (filename : List ℕ) → Stops (loader.fopen st filename) → Breaks loader
  fread_breaks : (st : S) (ptr size fd : ℕ) → Stops (loader.fread st ptr size fd) → Breaks loader
  elf_load_breaks :
      (st : S) (filename : List ℕ) → Stops (loader.elf_load st filename) → Breaks loader
  task_new_breaks :
      (st : S) (process : ℕ) (p : Process) → Stops (loader.task_new st process p) → Breaks loader
  task_free_breaks : (st : S) (task : ℕ) → Stops (loader.task_free st task) → Breaks loader

-- 0 or an error.
abbrev pub IsResult : ℤ → Type 0
IsResult res = (is_neg res ≡ true) ⊎ (res ≡ ne)

-- `paging_map_to` gives 0 or an error.
abbrev pub MapsOrFails : {S : Type 0} → Loader S → Type 0
MapsOrFails {S = S} loader =
    (st : S) (task v_addr p_addr p_addr_end flags : ℕ)
    → IsResult (loader.paging_map_to st task v_addr p_addr p_addr_end flags).0

module _ {S : Type 0} (loader : Loader S) (maps : MapsOrFails loader) where
  -- A run that ends, unless an operation does not return.
  abbrev pub Settles : {A : Type 0} → Run A → Type 0
  Settles {A = A} m = ((a : A) × (m ≡ ok a)) ⊎ Breaks loader

  pub settles : {A : Type 0} (m : Run A) → (Stops m → Breaks loader) → Settles m
  settles m breaks = elim (Run-cases m) [
    | inl faults ↦ inr (breaks (inl faults))
    | inr (inl panics) ↦ inr (breaks (inr panics))
    | inr (inr (a, e)) ↦ inl (a, e)
  ]

  then-Settles :
      {A B : Type 0} (m : Run A) (f : A → Run B)
      → Settles m
      → ((a : A) → Settles (f a))
      → Settles (m >>= f)
  then-Settles m f (inl (a, e)) next = rw e (next a)
  then-Settles m f (inr b) next = inr b

  pub free_failed-Settles :
      (st : S) (process : ℕ) (p : Process) → Settles (free_failed loader st process p)
  unfolding free_failed
  free_failed-Settles st process p =
      then-Settles (if p.task == 0 then ok st else loader.task_free st p.task) _
        (elim (Bool-cases (p.task == 0)) [
          | inl unset ↦ inl (st, rw unset refl)
          | inr made ↦ rw made (settles (loader.task_free st p.task) (task_free_breaks st p.task))
        ])
        (λ st1. inl (_, refl))

  -- A step of the loading of the data returns, and keeps the name.
  abbrev pub LoadsData : Process → Run (ℤ × Process × S) → Type 0
  LoadsData p m = ((r : ℤ × Process × S) × (m ≡ ok r) × (r.1.filename ≡ p.filename)) ⊎ Breaks loader

  then-LoadsData :
      {A : Type 0} (p : Process) (m : Run A) (f : A → Run (ℤ × Process × S))
      → Settles m
      → ((a : A) → LoadsData p (f a))
      → LoadsData p (m >>= f)
  then-LoadsData p m f (inl (a, e)) next = rw e (next a)
  then-LoadsData p m f (inr b) next = inr b

  and-LoadsData :
      (p : Process) (m : Run (ℤ × Process × S)) (f : ℤ × Process × S → Run (ℤ × Process × S))
      → LoadsData p m
      → ((r : ℤ × Process × S) → r.1.filename ≡ p.filename → LoadsData p (f r))
      → LoadsData p (m >>= f)
  and-LoadsData p m f (inl (a, e, kept)) next = rw e (next a kept)
  and-LoadsData p m f (inr b) next = inr b

  if-LoadsData :
      (p : Process) (b : Bool) (m n : Run (ℤ × Process × S))
      → LoadsData p m
      → LoadsData p n
      → LoadsData p (if b then m else n)
  if-LoadsData p true m n h h' = h
  if-LoadsData p false m n h h' = h'

  sized-LoadsData :
      (st : S) (p : Process) (fd file_size : ℕ)
      → LoadsData p (binary_sized loader st p fd file_size)
  unfolding binary_sized
  sized-LoadsData st p fd file_size =
      then-LoadsData p (loader.kzalloc st file_size) _
        (settles (loader.kzalloc st file_size) (kzalloc_breaks st file_size))
        (λ (ptr, st1). if-LoadsData p (ptr == 0) _ _ (inl (_, refl, refl)) (
          then-LoadsData p (loader.fread st1 ptr file_size fd) _
            (settles (loader.fread st1 ptr file_size fd) (fread_breaks st1 ptr file_size fd))
            (λ (res, st2).
              if-LoadsData p (not (is_one res)) _ _ (inl (_, refl, refl)) (inl (_, refl, refl)))))

  opened-LoadsData : (st : S) (p : Process) (fd : ℕ) → LoadsData p (binary_opened loader st p fd)
  unfolding binary_opened
  opened-LoadsData st p fd = if-LoadsData p (fd == 0) _ _ (inl (_, refl, refl)) (
      if-LoadsData p (not (is_ne (loader.fstat st fd).0)) _ _ (inl (_, refl, refl))
        (sized-LoadsData st p fd (loader.fstat st fd).1))

  binary-LoadsData :
      (st : S) (filename : List ℕ) (p : Process)
      → LoadsData p (process_load_binary loader st filename p)
  unfolding process_load_binary
  binary-LoadsData st filename p =
      then-LoadsData p (loader.fopen st filename) _
        (settles (loader.fopen st filename) (fopen_breaks st filename))
        (λ (fd, st1).
          and-LoadsData p (binary_opened loader st1 p fd) _ (opened-LoadsData st1 p fd)
            (λ r kept. inl (_, refl, kept)))

  elf-LoadsData :
      (st : S) (filename : List ℕ) (p : Process)
      → LoadsData p (process_load_elf loader st filename p)
  unfolding process_load_elf
  elf-LoadsData st filename p =
      then-LoadsData p (loader.elf_load st filename) _
        (settles (loader.elf_load st filename) (elf_load_breaks st filename))
        (λ (res, elf_file, st1).
          if-LoadsData p (is_neg res) _ _ (inl (_, refl, refl)) (inl (_, refl, refl)))

  pub data-LoadsData :
      (st : S) (filename : List ℕ) (p : Process)
      → LoadsData p (process_load_data loader st filename p)
  unfolding process_load_data
  data-LoadsData st filename p =
      and-LoadsData p (process_load_elf loader st filename p) _ (elf-LoadsData st filename p)
        (λ (res, p', st1) kept.
          if-LoadsData p (is_einvformat res) _ _
            (elim (binary-LoadsData st1 filename p') [
              | inl (r, e, kept') ↦ inl (r, e, kept' ∙ kept)
              | inr b ↦ inr b
            ])
            (inl (_, refl, kept)))

  -- The mapping gives 0 or an error.
  phdrs-IsResult :
      (n : ℕ) (st : S) (task : ℕ) (elf_file : ElfFile) (memory : List ℕ) (i : ℕ) (res : ℤ)
      → IsResult res
      → IsResult (phdrs_loop loader st task elf_file memory n i res).0
  unfolding phdrs_loop
  phdrs-IsResult zero st task elf_file memory i res h = h
  phdrs-IsResult (suc n) st task elf_file memory i res h =
      let phdr = elf_program_header memory (elf_header memory) i in
      let one : IsResult (map_phdr loader st task elf_file phdr).0 = maps st task _ _ _ _ in
      let rest =
        phdrs-IsResult n (map_phdr loader st task elf_file phdr).1 task elf_file memory (i + 1)
          (map_phdr loader st task elf_file phdr).0 one in
      elim (Bool-cases (is_neg (map_phdr loader st task elf_file phdr).0)) [
        | inl neg ↦ rw neg one
        | inr fine ↦ rw fine rest
      ]

  program-IsResult : (st : S) (p : Process) → IsResult (map_program loader st p).0
  unfolding map_program process_map_elf process_map_binary
  program-IsResult st p = elim (Bool-cases (p.filetype == 0)) [
    | inl elf ↦ rw elf (phdrs-IsResult _ st p.task _ _ 0 ne (inr refl))
    | inr other ↦ elim (Bool-cases (p.filetype == 1)) [
      | inl binary ↦ rw (other, binary) (inr refl)
      | inr unknown ↦ rw (other, unknown) (inl refl)
    ]
  ]

  pub memory-IsResult : (st : S) (p : Process) → IsResult (process_map_memory loader st p).0
  unfolding process_map_memory
  memory-IsResult st p = elim (Bool-cases (is_neg (map_program loader st p).0)) [
    | inl neg ↦ rw neg (program-IsResult st p)
    | inr fine ↦ rw fine (program-IsResult st p)
  ]

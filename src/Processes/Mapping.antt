-- ===== src/Processes/Mapping.antt =====
-- The memory that a program sees: what the pages of a new process are mapped to.
use os_dev_mtk.Base.{
  ℕ, zero, suc, ◌+◌, ◌-◌, ◌*◌, ◌/◌, ◌%◌, ◌^◌, ◌<◌, ◌≤◌, ◌≡◌, refl, ◌∙◌, sym, ap, List, arith, ◌==◌,
  bit_and, ℤ, ne, ◌⊎◌, inl, inr, Bool-cases,
}
use os_dev_mtk.Paging.{
  Words, page_size, paging_map_to, paging_align_address, paging_align_to_lower_page_addr,
  paging_get_physical_address,
}
use os_dev_mtk.Paging.Map.{Layout, IsDirectory}
use os_dev_mtk.Paging.Range.{Maps, paging_map_to-Maps}
use os_dev_mtk.Elf.{ElfFile, ElfPhdr, elf_header}
use os_dev_mtk.Processes.{Process}
use os_dev_mtk.Processes.Segments.{
  pages_of, header_at, physical, IsPlaced, first_page, pages_end, AreApart, align_end,
  stack_end_lem,
}
use os_dev_mtk.Processes.Loading.{
  Loader, phdr_flags, map_phdr, phdrs_loop, process_map_elf, map_program, process_map_memory,
}

module _ {S : Type 0} (loader : Loader S) (words : S → Words) (task directory : ℕ) (tables : ℕ → ℕ)
    (layout : Layout directory tables) (flags : ℕ) (small : flags < page_size)
    (present : flags % 2 ≡ 1)
    (maps_task : (st : S) (v p e f : ℕ)
      → let r = loader.paging_map_to st task v p e f in
        let r' = paging_map_to (words st) (record { d_entry = directory }) v p e f in
        (r.0 ≡ r'.0) × (words r.1 ≡ r'.1)) where
  abbrev pub Mapped : S → S → (v p n : ℕ) → Type 0
  Mapped st st' v p n =
      Maps directory tables layout flags small present (words st) (words st') v p n

  abbrev pub Has : S → Type 0
  Has st = IsDirectory (words st) directory tables flags

  abbrev pub seen : S → (a : ℕ) → ℕ
  seen st a = paging_get_physical_address (words st) directory a

  map_lem :
      (st : S) (v p n f : ℕ)
      → Has st
      → v % page_size ≡ 0
      → p % page_size ≡ 0
      → v + n * page_size < 2 ^ 32
      → p + n * page_size < 2 ^ 32
      → f < page_size
      → ((loader.paging_map_to st task v p (p + n * page_size) f).0 ≡ ne)
        × Mapped st (loader.paging_map_to st task v p (p + n * page_size) f).1 v p n
  map_lem st v p n f is v0 p0 lv lp fl =
      let (same, same') = maps_task st v p (p + n * page_size) f in
      let (mem', e, maps) =
        paging_map_to-Maps directory tables layout flags small present (words st) v p n f is v0 p0
          lv lp fl in
      let now : words (loader.paging_map_to st task v p (p + n * page_size) f).1 ≡ mem' =
        same' ∙ ap (λ r. r.1) e in
      (same ∙ ap (λ r. r.0) e, rw now maps)

  module _ (file : ElfFile) (memory : List ℕ) where
    abbrev IsMapped : S → S → ElfPhdr → Type 0
    IsMapped st st' phdr =
        Mapped st st' (first_page phdr) (physical file phdr - physical file phdr % page_size)
          (pages_of phdr.p_vaddr phdr.p_memsz)

    segment_lem :
        (st : S) (phdr : ElfPhdr)
        → Has st
        → IsPlaced file phdr
        → ((map_phdr loader st task file phdr).0 ≡ ne)
          × IsMapped st (map_phdr loader st task file phdr).1 phdr
    unfolding paging_align_to_lower_page_addr
    segment_lem st phdr is (same, lv, lp) =
        let n : ℕ = pages_of phdr.p_vaddr phdr.p_memsz in
        let count : pages_of (physical file phdr) phdr.p_memsz ≡ n =
          ap (λ (o : ℕ). (o + phdr.p_memsz + (page_size - 1)) / page_size) (sym same) in
        let end = align_end (physical file phdr) phdr.p_memsz lp in
        let small_flags : phdr_flags loader phdr < page_size =
          elim (Bool-cases (bit_and phdr.p_flags 2 == 0)) [
            | inl read ↦ rw read (omega arith)
            | inr written ↦ rw written (omega arith)
          ] in
        rw (map_phdr, end, count)
          (map_lem st (first_page phdr) (physical file phdr - physical file phdr % page_size) n
            (phdr_flags loader phdr) is (omega arith) (omega arith) (omega (arith, lv))
            (omega (arith, lp, same)) small_flags)

    loop_step :
        (st : S) (n i : ℕ) (res : ℤ)
        → (map_phdr loader st task file (header_at memory i)).0 ≡ ne
        → phdrs_loop loader st task file memory (suc n) i res
          ≡ phdrs_loop loader
              (map_phdr loader st task file (header_at memory i)).1
              task
              file
              memory
              n
              (i + 1)
              ne
    unfolding phdrs_loop
    loop_step st n i res e = rw (phdrs_loop, e) refl

    -- Each segment of the headers from `i` on is seen at its address, and what is on none of their pages
    -- as before.
    pub record Shows (st st' : S) (n i : ℕ) : Type 0 where
      pub directory_kept : Has st'
      pub segments :
          (k j : ℕ)
          → i ≤ k
          → k < i + n
          → j < (header_at memory k).p_memsz
          → seen st' ((header_at memory k).p_vaddr + j) ≡ physical file (header_at memory k) + j
      pub others :
          (a : ℕ)
          → a < 2 ^ 32
          → ((k : ℕ)
              → i ≤ k
              → k < i + n
              → (a < first_page (header_at memory k)) ⊎ (pages_end (header_at memory k) ≤ a))
          → seen st' a ≡ seen st a

    -- The first segment stays as it was mapped.
    first-shown :
        (st st1 st' : S) (n i j : ℕ)
        → IsPlaced file (header_at memory i)
        → IsMapped st st1 (header_at memory i)
        → ((l : ℕ) → i < l → l < i + suc n → AreApart (header_at memory i) (header_at memory l))
        → Shows st1 st' n (i + 1)
        → j < (header_at memory i).p_memsz
        → seen st' ((header_at memory i).p_vaddr + j) ≡ physical file (header_at memory i) + j
    first-shown st st1 st' n i j (same, lv, lp) maps apart rest h =
        let a : ℕ = (header_at memory i).p_vaddr + j in
        let from : first_page (header_at memory i) ≤ a = omega arith in
        let to : a < pages_end (header_at memory i) = omega (arith, h) in
        rest.others a (omega (arith, h, lv)) (λ l after until.
          elim (apart l (omega (arith, after)) (omega (arith, until))) [
            | inl before ↦ inl (omega (arith, to, before))
            | inr behind ↦ inr (omega (arith, from, behind))
          ])
        ∙ maps.inside a from to
        ∙ omega (arith, same)

    Shows-suc :
        (st st1 st' : S) (n i : ℕ)
        → IsPlaced file (header_at memory i)
        → IsMapped st st1 (header_at memory i)
        → ((l : ℕ) → i < l → l < i + suc n → AreApart (header_at memory i) (header_at memory l))
        → Shows st1 st' n (i + 1)
        → Shows st st' (suc n) i
    Shows-suc st st1 st' n i (same, lv, lp) maps apart rest = record {
      directory_kept = rest.directory_kept;
      segments = λ k j from to inside. elim (Bool-cases (k == i)) [
        | inl here ↦
            let e : k ≡ i = ground (arith, here) in
            rw e (first-shown st st1 st' n i j (same, lv, lp) maps apart rest (rw e at inside))
        | inr later ↦ rest.segments k j (ground (arith, later, from)) (omega (arith, to)) inside
      ];
      others = λ a l outside.
          rest.others a l (λ k from to. outside k (omega (arith, from)) (omega (arith, to)))
          ∙ maps.outside a l (outside i (omega arith) (omega arith));
    }

    loop-Shows :
        (n : ℕ) (st : S) (i : ℕ)
        → Has st
        → ((k : ℕ) → i ≤ k → k < i + n → IsPlaced file (header_at memory k))
        → ((k l : ℕ)
            → i ≤ k
            → k < l
            → l < i + n
            → AreApart (header_at memory k) (header_at memory l))
        → (st' : S) × (phdrs_loop loader st task file memory n i ne ≡ (ne, st')) × Shows st st' n i
    unfolding phdrs_loop
    loop-Shows zero st i is placed apart = (
      st,
      refl,
      record {
        directory_kept = is;
        segments = λ k j from to inside. absurd (omega (arith, from, to));
        others = λ a l outside. refl;
      },
    )
    loop-Shows (suc n) st i is placed apart =
        let here : IsPlaced file (header_at memory i) = placed i (omega arith) (omega arith) in
        let (fine, maps) = segment_lem st (header_at memory i) is here in
        let st1 : S = (map_phdr loader st task file (header_at memory i)).1 in
        let (st', e, rest) =
          loop-Shows n st1 (i + 1) maps.directory_kept
            (λ k from to. placed k (omega (arith, from)) (omega (arith, to)))
            (λ k l from order to. apart k l (omega (arith, from)) order (omega (arith, to))) in
        (
          st',
          loop_step st n i ne fine ∙ e,
          Shows-suc st st1 st' n i here maps
              (λ l order to. apart i l (omega arith) order (omega (arith, to))) rest,
        )

    memory_step :
        (st st1 : S) (p : Process)
        → p.filetype ≡ 0
        → p.task ≡ task
        → loader.elf_file st p.ptr ≡ (file, memory)
        → phdrs_loop loader st task file memory (elf_header memory).e_phnum 0 ne ≡ (ne, st1)
        → process_map_memory loader st p ≡ (
          ne,
          (loader.paging_map_to st1 task 0x3f_b000 p.stack
              (paging_align_address ((p.stack + 0x4000) % 2 ^ 32))
              7).1,
        )
    unfolding process_map_memory map_program process_map_elf
    memory_step st st1 p elf own loaded run = rw (elf, loaded, own, run) refl

    -- The memory of a process whose program is an ELF file, and whose stack begins at a page. Its task has
    -- a page directory with all of its tables, and the mapping of pages for the task is that of Paging
    -- on this directory. Each segment's bytes in the loaded file stand at the same offset in a page as its
    -- address, no two segments share a page, none has a page of the stack, and all of it is within 32
    -- bits. Then `process_map_memory` returns 0, and in the page directory each byte of a segment's
    -- memory is at its address, and the 16 KiB below 0x3ff000 are the stack of the process.
    pub map_memory-Shows :
        (st : S) (p : Process)
        → p.filetype ≡ 0
        → p.task ≡ task
        → loader.elf_file st p.ptr ≡ (file, memory)
        → Has st
        → ((k : ℕ) → k < (elf_header memory).e_phnum → IsPlaced file (header_at memory k))
        → ((k l : ℕ)
            → k < l
            → l < (elf_header memory).e_phnum
            → AreApart (header_at memory k) (header_at memory l))
        → ((k : ℕ)
            → k < (elf_header memory).e_phnum
            → (pages_end (header_at memory k) ≤ 0x3f_b000)
              ⊎ (0x3f_f000 ≤ first_page (header_at memory k)))
        → p.stack % page_size ≡ 0
        → p.stack + 0x4000 < 2 ^ 32
        → (st' : S) × (process_map_memory loader st p ≡ (ne, st'))
          × ((k j : ℕ)
              → k < (elf_header memory).e_phnum
              → j < (header_at memory k).p_memsz
              → seen st' ((header_at memory k).p_vaddr + j)
                ≡ physical file (header_at memory k) + j)
          × ((j : ℕ) → j < 0x4000 → seen st' (0x3f_b000 + j) ≡ p.stack + j)
    map_memory-Shows st p elf own loaded is placed apart clear s0 sl =
        let n : ℕ = (elf_header memory).e_phnum in
        let (st1, run, shows) =
          loop-Shows n st 0 is (λ k _ to. placed k (omega (arith, to)))
            (λ k l _ order to. apart k l order (omega (arith, to))) in
        let end = stack_end_lem p.stack s0 sl in
        let (_, maps) =
          map_lem st1 0x3f_b000 p.stack 4 7 shows.directory_kept refl s0 (omega arith)
            (omega (arith, sl)) (omega arith) in
        (
          (loader.paging_map_to st1 task 0x3f_b000 p.stack (p.stack + 4 * page_size) 7).1,
          memory_step st st1 p elf own loaded run ∙ rw end refl,
          (λ k j to inside.
              let (same, lv, lp) = placed k to in
              maps.outside ((header_at memory k).p_vaddr + j) (omega (arith, inside, lv))
                (elim (clear k to) [
                  | inl below ↦ inl (omega (arith, below, inside))
                  | inr above ↦ inr (omega (arith, above))
                ])
              ∙ shows.segments k j (omega arith) (omega (arith, to)) inside),
          λ j inside.
              maps.inside (0x3f_b000 + j) (omega arith) (omega (arith, inside)) ∙ omega arith,
        )

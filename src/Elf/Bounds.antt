-- ===== src/Elf/Bounds.antt =====
-- The addresses that `elf_process_loaded` stores cover the segments of the file.
use os_dev_mtk.Base.{
  ℕ, zero, suc, ◌+◌, ◌^◌, ◌<◌, ◌≤◌, ◌≡◌, refl, ◌∙◌, sym, ap, ◌⊎◌, inl, inr, true, false, some, List,
  arith, ◌==◌, Bool-cases, >>=-eq-some, is_neg, ne, eio,
}
use os_dev_mtk.Elf.{
  ElfFile, ElfPhdr, elf_header, elf_program_header, store_base, store_end, elf_process_phdr_pt_load,
  elf_process_pheader, pheaders_loop, elf_process_pheaders, elf_process_loaded, elf_validate_loaded,
}

abbrev pub segment : List ℕ → ℕ → ElfPhdr
segment memory i = elf_program_header memory (elf_header memory) i

-- A segment that lies in memory, and not at address 0.
abbrev pub IsSegment : ElfPhdr → Type 0
IsSegment phdr = (0 < phdr.p_vaddr) × (phdr.p_vaddr + phdr.p_filesz < 2 ^ 32)

-- The addresses stored are around a segment.
abbrev pub Covers : ElfFile → ElfPhdr → Type 0
Covers file phdr =
    (0 < file.virtual_base_addr)
    × (file.virtual_base_addr ≤ phdr.p_vaddr)
    × (phdr.p_vaddr + phdr.p_filesz ≤ file.virtual_end_addr)

load-Covers :
    (file : ElfFile) (phdr : ElfPhdr)
    → IsSegment phdr
    → Covers (elf_process_phdr_pt_load file phdr).1 phdr
unfolding elf_process_phdr_pt_load store_base store_end
load-Covers file phdr s = ground arith

load-kept :
    (file : ElfFile) (phdr old : ElfPhdr)
    → IsSegment phdr
    → Covers file old
    → Covers (elf_process_phdr_pt_load file phdr).1 old
unfolding elf_process_phdr_pt_load store_base store_end
load-kept file phdr old s c = ground arith

-- One header: it is loaded, or the result is an error.
pheader-cases :
    (file : ElfFile) (phdr : ElfPhdr)
    → ((phdr.p_type ≡ 1) × (elf_process_pheader file phdr ≡ elf_process_phdr_pt_load file phdr))
      ⊎ (elf_process_pheader file phdr ≡ (eio, file))
unfolding elf_process_pheader
pheader-cases file phdr = elim (Bool-cases (phdr.p_type == 1)) [
  | inl load ↦ inl (ground arith, rw load refl)
  | inr other ↦ inr (rw other refl)
]

loaded-ne : (file : ElfFile) (phdr : ElfPhdr) → (elf_process_phdr_pt_load file phdr).0 ≡ ne
unfolding elf_process_phdr_pt_load
loaded-ne file phdr = refl

module _ (memory : List ℕ) where
  -- What the loop covered stays covered.
  loop-kept :
      (n i : ℕ) (file file' : ElfFile) (old : ElfPhdr)
      → ((k : ℕ) → i ≤ k → k < i + n → IsSegment (segment memory k))
      → Covers file old
      → pheaders_loop memory n i file ne ≡ (ne, file')
      → Covers file' old
  unfolding pheaders_loop
  loop-kept zero i file file' old s c h = let e : file ≡ file' = ground arith in rw (sym e) c
  loop-kept (suc n) i file file' old s c h = elim (pheader-cases file (segment memory i)) [
    | inr e ↦ let h' = rw e at h in absurd (ground arith)
    | inl (_, e) ↦
        let h' = rw (e, loaded-ne file (segment memory i)) at h in
        loop-kept n (i + 1) _ file' old (λ k from to. s k (omega arith) (omega arith))
          (load-kept file (segment memory i) old (s i (omega arith) (omega arith)) c) h'
  ]

  loop-Covers :
      (n i : ℕ) (file file' : ElfFile)
      → ((k : ℕ) → i ≤ k → k < i + n → IsSegment (segment memory k))
      → pheaders_loop memory n i file ne ≡ (ne, file')
      → (k : ℕ) → i ≤ k
      → k < i + n
      → ((segment memory k).p_type ≡ 1) × Covers file' (segment memory k)
  unfolding pheaders_loop
  loop-Covers zero i file file' s h k from to = absurd (omega arith)
  loop-Covers (suc n) i file file' s h k from to = elim (pheader-cases file (segment memory i)) [
    | inr e ↦ let h' = rw e at h in absurd (ground arith)
    | inl (load, e) ↦
        let h' = rw (e, loaded-ne file (segment memory i)) at h in
        let rest : (j : ℕ) → i + 1 ≤ j → j < i + 1 + n → IsSegment (segment memory j) =
          λ j f t. s j (omega arith) (omega arith) in
        elim (Bool-cases (k == i)) [
          | inr later ↦ loop-Covers n (i + 1) _ file' rest h' k (ground arith) (omega arith)
          | inl same ↦
              let here : k ≡ i = ground arith in
              rw here (
                load,
                loop-kept n (i + 1) _ file' (segment memory i) rest
                    (load-Covers file (segment memory i) (s i (omega arith) (omega arith))) h',
              )
        ]
  ]

  -- When a file is accepted, each of its program headers is a segment to load, and the addresses
  -- stored begin at or below the address of every segment and end at or above the end of its bytes in
  -- the file; memory that a segment has behind these bytes is not counted. The segments are taken to
  -- lie in memory, and not at address 0.
  pub process_loaded-Covers :
      (file file' : ElfFile)
      → ((k : ℕ) → k < (elf_header memory).e_phnum → IsSegment (segment memory k))
      → elf_process_loaded memory file ≡ some (ne, file')
      → (k : ℕ) → k < (elf_header memory).e_phnum
      → ((segment memory k).p_type ≡ 1) × Covers file' (segment memory k)
  unfolding elf_process_loaded elf_process_pheaders
  process_loaded-Covers file file' s h k l =
      let (res, _, h') = >>=-eq-some (elf_validate_loaded memory) _ h in
      elim (Bool-cases (is_neg res)) [
        | inl bad ↦
            let h'' = rw bad at h' in
            let accepted : res ≡ ne = ground arith in
            let never : false ≡ true = ap is_neg (sym accepted) ∙ bad in absurd cc
        | inr good ↦
            let h'' = rw good at h' in
            loop-Covers (elf_header memory).e_phnum 0 file file' (λ j f t. s j (omega arith))
              (ground arith) k (omega arith) (omega arith)
      ]

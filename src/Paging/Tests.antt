-- ===== src/Paging/Tests.antt =====
-- The theorems of paging at tables on the pages behind the directory.
use os_dev_mtk.Base.{ℕ, ◌+◌, ◌*◌, ◌/◌, ◌-◌, ◌^◌, ◌<◌, ◌≡◌, refl, ap, arith, ne, bit_or}
use os_dev_mtk.Base.Run.{ok}
use os_dev_mtk.Paging.{
  Words, page_size, is_writable, gen_paging_4gb, paging_map_to, paging_get_physical_address,
}
use os_dev_mtk.Paging.Map.{Layout, IsDirectory}
use os_dev_mtk.Paging.Range.{Maps, paging_map_to-Maps}
use os_dev_mtk.Paging.Identity.{gen_paging-identity}

abbrev directory : ℕ
directory = 0x100_0000

abbrev tables : ℕ → ℕ
tables d = 0x100_1000 + d * page_size

layout : Layout directory tables
layout = record {
  aligned = λ d h. omega arith;
  in_memory = λ d h. omega arith;
  apart = λ d e t hd he ht eq. omega arith;
  distinct = λ d e t u hd he ht hu other eq. other (omega arith);
}

gen_paging-identity_example :
    (mem' : Words) × (gen_paging_4gb (λ _. 0) directory tables 0x200_0000 7
      ≡ ok (mem', record { d_entry = directory }))
    × IsDirectory mem' directory tables (bit_or 7 is_writable)
    × ((v : ℕ) → v < 2 ^ 32 → paging_get_physical_address mem' directory v ≡ v)
    × (mem' 0x200_0000 ≡ directory)
gen_paging-identity_example =
    gen_paging-identity directory tables layout 7 (λ _. 0) 0x200_0000 (omega arith) (omega arith)
      (omega arith) refl ((λ d h e. omega (arith, h, e)), λ d t h h' e. omega (arith, h, h', e))

abbrev memory : Words
memory x = bit_or (tables ((x - directory) / 4)) 7

memory-IsDirectory : IsDirectory memory directory tables 7
memory-IsDirectory d h =
    let entry : (directory + 4 * d - directory) / 4 ≡ d = omega arith in
    ap (λ (k : ℕ). bit_or (tables k) 7) entry

-- Three pages of a program at 0x400000, in the memory from 0x2000000 on.
paging_map_to-Maps_example :
    (mem' : Words) × (paging_map_to memory
        (record { d_entry = directory })
        0x40_0000
        0x200_0000
        0x200_3000
        7
      ≡ (ne, mem'))
    × Maps directory tables layout 7 (omega arith) refl memory mem' 0x40_0000 0x200_0000 3
paging_map_to-Maps_example =
    paging_map_to-Maps directory tables layout 7 (omega arith) refl memory 0x40_0000 0x200_0000 3 7
      memory-IsDirectory refl refl (omega arith) (omega arith) (omega arith)

-- ===== src/UserMemory/Sample.antt =====
-- A small machine: the pages are mapped to themselves, a string of two characters stands in the memory of
-- a program, its address on the program's stack, and the first of the four blocks of the heap is free.
use os_dev_mtk.Base.{
  ℕ, ◌+◌, ◌*◌, ◌/◌, ◌-◌, ◌≡◌, refl, List, [], ◌∷◌, arith, bit_or, ltb, ◌==◌, true, if◌then◌else◌,
}
use os_dev_mtk.Memory.{Memory}
use os_dev_mtk.Heap.{Heap}
use os_dev_mtk.Paging.{Words, page_size}
use os_dev_mtk.Paging.Map.{Layout, IsDirectory}
use os_dev_mtk.UserMemory.{Machine}

abbrev pub directory : ℕ
directory = 0x200_0000

abbrev pub tables : ℕ → ℕ
tables d = 0x200_1000 + d * page_size

pub layout : Layout directory tables
layout = record {
  aligned = λ d h. omega arith;
  in_memory = λ d h. omega arith;
  apart = λ d e t hd he ht eq. omega arith;
  distinct = λ d e t u hd he ht hu other eq. other (omega arith);
}

abbrev pub words : Words
words x =
    if ltb x 0x200_1000
    then bit_or (tables ((x - directory) / 4)) 7
    else bit_or ((x - 0x200_1000) / 4 * page_size) 7

pub words-IsDirectory : IsDirectory words directory tables 7
words-IsDirectory d h =
    let entry : (directory + 4 * d - directory) / 4 ≡ d = omega arith in
    let low : ltb (directory + 4 * d) 0x200_1000 ≡ true = ground (arith, h) in rw (low, entry) refl

abbrev pub bytes : Memory
bytes a =
    if a == 0x40_0000
    then b'h'
    else if a == 0x40_0001
    then b'i'
    else if a == 0x30_0002
    then 0x40
    else 0

abbrev pub heap : Heap
heap = record {
  table = record { entries = 0 ∷ 0xc1 ∷ 0x01 ∷ 0 ∷ []; total_entries = 4 };
  base_addr = 0x01000000;
}

abbrev pub machine : Machine
machine = record { kheap = record { heap = heap; memory = bytes }; words = words }

abbrev pub text : List ℕ
text = b'h' ∷ b'i' ∷ []

-- ===== src/UserMemory/Tests.antt =====
-- A string of two characters in the memory of a program, whose pages are mapped to themselves.
use os_dev_mtk.Base.{ℕ, ◌+◌, ◌≡◌, refl, some, arith, ne, inl, take}
use os_dev_mtk.Memory.{memset, store}
use os_dev_mtk.Heap.{
  heap_align_size, heap_alloc, heap_alloc_blocks, heap_get_start_block, heap_block_to_address,
  heap_mark_blocks_as_taken, heap_get_entry_type,
}
use os_dev_mtk.Heap.Blocks.{chunk}
use os_dev_mtk.Heap.Alloc.{allocated}
use os_dev_mtk.Heap.Kernel.{KernelHeap, kmalloc, kzalloc, kfree}
use os_dev_mtk.Paging.{
  paging_get, paging_get_indexes, paging_get_physical_address, paging_align_to_lower_page_addr,
}
use os_dev_mtk.UserMemory.{Machine, translate, copy_string_from_task}
use os_dev_mtk.UserMemory.Sample.{
  directory, tables, layout, words, words-IsDirectory, bytes, heap, machine, text,
}
use os_dev_mtk.UserMemory.Strings.{put_string, Reads}
use os_dev_mtk.UserMemory.Copy.{copy_string-Copies}

abbrev after : KernelHeap
after = record { heap = allocated heap 0 0; memory = memset bytes 0x01000000 0 8 }

alloc_runs : kzalloc machine.kheap 8 ≡ some (0x01000000, after)
unfolding kzalloc kmalloc heap_alloc heap_alloc_blocks heap_align_size heap_get_start_block
    heap_block_to_address heap_mark_blocks_as_taken chunk heap_get_entry_type
alloc_runs = refl

text-Reads :
    Reads (translate words directory) after.memory 0x01000000 (0x01000000 + 8) 0x40_0000 text
unfolding memset store paging_get paging_get_indexes paging_get_physical_address
    paging_align_to_lower_page_addr
text-Reads = (
  (0x40_0000, refl, refl, refl),
  omega arith,
  ((0x40_0001, refl, refl, refl), omega arith, (0x40_0002, refl, refl, refl)),
)

copy_string-Copies_example :
    (m' : Machine) × (copy_string_from_task machine
        (record { d_entry = directory })
        0x40_0000
        0x7_0000
        8
      ≡ some (ne, m'))
    × (m'.kheap
        ≡ kfree
            (record after {
              memory =
                  put_string
                    (put_string after.memory 0x01000000 (take 7 text))
                    0x7_0000
                    (take 7 text);
            })
            0x01000000)
    × ((x : ℕ) → m'.words x ≡ words x)
copy_string-Copies_example =
    copy_string-Copies directory tables layout 7 (omega arith) refl machine after 0x01000000
      0x40_0000 0x7_0000 7 text words-IsDirectory alloc_runs (omega arith) (omega arith) refl
      (omega arith) (omega arith) (inl (omega arith)) (inl (omega arith)) text-Reads

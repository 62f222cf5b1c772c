-- ===== src/Processes/Kernel.antt =====
-- The kernel heap and the paging as what the allocations of a process use. The words of the page tables
-- are kept apart from the memory that the heap gives out.
use os_dev_mtk.Base.{none, some}
use os_dev_mtk.Heap.Kernel.{KernelHeap, kzalloc, kfree}
use os_dev_mtk.Paging.{Words, MemoryMap, paging_map_to}
use os_dev_mtk.Processes.{Services}

-- The page directory is that of the task of the process.
unfoldable pub kernel_services : MemoryMap → Services (KernelHeap × Words)
kernel_services directory = record {
  kzalloc = λ (k, mem) size. elim (kzalloc k size) [
    | none ↦ none
    | some (ptr, k') ↦ some (ptr, (k', mem))
  ];
  kfree = λ (k, mem) ptr. (kfree k ptr, mem);
  paging_map_to = λ (k, mem) v_addr p_addr p_addr_end flags.
      let (res, mem') = paging_map_to mem directory v_addr p_addr p_addr_end flags in
      (res, (k, mem'));
}

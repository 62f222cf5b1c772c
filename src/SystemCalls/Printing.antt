-- ===== src/SystemCalls/Printing.antt =====
-- What the system calls print.
use os_dev_mtk.Base.{
  ℕ, zero, suc, ◌+◌, ◌%◌, ◌^◌, ◌<◌, ◌≤◌, ◌≡◌, ◌≢◌, refl, ◌∙◌, ap, some, List, [], ◌∷◌, ◌++◌, arith,
  ◌==◌, ◌||◌, leb, ltb, true, false, length, length-take, take, ℤ, ne, ◌⊎◌, ◌-◌, if◌then◌else◌,
  Bool-cases, inl, inr,
}
use os_dev_mtk.Memory.{Memory, store}
use os_dev_mtk.Text.{NoNul}
use os_dev_mtk.Text.Copy.{take-NoNul}
use os_dev_mtk.Heap.Kernel.{KernelHeap, kzalloc, kfree}
use os_dev_mtk.Paging.{page_size}
use os_dev_mtk.Paging.Map.{Layout, IsDirectory}
use os_dev_mtk.Tasks.{Task}
use os_dev_mtk.Terminal.{Terminal, print}
use os_dev_mtk.Terminal.Write.{terminal_write-stops}
use os_dev_mtk.UserMemory.{Machine, translate}
use os_dev_mtk.UserMemory.Strings.{put_string, put_string-below, Reads}
use os_dev_mtk.UserMemory.Copy.{Reads-NoNul, copy_string-Copies}
use os_dev_mtk.SystemCalls.{Kernel, memory_of, bytes_at, current, stack_item, copy_string}
use os_dev_mtk.SystemCalls.Io.{print_at, isr_sys_print, isr_sys_print_ext}

-- The bytes of a memory with a string begin with the string and its NUL.
put_string-bytes :
    (bytes : Memory) (d n : ℕ) (s : List ℕ)
    → length s < n
    → (rest : List ℕ) × (bytes_at (put_string bytes d s) d n ≡ s ++ 0 ∷ rest)
unfolding store
put_string-bytes bytes d zero s h = absurd (omega (arith, h))
put_string-bytes bytes d (suc n) [] h =
    let first : store bytes d 0 d ≡ 0 = ground arith in
    (bytes_at (store bytes d 0) (d + 1) n, rw first refl)
put_string-bytes bytes d (suc n) (c ∷ s) h =
    let (rest, e) = put_string-bytes (store bytes d c) (d + 1) n s (omega (arith, h)) in
    let first : put_string (store bytes d c) (d + 1) s d ≡ c =
      put_string-below (store bytes d c) (d + 1) d s (omega arith) ∙ (ground arith) in
    (rest, rw (first, e) refl)

-- `print` of an array with a string prints the string.
print_at_lem :
    (k : Kernel) (bytes : Memory) (buf n : ℕ) (s : List ℕ)
    → memory_of k ≡ put_string bytes buf s
    → NoNul s
    → length s < n
    → (st' : Terminal) × (print_at k buf n ≡ some (record k { terminal = st' }))
      × (print k.terminal (s ++ 0 ∷ []) ≡ some st')
unfolding print
print_at_lem k bytes buf n s holds string size =
    let (rest, e) = put_string-bytes bytes buf n s size in
    let colored : Terminal = record k.terminal { terminal_fg_color = 15; terminal_bg_color = 0 } in
    let (st', printed, alone) = terminal_write-stops colored s rest string in
    (st', rw (holds, e, printed) refl, alone)

-- The call after the copy.
print_step :
    (k : Kernel) (buf virtual : ℕ) (m' : Machine) (res : ℤ) (bytes : Memory) (s : List ℕ)
    → stack_item k 0 ≡ some virtual
    → copy_string k virtual buf 1024 ≡ some (res, record k { machine = m' })
    → m'.kheap.memory ≡ put_string bytes buf s
    → NoNul s
    → length s < 1024
    → (st' : Terminal) × (isr_sys_print k buf ≡ some (0, record k { machine = m'; terminal = st' }))
      × (print k.terminal (s ++ 0 ∷ []) ≡ some st')
unfolding isr_sys_print
print_step k buf virtual m' res bytes s item copied holds string size =
    let (st', e, alone) =
      print_at_lem (record k { machine = m' }) bytes buf 1024 s holds string size in
    (st', rw (item, copied, e) refl, alone)

module _ (directory : ℕ) (tables : ℕ → ℕ) (layout : Layout directory tables) (flags : ℕ)
    (small : flags < page_size) (present : flags % 2 ≡ 1) where
  -- The system call SYS_PRINT prints the string at the address that the task has put on its stack, up to
  -- its first 1023 characters, returns 0, and leaves every word of the page tables and the tasks as they
  -- were. The current task has the page directory, its string is present, and `kzalloc` gives a page that
  -- is neither one of the pages of the string nor part of the array `buf`.
  pub sys_print-Prints :
      (k : Kernel) (task : Task) (kheap : KernelHeap) (tmp virtual buf : ℕ) (s : List ℕ)
      → current k ≡ some task
      → k.map_at task.page_directory ≡ record { d_entry = directory }
      → stack_item k 0 ≡ some virtual
      → IsDirectory k.machine.words directory tables flags
      → kzalloc k.machine.kheap 1024 ≡ some (tmp, kheap)
      → tmp ≢ 0
      → tmp % page_size ≡ 0
      → tmp < 2 ^ 32
      → virtual + length s < 2 ^ 32
      → (virtual + length s < tmp) ⊎ (tmp + page_size ≤ virtual)
      → (buf + 1024 ≤ tmp) ⊎ (tmp + 1024 ≤ buf)
      → Reads (translate k.machine.words directory) kheap.memory tmp (tmp + 1024) virtual s
      → (k' : Kernel) × (isr_sys_print k buf ≡ some (0, k'))
        × (print k.terminal (take 1023 s ++ 0 ∷ []) ≡ some k'.terminal)
        × ((x : ℕ) → k'.machine.words x ≡ k.machine.words x)
        × (k'.tasks ≡ k.tasks)
  unfolding kfree
  sys_print-Prints k task kheap tmp virtual buf s now map item is alloc t t0 tl vl apart off reads =
      let (m', e, kept, words) =
        copy_string-Copies directory tables layout flags small present k.machine kheap tmp virtual
          buf 1023 s is alloc (omega arith) t t0 tl vl apart off reads in
      let part : List ℕ = take 1023 s in
      let bytes : Memory = put_string kheap.memory tmp part in
      let copied : copy_string k virtual buf 1024 ≡ some (ne, record k { machine = m' }) =
        rw (now, map, e) refl in
      let string = take-NoNul 1023 s (
        Reads-NoNul (translate k.machine.words directory) kheap.memory tmp (tmp + 1024) virtual s
          reads) in
      let (st', run, alone) =
        print_step k buf virtual m' ne bytes part item copied (ap (λ h. h.memory) kept) string
          (omega (arith, length-take 1023 s)) in
      (record k { machine = m'; terminal = st' }, run, alone, words, refl)

-- SYS_PRINT_EXT refuses a size that is 0, or negative as an `int`, with -1, and one above 4096 with -2,
-- and changes nothing.
print_ext-refused :
    (k : Kernel) (buf size msg : ℕ)
    → stack_item k 0 ≡ some size
    → stack_item k 1 ≡ some msg
    → size < 2 ^ 32
    → (size ≡ 0) ⊎ (4096 < size)
    → isr_sys_print_ext k buf
      ≡ some (if size == 0 || leb (2 ^ 31) size then 2 ^ 32 - 1 else 2 ^ 32 - 2, k)
unfolding isr_sys_print_ext
print_ext-refused k buf size msg item next word bad =
    elim (Bool-cases (size == 0 || leb (2 ^ 31) size)) [
      | inl refused ↦ rw (item, next, refused) refl
      | inr other ↦
          let large : ltb size 1025 ≡ false = ground (arith, other, bad) in
          let over : ltb 0x1000 size ≡ true = ground (arith, other, bad) in
          rw (item, next, other, large, over) refl
    ]

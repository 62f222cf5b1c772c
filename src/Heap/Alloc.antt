-- ===== src/Heap/Alloc.antt =====
-- `heap_alloc_blocks` and `heap_free` on a valid heap.
use os_dev_mtk.Base.{
  ℕ, suc, ◌+◌, ◌-◌, ◌*◌, ◌/◌, ◌%◌, ◌^◌, ◌≤◌, ◌<◌, ◌≡◌, refl, ◌∙◌, sym, ap, true, false, none, some,
  List, ◌++◌, arith, ltb, if◌then◌else◌, length, length-append, length-take, length-drop, take,
  drop, take_all, take-append-drop, drop-drop, replicate, ℤ, pos, enomem, to_word, inl, inr, ◌⊎◌,
}
use os_dev_mtk.Heap.{
  free_loop, Heap, block_size, heap_alloc_blocks, heap_free, heap_get_start_block,
  heap_block_to_address, heap_address_to_block, heap_mark_blocks_as_taken, heap_mark_blocks_as_free,
}
use os_dev_mtk.Heap.Blocks.{chunk, length-chunk, IsBlocks}
use os_dev_mtk.Heap.Search.{free_run, first_fit, start_block-first_fit, start_block-no_fit}
use os_dev_mtk.Heap.Runs.{
  free_run-length, first_fit-free_run, IsBlocks-front, IsBlocks-drop, IsBlocks-alloc,
}
use os_dev_mtk.Heap.Mark.{mark-chunk, mark_loop-fault, free_loop-chunk}

-- The table covers its memory, holds whole allocations, and the blocks lie below 2 ^ 32.
pub record IsValid (h : Heap) : Type 0 where
  pub covers : h.table.total_entries ≡ length h.table.entries
  pub blocks : IsBlocks h.table.entries
  pub space : h.base_addr + h.table.total_entries * block_size ≤ 2 ^ 32

-- The heap after an allocation of `n + 1` blocks at block `s`.
abbrev pub allocated : Heap → (s n : ℕ) → Heap
allocated h s n = record h {
  table = record (h.table) {
    entries = take s h.table.entries ++ (chunk n ++ drop (s + suc n) h.table.entries);
  };
}

module _ {h : Heap} (v : IsValid h) (n s : ℕ)
    (fit : first_fit h.table.entries (suc n) ≡ some s) where
  run : free_run (drop s h.table.entries) (suc n) ≡ true
  run = first_fit-free_run h.table.entries (suc n) s fit

  in_table : s + suc n ≤ length h.table.entries
  in_table = omega (arith, free_run-length _ _ run, length-drop s h.table.entries)

  length-before : length (take s h.table.entries) ≡ s
  length-before = omega (arith, length-take s h.table.entries, in_table)

  address : heap_block_to_address h (to_word (pos s)) ≡ h.base_addr + s * block_size
  unfolding heap_block_to_address
  address = omega (arith, v.space, v.covers, in_table)

  marks :
      heap_mark_blocks_as_taken h.table.entries (pos s) (suc n)
      ≡ some (take s h.table.entries ++ (chunk n ++ drop (s + suc n) h.table.entries))
  marks =
      let es = h.table.entries in
      let whole = take-append-drop s es in
      let start = ap pos length-before in
      ap (λ (l : List ℕ). heap_mark_blocks_as_taken l (pos s) (suc n)) (sym whole)
      ∙ ap (λ (z : ℤ). heap_mark_blocks_as_taken (take s es ++ drop s es) z (suc n)) (sym start)
      ∙ mark-chunk n (take s es) (drop s es) (free_run-length _ _ run)
      ∙ rw (drop-drop es s (suc n))

  -- In a valid heap whose first run of `n + 1` free blocks begins at block `s`, `heap_alloc_blocks` of
  -- `n + 1` blocks takes that run and returns the address of its first block.
  pub alloc_blocks-first_fit :
      heap_alloc_blocks h (suc n) ≡ some (h.base_addr + s * block_size, allocated h s n)
  unfolding heap_alloc_blocks
  alloc_blocks-first_fit =
      let all = take_all h.table.entries h.table.total_entries v.covers in
      let found = start_block-first_fit h.table (suc n) s (omega arith) (rw all fit) in
      let unsigned : ltb (to_word (pos s)) 0 ≡ false = ground arith in
      rw (found, marks, address, unsigned)

  -- The heap after that allocation is valid.
  pub allocated-IsValid : IsValid (allocated h s n)
  allocated-IsValid = record {
    covers = omega (
      arith,
      v.covers,
      in_table,
      length-before,
      length-append (take s h.table.entries) (chunk n ++ drop (s + suc n) h.table.entries),
      length-append (chunk n) (drop (s + suc n) h.table.entries),
      length-chunk n,
      length-drop (s + suc n) h.table.entries,
    );
    blocks = rw (← drop-drop h.table.entries s (suc n)) (IsBlocks-alloc s n v.blocks run);
    space = v.space;
  }

  cleared :
      free_loop
        (h.table.total_entries - s)
        s
        (take s h.table.entries ++ (chunk n ++ drop (s + suc n) h.table.entries))
      ≡ h.table.entries
  cleared =
      let es = h.table.entries in
      let zeros = (IsBlocks-front (suc n) (IsBlocks-drop s n v.blocks run) run).1 in
      let back : take s es ++ (replicate (suc n) 0 ++ drop (s + suc n) es) ≡ es =
        rw (← drop-drop es s (suc n), ← zeros) (take-append-drop s es) in
      ap
        (λ (i : ℕ).
          free_loop (h.table.total_entries - s) i (take s es ++ (chunk n ++ drop (s + suc n) es)))
        (sym length-before)
      ∙ free_loop-chunk n (h.table.total_entries - s) (take s es) (drop (s + suc n) es)
          (omega (arith, v.covers, in_table))
      ∙ back

  -- `heap_free` of the address that the allocation returned gives the heap back as it was.
  pub free-allocated : heap_free (allocated h s n) (h.base_addr + s * block_size) ≡ h
  unfolding heap_free heap_mark_blocks_as_free heap_address_to_block
  free-allocated =
      let es = h.table.entries in
      let block : (h.base_addr + s * block_size + 2 ^ 32 - h.base_addr) % 2 ^ 32 / block_size ≡ s =
        omega (arith, v.space, v.covers, in_table) in
      rw (block, cleared)

-- In a valid heap with no run of `n + 1` free blocks, `heap_alloc_blocks` of `n + 1` blocks stores
-- outside of the table.
pub alloc_blocks-no_fit :
    {h : Heap} (n : ℕ)
    → IsValid h
    → first_fit h.table.entries (suc n) ≡ none
    → heap_alloc_blocks h (suc n) ≡ none
unfolding heap_alloc_blocks heap_mark_blocks_as_taken
alloc_blocks-no_fit {h} n v f = at (start_block-no_fit h.table n (rw all f))
  where
    es : List ℕ
    es = h.table.entries

    all : take h.table.total_entries es ≡ es
    all = take_all es h.table.total_entries v.covers

    at :
        (heap_get_start_block h.table (suc n) ≡ enomem)
          ⊎ ((c : ℕ) × (0 < c)
              × (c ≤ n)
              × (c ≤ length (take h.table.total_entries es))
              × (heap_get_start_block h.table (suc n)
                  ≡ pos (length (take h.table.total_entries es) - c)))
        → heap_alloc_blocks h (suc n) ≡ none
    at (inl e) = rw e refl
    at (inr (c, positive, small, inside, e)) =
        let start : ℕ = length es - c in
        let unsigned : ltb (to_word (pos start)) 0 ≡ false = ground arith in
        let inside' : c ≤ length es = rw all at inside in
        let past =
          mark_loop-fault (suc n) start (start + suc n - 1) (if ltb 1 (suc n) then 0xc1 else 0x41)
            es (omega arith) (omega arith) in
        rw (e, all, unsigned, past)

module _ {h : Heap} (v : IsValid h) (n : ℕ) (pre post : List ℕ)
    (split : h.table.entries ≡ pre ++ (chunk n ++ post)) where
  -- In a valid heap whose table holds an allocation of `n + 1` blocks behind some entries, `heap_free`
  -- of the address of its first block clears these entries and no other.
  pub free-chunk :
      heap_free h (h.base_addr + length pre * block_size)
      ≡ record h { table = record (h.table) { entries = pre ++ (replicate (suc n) 0 ++ post) } }
  unfolding heap_free heap_mark_blocks_as_free heap_address_to_block
  free-chunk =
      let size : h.table.total_entries ≡ length pre + (suc n + length post) = omega (
        arith,
        v.covers,
        ap length split,
        length-append pre (chunk n ++ post),
        length-append (chunk n) post,
        length-chunk n,
      ) in
      let block : (h.base_addr + length pre * block_size + 2 ^ 32 - h.base_addr)
            % 2 ^ 32
            / block_size
          ≡ length pre =
        omega (arith, v.space) in
      rw (block, split)
        (ap (λ (l : List ℕ). record h { table = record (h.table) { entries = l } })
          (free_loop-chunk n (h.table.total_entries - length pre) pre post (omega arith)))

-- ===== src/UserMemory/Copy.antt =====
-- `copy_string_from_task`: the string that a task sees comes to the kernel, and the pages of the task
-- are as before.
use os_dev_mtk.Base.{
  ℕ, zero, suc, ◌+◌, ◌-◌, ◌/◌, ◌%◌, ◌^◌, ◌<◌, ◌≤◌, ◌≡◌, ◌≢◌, refl, ◌∙◌, ap, Option, some, List, [],
  ◌∷◌, arith, ◌==◌, leb, false, bit_or, length, length-take, take, ne, ◌⊎◌,
}
use os_dev_mtk.Memory.{Memory}
use os_dev_mtk.Text.{NoNul}
use os_dev_mtk.Text.Copy.{take-NoNul}
use os_dev_mtk.Heap.Kernel.{KernelHeap, kzalloc, kfree}
use os_dev_mtk.Paging.{
  Words, page_size, total_entries, store_word, paging_get, paging_set, paging_get_indexes,
  paging_align_to_lower_page_addr, paging_get_physical_address,
}
use os_dev_mtk.Paging.Words.{
  store_word-same, store_word-other, directory_index, present-flags, paging_get_lem, frame-flags,
}
use os_dev_mtk.Paging.Map.{Layout, IsDirectory, paging_map_lem, store-IsDirectory, store-here}
use os_dev_mtk.Paging.Range.{word, word-distinct}
use os_dev_mtk.UserMemory.{Machine, translate, copy_to_tmp, copy_with_tmp, copy_string_from_task}
use os_dev_mtk.UserMemory.Strings.{put_string, Reads, pages-Reads, put_string-Reads, strncpy_at_lem}

take-take : (n : ℕ) (s : List ℕ) → take n (take n s) ≡ take n s
take-take zero s = refl
take-take (suc n) [] = refl
take-take (suc n) (c ∷ s) = ap (λ t. c ∷ t) (take-take n s)

-- The words after a word is stored twice, the last time as it was.
restore-word : (mem : Words) (w v x : ℕ) → store_word (store_word mem w v) w (mem w) x ≡ mem x
unfolding store_word
restore-word mem w v x = ground arith

pub Reads-NoNul :
    (pages : ℕ → Option ℕ) (bytes : Memory) (lo hi v : ℕ) (s : List ℕ)
    → Reads pages bytes lo hi v s
    → NoNul s
Reads-NoNul pages bytes lo hi v [] r = tt
Reads-NoNul pages bytes lo hi v (c ∷ s) (_, ne, rest) =
    (ne, Reads-NoNul pages bytes lo hi (v + 1) s rest)

module _ (directory : ℕ) (tables : ℕ → ℕ) (layout : Layout directory tables) (flags : ℕ)
    (small : flags < page_size) (present : flags % 2 ≡ 1) where
  abbrev word_at : (v : ℕ) → ℕ
  word_at v = word directory tables layout flags small present v

  -- An address on a page is translated by the word of the page.
  get_word :
      (mem : Words) (v : ℕ)
      → IsDirectory mem directory tables flags
      → v % page_size ≡ 0
      → v < 2 ^ 32
      → paging_get mem directory v ≡ mem (word_at v)
  get_word mem v is v0 l =
      let h : directory_index v < total_entries = omega arith in
      paging_get_lem mem directory v (tables (directory_index v)) flags v0
        (layout.aligned (directory_index v) h) (layout.in_memory (directory_index v) h) small
        present (is (directory_index v) h)

  -- A word of another page does not count.
  translate-elsewhere :
      (mem : Words) (v x w : ℕ)
      → IsDirectory mem directory tables flags
      → v < 2 ^ 32
      → w < 2 ^ 32
      → w / page_size ≢ v / page_size
      → translate (store_word mem (word_at v) x) directory w ≡ translate mem directory w
  unfolding paging_get_physical_address paging_align_to_lower_page_addr
  translate-elsewhere mem v x w is lv lw other =
      let lower : ℕ = w - w % page_size in
      let page : lower / page_size ≢ v / page_size = omega (arith, other) in
      let stored = store-IsDirectory directory tables layout flags small present mem v x lv is in
      let after =
        get_word (store_word mem (word_at v) x) lower stored (omega arith) (omega arith) in
      let before = get_word mem lower is (omega arith) (omega arith) in
      let kept : store_word mem (word_at v) x (word_at lower) ≡ mem (word_at lower) =
        store_word-other mem (word_at v) x (word_at lower) (
          word-distinct directory tables layout flags small present v lower lv (omega arith)
            page) in
      rw (after, kept, before) refl

  -- A page that is stored as itself, present.
  translate-here :
      (mem : Words) (v w : ℕ)
      → IsDirectory mem directory tables flags
      → v < 2 ^ 32
      → v % page_size ≡ 0
      → w / page_size ≡ v / page_size
      → translate (store_word mem (word_at v) (bit_or v 7)) directory w ≡ some w
  unfolding paging_align_to_lower_page_addr
  translate-here mem v w is l v0 same =
      let lower : w - w % page_size ≡ v = omega arith in
      let mem' : Words = store_word mem (word_at v) (bit_or v 7) in
      let stored =
        store-IsDirectory directory tables layout flags small present mem v (bit_or v 7) l is in
      let word_of_v : paging_get mem' directory v ≡ bit_or v 7 =
        get_word mem' v stored v0 l ∙ store_word-same mem (word_at v) (bit_or v 7) in
      let at : paging_get_physical_address mem' directory w ≡ w =
        store-here directory tables layout flags small present mem v v 7 w is l v0 l (omega arith)
          same
        ∙ omega arith in
      rw (lower, word_of_v, present-flags v 7 v0 (omega arith) refl, at) refl

  paging_set_lem :
      (mem : Words) (v x : ℕ)
      → IsDirectory mem directory tables flags
      → v < 2 ^ 32
      → v % page_size ≡ 0
      → paging_set mem directory v x ≡ (ne, store_word mem (word_at v) x)
  unfolding paging_set paging_get_indexes
  paging_set_lem mem v x is l v0 =
      let d : directory_index v < total_entries = omega arith in
      rw (
        v0,
        is (directory_index v) d,
        frame-flags (tables (directory_index v)) flags (layout.aligned (directory_index v) d) small
            (layout.in_memory (directory_index v) d),
      )

  -- The copy to `tmp`: the words are stored twice.
  copy_to_tmp_lem :
      (mem : Words) (bytes : Memory) (tmp virtual n : ℕ) (s : List ℕ)
      → IsDirectory mem directory tables flags
      → suc n < page_size
      → tmp % page_size ≡ 0
      → tmp < 2 ^ 32
      → virtual + length s < 2 ^ 32
      → (virtual + length s < tmp) ⊎ (tmp + page_size ≤ virtual)
      → Reads (translate mem directory) bytes tmp (tmp + suc n) virtual s
      → copy_to_tmp mem (record { d_entry = directory }) bytes tmp virtual (suc n)
        ≡ some (
          ne,
          store_word
              (store_word mem (word_at tmp) (bit_or tmp 7))
              (word_at tmp)
              (mem (word_at tmp)),
          put_string bytes tmp (take n s),
        )
  unfolding copy_to_tmp
  copy_to_tmp_lem mem bytes tmp virtual n s is size t0 tl vl apart reads =
      let mapped : Words = store_word mem (word_at tmp) (bit_or tmp 7) in
      let map =
        paging_map_lem directory tables layout flags small present mem tmp tmp 7 is tl t0 t0 in
      let old = get_word mem tmp is t0 tl in
      let stored =
        store-IsDirectory directory tables layout flags small present mem tmp (bit_or tmp 7) tl
          is in
      let set = paging_set_lem mapped tmp (mem (word_at tmp)) stored tl t0 in
      let seen =
        pages-Reads (translate mem directory) (translate mapped directory) bytes tmp (tmp + suc n)
          virtual s
          (λ w from to.
            translate-elsewhere mem tmp (bit_or tmp 7) w is tl (omega arith)
              (omega (arith, apart, from, to)))
          reads in
      let copied =
        strncpy_at_lem (translate mapped directory) bytes tmp (tmp + suc n) n tmp virtual s
          (λ x from to. translate-here mem tmp x is tl t0 (omega arith)) (omega arith) (omega arith)
          seen in
      rw (map, copied, old, set) refl

  -- If `kzalloc` gives `copy_string_from_task` a page that is neither one of the pages of the string
  -- nor part of the destination, and the string of the task is present and stands outside of that
  -- page, then the call returns 0; the destination holds the string, cut off so that its NUL is within the
  -- bound, the page with the other copy is freed again, no further byte has changed, and every word of
  -- the page tables is as before.
  pub copy_string-Copies :
      (m : Machine) (k : KernelHeap) (tmp virtual physical n : ℕ) (s : List ℕ)
      → IsDirectory m.words directory tables flags
      → kzalloc m.kheap (suc n) ≡ some (tmp, k)
      → suc n < page_size
      → tmp ≢ 0
      → tmp % page_size ≡ 0
      → tmp < 2 ^ 32
      → virtual + length s < 2 ^ 32
      → (virtual + length s < tmp) ⊎ (tmp + page_size ≤ virtual)
      → (physical + suc n ≤ tmp) ⊎ (tmp + suc n ≤ physical)
      → Reads (translate m.words directory) k.memory tmp (tmp + suc n) virtual s
      → (m' : Machine) × (copy_string_from_task m
            (record { d_entry = directory })
            virtual
            physical
            (suc n)
          ≡ some (ne, m'))
        × (m'.kheap
            ≡ kfree
                (record k {
                  memory = put_string (put_string k.memory tmp (take n s)) physical (take n s);
                })
                tmp)
        × ((x : ℕ) → m'.words x ≡ m.words x)
  unfolding copy_string_from_task copy_with_tmp
  copy_string-Copies m k tmp virtual physical n s is alloc size t t0 tl vl apart off reads =
      let fits : leb page_size (suc n) ≡ false = ground (arith, size) in
      let real : (tmp == 0) ≡ false = ground (arith, t) in
      let first = copy_to_tmp_lem m.words k.memory tmp virtual n s is size t0 tl vl apart reads in
      let part : List ℕ = take n s in
      let bound : length part ≤ n = omega (arith, length-take n s) in
      let kept =
        put_string-Reads k.memory physical (physical + suc n) tmp part
          (take-NoNul n s
            (Reads-NoNul (translate m.words directory) k.memory tmp (tmp + suc n) virtual s reads))
          (λ x from to. ground (arith, off, bound, from, to)) in
      let second =
        strncpy_at_lem some (put_string k.memory tmp part) physical (physical + suc n) n physical
          tmp part (λ x from to. refl) (omega arith) (omega arith) kept in
      let idle : take n part ≡ part = take-take n s in
      (
        record {
          kheap =
              kfree (record k { memory = put_string (put_string k.memory tmp part) physical part })
                tmp;
          words =
              store_word (store_word m.words (word_at tmp) (bit_or tmp 7)) (word_at tmp)
                (m.words (word_at tmp));
        },
        rw (fits, alloc, real, first, second, idle) refl,
        refl,
        λ x. restore-word m.words (word_at tmp) (bit_or tmp 7) x,
      )

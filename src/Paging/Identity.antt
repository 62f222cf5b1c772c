-- ===== src/Paging/Identity.antt =====
-- `_gen_paging_4gb` maps every address to itself.
use os_dev_mtk.Base.{
  ℕ, zero, suc, ◌+◌, ◌*◌, ◌%◌, ◌^◌, ◌<◌, ◌≤◌, ◌≡◌, ◌≢◌, refl, ◌∙◌, sym, false, ◌==◌, bit_or, arith,
  inl, inr, Bool-cases,
}
use os_dev_mtk.Base.Run.{ok}
use os_dev_mtk.Base.Bits.{bit_or_flags, bit_or-two}
use os_dev_mtk.Paging.{
  Words, store_word, page_size, total_entries, is_writable, table_loop, directory_loop,
  gen_paging_4gb, paging_get_physical_address,
}
use os_dev_mtk.Paging.Words.{
  store_word-same, store_word-other, directory_index, table_index, paging_get_physical_address_lem,
}
use os_dev_mtk.Paging.Map.{Layout, IsDirectory}

table_loop-outside :
    (n : ℕ) (mem : Words) (entry offset flags j x : ℕ)
    → ((t : ℕ) → j ≤ t → t < j + n → x ≢ entry + 4 * t)
    → table_loop mem entry offset flags n j x ≡ mem x
unfolding table_loop
table_loop-outside zero mem entry offset flags j x h = refl
table_loop-outside (suc n) mem entry offset flags j x h =
    table_loop-outside n _ entry offset flags (j + 1) x
      (λ t from to. h t (omega arith) (omega arith))
    ∙ store_word-other mem (entry + 4 * j) _ x (h j (omega arith) (omega arith))

table_loop-inside :
    (n : ℕ) (mem : Words) (entry offset flags j t : ℕ)
    → j ≤ t
    → t < j + n
    → table_loop mem entry offset flags n j (entry + 4 * t)
      ≡ bit_or ((offset + t * page_size) % 2 ^ 32) flags
unfolding table_loop
table_loop-inside zero mem entry offset flags j t from to = absurd (omega arith)
table_loop-inside (suc n) mem entry offset flags j t from to = elim (Bool-cases (t == j)) [
  | inl same ↦
      let e : t ≡ j = ground arith in
      rw e (
        table_loop-outside n _ entry offset flags (j + 1) (entry + 4 * j)
          (λ t from to e. omega arith)
        ∙ store_word-same mem (entry + 4 * j) _)
  | inr later ↦ table_loop-inside n _ entry offset flags (j + 1) t (ground arith) (omega arith)
]

module _ (directory : ℕ) (tables : ℕ → ℕ) (layout : Layout directory tables) (flags : ℕ) where
  -- The words that the rounds from table `i` on leave alone.
  directory_loop-outside :
      (n : ℕ) (mem : Words) (i offset x : ℕ)
      → ((d : ℕ) → i ≤ d → d < i + n → x ≢ directory + 4 * d)
      → ((d t : ℕ) → i ≤ d → d < i + n → t < total_entries → x ≢ tables d + 4 * t)
      → directory_loop mem directory tables flags n i offset x ≡ mem x
  unfolding directory_loop
  directory_loop-outside zero mem i offset x h l = refl
  directory_loop-outside (suc n) mem i offset x h l =
      directory_loop-outside n _ (i + 1) _ x (λ d from to. h d (omega arith) (omega arith))
        (λ d t from to. l d t (omega arith) (omega arith))
      ∙ store_word-other _ (directory + 4 * i) _ x (h i (omega arith) (omega arith))
      ∙ table_loop-outside total_entries mem (tables i) offset flags 0 x
          (λ t from to. l i t (omega arith) (omega arith) (omega arith))

  directory_loop-entry :
      (n : ℕ) (mem : Words) (i offset d : ℕ)
      → i ≤ d
      → d < i + n
      → i + n ≤ total_entries
      → directory_loop mem directory tables flags n i offset (directory + 4 * d)
        ≡ bit_or (bit_or (tables d) flags) is_writable
  unfolding directory_loop
  directory_loop-entry zero mem i offset d from to all = absurd (omega arith)
  directory_loop-entry (suc n) mem i offset d from to all = elim (Bool-cases (d == i)) [
    | inr later ↦ directory_loop-entry n _ (i + 1) _ d (ground arith) (omega arith) (omega arith)
    | inl same ↦
        let e : d ≡ i = ground arith in
        rw e (
          directory_loop-outside n _ (i + 1) _ (directory + 4 * i) (λ k f t e. omega arith)
            (λ k u f t h. layout.apart i k u (omega arith) (omega arith) h)
          ∙ store_word-same _ (directory + 4 * i) _)
  ]

  directory_loop-table :
      (n : ℕ) (mem : Words) (i d t : ℕ)
      → i ≤ d
      → d < i + n
      → i + n ≤ total_entries
      → t < total_entries
      → directory_loop mem directory tables flags n i
          (i * (total_entries * page_size) % 2 ^ 32)
          (tables d + 4 * t)
        ≡ bit_or (d * (total_entries * page_size) + t * page_size) flags
  unfolding directory_loop
  directory_loop-table zero mem i d t from to all h = absurd (omega arith)
  directory_loop-table (suc n) mem i d t from to all h = elim (Bool-cases (d == i)) [
    | inr later ↦
        let next : (i * (total_entries * page_size) % 2 ^ 32 + total_entries * page_size) % 2 ^ 32
            ≡ (i + 1) * (total_entries * page_size) % 2 ^ 32 =
          omega arith in
        rw next (directory_loop-table n _ (i + 1) d t (ground arith) (omega arith) (omega arith) h)
    | inl same ↦
        let e : d ≡ i = ground arith in
        let offset : (i * (total_entries * page_size) % 2 ^ 32 + t * page_size) % 2 ^ 32
            ≡ i * (total_entries * page_size) + t * page_size =
          omega arith in
        rw e (
          directory_loop-outside n _ (i + 1) _ (tables i + 4 * t)
            (λ k f l e. layout.apart k i t (omega arith) (omega arith) h (sym e))
            (λ k u f l h'.
              layout.distinct i k t u (omega arith) (omega arith) h h' (λ e. omega arith))
          ∙ store_word-other _ (directory + 4 * i) _ (tables i + 4 * t)
              (λ e. layout.apart i i t (omega arith) (omega arith) h (sym e))
          ∙ table_loop-inside total_entries mem (tables i)
              (i * (total_entries * page_size) % 2 ^ 32) flags 0 t (omega arith) (omega arith)
          ∙ rw offset)
  ]

  writable-flags :
      (frame : ℕ)
      → frame % page_size ≡ 0
      → flags < page_size
      → bit_or (bit_or frame flags) is_writable ≡ bit_or frame (bit_or flags is_writable)
  writable-flags frame a f =
      let small : bit_or flags is_writable < page_size = omega (arith, bit_or-two flags) in
      rw (bit_or_flags frame flags a f, bit_or_flags frame (bit_or flags is_writable) a small)
        (omega (arith, bit_or-two flags, bit_or-two (frame + flags)))

  -- The block of the map is behind those of the directory and the tables.
  abbrev pub IsApart : (chunk : ℕ) → Type 0
  IsApart chunk =
      ((d : ℕ) → d < total_entries → directory + 4 * d ≢ chunk)
      × ((d t : ℕ) → d < total_entries → t < total_entries → tables d + 4 * t ≢ chunk)

  abbrev built : Words → (chunk : ℕ) → Words
  built mem chunk =
      store_word (directory_loop mem directory tables flags total_entries 0 0) chunk directory

  built-IsDirectory :
      (mem : Words) (chunk : ℕ)
      → flags < page_size
      → IsApart chunk
      → IsDirectory (built mem chunk) directory tables (bit_or flags is_writable)
  built-IsDirectory mem chunk f apart d h =
      store_word-other _ chunk directory (directory + 4 * d) (apart.0 d h)
      ∙ directory_loop-entry total_entries mem 0 0 d (omega arith) h (omega arith)
      ∙ writable-flags (tables d) (layout.aligned d h) f

  built-identity :
      (mem : Words) (chunk v : ℕ)
      → flags < 256
      → flags % 2 ≡ 1
      → IsApart chunk
      → v < 2 ^ 32
      → paging_get_physical_address (built mem chunk) directory v ≡ v
  built-identity mem chunk v f p apart l =
      let d : ℕ = directory_index v in
      let t : ℕ = table_index v in
      let frame : ℕ = d * (total_entries * page_size) + t * page_size in
      let h : d < total_entries = omega arith in
      paging_get_physical_address_lem (built mem chunk) directory v (tables d)
        (bit_or flags is_writable) frame flags (layout.aligned d h) (layout.in_memory d h)
        (omega (arith, bit_or-two flags)) (omega (arith, bit_or-two flags)) (omega arith)
        (omega arith) (omega arith) (built-IsDirectory mem chunk (omega arith) apart d h)
        (store_word-other _ chunk directory (tables d + 4 * t) (apart.1 d t h (omega arith))
          ∙ directory_loop-table total_entries mem 0 d t (omega arith) (omega arith) (omega arith)
              (omega arith))
      ∙ omega arith

  -- When the allocations return pages of their own, `_gen_paging_4gb` with the present flag gives a
  -- page directory whose tables are present and writable, and which translates each of the 2^32
  -- addresses to itself; the address of the directory is stored in the block of the map.
  pub gen_paging-identity :
      (mem : Words) (chunk : ℕ)
      → 0 < directory
      → 0 < chunk
      → flags < 256
      → flags % 2 ≡ 1
      → IsApart chunk
      → (mem' : Words) × (gen_paging_4gb mem directory tables chunk flags
          ≡ ok (mem', record { d_entry = directory }))
        × IsDirectory mem' directory tables (bit_or flags is_writable)
        × ((v : ℕ) → v < 2 ^ 32 → paging_get_physical_address mem' directory v ≡ v)
        × (mem' chunk ≡ directory)
  unfolding gen_paging_4gb
  gen_paging-identity mem chunk dp cp f p apart =
      let here : (directory == 0) ≡ false = ground arith in
      let here' : (chunk == 0) ≡ false = ground arith in
      (
        built mem chunk,
        rw (here, here'),
        built-IsDirectory mem chunk (omega arith) apart,
        (λ v l. built-identity mem chunk v f p apart l),
        store_word-same _ chunk directory,
      )

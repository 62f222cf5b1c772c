-- ===== src/Paging/Map.antt =====
-- `paging_map`, `paging_map_range` and `paging_map_to` on the map of a page directory.
use os_dev_mtk.Base.{ℕ, ◌+◌, ◌*◌, ◌/◌, ◌%◌, ◌^◌, ◌<◌, ◌≡◌, ◌≢◌, ◌∙◌, ap, bit_or, arith, ne}
use os_dev_mtk.Paging.{
  Words, MemoryMap, page_size, total_entries, store_word, paging_get_indexes, paging_set,
  paging_map, paging_get_physical_address,
}
use os_dev_mtk.Paging.Words.{
  store_word-same, store_word-other, directory_index, table_index, frame-flags,
  paging_get_physical_address_lem,
}

-- Where a directory and its tables lie: on pages of their own.
pub record Layout (directory : ℕ) (tables : ℕ → ℕ) : Type 0 where
  pub aligned : (d : ℕ) → d < total_entries → tables d % page_size ≡ 0
  pub in_memory : (d : ℕ) → d < total_entries → tables d < 2 ^ 32
  pub apart :
      (d e t : ℕ)
      → d < total_entries
      → e < total_entries
      → t < total_entries
      → directory + 4 * d ≢ tables e + 4 * t
  pub distinct :
      (d e t u : ℕ)
      → d < total_entries
      → e < total_entries
      → t < total_entries
      → u < total_entries
      → d ≢ e
      → tables d + 4 * t ≢ tables e + 4 * u

-- The entries of the directory are the tables, present.
abbrev pub IsDirectory : Words → (directory : ℕ) → (tables : ℕ → ℕ) → (flags : ℕ) → Type 0
IsDirectory mem directory tables flags =
    (d : ℕ) → d < total_entries → mem (directory + 4 * d) ≡ bit_or (tables d) flags

module _ (directory : ℕ) (tables : ℕ → ℕ) (layout : Layout directory tables) (flags : ℕ)
    (small : flags < page_size) (present : flags % 2 ≡ 1) where
  abbrev map_of : MemoryMap
  map_of = record { d_entry = directory }

  -- The word that stands for the page of an address.
  abbrev pub word_of : (v : ℕ) → ℕ
  word_of v = tables (directory_index v) + 4 * table_index v

  pub paging_map_lem :
      (mem : Words) (v p page_flags : ℕ)
      → IsDirectory mem directory tables flags
      → v < 2 ^ 32
      → v % page_size ≡ 0
      → p % page_size ≡ 0
      → paging_map mem (record { d_entry = directory }) v p page_flags
        ≡ (ne, store_word mem (word_of v) (bit_or p page_flags))
  unfolding paging_map paging_set paging_get_indexes
  paging_map_lem mem v p page_flags is l v0 p0 =
      let d : directory_index v < total_entries = omega arith in
      rw (
        v0,
        p0,
        is (directory_index v) d,
        frame-flags (tables (directory_index v)) flags (layout.aligned (directory_index v) d) small
            (layout.in_memory (directory_index v) d),
      )

  pub store-IsDirectory :
      (mem : Words) (v x : ℕ)
      → v < 2 ^ 32
      → IsDirectory mem directory tables flags
      → IsDirectory (store_word mem (word_of v) x) directory tables flags
  store-IsDirectory mem v x l is d h =
      store_word-other mem (word_of v) x (directory + 4 * d)
        (layout.apart d (directory_index v) (table_index v) h (omega arith) (omega arith))
      ∙ is d h

  -- An address on a page that has been stored as `p` with flags.
  pub store-here :
      (mem : Words) (v p page_flags v' : ℕ)
      → IsDirectory mem directory tables flags
      → v < 2 ^ 32
      → p % page_size ≡ 0
      → p < 2 ^ 32
      → page_flags < page_size
      → v' / page_size ≡ v / page_size
      → paging_get_physical_address (store_word mem (word_of v) (bit_or p page_flags)) directory v'
        ≡ p + v' % page_size
  store-here mem v p page_flags v' is l p0 pl f e =
      let d : directory_index v' ≡ directory_index v = omega arith in
      let t : table_index v' ≡ table_index v = omega arith in
      let h : directory_index v' < total_entries = omega arith in
      let same : word_of v' ≡ word_of v = rw (d, t) in
      paging_get_physical_address_lem (store_word mem (word_of v) (bit_or p page_flags)) directory
        v' (tables (directory_index v')) flags p page_flags (layout.aligned (directory_index v') h)
        (layout.in_memory (directory_index v') h) small present p0 pl f
        (store-IsDirectory mem v (bit_or p page_flags) l is (directory_index v') h)
        (ap (store_word mem (word_of v) (bit_or p page_flags)) same
          ∙ store_word-same mem (word_of v) (bit_or p page_flags))

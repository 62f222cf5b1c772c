-- ===== src/Paging/Range.antt =====
-- `paging_map_range` and `paging_map_to` by the pages that they map.
use os_dev_mtk.Base.{
  ℕ, zero, suc, ◌+◌, ◌-◌, ◌*◌, ◌/◌, ◌%◌, ◌^◌, ◌<◌, ◌≤◌, ◌≡◌, ◌≢◌, refl, ◌∙◌, ap, false, ◌==◌,
  bit_or, arith, ne, ltb, ◌⊎◌, inl, inr, Bool-cases,
}
use native.Mathlib.Nat.{mod-eq_of_lt}
use os_dev_mtk.Paging.{
  Words, page_size, total_entries, store_word, paging_get, paging_map_range, paging_map_to,
  paging_align_to_lower_page_addr, paging_get_physical_address,
}
use os_dev_mtk.Paging.Words.{store_word-other, directory_index, table_index, paging_get_lem}
use os_dev_mtk.Paging.Map.{
  Layout, IsDirectory, paging_map_lem, word_of, store-IsDirectory, store-here,
}

module _ (directory : ℕ) (tables : ℕ → ℕ) (layout : Layout directory tables) (flags : ℕ)
    (small : flags < page_size) (present : flags % 2 ≡ 1) where
  abbrev pub word : (v : ℕ) → ℕ
  word v = word_of directory tables layout flags small present v

  pub word-distinct :
      (v w : ℕ) → v < 2 ^ 32 → w < 2 ^ 32 → w / page_size ≢ v / page_size → word w ≢ word v
  word-distinct v w lv lw other e =
      let apart =
        layout.distinct (directory_index w) (directory_index v) (table_index w) (table_index v)
          (omega arith) (omega arith) (omega arith) (omega arith) in
      elim (Bool-cases (directory_index w == directory_index v)) [
        | inl same ↦
            let d : directory_index w ≡ directory_index v = ground arith in
            let t : tables (directory_index w) ≡ tables (directory_index v) = ap tables d in
            omega (arith, other)
        | inr differ ↦ apart (ground arith) e
      ]

  -- An address on another page is translated as before.
  store-elsewhere :
      (mem : Words) (v x w : ℕ)
      → IsDirectory mem directory tables flags
      → v < 2 ^ 32
      → w < 2 ^ 32
      → w / page_size ≢ v / page_size
      → paging_get_physical_address (store_word mem (word v) x) directory w
        ≡ paging_get_physical_address mem directory w
  unfolding paging_get_physical_address paging_align_to_lower_page_addr
  store-elsewhere mem v x w is lv lw other =
      let lower : ℕ = w - w % page_size in
      let aligned : lower % page_size ≡ 0 = omega arith in
      let h : directory_index lower < total_entries = omega arith in
      let page : lower / page_size ≢ v / page_size = omega (arith, other) in
      let get : (m : Words)
          → IsDirectory m directory tables flags
          → paging_get m directory lower ≡ m (word lower) =
        λ m i.
          paging_get_lem m directory lower (tables (directory_index lower)) flags aligned
            (layout.aligned (directory_index lower) h) (layout.in_memory (directory_index lower) h)
            small present (i (directory_index lower) h) in
      let stored = store-IsDirectory directory tables layout flags small present mem v x lv is in
      let kept : store_word mem (word v) x (word lower) ≡ mem (word lower) =
        store_word-other mem (word v) x (word lower)
          (word-distinct v lower lv (omega arith) page) in
      rw (get (store_word mem (word v) x) stored, get mem is, kept)

  -- The pages from `v` on are those from `p` on, and the others are as before.
  pub record Maps (mem mem' : Words) (v p n : ℕ) : Type 0 where
    pub directory_kept : IsDirectory mem' directory tables flags
    pub inside :
        (a : ℕ)
        → v ≤ a
        → a < v + n * page_size
        → paging_get_physical_address mem' directory a ≡ p + (a - v)
    pub outside :
        (a : ℕ)
        → a < 2 ^ 32
        → (a < v) ⊎ (v + n * page_size ≤ a)
        → paging_get_physical_address mem' directory a ≡ paging_get_physical_address mem directory a

  -- One page, and then the pages behind it.
  Maps-suc :
      (mem mem' : Words) (v p n page_flags : ℕ)
      → IsDirectory mem directory tables flags
      → v % page_size ≡ 0
      → p % page_size ≡ 0
      → v + suc n * page_size < 2 ^ 32
      → p + suc n * page_size < 2 ^ 32
      → page_flags < page_size
      → Maps (store_word mem (word v) (bit_or p page_flags)) mem' (v + page_size) (p + page_size) n
      → Maps mem mem' v p (suc n)
  Maps-suc mem mem' v p n page_flags is v0 p0 lv lp f rest = record {
    directory_kept = rest.directory_kept;
    inside = λ a from to. elim (Bool-cases (ltb a (v + page_size))) [
      | inl here ↦
          let first : a / page_size ≡ v / page_size = ground arith in
          rest.outside a (omega arith) (inl (ground arith))
          ∙ store-here directory tables layout flags small present mem v p page_flags a is
              (omega arith) p0 (omega arith) f first
          ∙ ground arith
      | inr there ↦ rest.inside a (ground arith) (omega arith) ∙ ground arith
    ];
    outside = λ a l where_.
        let beyond : (a < v + page_size) ⊎ (v + page_size + n * page_size ≤ a) = ground arith in
        let other : a / page_size ≢ v / page_size = ground arith in
        rest.outside a l beyond
        ∙ store-elsewhere mem v (bit_or p page_flags) a is (omega arith) l other;
  }

  Maps-zero :
      (mem : Words) (v p : ℕ) → IsDirectory mem directory tables flags → Maps mem mem v p zero
  Maps-zero mem v p is = record {
    directory_kept = is;
    inside = λ a from to. absurd (omega arith);
    outside = λ a l where_. refl;
  }

  range-Maps :
      (n : ℕ) (mem : Words) (v p page_flags : ℕ)
      → IsDirectory mem directory tables flags
      → v % page_size ≡ 0
      → p % page_size ≡ 0
      → v + n * page_size < 2 ^ 32
      → p + n * page_size < 2 ^ 32
      → page_flags < page_size
      → (mem' : Words) × (paging_map_range mem (record { d_entry = directory }) v p n page_flags ne
          ≡ (ne, mem'))
        × Maps mem mem' v p n
  unfolding paging_map_range
  range-Maps zero mem v p page_flags is v0 p0 lv lp f = (mem, refl, Maps-zero mem v p is)
  range-Maps (suc n) mem v p page_flags is v0 p0 lv lp f =
      let mapped = store_word mem (word v) (bit_or p page_flags) in
      let (mem', e, maps) =
        range-Maps n mapped (v + page_size) (p + page_size) page_flags
          (store-IsDirectory directory tables layout flags small present mem v (bit_or p page_flags)
            (omega arith) is)
          (omega arith) (omega arith) (omega arith) (omega arith) f in
      let one =
        paging_map_lem directory tables layout flags small present mem v p page_flags is
          (omega arith) v0 p0 in
      let v' : (v + page_size) % 2 ^ 32 ≡ v + page_size = mod-eq_of_lt (omega arith) in
      let p' : (p + page_size) % 2 ^ 32 ≡ p + page_size = mod-eq_of_lt (omega arith) in
      (mem', rw (one, v', p', e), Maps-suc mem mem' v p n page_flags is v0 p0 lv lp f maps)

  -- In a directory whose tables are present and lie on pages of their own, `paging_map_to` on aligned
  -- addresses below the last page succeeds. Each address from `v` on is
  -- then translated to the one as far behind `p`, up to the end, every other address is translated
  -- as before, and the entries of the directory stay.
  pub paging_map_to-Maps :
      (mem : Words) (v p n page_flags : ℕ)
      → IsDirectory mem directory tables flags
      → v % page_size ≡ 0
      → p % page_size ≡ 0
      → v + n * page_size < 2 ^ 32
      → p + n * page_size < 2 ^ 32
      → page_flags < page_size
      → (mem' : Words) × (paging_map_to mem
            (record { d_entry = directory })
            v
            p
            (p + n * page_size)
            page_flags
          ≡ (ne, mem'))
        × Maps mem mem' v p n
  unfolding paging_map_to
  paging_map_to-Maps mem v p n page_flags is v0 p0 lv lp f =
      let end : (p + n * page_size) % page_size ≡ 0 = omega arith in
      let order : ltb (p + n * page_size) p ≡ false = ground arith in
      let count : (p + n * page_size - p) / page_size ≡ n = omega arith in
      rw (v0, p0, end, order, count) (range-Maps n mem v p page_flags is v0 p0 lv lp f)

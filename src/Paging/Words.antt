-- ===== src/Paging/Words.antt =====
-- `paging_get` and `paging_get_physical_address` in terms of the words of the two levels.
use os_dev_mtk.Base.{
  ℕ, ◌+◌, ◌-◌, ◌*◌, ◌/◌, ◌%◌, ◌^◌, ◌<◌, ◌≡◌, ◌≢◌, ◌∙◌, false, ◌==◌, bit_and, bit_or, arith,
}
use os_dev_mtk.Base.Bits.{bit_and_frame, bit_or_flags, bit_and-low}
use os_dev_mtk.Paging.{
  Words, page_size, total_entries, store_word, table_of, paging_get_indexes, paging_get,
  paging_align_to_lower_page_addr, paging_get_physical_address,
}

pub store_word-same : (mem : Words) (a v : ℕ) → store_word mem a v a ≡ v
unfolding store_word
store_word-same mem a v = ground arith

pub store_word-other : (mem : Words) (a v x : ℕ) → x ≢ a → store_word mem a v x ≡ mem x
unfolding store_word
store_word-other mem a v x h = ground arith

abbrev pub directory_index : ℕ → ℕ
directory_index v = v / (total_entries * page_size)

abbrev pub table_index : ℕ → ℕ
table_index v = v % (total_entries * page_size) / page_size

-- A frame with flags, in a word.
pub frame-flags :
    (frame flags : ℕ)
    → frame % page_size ≡ 0
    → flags < page_size
    → frame < 2 ^ 32
    → table_of (bit_or frame flags) ≡ frame
frame-flags frame flags a f w =
    rw (bit_or_flags frame flags a f) (bit_and_frame (frame + flags) (omega arith) ∙ omega arith)

pub present-flags :
    (frame flags : ℕ)
    → frame % page_size ≡ 0
    → flags < page_size
    → flags % 2 ≡ 1
    → (bit_and (bit_or frame flags) 1 == 0) ≡ false
present-flags frame flags a f p =
    rw (bit_or_flags frame flags a f) (ground (arith, bit_and-low 1 (frame + flags)))

-- The word of the table for an address, when its directory entry is a table with flags.
pub paging_get_lem :
    (mem : Words) (directory v table flags : ℕ)
    → v % page_size ≡ 0
    → table % page_size ≡ 0
    → table < 2 ^ 32
    → flags < page_size
    → flags % 2 ≡ 1
    → mem (directory + 4 * directory_index v) ≡ bit_or table flags
    → paging_get mem directory v ≡ mem (table + 4 * table_index v)
unfolding paging_get paging_get_indexes
paging_get_lem mem directory v table flags a t w f p e =
    rw (a, e, present-flags table flags t f p, frame-flags table flags t f w)

-- The address that the words of the two levels give.
pub paging_get_physical_address_lem :
    (mem : Words) (directory v table flags frame page_flags : ℕ)
    → table % page_size ≡ 0
    → table < 2 ^ 32
    → flags < page_size
    → flags % 2 ≡ 1
    → frame % page_size ≡ 0
    → frame < 2 ^ 32
    → page_flags < page_size
    → mem (directory + 4 * directory_index v) ≡ bit_or table flags
    → mem (table + 4 * table_index v) ≡ bit_or frame page_flags
    → paging_get_physical_address mem directory v ≡ frame + v % page_size
unfolding paging_get_physical_address paging_align_to_lower_page_addr
paging_get_physical_address_lem mem directory v table flags frame page_flags t w f p fa fw pf e e' =
    let lower : ℕ = v - v % page_size in
    let aligned : lower % page_size ≡ 0 = omega arith in
    let d : directory_index lower ≡ directory_index v = omega arith in
    let i : table_index lower ≡ table_index v = omega arith in
    let offset : v - lower ≡ v % page_size = omega arith in
    rw
      (
        paging_get_lem mem directory lower table flags aligned t w f p (rw d e),
        i,
        e',
        frame-flags frame page_flags fa pf fw,
        offset,
      )
      (omega arith)

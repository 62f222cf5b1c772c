-- ===== src/Gdt.antt =====
-- src/kernel/gdt/gdt.c: the descriptors of the segments.
pub mod Decode
mod Tests
use os_dev_mtk.Base.{
  ℕ, zero, suc, ◌/◌, ◌^◌, Bool, true, false, not, ◌&&◌, List, [], ◌∷◌, ◌==◌, ltb, if◌then◌else◌,
  bit_and, bit_or,
}
use os_dev_mtk.Base.Run.{Run, ok, panic, ◌>>=◌}

-- `struct gdt_entry_structured`
pub record GdtEntryStructured : Type 0 where
  pub base : ℕ
  pub limit : ℕ
  pub access_byte : ℕ

-- The bytes of `struct gdt_entry`, in order: `target[0]` to `target[7]`.
pub record GdtEntry : Type 0 where
  pub target_0 : ℕ
  pub target_1 : ℕ
  pub target_2 : ℕ
  pub target_3 : ℕ
  pub target_4 : ℕ
  pub target_5 : ℕ
  pub target_6 : ℕ
  pub target_7 : ℕ

-- `>>` divides by a power of two.
unfoldable pub encode_gdt_entry : GdtEntryStructured → Run GdtEntry
encode_gdt_entry src =
    if ltb 65536 src.limit && not (bit_and src.limit 0xfff == 0xfff)
    then panic
    else let large = ltb 65536 src.limit in
      let limit = if large then src.limit / 2 ^ 12 else src.limit in
      let flags = if large then 0xc0 else 0x40 in
      ok (record {
        target_0 = bit_and limit 0xff;
        target_1 = bit_and (limit / 2 ^ 8) 0xff;
        target_2 = bit_and src.base 0xff;
        target_3 = bit_and (src.base / 2 ^ 8) 0xff;
        target_4 = bit_and (src.base / 2 ^ 16) 0xff;
        target_5 = src.access_byte;
        target_6 = bit_or flags (bit_and (limit / 2 ^ 16) 0x0f);
        target_7 = bit_and (src.base / 2 ^ 24) 0xff;
      })

-- The loop over the entries that are left.
unfoldable pub unpack_structured_gdt : List GdtEntryStructured → Run (List GdtEntry)
unpack_structured_gdt [] = ok []
unpack_structured_gdt (s ∷ s_gdt) =
    encode_gdt_entry s >>= λ e. (unpack_structured_gdt s_gdt >>= λ gdt. ok (e ∷ gdt))

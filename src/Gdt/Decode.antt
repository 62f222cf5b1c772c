-- ===== src/Gdt/Decode.antt =====
-- What the processor reads in a descriptor, against the entry that was encoded.
use os_dev_mtk.Base.{
  ℕ, List, [], ◌∷◌, ◌+◌, ◌*◌, ◌/◌, ◌%◌, ◌^◌, ◌<◌, ◌≤◌, ◌≡◌, refl, ◌⊎◌, inl, inr, arith, ◌==◌, ltb,
  if◌then◌else◌, bit_and, bit_or, Bool-cases,
}
use os_dev_mtk.Base.Bits.{bit_and-low, bit_or-shifted}
use os_dev_mtk.Base.Run.{ok}
use os_dev_mtk.Gdt.{GdtEntryStructured, GdtEntry, encode_gdt_entry, unpack_structured_gdt}

-- The base address, in its three fields.
abbrev pub segment_base : GdtEntry → ℕ
segment_base e = e.target_2 + 2 ^ 8 * e.target_3 + 2 ^ 16 * e.target_4 + 2 ^ 24 * e.target_7

-- The 20 bits of the limit.
abbrev pub limit_field : GdtEntry → ℕ
limit_field e = e.target_0 + 2 ^ 8 * e.target_1 + 2 ^ 16 * (e.target_6 % 16)

-- The last offset of the segment: with the granularity bit the limit counts pages.
abbrev pub segment_limit : GdtEntry → ℕ
segment_limit e = if e.target_6 / 128 == 1 then limit_field e * 4096 + 4095 else limit_field e

abbrev pub Encodes : GdtEntryStructured → GdtEntry → Type 0
Encodes s e = (segment_base e ≡ s.base) × (segment_limit e ≡ s.limit) × (e.target_5 ≡ s.access_byte)

base_lem :
    (b : ℕ)
    → b < 2 ^ 32
    → bit_and b 0xff
        + 2 ^ 8 * bit_and (b / 2 ^ 8) 0xff
        + 2 ^ 16 * bit_and (b / 2 ^ 16) 0xff
        + 2 ^ 24 * bit_and (b / 2 ^ 24) 0xff
      ≡ b
base_lem b h = omega (
  arith,
  bit_and-low 8 b,
  bit_and-low 8 (b / 2 ^ 8),
  bit_and-low 8 (b / 2 ^ 16),
  bit_and-low 8 (b / 2 ^ 24),
)

limit_lem :
    (l q : ℕ)
    → l < 2 ^ 20
    → bit_and l 0xff
        + 2 ^ 8 * bit_and (l / 2 ^ 8) 0xff
        + 2 ^ 16 * (bit_or (q * 16) (bit_and (l / 2 ^ 16) 0x0f) % 16)
      ≡ l
limit_lem l q h =
    let low : bit_and (l / 2 ^ 16) 0x0f ≡ l / 2 ^ 16 % 16 = bit_and-low 4 (l / 2 ^ 16) in
    omega (
      arith,
      low,
      bit_and-low 8 l,
      bit_and-low 8 (l / 2 ^ 8),
      bit_or-shifted 4 q (bit_and (l / 2 ^ 16) 0x0f) (omega (arith, low)),
    )

flags_lem : (l q : ℕ) → bit_or (q * 16) (bit_and (l / 2 ^ 16) 0x0f) / 128 ≡ q / 8
flags_lem l q =
    let low : bit_and (l / 2 ^ 16) 0x0f ≡ l / 2 ^ 16 % 16 = bit_and-low 4 (l / 2 ^ 16) in
    omega (arith, low, bit_or-shifted 4 q (bit_and (l / 2 ^ 16) 0x0f) (omega (arith, low)))

abbrev entry_of : GdtEntryStructured → (limit flags : ℕ) → GdtEntry
entry_of src limit flags = record {
  target_0 = bit_and limit 0xff;
  target_1 = bit_and (limit / 2 ^ 8) 0xff;
  target_2 = bit_and src.base 0xff;
  target_3 = bit_and (src.base / 2 ^ 8) 0xff;
  target_4 = bit_and (src.base / 2 ^ 16) 0xff;
  target_5 = src.access_byte;
  target_6 = bit_or flags (bit_and (limit / 2 ^ 16) 0x0f);
  target_7 = bit_and (src.base / 2 ^ 24) 0xff;
}

-- An entry of 32-bit words whose limit is at most 65536, or ends with a page, is encoded, and the
-- descriptor has its base, its limit and its access byte.
pub encode-Encodes :
    (s : GdtEntryStructured)
    → s.base < 2 ^ 32
    → s.limit < 2 ^ 32
    → (s.limit ≤ 65536) ⊎ (s.limit % 4096 ≡ 4095)
    → (e : GdtEntry) × (encode_gdt_entry s ≡ ok e) × Encodes s e
unfolding encode_gdt_entry
encode-Encodes s b l fits = elim (Bool-cases (ltb 65536 s.limit)) [
  | inl large ↦
      let low : bit_and s.limit 0xfff ≡ 4095 = ground (arith, bit_and-low 12 s.limit, fits) in
      rw (large, low)
        (
          entry_of s (s.limit / 2 ^ 12) 0xc0,
          refl,
          (
            base_lem s.base b,
            rw (flags_lem (s.limit / 2 ^ 12) 12, limit_lem (s.limit / 2 ^ 12) 12 (omega arith))
                (ground (arith, fits)),
            refl,
          ),
        )
  | inr small ↦ rw small (
    entry_of s s.limit 0x40,
    refl,
    (base_lem s.base b, rw (flags_lem s.limit 4, limit_lem s.limit 4 (ground arith)) refl, refl),
  )
]

-- Each entry of a table is the descriptor at its place.
abbrev pub AllEncode : List GdtEntryStructured → List GdtEntry → Type 0
AllEncode [] [] = Unit {0}
AllEncode [] (e ∷ gdt) = ⊥
AllEncode (s ∷ s_gdt) [] = ⊥
AllEncode (s ∷ s_gdt) (e ∷ gdt) = Encodes s e × AllEncode s_gdt gdt

-- Entries that can be encoded.
abbrev pub AllFit : List GdtEntryStructured → Type 0
AllFit [] = Unit {0}
AllFit (s ∷ s_gdt) =
    ((s.base < 2 ^ 32) × (s.limit < 2 ^ 32) × ((s.limit ≤ 65536) ⊎ (s.limit % 4096 ≡ 4095)))
    × AllFit s_gdt

-- A table is encoded entry by entry.
pub unpack-AllEncode :
    (s_gdt : List GdtEntryStructured)
    → AllFit s_gdt
    → (gdt : List GdtEntry) × (unpack_structured_gdt s_gdt ≡ ok gdt) × AllEncode s_gdt gdt
unfolding unpack_structured_gdt
unpack-AllEncode [] fit = ([], refl, tt)
unpack-AllEncode (s ∷ s_gdt) ((b, l, fits), fit) =
    let (e, eq, encodes) = encode-Encodes s b l fits in
    let (gdt, eq', all) = unpack-AllEncode s_gdt fit in (e ∷ gdt, rw (eq, eq') refl, (encodes, all))

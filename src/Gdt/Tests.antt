-- ===== src/Gdt/Tests.antt =====
-- The encoding at the kernel's code segment of kernel.c.
use os_dev_mtk.Base.{◌≡◌, refl, inr, arith}
use os_dev_mtk.Base.Run.{ok}
use os_dev_mtk.Gdt.{GdtEntryStructured, GdtEntry, encode_gdt_entry}
use os_dev_mtk.Gdt.Decode.{Encodes, encode-Encodes}

abbrev code_segment : GdtEntryStructured
code_segment = record { base = 0; limit = 0xffff_ffff; access_byte = 0x9a }

encode-Encodes_example :
    (e : GdtEntry) × (encode_gdt_entry code_segment ≡ ok e) × Encodes code_segment e
encode-Encodes_example = encode-Encodes code_segment (omega arith) (omega arith) (inr refl)

-- ===== src/Fat16/Layout.antt =====
-- The packed structures of src/kernel/fs/fat/fat16.h, read from their bytes.
use os_dev_mtk.Base.{ℕ, ◌+◌, ◌*◌, List, get_or, drop}

abbrev pub u8 : List ℕ → ℕ → ℕ
u8 bytes at = get_or bytes at 0

-- Little endian.
abbrev pub u16 : List ℕ → ℕ → ℕ
u16 bytes at = u8 bytes at + 256 * u8 bytes (at + 1)

abbrev pub u32 : List ℕ → ℕ → ℕ
u32 bytes at = u16 bytes at + 65536 * u16 bytes (at + 2)

-- `struct fat_header`, with the signature of the extended header
pub record FatHeader : Type 0 where
  pub bytes_per_sector : ℕ
  pub sectors_per_cluster : ℕ
  pub num_reserved_sectors : ℕ
  pub num_fat_copies : ℕ
  pub root_directory_entries : ℕ
  pub num_sectors : ℕ
  pub media_type : ℕ
  pub sectors_per_fat : ℕ
  pub sectors_per_track : ℕ
  pub number_of_heads : ℕ
  pub num_hidden_sectors : ℕ
  pub num_sectors_large : ℕ
  pub signature : ℕ

-- `sizeof(struct fat_h)`: 36 bytes and the 26 of the extended header
abbrev pub header_size : ℕ
header_size = 62

unfoldable pub header_of : List ℕ → FatHeader
header_of b = record {
  bytes_per_sector = u16 b 11;
  sectors_per_cluster = u8 b 13;
  num_reserved_sectors = u16 b 14;
  num_fat_copies = u8 b 16;
  root_directory_entries = u16 b 17;
  num_sectors = u16 b 19;
  media_type = u8 b 21;
  sectors_per_fat = u16 b 22;
  sectors_per_track = u16 b 24;
  number_of_heads = u16 b 26;
  num_hidden_sectors = u32 b 28;
  num_sectors_large = u32 b 32;
  signature = u8 b 38;
}

-- `struct fat_directory_item` is used through a pointer: the bytes from the item on, with those of
-- the items behind it. These are the fields that the code reads.
abbrev pub item_size : ℕ
item_size = 32

abbrev pub filename_at : List ℕ → List ℕ
filename_at item = item

abbrev pub ext_at : List ℕ → List ℕ
ext_at item = drop 8 item

abbrev pub attributes : List ℕ → ℕ
attributes item = u8 item 11

abbrev pub high_16_bits_first_cluster : List ℕ → ℕ
high_16_bits_first_cluster item = u16 item 20

abbrev pub low_16_bits_first_cluster : List ℕ → ℕ
low_16_bits_first_cluster item = u16 item 26

abbrev pub file_size : List ℕ → ℕ
file_size item = u32 item 28

-- `struct fat_directory`: the bytes of its items.
pub record FatDirectory : Type 0 where
  pub items : List ℕ
  pub total : ℕ
  pub sector_pos : ℕ
  pub ending_sector_pos : ℕ

-- `struct fat_item`: the union is read by its type.
pub data FatItem : Type 0 where
  file_item : (item : List ℕ) → FatItem
  directory_item : FatDirectory → FatItem

-- `struct fat_file_descriptor`
pub record FatFileDescriptor : Type 0 where
  pub item : FatItem
  pub position : ℕ

-- `struct fat_private`. Each of its streams is moved before it is read, so no position is kept.
pub record FatPrivate : Type 0 where
  pub header : FatHeader
  pub root_directory : FatDirectory

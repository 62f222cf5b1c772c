-- ===== src/Fat16/Tests.antt =====
-- The theorems of the FAT16 driver at a small disk.
use os_dev_mtk.Base.{
  ℕ, ◌+◌, ◌*◌, ◌%◌, ◌<◌, ◌≡◌, ◌≢◌, refl, some, List, [], ◌∷◌, ◌++◌, arith, ltb, if◌then◌else◌,
  replicate, ne, none, pos, ◌==◌,
}
use os_dev_mtk.Disk.{BlockDevice, sector_size, diskstreamer_read, stream_loop, round_size}
use os_dev_mtk.Disk.Read.{slice}
use os_dev_mtk.Disk.Stream.{Serves}
use os_dev_mtk.Fat16.Layout.{FatHeader, FatPrivate, FatDirectory, file_item, item_size}
use os_dev_mtk.Fat16.Clusters.{
  fat16_get_first_cluster, fat16_cluster_to_sector, fat16_sector_to_absolute, fat16_read_internal,
  read_internal_loop,
}
use os_dev_mtk.Fat16.Directory.{
  fat16_get_total_items_for_directory, fat16_get_directory_entry, fat16_find_item_in_directory,
  find_loop, fat16_new_fat_item_for_directory_item, entry_loop, fat16_load_fat_directory,
  count_loop,
}
use os_dev_mtk.Fat16.Names.{
  fat16_get_full_relative_filename, fat16_to_string, fat16_clone_directory_item,
}
use os_dev_mtk.Text.{istrncmp}
use os_dev_mtk.Fat16.Driver.{fat16_read}
use os_dev_mtk.Fat16.Reading.{fat16_read-slice}
use os_dev_mtk.Fat16.Count.{used_items, total_items_lem}
use os_dev_mtk.Fat16.Defects.{directory_entry-none}

abbrev image : ℕ → ℕ
image a = a % 251

abbrev drive : BlockDevice
drive k = (ne, slice image (k * sector_size) sector_size)

drive-Serves : Serves drive image
drive-Serves k h = refl

abbrev header : FatHeader
header = record {
  bytes_per_sector = 512;
  sectors_per_cluster = 4;
  num_reserved_sectors = 1;
  num_fat_copies = 2;
  root_directory_entries = 16;
  num_sectors = 4096;
  media_type = 0xf8;
  sectors_per_fat = 8;
  sectors_per_track = 32;
  number_of_heads = 2;
  num_hidden_sectors = 0;
  num_sectors_large = 0;
  signature = 0x29;
}

-- The record of `HELLO.TXT`, in cluster 5.
abbrev hello : List ℕ
hello =
    b'H' ∷ b'E' ∷ b'L' ∷ b'L' ∷ b'O' ∷ 32 ∷ 32 ∷ 32 ∷ b'T' ∷ b'X' ∷ b'T' ∷ replicate 15 0
    ++ (5 ∷ replicate 5 0)

-- The record of the directory `BIN.D`, in cluster 7.
abbrev bin : List ℕ
bin =
    b'B' ∷ b'I' ∷ b'N' ∷ 32 ∷ 32 ∷ 32 ∷ 32 ∷ 32 ∷ b'D' ∷ 32 ∷ 32 ∷ 0x10 ∷ replicate 14 0
    ++ (7 ∷ replicate 5 0)

abbrev root : FatDirectory
root = record { items = hello ++ bin; total = 2; sector_pos = 17; ending_sector_pos = 18 }

abbrev private : FatPrivate
private = record { header = header; root_directory = root }

fat16_read-slice_example :
    fat16_read drive private (record { item = file_item hello; position = 3 }) 2 3
    ≡ some (record { res = pos 3; bytes = slice image (30 * sector_size + 3) 6 })
unfolding fat16_get_first_cluster fat16_cluster_to_sector
fat16_read-slice_example =
    fat16_read-slice drive image drive-Serves private hello 3 2 3 (omega arith) (omega arith)
      (omega arith)

abbrev hello_txt : List ℕ
hello_txt = b'h' ∷ b'e' ∷ b'l' ∷ b'l' ∷ b'o' ∷ b'.' ∷ b't' ∷ b'x' ∷ b't' ∷ []

abbrev bin_d : List ℕ
bin_d = b'b' ∷ b'i' ∷ b'n' ∷ b'.' ∷ b'd' ∷ []

-- A disk of zeros: the directory has no records.
abbrev zeros : BlockDevice
zeros k = (ne, replicate sector_size 0)

hello_txt-found :
    fat16_get_directory_entry zeros private 1 hello_txt [] ≡ some (some (file_item hello))
unfolding fat16_get_directory_entry fat16_find_item_in_directory find_loop
    fat16_get_full_relative_filename fat16_to_string istrncmp fat16_new_fat_item_for_directory_item
    entry_loop fat16_clone_directory_item
hello_txt-found = refl

bin_d-absent : fat16_get_directory_entry zeros private 1 bin_d (hello_txt ∷ []) ≡ some none
unfolding fat16_get_directory_entry fat16_find_item_in_directory find_loop
    fat16_get_full_relative_filename fat16_to_string istrncmp fat16_new_fat_item_for_directory_item
    entry_loop fat16_clone_directory_item fat16_load_fat_directory
    fat16_get_total_items_for_directory count_loop diskstreamer_read stream_loop round_size
    fat16_sector_to_absolute fat16_cluster_to_sector fat16_get_first_cluster fat16_read_internal
    read_internal_loop
bin_d-absent = refl

directory_entry-none_example :
    fat16_get_directory_entry zeros private 1 bin_d (hello_txt ∷ []) ≢ some (some (file_item hello))
directory_entry-none_example =
    directory_entry-none zeros private 1 bin_d hello_txt [] (file_item hello)

-- Three records, of which the second is deleted.
abbrev records : ℕ → ℕ
records a = if a == 32 then 0xe5 else if ltb a 96 then b'A' else 0

abbrev records_drive : BlockDevice
records_drive k = (ne, slice records (k * sector_size) sector_size)

records_drive-Serves : Serves records_drive records
records_drive-Serves k h = refl

total_items_lem_example : fat16_get_total_items_for_directory records_drive 4 0 ≡ some (pos 2)
unfolding used_items
total_items_lem_example =
    total_items_lem records_drive records records_drive-Serves 3 4 0 (omega arith) (omega arith)
      filled refl
  where
    filled : (k : ℕ) → k < 3 → records (0 + k * item_size) ≢ 0
    filled k h = ground arith

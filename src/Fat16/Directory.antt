-- ===== src/Fat16/Directory.antt =====
-- src/kernel/fs/fat/fat16.c: directories, and the way from a path to an item. A loop over records on
-- the disk takes fuel, and `none` is then that it ran out, or an access outside of an object.
use os_dev_mtk.Base.{
  ℕ, zero, suc, ◌+◌, ◌*◌, ◌/◌, ◌%◌, ◌^◌, not, Option, none, some, List, [], ◌∷◌, ◌++◌, ◌-◌, length,
  replicate, ◌>>=◌, bit_and, ◌==◌, if◌then◌else◌, drop, ℤ, pos, ne, eio, to_word,
}
use os_dev_mtk.Disk.{BlockDevice, sector_size, diskstreamer_read}
use os_dev_mtk.Text.{istrncmp}
use os_dev_mtk.PathParser.{max_path_len, is_zero}
use os_dev_mtk.Fat16.Layout.{
  FatHeader, FatPrivate, FatDirectory, FatItem, file_item, directory_item, item_size, u8,
  attributes,
}
use os_dev_mtk.Fat16.Clusters.{
  is_ne, fat16_sector_to_absolute, fat16_get_first_cluster, fat16_cluster_to_sector,
  fat16_read_internal,
}
use os_dev_mtk.Fat16.Names.{fat16_get_full_relative_filename, fat16_clone_directory_item}

-- `FAT_MASKS_FILE_SUBDIRECTORY`
abbrev pub subdirectory : ℕ
subdirectory = 0x10

-- What `fat16_load_fat_directory` returns: a pointer that is NULL, good, or to a block that has been
-- freed.
pub data Loaded : Type 0 where
  null : Loaded
  loaded : FatDirectory → Loaded
  freed : Loaded

-- The buffer that the parser allocates for the characters of a part: zeros behind them.
abbrev pub part_buffer : (part : List ℕ) → List ℕ
part_buffer part = part ++ replicate (max_path_len - length part) 0

module _ (block : BlockDevice) where
  -- The `while (1)` loop from a position on, with `i` items counted.
  unfoldable pub count_loop : (fuel position i : ℕ) → Option ℤ
  count_loop zero position i = none
  count_loop (suc k) position i =
      let r = diskstreamer_read block position item_size in
      let first = u8 r.bytes 0 in
      let next = count_loop k r.position (if first == 0xe5 then i else i + 1) in
      if not (is_ne r.res) then some eio else if first == 0 then some (pos i) else next

  unfoldable pub fat16_get_total_items_for_directory : (fuel start_sector : ℕ) → Option ℤ
  fat16_get_total_items_for_directory fuel start_sector =
      count_loop fuel (fat16_sector_to_absolute start_sector) 0

  -- The result, and the directory that is filled in.
  unfoldable pub fat16_get_root_directory :
      (fuel : ℕ) → FatHeader → Option (ℤ × Option FatDirectory)
  fat16_get_root_directory fuel header =
      let sector_pos =
        header.num_fat_copies * header.sectors_per_fat + header.num_reserved_sectors in
      let size = header.root_directory_entries * item_size in
      fat16_get_total_items_for_directory fuel sector_pos >>= λ total_items.
      let r = diskstreamer_read block (fat16_sector_to_absolute sector_pos) size in
      some (
        if not (is_ne r.res) then (eio, none) else (
          ne,
          some (record {
            items = r.bytes;
            total = to_word total_items;
            sector_pos = sector_pos;
            ending_sector_pos = sector_pos + size / sector_size;
          }),
        ))

  module _ (private : FatPrivate) where
    unfoldable pub fat16_load_fat_directory : (fuel : ℕ) → (item : List ℕ) → Option Loaded
    fat16_load_fat_directory fuel item =
        if bit_and (attributes item) subdirectory == 0
        then some null
        else let cluster = fat16_get_first_cluster item in
          let sector = fat16_cluster_to_sector private cluster in
          fat16_get_total_items_for_directory fuel sector >>= λ total_items.
          let total = to_word total_items in
          fat16_read_internal block private cluster 0 (total * item_size % 2 ^ 32) >>= λ r. some (
            if is_ne r.res
            then loaded
                (record { items = r.bytes; total = total; sector_pos = 0; ending_sector_pos = 0 })
            else freed)

    -- The directory is loaded, and then the item's type and the union are overwritten.
    unfoldable pub fat16_new_fat_item_for_directory_item :
        (fuel : ℕ) → (item : List ℕ) → Option FatItem
    fat16_new_fat_item_for_directory_item fuel item =
        let file = file_item (fat16_clone_directory_item item) in
        if bit_and (attributes item) subdirectory == 0
        then some file
        else fat16_load_fat_directory fuel item >>= λ _. some file

    -- The loop over the items that are left, at the bytes of the next; `path` is the buffer of a part.
    unfoldable pub find_loop :
        (fuel rounds : ℕ) → (items path : List ℕ) → Option FatItem → Option (Option FatItem)
    find_loop fuel zero items path found = some found
    find_loop fuel (suc k) items path found =
        fat16_get_full_relative_filename items max_path_len >>= λ name.
        istrncmp name path max_path_len >>= λ order.
        let item =
          if is_zero order
          then (fat16_new_fat_item_for_directory_item fuel items >>= λ f. some (some f))
          else some found in
        item >>= λ found'. find_loop fuel k (drop item_size items) path found'

    -- `path` is the characters of a part.
    unfoldable pub fat16_find_item_in_directory :
        (fuel : ℕ) → FatDirectory → (path : List ℕ) → Option (Option FatItem)
    fat16_find_item_in_directory fuel directory path =
        find_loop fuel directory.total directory.items (part_buffer path) none

    -- The `while` loop over the parts that are left.
    unfoldable pub entry_loop :
        (fuel : ℕ) → (parts : List (List ℕ)) → FatItem → Option (Option FatItem)
    entry_loop fuel [] item = some (some item)
    entry_loop fuel (part ∷ parts) (file_item item) = some none
    entry_loop fuel (part ∷ parts) (directory_item d) =
        fat16_find_item_in_directory fuel d part >>= λ found. elim found [
          | none ↦ elim parts [ [] ↦ some none | _ ∷ _ ↦ none ]
          | some item ↦ entry_loop fuel parts item
        ]

    unfoldable pub fat16_get_directory_entry :
        (fuel : ℕ) → (part : List ℕ) → (parts : List (List ℕ)) → Option (Option FatItem)
    fat16_get_directory_entry fuel part parts =
        fat16_find_item_in_directory fuel private.root_directory part >>= λ found. elim found [
          | none ↦ some none
          | some item ↦ entry_loop fuel parts item
        ]

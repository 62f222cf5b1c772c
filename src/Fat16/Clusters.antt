-- ===== src/Fat16/Clusters.antt =====
-- src/kernel/fs/fat/fat16.c: clusters and the file allocation table, over the sectors of the disk.
-- `none` is a division by zero, where the header has no sectors in a cluster.
use os_dev_mtk.Base.{
  ℕ, zero, suc, ◌+◌, ◌-◌, ◌*◌, ◌/◌, ◌%◌, ◌^◌, Bool, true, false, not, ◌||◌, Option, none, some,
  List, [], ◌++◌, ◌>>=◌, bit_or, ◌==◌, ltb, leb, if◌then◌else◌, ℤ, pos, negsuc, is_neg, ne, eio,
  to_word,
}
use os_dev_mtk.Disk.{BlockDevice, sector_size, diskstreamer_read}
use os_dev_mtk.Fat16.Layout.{FatPrivate, u16, high_16_bits_first_cluster, low_16_bits_first_cluster}

abbrev pub is_ne : ℤ → Bool
is_ne (pos n) = n == 0
is_ne _ = false

unfoldable pub fat16_sector_to_absolute : (sector : ℕ) → ℕ
fat16_sector_to_absolute sector = sector * sector_size % 2 ^ 32

unfoldable pub fat16_get_first_cluster : (item : List ℕ) → ℕ
fat16_get_first_cluster item =
    bit_or (high_16_bits_first_cluster item) (low_16_bits_first_cluster item)

-- `(long) cluster - 2`, modulo 2 ^ 32
unfoldable pub fat16_cluster_to_sector : FatPrivate → (cluster : ℕ) → ℕ
fat16_cluster_to_sector private cluster =
    (private.root_directory.ending_sector_pos
      + (cluster + 2 ^ 32 - 2) * private.header.sectors_per_cluster)
    % 2 ^ 32

unfoldable pub fat16_get_first_fat_sector : FatPrivate → ℕ
fat16_get_first_fat_sector private = private.header.num_reserved_sectors

abbrev pub size_of_cluster_bytes : FatPrivate → ℕ
size_of_cluster_bytes private = private.header.sectors_per_cluster * sector_size

-- What `fat16_read` and the others see of a table entry that ends or breaks a chain.
abbrev pub at_least : ℤ → ℕ → Bool
at_least (pos n) m = leb m n
at_least (negsuc n) m = false

abbrev pub at_most : ℤ → ℕ → Bool
at_most (pos n) m = leb n m
at_most (negsuc n) m = true

abbrev pub equals : ℤ → ℕ → Bool
equals (pos n) m = n == m
equals (negsuc n) m = false

-- What a read returns: the result and the bytes stored.
pub record Fetched : Type 0 where
  pub res : ℤ
  pub bytes : List ℕ

module _ (block : BlockDevice) (private : FatPrivate) where
  -- The position is `fat_table_position * (cluster * BasicOS_FAT16_FAT_ENTRY_SIZE)`.
  unfoldable pub fat16_get_fat_entry : (cluster : ℕ) → ℤ
  fat16_get_fat_entry cluster =
      let fat_table_position = fat16_get_first_fat_sector private * sector_size in
      let r = diskstreamer_read block (fat_table_position * (cluster * 2) % 2 ^ 32) 2 in
      if is_neg r.res then r.res else pos (u16 r.bytes 0)

  unfoldable pub cluster_loop : (rounds cluster_to_use : ℕ) → ℤ
  cluster_loop zero cluster = pos cluster
  cluster_loop (suc k) cluster =
      let entry = fat16_get_fat_entry cluster in
      let more = cluster_loop k (to_word entry) in
      if equals entry 0xff8 || equals entry 0xfff
      then eio
      else if equals entry 0xff7
      then eio
      else if at_least entry 0xff0 || at_most entry 0xff6
      then eio
      else if equals entry 0
      then eio
      else more

  unfoldable pub fat16_get_cluster_for_offset : (starting_cluster offset : ℕ) → Option ℤ
  fat16_get_cluster_for_offset starting_cluster offset =
      if size_of_cluster_bytes private == 0
      then none
      else some (cluster_loop (offset / size_of_cluster_bytes private) starting_cluster)

  -- The `while` loop, with at least as many rounds left as bytes.
  unfoldable pub read_internal_loop : (rounds cluster offset total : ℕ) → ℤ → Option Fetched
  read_internal_loop zero cluster offset total res = some (record { res = res; bytes = [] })
  read_internal_loop (suc k) cluster offset total res =
      let size = size_of_cluster_bytes private in
      let total_to_read = if ltb size total then size else total in
      let more =
        read_internal_loop k cluster ((offset + total_to_read) % 2 ^ 32) (total - total_to_read)
          ne in
      if total == 0
      then some (record { res = res; bytes = [] })
      else fat16_get_cluster_for_offset cluster offset >>= λ cluster_to_use.
          if is_neg cluster_to_use
          then some (record { res = cluster_to_use; bytes = [] })
          else let starting_sector = fat16_cluster_to_sector private (to_word cluster_to_use) in
            let starting_pos = (starting_sector * sector_size + offset % size) % 2 ^ 32 in
            let r = diskstreamer_read block starting_pos total_to_read in
            if not (is_ne r.res)
            then some (record { res = r.res; bytes = r.bytes })
            else more >>= λ rest. some (record rest { bytes = r.bytes ++ rest.bytes })

  unfoldable pub fat16_read_internal : (starting_cluster offset total : ℕ) → Option Fetched
  fat16_read_internal starting_cluster offset total =
      read_internal_loop total starting_cluster offset total ne

-- ===== src/Files/Fat.antt =====
-- `fat16_fs` of src/kernel/fs/fat/fat16.c as a file system, and `fread` on it.
use os_dev_mtk.Base.{
  ℕ, suc, ◌+◌, ◌*◌, ◌^◌, ◌<◌, ◌≤◌, ◌≡◌, some, List, ◌>>=◌, arith, pos, ◌==◌, false,
}
use os_dev_mtk.Disk.{BlockDevice}
use os_dev_mtk.Disk.Read.{slice}
use os_dev_mtk.Disk.Stream.{Serves}
use os_dev_mtk.Fat16.Layout.{FatPrivate, FatFileDescriptor, file_item}
use os_dev_mtk.Fat16.Clusters.{size_of_cluster_bytes, fat16_get_first_cluster}
use os_dev_mtk.Fat16.Driver.{
  Opened, opened, failed, fat16_resolve, fat16_open, fat16_read, fat16_seek, fat16_stat,
  fat16_close,
}
use os_dev_mtk.Fat16.Reading.{cluster_start, fat16_read-slice}
use os_dev_mtk.Files.{FileSystem, Descriptors, Opening, opening, refused, file_get_fd, fread}

abbrev as_opening : Opened → Opening FatFileDescriptor
as_opening (opened d) = opening d
as_opening (failed e) = refused e

-- The driver on the one disk, with its private data.
abbrev pub fat16_fs : BlockDevice → FatPrivate → (fuel : ℕ) → FileSystem FatFileDescriptor
fat16_fs block private fuel = record {
  resolve = λ disk. fat16_resolve block fuel >>= λ r. some (r.0);
  open_file =
      λ part parts mode. fat16_open block private fuel part parts mode >>= λ o. some (as_opening o);
  read_items = fat16_read block private;
  seek = fat16_seek;
  stat = fat16_stat;
  close = fat16_close;
}

-- On a disk whose sectors below 4 GiB can be read, `fread` through the number of a descriptor of the
-- FAT16 driver, for items within the first cluster of its file, returns the number of items and the bytes of the disk from its position on.
pub fread-slice :
    (block : BlockDevice) (image : ℕ → ℕ) (private : FatPrivate) (fuel : ℕ)
    (table : Descriptors FatFileDescriptor) (fd id : ℕ) (item : List ℕ) (position size nmemb : ℕ)
    → Serves block image
    → 0 < size
    → 0 < nmemb
    → file_get_fd table (pos (suc fd))
      ≡ some (record {
        id = id;
        fs = fat16_fs block private fuel;
        private = record { item = file_item item; position = position };
      })
    → fat16_get_first_cluster item < 2 ^ 32
    → position + nmemb * size ≤ size_of_cluster_bytes private
    → cluster_start private (fat16_get_first_cluster item) + position + nmemb * size < 2 ^ 32
    → fread table size nmemb (pos (suc fd))
      ≡ some (record {
        res = pos nmemb;
        bytes =
            slice image
              (cluster_start private (fat16_get_first_cluster item) + position)
              (nmemb * size);
      })
unfolding fread
fread-slice block image private fuel table fd id item position size nmemb serves s m found word
      inside on_disk =
    let size_given : (size == 0) ≡ false = ground arith in
    let items_given : (nmemb == 0) ≡ false = ground arith in
    let number_given : (suc fd == 0) ≡ false = ground arith in
    rw (size_given, items_given, number_given, found)
      (fat16_read-slice block image serves private item position size nmemb word inside on_disk)

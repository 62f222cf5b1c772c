-- ===== src/Fat16/Reading.antt =====
-- `fat16_read` within the first cluster of a file.
use os_dev_mtk.Base.{
  ℕ, zero, suc, ◌+◌, ◌-◌, ◌*◌, ◌/◌, ◌%◌, ◌^◌, ◌<◌, ◌≤◌, ◌≡◌, refl, sym, ap, false, some, List, [],
  arith, ◌==◌, ltb, pos, ne,
}
use mathlib.Core.List.{append-nil}
use native.Mathlib.Nat.{mod-eq_of_lt, div-eq_of_lt}
use os_dev_mtk.Disk.{BlockDevice, sector_size}
use os_dev_mtk.Disk.Read.{slice}
use os_dev_mtk.Disk.Stream.{Serves, slice-add, diskstreamer_read-slice}
use os_dev_mtk.Fat16.Layout.{FatPrivate, file_item}
use os_dev_mtk.Fat16.Clusters.{
  size_of_cluster_bytes, fat16_cluster_to_sector, fat16_get_first_cluster, cluster_loop,
  fat16_get_cluster_for_offset, read_internal_loop, fat16_read_internal,
}
use os_dev_mtk.Fat16.Driver.{read_loop, fat16_read}

-- The address of a cluster on the disk.
abbrev pub cluster_start : FatPrivate → (cluster : ℕ) → ℕ
cluster_start private cluster = fat16_cluster_to_sector private cluster * sector_size

module _ (block : BlockDevice) (image : ℕ → ℕ) (serves : Serves block image) where
  module _ (private : FatPrivate) where
    cluster_for_offset-first :
        (cluster offset : ℕ)
        → offset < size_of_cluster_bytes private
        → fat16_get_cluster_for_offset block private cluster offset ≡ some (pos cluster)
    unfolding fat16_get_cluster_for_offset cluster_loop
    cluster_for_offset-first cluster offset h =
        let divides : (size_of_cluster_bytes private == 0) ≡ false = ground arith in
        let rounds : offset / size_of_cluster_bytes private ≡ 0 = div-eq_of_lt h in
        rw (divides, rounds)

    finished :
        (rounds cluster offset total : ℕ)
        → total ≡ 0
        → read_internal_loop block private rounds cluster offset total ne
          ≡ some (record { res = ne; bytes = [] })
    unfolding read_internal_loop
    finished zero cluster offset total h = refl
    finished (suc k) cluster offset total h = rw h

    module _ (cluster offset : ℕ) (word : cluster < 2 ^ 32) where
      read_internal_loop-slice :
          (k t : ℕ)
          → offset + suc t ≤ size_of_cluster_bytes private
          → cluster_start private cluster + offset + suc t < 2 ^ 32
          → read_internal_loop block private (suc k) cluster offset (suc t) ne
            ≡ some (record {
              res = ne;
              bytes = slice image (cluster_start private cluster + offset) (suc t);
            })
      unfolding read_internal_loop
      read_internal_loop-slice k t inside on_disk =
          let more : (suc t == 0) ≡ false = ground arith in
          let whole : ltb (size_of_cluster_bytes private) (suc t) ≡ false = ground arith in
          let within : offset % size_of_cluster_bytes private ≡ offset =
            mod-eq_of_lt (omega arith) in
          let here : cluster % 2 ^ 32 ≡ cluster = mod-eq_of_lt word in
          let start : (cluster_start private cluster + offset) % 2 ^ 32
              ≡ cluster_start private cluster + offset =
            mod-eq_of_lt (omega arith) in
          let rest = finished k cluster ((offset + suc t) % 2 ^ 32) (suc t - suc t) (omega arith) in
          rw
            (
              more,
              cluster_for_offset-first cluster offset (omega arith),
              here,
              whole,
              within,
              start,
              diskstreamer_read-slice block image serves (cluster_start private cluster + offset)
                  (suc t) on_disk,
              rest,
            )
            (ap (λ (l : List ℕ). some (record { res = ne; bytes = l }))
              (append-nil (slice image (cluster_start private cluster + offset) (suc t))))

      -- A read within a cluster returns the bytes of that cluster.
      pub read_internal-slice :
          (total : ℕ)
          → offset + total ≤ size_of_cluster_bytes private
          → cluster_start private cluster + offset + total < 2 ^ 32
          → fat16_read_internal block private cluster offset total
            ≡ some (record {
              res = ne;
              bytes = slice image (cluster_start private cluster + offset) total;
            })
      unfolding fat16_read_internal slice read_internal_loop
      read_internal-slice zero inside on_disk = refl
      read_internal-slice (suc t) inside on_disk = read_internal_loop-slice t t inside on_disk

    module _ (item : List ℕ) (word : fat16_get_first_cluster item < 2 ^ 32) where
      read_loop-slice :
          (nmemb k offset size : ℕ)
          → offset + k * size ≤ size_of_cluster_bytes private
          → cluster_start private (fat16_get_first_cluster item) + offset + k * size < 2 ^ 32
          → read_loop block private item k offset size nmemb
            ≡ some (record {
              res = pos nmemb;
              bytes =
                  slice image
                    (cluster_start private (fat16_get_first_cluster item) + offset)
                    (k * size);
            })
      unfolding read_loop slice
      read_loop-slice nmemb zero offset size inside on_disk =
          let nothing : zero * size ≡ 0 = omega arith in rw nothing
      read_loop-slice nmemb (suc k) offset size inside on_disk =
          let start : ℕ = cluster_start private (fat16_get_first_cluster item) in
          let total : suc k * size ≡ size + k * size = omega arith in
          let moved : (offset + size) % 2 ^ 32 ≡ offset + size = mod-eq_of_lt (omega arith) in
          let ih = read_loop-slice nmemb k (offset + size) size (omega arith) (omega arith) in
          let next : start + (offset + size) ≡ start + offset + size = omega arith in
          rw
            (
              read_internal-slice (fat16_get_first_cluster item) offset word size (omega arith)
                  (omega arith),
              moved,
              ih,
              next,
              total,
            )
            (ap (λ (l : List ℕ). some (record { res = pos nmemb; bytes = l }))
              (sym (slice-add image size (start + offset) (k * size))))

    -- On a disk whose sectors below 4 GiB can be read, `fat16_read` of `nmemb` items that lie within
    -- the first cluster of a file returns `nmemb`, and stores the bytes of the disk from the
    -- descriptor's position on.
    pub fat16_read-slice :
        (item : List ℕ) (position size nmemb : ℕ)
        → fat16_get_first_cluster item < 2 ^ 32
        → position + nmemb * size ≤ size_of_cluster_bytes private
        → cluster_start private (fat16_get_first_cluster item) + position + nmemb * size < 2 ^ 32
        → fat16_read block private
            (record { item = file_item item; position = position })
            size
            nmemb
          ≡ some (record {
            res = pos nmemb;
            bytes =
                slice image
                  (cluster_start private (fat16_get_first_cluster item) + position)
                  (nmemb * size);
          })
    unfolding fat16_read
    fat16_read-slice item position size nmemb word inside on_disk =
        read_loop-slice item word nmemb nmemb position size inside on_disk

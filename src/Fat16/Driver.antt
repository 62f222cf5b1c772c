-- ===== src/Fat16/Driver.antt =====
-- src/kernel/fs/fat/fat16.c: the operations that `fat16_fs` offers to src/kernel/fs/file.c.
use os_dev_mtk.Base.{
  ℕ, zero, suc, ◌+◌, ◌%◌, ◌^◌, not, Option, none, some, List, [], ◌++◌, ◌>>=◌, bit_and, ◌==◌, leb,
  if◌then◌else◌, ℤ, pos, is_neg, ne, eio, einvarg, efsnotsupported, to_word, erdonly, eunimp,
}
use os_dev_mtk.Disk.{BlockDevice, diskstreamer_read}
use os_dev_mtk.Fat16.Layout.{
  FatPrivate, file_item, directory_item, FatFileDescriptor, header_size, header_of, attributes,
  file_size,
}
use os_dev_mtk.Fat16.Clusters.{Fetched, is_ne, fat16_get_first_cluster, fat16_read_internal}
use os_dev_mtk.Fat16.Directory.{fat16_get_root_directory, fat16_get_directory_entry}

-- `FILE_MODE`
pub data FileMode : Type 0 where
  read write append invalid : FileMode

-- `file_seek_mode`: a value that is none of the three is `other`.
pub data SeekMode : Type 0 where
  seek_set seek_cur seek_end other : SeekMode

-- `struct file_stat`
pub record FileStat : Type 0 where
  pub flags : ℕ
  pub file_size : ℕ

-- What `fat16_open` returns: a descriptor, or an error in a pointer.
pub data Opened : Type 0 where
  opened : FatFileDescriptor → Opened
  failed : ℤ → Opened

module _ (block : BlockDevice) where
  -- The result, an `unsigned char`, and `disk->fs_private`.
  unfoldable pub fat16_resolve : (fuel : ℕ) → Option (ℕ × Option FatPrivate)
  fat16_resolve fuel =
      let r = diskstreamer_read block 0 header_size in
      let header = header_of r.bytes in
      if not (is_ne r.res)
      then some (to_word eio % 256, none)
      else if not (header.signature == 0x29)
      then some (to_word efsnotsupported % 256, none)
      else (fat16_get_root_directory block fuel header >>= λ root. some (elim (root.1) [
        | none ↦ (to_word eio % 256, none)
        | some d ↦ (0, some (record { header = header; root_directory = d }))
      ]))

  module _ (private : FatPrivate) where
    unfoldable pub fat16_open :
        (fuel : ℕ) → (part : List ℕ) → (parts : List (List ℕ)) → FileMode → Option Opened
    fat16_open fuel part parts read =
        fat16_get_directory_entry block private fuel part parts >>= λ found. some (elim found [
          | none ↦ failed eio
          | some item ↦ opened (record { item = item; position = 0 })
        ])
    fat16_open fuel part parts _ = some (failed erdonly)

    -- The `for` loop, with the rounds that are left: the result and the bytes stored.
    unfoldable pub read_loop : (item : List ℕ) → (rounds offset size nmemb : ℕ) → Option Fetched
    read_loop item zero offset size nmemb = some (record { res = pos nmemb; bytes = [] })
    read_loop item (suc k) offset size nmemb =
        let more = read_loop item k ((offset + size) % 2 ^ 32) size nmemb in
        fat16_read_internal block private (fat16_get_first_cluster item) offset size >>= λ r.
        if is_neg r.res
        then some r
        else more >>= λ rest. some (record rest { bytes = r.bytes ++ rest.bytes })

    -- A descriptor of a directory would have its directory read as an item: `none`.
    unfoldable pub fat16_read : FatFileDescriptor → (size nmemb : ℕ) → Option Fetched
    fat16_read desc size nmemb = elim (desc.item) [
      | directory_item d ↦ none
      | file_item item ↦ read_loop item nmemb desc.position size nmemb
    ]

unfoldable pub fat16_close : FatFileDescriptor → ℤ
fat16_close desc = ne

-- `FAT_MASKS_FILE_READ_ONLY` and `FILE_STAT_RO` are 1.
unfoldable pub fat16_stat : FatFileDescriptor → FileStat → ℤ × FileStat
fat16_stat desc stat = elim (desc.item) [
  | directory_item d ↦ (einvarg, stat)
  | file_item item ↦ (
    ne,
    record {
      flags = if bit_and (attributes item) 0x01 == 0 then 0 else 1;
      file_size = file_size item;
    },
  )
]

unfoldable pub seek_by : SeekMode → (size position offset : ℕ) → ℤ × ℕ
seek_by seek_set size position offset = (ne, offset)
seek_by seek_end size position offset = (eunimp, position)
seek_by seek_cur size position offset = (ne, (position + offset) % 2 ^ 32)
seek_by other size position offset = (einvarg, position)

unfoldable pub fat16_seek : FatFileDescriptor → (offset : ℕ) → SeekMode → ℤ × FatFileDescriptor
unfolding seek_by
fat16_seek desc offset mode = elim (desc.item) [
  | directory_item d ↦ (einvarg, desc)
  | file_item item ↦
      let (res, position) = seek_by mode (file_size item) desc.position offset in
      if leb (file_size item) offset
      then (eio, desc)
      else (res, record desc { position = position })
]

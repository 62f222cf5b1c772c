-- ===== src/Disk.antt =====
-- src/kernel/disk/disk.c and streamer.c. The ATA controller behind the ports of io.asm is a
-- parameter: `device c j` is word `j` of what it sends after the command `c`; the loop that waits
-- for its ready bit is taken to end. A client of the driver sees a `BlockDevice`: the result of
-- reading one sector, and its 512 bytes.
pub mod Read
pub mod Stream
mod Tests
use os_dev_mtk.Base.{
  ℕ, zero, suc, ◌+◌, ◌-◌, ◌*◌, ◌/◌, ◌%◌, ◌^◌, Bool, true, false, Option, none, some, List, [], ◌∷◌,
  ◌++◌, bit_and, bit_or, ◌==◌, ltb, leb, if◌then◌else◌, take, drop, ℤ, pos, is_neg, ne, eio,
}

abbrev pub sector_size : ℕ
sector_size = 512

-- The bytes written to ports 0x1F6, 0x1F2, 0x1F3, 0x1F4, 0x1F5 and 0x1F7, in this order.
pub record Command : Type 0 where
  pub drive_head : ℕ
  pub count : ℕ
  pub lba_low : ℕ
  pub lba_mid : ℕ
  pub lba_high : ℕ
  pub command : ℕ

-- `struct disk`, without the file system's pointers, which Fat16 keeps.
pub record Disk : Type 0 where
  pub kind : ℕ
  pub size_of_sector : ℕ
  pub id : ℕ

-- `outb` sends the low byte of its value.
unfoldable pub read_command : (lba total : ℕ) → Command
read_command lba total = record {
  drive_head = bit_or (lba / 2 ^ 24) 0xe0 % 256;
  count = total % 256;
  lba_low = bit_and lba 0xff;
  lba_mid = lba / 2 ^ 8 % 256;
  lba_high = lba / 2 ^ 16 % 256;
  command = 0x20;
}

-- The inner loop: `n` more words from word `j` on, each stored low byte first.
unfoldable pub read_words : (ℕ → ℕ) → (n j : ℕ) → List ℕ
read_words words zero j = []
read_words words (suc n) j = words j % 256 ∷ words j / 256 % 256 ∷ read_words words n (j + 1)

-- The outer loop: 256 words for each of the sectors that are left.
unfoldable pub read_sectors : (ℕ → ℕ) → (n j : ℕ) → List ℕ
read_sectors words zero j = []
read_sectors words (suc n) j = read_words words 256 j ++ read_sectors words n (j + 256)

unfoldable pub disk_read_sector : (Command → ℕ → ℕ) → (lba total : ℕ) → ℤ × List ℕ
disk_read_sector device lba total = (ne, read_sectors (device (read_command lba total)) total 0)

-- The one disk of the system; its file system is stored by Start.
unfoldable pub the_disk : Disk
the_disk = record { kind = 0; size_of_sector = sector_size; id = 0 }

unfoldable pub disk_get : (index : ℕ) → Option Disk
disk_get index = if index == 0 then some the_disk else none

-- `is_disk` says whether the argument is the address of `disk`.
unfoldable pub disk_read_block : (Command → ℕ → ℕ) → (is_disk : Bool) → (lba total : ℕ) → ℤ × List ℕ
disk_read_block device false lba total = (eio, [])
disk_read_block device true lba total = disk_read_sector device lba total

-- `disk_read_block(disk, lba, 1, buf)` as the streamer sees it.
abbrev pub BlockDevice : Type 0
BlockDevice = ℕ → ℤ × List ℕ

-- `struct disk_stream`
pub record DiskStream : Type 0 where
  pub position : ℕ
  pub disk_id : ℕ

unfoldable pub diskstreamer_new : (d_id : ℕ) → Option DiskStream
unfolding disk_get the_disk
diskstreamer_new d_id = elim (disk_get d_id) [
  | none ↦ none
  | some d ↦ some (record { position = 0; disk_id = d.id })
]

unfoldable pub diskstreamer_seek : DiskStream → (position : ℕ) → ℤ × DiskStream
diskstreamer_seek s position = (ne, record s { position = position })

-- The result, the position afterwards and the bytes stored.
pub record ReadResult : Type 0 where
  pub res : ℤ
  pub position : ℕ
  pub bytes : List ℕ

-- What one round reads: up to the end of the sector.
unfoldable pub round_size : (position total : ℕ) → ℕ
round_size position total =
    let offset = position % sector_size in
    if leb sector_size (offset + total) then total - (offset + total - sector_size) else total

-- The `while` loop, with at least as many rounds left as bytes.
unfoldable pub stream_loop : BlockDevice → (rounds position total : ℕ) → ℤ → ReadResult
stream_loop block zero position total res = record { res = res; position = position; bytes = [] }
stream_loop block (suc k) position total res =
    let n = round_size position total in
    let (res', buf) = block (position / sector_size) in
    let more = stream_loop block k ((position + n) % 2 ^ 32) (total - n) res' in
    if total == 0
    then record { res = res; position = position; bytes = [] }
    else if is_neg res'
    then record { res = res'; position = position; bytes = [] }
    else record more { bytes = take n (drop (position % sector_size) buf) ++ more.bytes }

unfoldable pub diskstreamer_read : BlockDevice → (position total : ℕ) → ReadResult
diskstreamer_read block position total = stream_loop block total position total ne

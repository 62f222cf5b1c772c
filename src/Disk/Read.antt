-- ===== src/Disk/Read.antt =====
-- `disk_read_sector` on a controller that answers as the ATA standard says.
use os_dev_mtk.Base.{
  ℕ, zero, suc, ◌+◌, ◌*◌, ◌/◌, ◌%◌, ◌^◌, ◌<◌, ◌≡◌, refl, ◌∙◌, ap, Bool, true, ◌&&◌, List, [], ◌∷◌,
  bit_or, arith, ◌==◌, ==_iff, ne,
}
use mathlib.Core.List.{append-nil}
use os_dev_mtk.Base.Bits.{bit_and-low}
use os_dev_mtk.Disk.{Command, sector_size, read_command, read_words, read_sectors, disk_read_sector}

-- The `n` bytes of an image from an address on.
unfoldable pub slice : (ℕ → ℕ) → (start n : ℕ) → List ℕ
slice image start zero = []
slice image start (suc n) = image start ∷ slice image (start + 1) n

-- The 28-bit address that the registers of a command hold.
abbrev pub address : Command → ℕ
address c = c.drive_head % 16 * 2 ^ 24 + c.lba_high * 2 ^ 16 + c.lba_mid * 2 ^ 8 + c.lba_low

-- In the command 0x20 the controller sends the sectors from the address on, as words, low byte first.
abbrev pub IsAta : (Command → ℕ → ℕ) → (ℕ → ℕ) → Type 0
IsAta device image =
    (c : Command) (j : ℕ)
    → c.command ≡ 0x20
    → j < c.count * 256
    → device c j
      ≡ image (address c * sector_size + 2 * j) + 256 * image (address c * sector_size + 2 * j + 1)

check_below : ℕ → (ℕ → Bool) → Bool
check_below zero p = true
check_below (suc n) p = p n && check_below n p

check_below_lem : (n x : ℕ) (p : ℕ → Bool) → check_below n p ≡ true → x < n → p x ≡ true
unfolding check_below
check_below_lem zero x p h l = elim l [ ]
check_below_lem (suc n) x p h l = ground (arith, check_below_lem n x p)

-- The four high bits of the address survive the selector byte.
drive_head_table : check_below 16 (λ q. bit_or q 0xe0 % 256 % 16 == q) ≡ true
unfolding check_below
drive_head_table = refl

pub address_lem : (lba total : ℕ) → lba < 2 ^ 28 → address (read_command lba total) ≡ lba
unfolding read_command
address_lem lba total h =
    let high =
      (==_iff _ (lba / 2 ^ 24)).0
        (check_below_lem 16 (lba / 2 ^ 24) _ drive_head_table (omega arith)) in
    omega (arith, high, bit_and-low 8 lba)

module _ (words image : ℕ → ℕ) (base : ℕ) (byte : (a : ℕ) → image a < 256) where
  read_words-slice :
      (n j end : ℕ)
      → j + n ≡ end
      → ((i : ℕ) → i < end → words i ≡ image (base + 2 * i) + 256 * image (base + 2 * i + 1))
      → read_words words n j ≡ slice image (base + 2 * j) (2 * n)
  unfolding read_words slice
  read_words-slice zero j end e w = refl
  read_words-slice (suc n) j end e w =
      let twice : 2 * suc n ≡ suc (suc (2 * n)) = omega arith in
      let next : base + 2 * (j + 1) ≡ base + 2 * j + 1 + 1 = omega arith in
      let low : words j % 256 ≡ image (base + 2 * j) =
        omega (arith, w j (omega arith), byte (base + 2 * j)) in
      let high : words j / 256 % 256 ≡ image (base + 2 * j + 1) =
        omega (arith, w j (omega arith), byte (base + 2 * j), byte (base + 2 * j + 1)) in
      rw (twice, low, high, ← next)
        (ap (λ l. image (base + 2 * j) ∷ image (base + 2 * j + 1) ∷ l)
          (read_words-slice n (j + 1) end (omega arith) w))

-- With a controller that answers as the ATA standard says, `disk_read_sector` of one sector stores
-- its 512 bytes, for every address of 28 bits.
pub read_sector-slice :
    (device : Command → ℕ → ℕ) (image : ℕ → ℕ) (lba : ℕ)
    → IsAta device image
    → ((a : ℕ) → image a < 256)
    → lba < 2 ^ 28
    → disk_read_sector device lba 1 ≡ (ne, slice image (lba * sector_size) 512)
unfolding disk_read_sector read_sectors read_command
read_sector-slice device image lba ata byte h =
    let c : Command = read_command lba 1 in
    let at = address_lem lba 1 h in
    let words =
      read_words-slice (device c) image (address c * sector_size) byte 256 0 256 refl
        (λ i l. ata c i refl l) in
    let start : address c * sector_size + 2 * 0 ≡ lba * sector_size = omega (arith, at) in
    ap (λ (l : List ℕ). (ne, l)) (append-nil _ ∙ words ∙ ap (λ (s : ℕ). slice image s 512) start)

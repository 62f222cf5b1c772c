-- ===== src/Disk/Tests.antt =====
-- The theorems of the disk at a concrete image.
use os_dev_mtk.Base.{ℕ, ◌+◌, ◌*◌, ◌%◌, ◌≡◌, refl, [], ◌∷◌, arith, ne}
use os_dev_mtk.Disk.{BlockDevice, Command, sector_size, diskstreamer_read}
use os_dev_mtk.Disk.Read.{slice, address, IsAta}
use os_dev_mtk.Disk.Stream.{Serves, diskstreamer_read-slice}

-- Each byte is its address modulo 251.
abbrev image : ℕ → ℕ
image a = a % 251

abbrev controller : Command → ℕ → ℕ
controller c j =
    image (address c * sector_size + 2 * j) + 256 * image (address c * sector_size + 2 * j + 1)

controller-IsAta : IsAta controller image
controller-IsAta c j h l = refl

abbrev drive : BlockDevice
drive k = (ne, slice image (k * sector_size) sector_size)

drive-Serves : Serves drive image
drive-Serves k h = refl

diskstreamer_read-slice_example :
    diskstreamer_read drive 510 4
    ≡ record { res = ne; position = 514; bytes = 8 ∷ 9 ∷ 10 ∷ 11 ∷ [] }
unfolding slice
diskstreamer_read-slice_example =
    diskstreamer_read-slice drive image drive-Serves 510 4 (omega arith)

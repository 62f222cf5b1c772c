-- ===== src/Fat16/Count.antt =====
-- `fat16_get_total_items_for_directory` on the bytes of the disk.
use os_dev_mtk.Base.{
  ℕ, zero, suc, ◌+◌, ◌*◌, ◌%◌, ◌^◌, ◌<◌, ◌≡◌, ◌≢◌, ◌∙◌, sym, ap, inl, inr, false, some, arith, ◌==◌,
  if◌then◌else◌, pos, Bool-cases,
}
use os_dev_mtk.Disk.{BlockDevice, sector_size}
use os_dev_mtk.Disk.Read.{slice}
use os_dev_mtk.Disk.Stream.{Serves, diskstreamer_read-slice}
use os_dev_mtk.Fat16.Layout.{item_size}
use os_dev_mtk.Fat16.Clusters.{fat16_sector_to_absolute}
use os_dev_mtk.Fat16.Directory.{count_loop, fat16_get_total_items_for_directory}

module _ (block : BlockDevice) (image : ℕ → ℕ) (serves : Serves block image) where
  -- The records from a position on that are in use.
  unfoldable pub used_items : (position n : ℕ) → ℕ
  used_items position zero = 0
  used_items position (suc n) =
      (if image position == 0xe5 then 0 else 1) + used_items (position + item_size) n

  count_loop-used :
      (n fuel position i : ℕ)
      → n < fuel
      → position + n * item_size + item_size < 2 ^ 32
      → ((k : ℕ) → k < n → image (position + k * item_size) ≢ 0)
      → image (position + n * item_size) ≡ 0
      → count_loop block fuel position i ≡ some (pos (i + used_items position n))
  unfolding count_loop used_items slice
  count_loop-used n zero position i more on_disk filled blank = absurd (elim more [ ])
  count_loop-used zero (suc fuel) position i more on_disk filled blank =
      let here : position + 0 * item_size ≡ position = omega arith in
      let last : image position ≡ 0 = ap image (sym here) ∙ blank in
      let same : i ≡ i + 0 = omega arith in
      rw (diskstreamer_read-slice block image serves position item_size (omega arith), last)
        (ap (λ (n : ℕ). some (pos n)) same)
  count_loop-used (suc n) (suc fuel) position i more on_disk filled blank =
      let here : position + 0 * item_size ≡ position = omega arith in
      let used : image position ≢ 0 = λ e. filled 0 (omega arith) (ap image here ∙ e) in
      let used' : (image position == 0) ≡ false = ground (arith, used) in
      let one : ℕ = if image position == 0xe5 then 0 else 1 in
      let on : (k : ℕ) → position + suc k * item_size ≡ position + item_size + k * item_size =
        λ k. omega arith in
      let counted : (if image position == 0xe5 then i else i + 1) ≡ i + one =
        elim (Bool-cases (image position == 0xe5)) [ inl e ↦ rw e (omega arith) | inr e ↦ rw e ] in
      let ih =
        count_loop-used n fuel (position + item_size) (i + one) (omega arith) (omega arith)
          (λ k l z. filled (suc k) (omega arith) (ap image (on k) ∙ z))
          (ap image (sym (on n)) ∙ blank) in
      let sum : i + one + used_items (position + item_size) n
          ≡ i + (one + used_items (position + item_size) n) =
        omega arith in
      rw
        (
          diskstreamer_read-slice block image serves position item_size (omega arith),
          used',
          counted,
          ih,
        )
        (ap (λ (n : ℕ). some (pos n)) sum)

  -- On a disk whose sectors below 4 GiB can be read, a directory there of `n` records before the first
  -- blank one counts as the records among them that are not deleted, and `n + 1` rounds of the loop
  -- are enough.
  pub total_items_lem :
      (n fuel start_sector : ℕ)
      → n < fuel
      → start_sector * sector_size + n * item_size + item_size < 2 ^ 32
      → ((k : ℕ) → k < n → image (start_sector * sector_size + k * item_size) ≢ 0)
      → image (start_sector * sector_size + n * item_size) ≡ 0
      → fat16_get_total_items_for_directory block fuel start_sector
        ≡ some (pos (used_items (start_sector * sector_size) n))
  unfolding fat16_get_total_items_for_directory fat16_sector_to_absolute
  total_items_lem n fuel start_sector more on_disk filled blank =
      let word : start_sector * sector_size % 2 ^ 32 ≡ start_sector * sector_size = omega arith in
      let none_yet : 0 + used_items (start_sector * sector_size) n
          ≡ used_items (start_sector * sector_size) n =
        omega arith in
      rw word (
        count_loop-used n fuel (start_sector * sector_size) 0 more on_disk filled blank
        ∙ ap (λ (m : ℕ). some (pos m)) none_yet)

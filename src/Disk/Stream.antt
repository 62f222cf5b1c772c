-- ===== src/Disk/Stream.antt =====
-- `diskstreamer_read` against the bytes of the disk.
use os_dev_mtk.Base.{
  ℕ, zero, suc, ◌+◌, ◌-◌, ◌*◌, ◌/◌, ◌%◌, ◌^◌, ◌<◌, ◌≤◌, ◌≡◌, refl, ◌∙◌, sym, ap, false, List, [],
  ◌∷◌, ◌++◌, arith, ◌==◌, ne, take, drop, ℤ,
}
use os_dev_mtk.Disk.{
  BlockDevice, ReadResult, sector_size, round_size, stream_loop, diskstreamer_read,
}
use os_dev_mtk.Disk.Read.{slice}

-- Every sector of the first 4 GiB can be read, and holds the bytes of the image.
abbrev pub Serves : BlockDevice → (ℕ → ℕ) → Type 0
Serves block image =
    (k : ℕ) → k < 2 ^ 23 → block k ≡ (ne, slice image (k * sector_size) sector_size)

module _ (image : ℕ → ℕ) where
  pub slice-add :
      (m start n : ℕ) → slice image start (m + n) ≡ slice image start m ++ slice image (start + m) n
  unfolding slice
  slice-add zero start n =
      let none_more : zero + n ≡ n = omega arith in
      let here : start + zero ≡ start = omega arith in rw (none_more, here)
  slice-add (suc m) start n =
      let more : suc m + n ≡ suc (m + n) = omega arith in
      let on : start + 1 + m ≡ start + suc m = omega arith in
      rw more (ap (λ l. image start ∷ l) (slice-add m (start + 1) n ∙ rw on))

  take-slice : (n start m : ℕ) → n ≤ m → take n (slice image start m) ≡ slice image start n
  unfolding slice
  take-slice zero start m h = refl
  take-slice (suc n) start zero h = elim h [ ]
  take-slice (suc n) start (suc m) h =
      ap (λ l. image start ∷ l) (take-slice n (start + 1) m (omega arith))

  drop-slice :
      (o start m : ℕ) → o ≤ m → drop o (slice image start m) ≡ slice image (start + o) (m - o)
  unfolding slice
  drop-slice zero start m h =
      let here : start + zero ≡ start = omega arith in
      let all : m - zero ≡ m = omega arith in rw (here, all)
  drop-slice (suc o) start zero h = elim h [ ]
  drop-slice (suc o) start (suc m) h =
      let on : start + 1 + o ≡ start + suc o = omega arith in
      let left : m - o ≡ suc m - suc o = omega arith in
      drop-slice o (start + 1) m (omega arith) ∙ rw (on, left)

round_size_bounds :
    (position total : ℕ)
    → 0 < total
    → (0 < round_size position total)
      × (round_size position total ≤ total)
      × (position % sector_size + round_size position total ≤ sector_size)
unfolding round_size
round_size_bounds position total h = ground arith

nothing :
    (image : ℕ → ℕ) (position : ℕ)
    → ◌≡◌ {A = ReadResult}
        (record { res = ne; position = position; bytes = [] })
        (record { res = ne; position = position + zero; bytes = slice image position zero })
unfolding slice
nothing image position =
    let here : position ≡ position + zero = omega arith in
    ap (λ (p : ℕ). record { res = ne; position = p; bytes = [] }) here

module _ (block : BlockDevice) (image : ℕ → ℕ) (serves : Serves block image) where
  -- A round stores the bytes of the disk from the position on.
  round_bytes :
      (position total : ℕ)
      → position < 2 ^ 32
      → 0 < total
      → take
          (round_size position total)
          (drop (position % sector_size) (block (position / sector_size)).1)
        ≡ slice image position (round_size position total)
  round_bytes position total p h =
      let (_, _, inside) = round_size_bounds position total h in
      let o = position % sector_size in
      let start : position / sector_size * sector_size + o ≡ position = omega arith in
      rw
        (
          serves (position / sector_size) (omega arith),
          drop-slice image o (position / sector_size * sector_size) sector_size (omega arith),
          start,
        )
        (take-slice image (round_size position total) position (sector_size - o) (omega arith))

  stream_loop_lem :
      (rounds position total : ℕ)
      → total ≤ rounds
      → position + total < 2 ^ 32
      → stream_loop block rounds position total ne
        ≡ record { res = ne; position = position + total; bytes = slice image position total }
  unfolding stream_loop
  stream_loop_lem zero position zero h l = nothing image position
  stream_loop_lem zero position (suc t) h l = elim h [ ]
  stream_loop_lem (suc k) position zero h l = nothing image position
  stream_loop_lem (suc k) position (suc t) h l =
      let (some_byte, most, _) = round_size_bounds position (suc t) (omega arith) in
      let n = round_size position (suc t) in
      let served : (block (position / sector_size)).0 ≡ ne =
        ap (λ (r : ℤ × List ℕ). r.0) (serves (position / sector_size) (omega arith)) in
      let moved : (position + n) % 2 ^ 32 ≡ position + n = omega arith in
      let ih = stream_loop_lem k (position + n) (suc t - n) (omega arith) (omega arith) in
      let end : position + n + (suc t - n) ≡ position + suc t = omega arith in
      let whole : n + (suc t - n) ≡ suc t = omega arith in
      let more : (suc t == 0) ≡ false = ground arith in
      rw (more, served, round_bytes position (suc t) (omega arith) (omega arith), moved, ih, end)
        (ap (λ (l : List ℕ). record { res = ne; position = position + suc t; bytes = l })
          (sym (slice-add image n position (suc t - n))
            ∙ ap (λ (m : ℕ). slice image position m) whole))

  -- On a disk whose sectors below 4 GiB can be read, `diskstreamer_read` of bytes that lie there
  -- returns the bytes of the disk from the position on, across sectors, and moves the position behind
  -- them.
  pub diskstreamer_read-slice :
      (position total : ℕ)
      → position + total < 2 ^ 32
      → diskstreamer_read block position total
        ≡ record { res = ne; position = position + total; bytes = slice image position total }
  unfolding diskstreamer_read
  diskstreamer_read-slice position total l = stream_loop_lem total position total (omega arith) l

-- ===== src/Fat16/Defects.antt =====
-- What the driver cannot do: follow a chain of clusters, and enter a directory below the root.
use os_dev_mtk.Base.{
  ℕ, zero, suc, ◌-◌, ◌/◌, ◌<◌, ◌≤◌, ◌≡◌, ◌≢◌, refl, ap, ◌⊎◌, inl, inr, true, false, Option, none,
  some, List, [], ◌∷◌, ◌>>=◌, >>=-eq-some, arith, ◌==◌, leb, if◌then◌else◌, drop, ℤ, pos, negsuc,
  ne, eio, Bool-cases,
}
use native.Mathlib.Nat.{le-div_iff_mul-le}
use os_dev_mtk.Disk.{BlockDevice}
use os_dev_mtk.Text.{istrncmp}
use os_dev_mtk.PathParser.{is_zero, max_path_len}
use os_dev_mtk.Fat16.Layout.{
  FatPrivate, FatDirectory, FatItem, file_item, directory_item, item_size,
}
use os_dev_mtk.Fat16.Clusters.{
  size_of_cluster_bytes, at_least, at_most, fat16_get_fat_entry, cluster_loop,
  fat16_get_cluster_for_offset, read_internal_loop, fat16_read_internal,
}
use os_dev_mtk.Fat16.Names.{fat16_get_full_relative_filename, fat16_clone_directory_item}
use os_dev_mtk.Fat16.Directory.{
  fat16_new_fat_item_for_directory_item, part_buffer, find_loop, fat16_find_item_in_directory,
  entry_loop, fat16_get_directory_entry,
}

any_entry : (e : ℤ) → (at_least e 0xff0 ≡ true) ⊎ (at_most e 0xff6 ≡ true)
any_entry (pos n) = elim (Bool-cases (leb 0xff0 n)) [
  | inl high ↦ inl high
  | inr low ↦ inr (ground arith)
]
any_entry (negsuc n) = inr refl

module _ (block : BlockDevice) (private : FatPrivate) where
  -- No table entry lets the loop go on.
  cluster_loop-eio : (k cluster : ℕ) → cluster_loop block private (suc k) cluster ≡ eio
  unfolding cluster_loop
  cluster_loop-eio k cluster = ground (arith, any_entry (fat16_get_fat_entry block private cluster))

  -- Past the first cluster there is no cluster to use: `entry >= 0xFF0 || entry <= 0xFF6` holds of
  -- every table entry.
  pub cluster_for_offset-eio :
      (cluster offset : ℕ)
      → 0 < size_of_cluster_bytes private
      → size_of_cluster_bytes private ≤ offset
      → fat16_get_cluster_for_offset block private cluster offset ≡ some eio
  unfolding fat16_get_cluster_for_offset
  cluster_for_offset-eio cluster offset h l =
      let size : ℕ = size_of_cluster_bytes private in
      let divides : (size == 0) ≡ false = ground arith in
      let one_more : 1 ≤ offset / size = (le-div_iff_mul-le h).1 (omega arith) in
      let rounds : offset / size ≡ suc (offset / size - 1) = omega arith in
      rw (divides, ap (λ (k : ℕ). cluster_loop block private k cluster) rounds, cluster_loop-eio)

  read_from-eio :
      (k cluster offset total : ℕ) (res : ℤ)
      → 0 < total
      → 0 < size_of_cluster_bytes private
      → size_of_cluster_bytes private ≤ offset
      → read_internal_loop block private (suc k) cluster offset total res
        ≡ some (record { res = eio; bytes = [] })
  unfolding read_internal_loop
  read_from-eio k cluster offset total res t h l =
      let more : (total == 0) ≡ false = ground arith in
      rw (more, cluster_for_offset-eio cluster offset h l)

  -- Where a cluster has some bytes, a read of some bytes that begins past the first cluster of a file
  -- fails with -EIO and stores nothing.
  read_past_cluster :
      (cluster offset total : ℕ)
      → 0 < total
      → 0 < size_of_cluster_bytes private
      → size_of_cluster_bytes private ≤ offset
      → fat16_read_internal block private cluster offset total
        ≡ some (record { res = eio; bytes = [] })
  unfolding fat16_read_internal
  read_past_cluster cluster offset zero t h l = elim t [ ]
  read_past_cluster cluster offset (suc k) t h l = read_from-eio k cluster offset (suc k) ne t h l

  new_item-file :
      (fuel : ℕ) (item : List ℕ) {f : FatItem}
      → fat16_new_fat_item_for_directory_item block private fuel item ≡ some f
      → f ≡ file_item (fat16_clone_directory_item item)
  unfolding fat16_new_fat_item_for_directory_item
  new_item-file fuel item h = ground arith

  step-file :
      (fuel : ℕ) (items : List ℕ) (order : ℤ) (found found' : Option FatItem)
      → ((d : FatDirectory) → found ≢ some (directory_item d))
      → (if is_zero order
          then (fat16_new_fat_item_for_directory_item block private fuel items >>= λ f.
              some (some f))
          else some found)
        ≡ some found'
      → (d : FatDirectory) → found' ≢ some (directory_item d)
  step-file fuel items order found found' f e d = elim (Bool-cases (is_zero order)) [
    | inr other ↦ let e' = rw other at e in ground (arith, f d)
    | inl same ↦
        let (item, made, e') =
          >>=-eq-some (fat16_new_fat_item_for_directory_item block private fuel items) _
            (rw same at e) in
        ground (arith, new_item-file fuel items made)
  ]

  find_loop-file :
      (fuel rounds : ℕ) (items path : List ℕ) (found r : Option FatItem)
      → ((d : FatDirectory) → found ≢ some (directory_item d))
      → find_loop block private fuel rounds items path found ≡ some r
      → (d : FatDirectory) → r ≢ some (directory_item d)
  unfolding find_loop
  find_loop-file fuel zero items path found r f h d = ground (arith, f d)
  find_loop-file fuel (suc k) items path found r f h d =
      let (name, _, h1) = >>=-eq-some (fat16_get_full_relative_filename items max_path_len) _ h in
      let (order, _, h2) = >>=-eq-some (istrncmp name path max_path_len) _ h1 in
      let (found', e, h3) = >>=-eq-some _ _ h2 in
      find_loop-file fuel k (drop item_size items) path found' r
        (step-file fuel items order found found' f e) h3 d

  directory_entry-result :
      (fuel : ℕ) (part next : List ℕ) (parts : List (List ℕ)) {r : Option FatItem}
      → fat16_get_directory_entry block private fuel part (next ∷ parts) ≡ some r
      → r ≡ none
  unfolding fat16_get_directory_entry fat16_find_item_in_directory entry_loop
  directory_entry-result fuel part next parts {r} h =
      let (found, e, h') =
        >>=-eq-some (fat16_find_item_in_directory block private fuel private.root_directory part) _
          h in
      last found
        (find_loop-file fuel private.root_directory.total private.root_directory.items
          (part_buffer part) none found (λ d. cc) e)
        h'
    where
      last :
          (found : Option FatItem)
          → ((d : FatDirectory) → found ≢ some (directory_item d))
          → elim found as (λ _. Option (Option FatItem)) [
            | none ↦ some none
            | some item ↦ entry_loop block private fuel (next ∷ parts) item
          ]
            ≡ some r
          → r ≡ none
      last none f h' = ground arith
      last (some (file_item item)) f h' = ground arith
      last (some (directory_item d)) f h' = absurd (f d refl)

  -- Whatever the root directory holds, no item is found under a path of two parts or more.
  pub directory_entry-none :
      (fuel : ℕ) (part next : List ℕ) (parts : List (List ℕ)) (item : FatItem)
      → fat16_get_directory_entry block private fuel part (next ∷ parts) ≢ some (some item)
  directory_entry-none fuel part next parts item h =
      let absent : some item ≡ none = directory_entry-result fuel part next parts h in cc

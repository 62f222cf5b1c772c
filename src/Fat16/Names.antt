-- ===== src/Fat16/Names.antt =====
-- The name of a directory item, as `base.ext`.
use os_dev_mtk.Base.{
  ℕ, zero, suc, not, ◌&&◌, ◌||◌, Option, none, some, List, [], ◌∷◌, ◌++◌, ◌>>=◌, ◌==◌,
  if◌then◌else◌, replicate, take,
}
use os_dev_mtk.Fat16.Layout.{item_size, filename_at, ext_at, u8}

-- The bytes stored, and the room that is left behind them. A space is followed by a store of NUL.
unfoldable pub fat16_to_string : (room : ℕ) → (input : List ℕ) → Option (List ℕ × ℕ)
fat16_to_string room [] = none
fat16_to_string zero (c ∷ input) = if c == 0 then some ([], 0) else none
fat16_to_string (suc k) (c ∷ input) =
    let more = fat16_to_string k input >>= λ r. some (c ∷ r.0, r.1) in
    if c == 0 || c == 0x20 then some ([], suc k) else more

-- The `size` bytes of the buffer afterwards.
unfoldable pub fat16_get_full_relative_filename : (item : List ℕ) → (size : ℕ) → Option (List ℕ)
fat16_get_full_relative_filename item size = fat16_to_string size (filename_at item) >>= λ base.
    let ext = u8 (ext_at item) 0 in
    if not (ext == 0) && not (ext == 0x20)
    then elim (base.1) [
      | zero ↦ none
      | suc room ↦ fat16_to_string room (ext_at item) >>= λ r.
          some (base.0 ++ (b'.' ∷ (r.0 ++ replicate r.1 0)))
    ]
    else some (base.0 ++ replicate base.1 0)

-- A copy of `size` bytes, or NULL where that is less than an item.
unfoldable pub fat16_clone_directory_item : (item : List ℕ) → List ℕ
fat16_clone_directory_item item = take item_size item

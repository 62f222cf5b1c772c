-- ===== src/Heap/Blocks.antt =====
-- The table bytes of an allocation, and the tables that are made of free bytes and allocations.
use os_dev_mtk.Base.{ℕ, zero, suc, ◌≡◌, refl, List, [], ◌∷◌, ◌++◌, length, ap}

-- The bytes of an allocation of `n + 1` blocks: all but the last are marked as extended, the first
-- as first.
unfoldable pub continued : ℕ → List ℕ
continued zero = []
continued (suc zero) = 0x01 ∷ []
continued (suc (suc n)) = 0x81 ∷ continued (suc n)

unfoldable pub chunk : ℕ → List ℕ
unfolding continued
chunk zero = 0x41 ∷ []
chunk (suc n) = 0xc1 ∷ continued (suc n)

pub data IsBlocks : List ℕ → Type 0 where
  none_left : IsBlocks []
  free_block : {es : List ℕ} → IsBlocks es → IsBlocks (0 ∷ es)
  allocation : (n : ℕ) {es fs : List ℕ} → IsBlocks es → fs ≡ chunk n ++ es → IsBlocks fs

pub length-continued : (n : ℕ) → length (continued n) ≡ n
unfolding continued
length-continued zero = refl
length-continued (suc zero) = refl
length-continued (suc (suc n)) = ap suc (length-continued (suc n))

pub length-chunk : (n : ℕ) → length (chunk n) ≡ suc n
unfolding chunk
length-chunk zero = refl
length-chunk (suc n) = ap suc (length-continued (suc n))

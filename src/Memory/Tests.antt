-- ===== src/Memory/Tests.antt =====
-- Runs of memory.c, and its theorems at concrete objects.
use os_dev_mtk.Base.{ℕ, ◌≡◌, refl, some, List, [], ◌∷◌, negsuc}
use os_dev_mtk.Memory.{memcmp}

memcmp_runs : memcmp (1 ∷ 2 ∷ 3 ∷ []) (1 ∷ 9 ∷ []) 2 ≡ some (negsuc 0)
unfolding memcmp
memcmp_runs = refl

abbrev left_bytes : List ℕ
left_bytes = 1 ∷ 2 ∷ 3 ∷ []

abbrev right_bytes : List ℕ
right_bytes = 1 ∷ 2 ∷ 4 ∷ []

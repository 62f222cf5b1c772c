-- ===== src/Memory/Laws.antt =====
-- What `memset`, `memcmp` and `memcpy` leave behind.
use os_dev_mtk.Base.{
  ℕ, zero, suc, ◌+◌, ◌%◌, ◌≤◌, ◌≡◌, refl, ◌↔◌, ◌&&◌, some, List, [], ◌∷◌, ◌++◌, arith, leb, ltb,
  if◌then◌else◌, length, take, drop, replicate, pos,
}
use os_dev_mtk.Memory.{Memory, store, memset, memset_object, memcmp, memcpy}

-- `memset` writes the low byte of `c` at exactly the `size` addresses from `p` on.
pub memset_lem :
    (size p c a : ℕ) (m : Memory)
    → memset m p c size a ≡ (if leb p a && ltb a (p + size) then c % 256 else m a)
unfolding memset store
memset_lem zero p c a m = ground arith
memset_lem (suc n) p c a m = ground (arith, memset_lem n (p + 1) c a (store m p (c % 256)))

pub memset_object_lem :
    (size c : ℕ) (bytes : List ℕ)
    → size ≤ length bytes
    → memset_object c size bytes ≡ some (replicate size (c % 256) ++ drop size bytes)
unfolding memset_object
memset_object_lem zero c bytes h = refl
memset_object_lem (suc n) c [] h = elim h [ ]
memset_object_lem (suc n) c (b ∷ bytes) h = rw (memset_object_lem n c bytes (omega arith))

-- Of two objects with at least `size` bytes, `memcmp` returns 0 exactly when those are the same.
pub memcmp-zero_iff :
    (size : ℕ) (s1 s2 : List ℕ)
    → size ≤ length s1
    → size ≤ length s2
    → (memcmp s1 s2 size ≡ some (pos 0)) ↔ (take size s1 ≡ take size s2)
unfolding memcmp
memcmp-zero_iff zero s1 s2 h k = (λ _. refl, λ _. refl)
memcmp-zero_iff (suc n) [] s2 h k = elim h [ ]
memcmp-zero_iff (suc n) (a ∷ s1) [] h k = elim k [ ]
memcmp-zero_iff (suc n) (a ∷ s1) (b ∷ s2) h k =
    let ih = memcmp-zero_iff n s1 s2 (omega arith) (omega arith) in
    (λ e. ground (arith, ih.0), λ e. ground (arith, ih.1))

-- `memcpy` makes the first `size` bytes those of the source and keeps the rest.
pub memcpy_lem :
    (size : ℕ) (dst src : List ℕ)
    → size ≤ length dst
    → size ≤ length src
    → memcpy dst src size ≡ some (take size src ++ drop size dst)
unfolding memcpy
memcpy_lem zero dst src h k = refl
memcpy_lem (suc n) [] src h k = elim h [ ]
memcpy_lem (suc n) (d ∷ dst) [] h k = elim k [ ]
memcpy_lem (suc n) (d ∷ dst) (b ∷ src) h k = rw (memcpy_lem n dst src (omega arith) (omega arith))

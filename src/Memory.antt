-- ===== src/Memory.antt =====
-- src/kernel/memory/memory.c over byte memory: `memset`, `memcmp` and `memcpy`.
-- A memory gives the byte at each address. `memcmp` and `memcpy` read an object, the list of its
-- bytes from the pointer on: `none` is an access past its end.
pub mod Laws
mod Tests
use os_dev_mtk.Base.{
  ℕ, zero, suc, ◌+◌, ◌%◌, ◌≡◌, Bool, Option, none, some, List, [], ◌∷◌, ◌==◌, ltb, if◌then◌else◌, ℤ,
  pos, negsuc, ◌>>=◌, ap,
}

abbrev pub Memory : Type 0
Memory = ℕ → ℕ

-- one store `*p = b`
unfoldable pub store : Memory → ℕ → ℕ → Memory
store m p b a = if a == p then b else m a

-- The loop of `memset` from the byte at `p`, with the rounds that are left. The stored `char` is
-- the low byte of `c`.
unfoldable pub memset : Memory → (p c size : ℕ) → Memory
memset m p c zero = m
memset m p c (suc n) = memset (store m p (c % 256)) (p + 1) c n

-- The same loop over the bytes of one object.
unfoldable pub memset_object : (c size : ℕ) → List ℕ → Option (List ℕ)
memset_object c zero bytes = some bytes
memset_object c (suc n) [] = none
memset_object c (suc n) (b ∷ bytes) = memset_object c n bytes >>= λ rest. some ((c % 256) ∷ rest)

unfoldable pub memcmp : (s1 s2 : List ℕ) → ℕ → Option ℤ
memcmp s1 s2 zero = some (pos 0)
memcmp [] s2 (suc n) = none
memcmp (a ∷ s1) [] (suc n) = none
memcmp (a ∷ s1) (b ∷ s2) (suc n) =
    let rest = memcmp s1 s2 n in if a == b then rest else some (if ltb a b then negsuc 0 else pos 1)

-- `dst` with its first `size` bytes replaced by those of `src`
unfoldable pub memcpy : (dst src : List ℕ) → ℕ → Option (List ℕ)
memcpy dst src zero = some dst
memcpy [] src (suc n) = none
memcpy (d ∷ dst) [] (suc n) = none
memcpy (d ∷ dst) (b ∷ src) (suc n) = memcpy dst src n >>= λ rest. some (b ∷ rest)

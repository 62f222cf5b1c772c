-- ===== src/UserMemory/Strings.antt =====
-- `strncpy` on addresses: which string it reads through pages, and what it leaves.
use os_dev_mtk.Base.{
  ℕ, zero, suc, ◌+◌, ◌<◌, ◌≤◌, ◌≡◌, ◌≢◌, refl, ◌∙◌, some, List, [], ◌∷◌, arith, ◌==◌, leb, ltb,
  ◌&&◌, false, length, take,
}
use os_dev_mtk.Memory.{Memory, store}
use os_dev_mtk.Text.{NoNul}
use os_dev_mtk.UserMemory.{Pages, strncpy_at_loop, strncpy_at}

-- The memory with a string and its NUL from `d` on.
abbrev pub put_string : Memory → (d : ℕ) → List ℕ → Memory
put_string bytes d [] = store bytes d 0
put_string bytes d (c ∷ s) = put_string (store bytes d c) (d + 1) s

-- Not between `lo` and `hi`.
abbrev pub IsOutside : (lo hi p : ℕ) → Type 0
IsOutside lo hi p = (leb lo p && ltb p hi) ≡ false

-- A string with its NUL stands at `v`, seen through pages, and outside of the bytes from `lo` to `hi`.
abbrev pub Reads : Pages → Memory → (lo hi v : ℕ) → List ℕ → Type 0
Reads pages bytes lo hi v [] = (p : ℕ) × (pages v ≡ some p) × IsOutside lo hi p × (bytes p ≡ 0)
Reads pages bytes lo hi v (c ∷ s) =
    ((p : ℕ) × (pages v ≡ some p) × IsOutside lo hi p × (bytes p ≡ c))
    × (c ≢ 0)
    × Reads pages bytes lo hi (v + 1) s

store-outside :
    (bytes : Memory) (lo hi d b p : ℕ)
    → lo ≤ d
    → d < hi
    → IsOutside lo hi p
    → store bytes d b p ≡ bytes p
unfolding store
store-outside bytes lo hi d b p l h o = ground arith

-- A store between `lo` and `hi` leaves the string.
store-Reads :
    (pages : Pages) (bytes : Memory) (lo hi d b v : ℕ) (s : List ℕ)
    → lo ≤ d
    → d < hi
    → Reads pages bytes lo hi v s
    → Reads pages (store bytes d b) lo hi v s
store-Reads pages bytes lo hi d b v [] l h (p, e, o, r) =
    (p, e, o, store-outside bytes lo hi d b p l h o ∙ r)
store-Reads pages bytes lo hi d b v (c ∷ s) l h ((p, e, o, r), ne, rest) = (
  (p, e, o, store-outside bytes lo hi d b p l h o ∙ r),
  ne,
  store-Reads pages bytes lo hi d b (v + 1) s l h rest,
)

-- Pages that agree on the addresses of the string show the same string.
pub pages-Reads :
    (pages pages' : Pages) (bytes : Memory) (lo hi v : ℕ) (s : List ℕ)
    → ((w : ℕ) → v ≤ w → w ≤ v + length s → pages' w ≡ pages w)
    → Reads pages bytes lo hi v s
    → Reads pages' bytes lo hi v s
pages-Reads pages pages' bytes lo hi v [] same (p, e, o, r) =
    (p, same v (omega arith) (omega arith) ∙ e, o, r)
pages-Reads pages pages' bytes lo hi v (c ∷ s) same ((p, e, o, r), ne, rest) = (
  (p, same v (omega arith) (omega arith) ∙ e, o, r),
  ne,
  pages-Reads pages pages' bytes lo hi (v + 1) s (λ w from to. same w (omega arith) (omega arith))
      rest,
)

-- Bytes below are left.
pub put_string-below :
    (bytes : Memory) (d x : ℕ) (s : List ℕ) → x < d → put_string bytes d s x ≡ bytes x
unfolding store
put_string-below bytes d x [] h = ground arith
put_string-below bytes d x (c ∷ s) h =
    put_string-below (store bytes d c) (d + 1) x s (omega arith) ∙ (ground arith)

-- Bytes behind the NUL are left.
pub put_string-above :
    (bytes : Memory) (d x : ℕ) (s : List ℕ) → d + length s < x → put_string bytes d s x ≡ bytes x
unfolding store
put_string-above bytes d x [] h = ground arith
put_string-above bytes d x (c ∷ s) h =
    put_string-above (store bytes d c) (d + 1) x s (omega arith) ∙ (ground arith)

-- A string that was put reads as it was put.
pub put_string-Reads :
    (bytes : Memory) (lo hi d : ℕ) (s : List ℕ)
    → NoNul s
    → ((x : ℕ) → d ≤ x → x ≤ d + length s → IsOutside lo hi x)
    → Reads some (put_string bytes d s) lo hi d s
unfolding store
put_string-Reads bytes lo hi d [] h o = (d, refl, o d (omega arith) (omega arith), ground arith)
put_string-Reads bytes lo hi d (c ∷ s) (ne, h) o = (
  (
    d,
    refl,
    o d (omega arith) (omega arith),
    put_string-below (store bytes d c) (d + 1) d s (omega arith) ∙ (ground arith),
  ),
  ne,
  put_string-Reads (store bytes d c) lo hi (d + 1) s h
      (λ x from to. o x (omega arith) (omega arith)),
)

-- The copy of a string that stands outside of the destination, whose addresses are not translated.
strncpy_at_loop_lem :
    (pages : Pages) (bytes : Memory) (lo hi n dst src : ℕ) (s : List ℕ)
    → ((x : ℕ) → dst ≤ x → x ≤ dst + n → pages x ≡ some x)
    → lo ≤ dst
    → dst + n < hi
    → Reads pages bytes lo hi src s
    → strncpy_at_loop pages bytes n dst src ≡ some (put_string bytes dst (take n s))
unfolding strncpy_at_loop
strncpy_at_loop_lem pages bytes lo hi zero dst src s to l h r =
    rw (to dst (omega arith) (omega arith)) refl
strncpy_at_loop_lem pages bytes lo hi (suc n) dst src [] to l h (p, e, _, z) =
    rw (e, z, to dst (omega arith) (omega arith)) refl
strncpy_at_loop_lem pages bytes lo hi (suc n) dst src (c ∷ s) to l h ((p, e, _, z), ne, rest) =
    let real : (c == 0) ≡ false = ground (arith, ne) in
    rw (e, z, real, to dst (omega arith) (omega arith))
      (strncpy_at_loop_lem pages (store bytes dst c) lo hi n (dst + 1) (src + 1) s
        (λ x from till. to x (omega arith) (omega arith)) (omega arith) (omega arith)
        (store-Reads pages bytes lo hi dst c (src + 1) s l (omega arith) rest))

-- `strncpy` through pages copies the string, cut off so that its NUL is within the bound.
pub strncpy_at_lem :
    (pages : Pages) (bytes : Memory) (lo hi n dst src : ℕ) (s : List ℕ)
    → ((x : ℕ) → dst ≤ x → x ≤ dst + n → pages x ≡ some x)
    → lo ≤ dst
    → dst + n < hi
    → Reads pages bytes lo hi src s
    → strncpy_at pages bytes dst src (suc n) ≡ some (put_string bytes dst (take n s))
unfolding strncpy_at
strncpy_at_lem pages bytes lo hi n dst src s to l h r =
    strncpy_at_loop_lem pages bytes lo hi n dst src s to l h r

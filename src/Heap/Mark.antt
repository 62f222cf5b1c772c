-- ===== src/Heap/Mark.antt =====
-- The loops of `heap_mark_blocks_as_taken` and `heap_mark_blocks_as_free` write and clear the bytes of
-- one allocation.
use mathlib.Core.List.{append_assoc}
use os_dev_mtk.Base.{
  ℕ, zero, suc, ◌+◌, ◌-◌, ◌≤◌, ◌<◌, ◌≡◌, refl, ◌∙◌, sym, ap, true, none, some, List, [], ◌∷◌, ◌++◌,
  arith, ◌==◌, ltb, if◌then◌else◌, length, length-append, get_or, set, set-append, length-set,
  Bool-cases, inl, inr, drop, replicate, pos,
}
use os_dev_mtk.Heap.{mark_loop, write_entry, heap_mark_blocks_as_taken, free_loop}
use os_dev_mtk.Heap.Blocks.{continued, chunk}

write_entry-append :
    (pre es : List ℕ) (e v : ℕ) → write_entry (pre ++ e ∷ es) (length pre) v ≡ some (pre ++ v ∷ es)
unfolding write_entry
write_entry-append pre es e v =
    let fits : ltb (length pre) (length (pre ++ e ∷ es)) ≡ true =
      ground (arith, length-append pre (e ∷ es)) in
    rw fits (ap some (set-append pre es e v))

continued-suc : (k : ℕ) → continued (suc k) ≡ (if suc k == 1 then 0x01 else 0x81) ∷ continued k
unfolding continued
continued-suc zero = refl
continued-suc (suc k) = ground arith

append-step : (pre xs : List ℕ) (v : ℕ) → (pre ++ v ∷ []) ++ xs ≡ pre ++ v ∷ xs
append-step pre xs v = append_assoc pre (v ∷ []) xs

length-step : (pre : List ℕ) (v : ℕ) → length (pre ++ v ∷ []) ≡ length pre + 1
length-step pre v = length-append pre (v ∷ [])

-- A round has stored `v`; the next begins one further.
after_store :
    (k end_block : ℕ) (pre ys zs : List ℕ) (v : ℕ)
    → let pre' = pre ++ v ∷ [] in
      mark_loop k
          (length pre')
          end_block
          (if length pre' == end_block then 0x01 else 0x81)
          (pre' ++ ys)
        ≡ some (pre' ++ zs)
      → mark_loop k
          (length pre + 1)
          end_block
          (if length pre + 1 == end_block then 0x01 else 0x81)
          (pre ++ v ∷ ys)
        ≡ some (pre ++ v ∷ zs)
after_store k end_block pre ys zs v h =
    rw (← length-step pre v, ← append-step pre ys v, ← append-step pre zs v) h

-- The rounds after the first store the bytes of `continued`.
mark_loop-continued :
    (k end_block : ℕ) (pre ys : List ℕ) (entry : ℕ)
    → k ≤ length ys
    → length pre + k ≡ suc end_block
    → entry ≡ (if k == 1 then 0x01 else 0x81)
    → mark_loop k (length pre) end_block entry (pre ++ ys)
      ≡ some (pre ++ (continued k ++ drop k ys))
unfolding mark_loop continued
mark_loop-continued zero end_block pre ys entry h e b = refl
mark_loop-continued (suc k) end_block pre [] entry h e b = elim h [ ]
mark_loop-continued (suc k) end_block pre (y ∷ ys) entry h e b =
    let pre' = pre ++ entry ∷ [] in
    let head : continued (suc k) ≡ entry ∷ continued k =
      continued-suc k ∙ ap (λ (x : ℕ). x ∷ continued k) (sym b) in
    let ih =
      mark_loop-continued k end_block pre' ys (if length pre' == end_block then 0x01 else 0x81)
        (omega arith) (omega (arith, length-step pre entry))
        (ground (arith, length-step pre entry)) in
    rw (write_entry-append pre ys y entry, head)
      (after_store k end_block pre ys (continued k ++ drop k ys) entry ih)

chunk-continued : (n : ℕ) → chunk n ≡ (if ltb 1 (suc n) then 0xc1 else 0x41) ∷ continued n
unfolding chunk continued
chunk-continued zero = refl
chunk-continued (suc n) = ground arith

-- `heap_mark_blocks_as_taken` replaces `n + 1` bytes by those of one allocation.
pub mark-chunk :
    (n : ℕ) (pre ys : List ℕ)
    → suc n ≤ length ys
    → heap_mark_blocks_as_taken (pre ++ ys) (pos (length pre)) (suc n)
      ≡ some (pre ++ (chunk n ++ drop (suc n) ys))
unfolding heap_mark_blocks_as_taken
mark-chunk n pre [] h = elim h [ ]
mark-chunk n pre (y ∷ ys) h =
    let first : ℕ = if ltb 1 (suc n) then 0xc1 else 0x41 in
    let pre' : List ℕ = pre ++ first ∷ [] in
    let end_block : ℕ = length pre + suc n - 1 in
    let rest =
      mark_loop-continued n end_block pre' ys (if length pre' == end_block then 0x01 else 0x81)
        (omega arith) (omega (arith, length-step pre first))
        (ground (arith, length-step pre first)) in
    rw (write_entry-append pre ys y first, chunk-continued n)
      (after_store n end_block pre ys (continued n ++ drop n ys) first rest)

get_or-append : (pre ys : List ℕ) (y : ℕ) → get_or (pre ++ y ∷ ys) (length pre) 0 ≡ y
get_or-append [] ys y = refl
get_or-append (x ∷ pre) ys y = get_or-append pre ys y

-- Freeing from the second byte on clears the allocation.
free_loop-continued :
    (k rounds : ℕ) (pre ys : List ℕ)
    → suc k ≤ rounds
    → free_loop rounds (length pre) (pre ++ (continued (suc k) ++ ys))
      ≡ pre ++ (replicate (suc k) 0 ++ ys)
unfolding free_loop continued
free_loop-continued k zero pre ys h = elim h [ ]
free_loop-continued zero (suc r) pre ys h = rw (get_or-append pre ys 0x01, set-append pre ys 0x01 0)
free_loop-continued (suc k) (suc r) pre ys h =
    let zs = continued (suc k) ++ ys in
    rw
      (
        get_or-append pre zs 0x81,
        set-append pre zs 0x81 0,
        ← length-step pre 0,
        ← append-step pre zs 0,
      )
      (free_loop-continued k r (pre ++ 0 ∷ []) ys (omega arith)
        ∙ append-step pre (replicate (suc k) 0 ++ ys) 0)

-- Freeing from the first byte of an allocation clears its bytes and no others.
pub free_loop-chunk :
    (n rounds : ℕ) (pre ys : List ℕ)
    → suc n ≤ rounds
    → free_loop rounds (length pre) (pre ++ (chunk n ++ ys)) ≡ pre ++ (replicate (suc n) 0 ++ ys)
unfolding free_loop chunk
free_loop-chunk n zero pre ys h = elim h [ ]
free_loop-chunk zero (suc r) pre ys h = rw (get_or-append pre ys 0x41, set-append pre ys 0x41 0)
free_loop-chunk (suc k) (suc r) pre ys h =
    let zs = continued (suc k) ++ ys in
    rw
      (
        get_or-append pre zs 0xc1,
        set-append pre zs 0xc1 0,
        ← length-step pre 0,
        ← append-step pre zs 0,
      )
      (free_loop-continued k r (pre ++ 0 ∷ []) ys (omega arith)
        ∙ append-step pre (replicate (suc k) 0 ++ ys) 0)

-- A run of stores that reaches past the table is a fault.
pub mark_loop-fault :
    (k i end_block entry : ℕ) (es : List ℕ)
    → length es < i + k
    → i ≤ length es
    → mark_loop k i end_block entry es ≡ none
unfolding mark_loop write_entry
mark_loop-fault zero i end_block entry es h l = absurd (omega arith)
mark_loop-fault (suc k) i end_block entry es h l =
    let next : ℕ = if i + 1 == end_block then 0x01 else 0x81 in
    elim (Bool-cases (ltb i (length es))) [
      | inl fits ↦ rw fits (
          mark_loop-fault k (i + 1) end_block next (set es i entry)
            (omega (arith, length-set es i entry)) (ground (arith, length-set es i entry)))
      | inr past ↦ rw past
    ]

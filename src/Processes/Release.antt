-- ===== src/Processes/Release.antt =====
-- The end of a process releases all that it has allocated.
use os_dev_mtk.Base.{
  ℕ, suc, ◌+◌, ◌%◌, ◌^◌, ◌≡◌, ◌≢◌, refl, ◌∙◌, sym, ap, true, false, some, List, [], ◌∷◌, ◌++◌,
  arith, ◌==◌, if◌then◌else◌, length, length-append, get_elem?-append, snoc-append, Bool-cases, inl,
  inr, is_neg,
}
use mathlib.Core.List.{append-nil}
use os_dev_mtk.Paging.{paging_align_address}
use os_dev_mtk.Processes.{
  Allocation, no_allocation, Services, free_entry, process_free, terminal_entry, terminal_loop,
  process_terminal_allocations,
}

-- Each entry is free.
abbrev pub AreFree : List Allocation → Type 0
AreFree [] = Unit {0}
AreFree (a ∷ allocations) = (a.ptr ≡ 0) × AreFree allocations

snoc-AreFree :
    (a : Allocation) (pre : List Allocation) → a.ptr ≡ 0 → AreFree pre → AreFree (pre ++ a ∷ [])
snoc-AreFree a [] e h = (e, tt)
snoc-AreFree a (b ∷ pre) e h = (h.0, snoc-AreFree a pre e h.1)

module _ {S : Type 0} (services : Services S) where
  -- The pages of an entry can be unmapped, whatever the state.
  abbrev pub CanUnmap : Allocation → Type 0
  CanUnmap a =
      (st : S)
      → is_neg
          (services.paging_map_to st a.ptr a.ptr (paging_align_address ((a.ptr + a.size) % 2 ^ 32))
            0).0
        ≡ false

  abbrev pub AllUnmap : List Allocation → Type 0
  AllUnmap [] = Unit {0}
  AllUnmap (a ∷ allocations) = CanUnmap a × AllUnmap allocations

  -- The state after an entry is freed.
  abbrev pub unmapped : S → Allocation → S
  unmapped st a =
      services.kfree
        (services.paging_map_to st a.ptr a.ptr (paging_align_address ((a.ptr + a.size) % 2 ^ 32))
          0).1
        a.ptr

  -- The pages of each entry that is in use are unmapped and its memory is freed, in order.
  abbrev pub released : S → List Allocation → S
  released st [] = st
  released st (a ∷ allocations) = released (if a.ptr == 0 then st else unmapped st a) allocations

  terminal_end :
      (st : S) (pre : List Allocation)
      → terminal_loop services 0 (length pre) st (pre ++ []) ≡ (st, pre ++ [])
  unfolding terminal_loop
  terminal_end st pre = refl

  process_free-behind :
      (pre : List Allocation) (a : Allocation) (rest : List Allocation) (st : S)
      → AreFree pre
      → a.ptr ≢ 0
      → process_free services st (pre ++ a ∷ rest) a.ptr
        ≡ ((free_entry services st a).0, pre ++ (free_entry services st a).1 ∷ rest)
  unfolding process_free
  process_free-behind [] a rest st h ne =
      let same : (a.ptr == a.ptr) ≡ true = ground arith in rw same refl
  process_free-behind (b ∷ pre) a rest st h ne =
      let other : (b.ptr == a.ptr) ≡ false = ground (arith, h.0, ne) in
      rw (other, process_free-behind pre a rest st h.1 ne) refl

  pub free_entry_lem :
      (st : S) (a : Allocation)
      → CanUnmap a
      → free_entry services st a ≡ (unmapped st a, no_allocation)
  unfolding free_entry
  free_entry_lem st a can = rw (can st) refl

  -- One round, on the entry behind a part of the table; the round leaves `b` there.
  terminal_step :
      (st st1 : S) (pre rest : List Allocation) (a b : Allocation) (r : S × List Allocation)
      → terminal_entry services st (pre ++ a ∷ rest) (some a) ≡ (st1, pre ++ b ∷ rest)
      → terminal_loop services (length rest) (length (pre ++ b ∷ [])) st1 ((pre ++ b ∷ []) ++ rest)
        ≡ r
      → terminal_loop services (suc (length rest)) (length pre) st (pre ++ a ∷ rest) ≡ r
  unfolding terminal_loop
  terminal_step st st1 pre rest a b r entry later =
      let next : length (pre ++ b ∷ []) ≡ length pre + 1 = length-append pre (b ∷ []) in
      rw (terminal_loop, get_elem?-append a pre rest, entry)
        (rw (snoc-append b pre rest, next) at later)

  terminal_lem :
      (st : S) (pre rest : List Allocation)
      → AreFree pre
      → AllUnmap rest
      → (after : List Allocation) × (terminal_loop services
            (length rest)
            (length pre)
            st
            (pre ++ rest)
          ≡ (released st rest, after))
        × AreFree after
  unfolding terminal_entry
  terminal_lem st pre [] free can = (pre ++ [], terminal_end st pre, rw (append-nil pre) free)
  terminal_lem st pre (a ∷ rest) free (can, cans) = elim (Bool-cases (a.ptr == 0)) [
    | inl unused ↦
        let free_too : a.ptr ≡ 0 = ground (arith, unused) in
        let (after, eq, all) =
          terminal_lem st (pre ++ a ∷ []) rest (snoc-AreFree a pre free_too free) cans in
        (
          after,
          terminal_step st st pre rest a a (released st rest, after) (rw unused refl) eq
              ∙ (rw unused refl),
          all,
        )
    | inr used ↦
        let st1 : S = unmapped st a in
        let (after, eq, all) =
          terminal_lem st1 (pre ++ no_allocation ∷ []) rest
            (snoc-AreFree no_allocation pre refl free) cans in
        let freed =
          process_free-behind pre a rest st free (ground (arith, used))
          ∙ ap (λ e. (e.0, pre ++ e.1 ∷ rest)) (free_entry_lem st a can) in
        (
          after,
          terminal_step st st1 pre rest a no_allocation (released st1 rest, after) (rw used freed)
                eq
              ∙ (rw used refl),
          all,
        )
  ]

  -- The allocations of a process that ends: if the pages of each entry can be unmapped, then every entry
  -- of the 1024 is free afterwards, and the pages of each that was in use have been unmapped and its
  -- memory freed, once and in order.
  pub terminal_allocations-AreFree :
      (st : S) (allocations : List Allocation)
      → length allocations ≡ 1024
      → AllUnmap allocations
      → (after : List Allocation) × (process_terminal_allocations services st allocations
          ≡ (released st allocations, after))
        × AreFree after
  unfolding process_terminal_allocations
  terminal_allocations-AreFree st allocations size can =
      let (after, eq, free) = terminal_lem st [] allocations tt can in
      (after, ap (λ (n : ℕ). terminal_loop services n 0 st allocations) (sym size) ∙ eq, free)

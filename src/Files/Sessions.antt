-- ===== src/Files/Sessions.antt =====
-- Runs of `fopen`, `fclose` and `fseek` from the empty table of `fs_init`.
use os_dev_mtk.Base.{
  ℕ, zero, suc, ◌+◌, ◌-◌, ◌<◌, ◌≡◌, ◌≢◌, ◌∙◌, ap, inl, inr, false, Option, none, some, List, arith,
  get_elem?, replicate, length-replicate, ℤ, pos, negsuc, Bool-cases, Option-cases, ltb,
}
use os_dev_mtk.PathParser.{is_zero}
use os_dev_mtk.Fat16.Driver.{SeekMode}
use os_dev_mtk.Files.{
  FileSystem, FileDescriptor, Descriptors, max_descriptors, file_get_fd, file_free_descriptor,
  fopen, fclose, fseek,
}
use os_dev_mtk.Files.Table.{IsTable, set-IsTable}
use os_dev_mtk.Files.Calls.{Added, fopen-Opens}

module _ {P : Type 0} where
  -- The slot of a descriptor that is found.
  file_get_fd-slot :
      (table : Descriptors P) (fd : ℤ) (d : FileDescriptor P)
      → file_get_fd table fd ≡ some d
      → (i : ℕ) × (fd ≡ pos (i + 1)) × (get_elem? table i ≡ some (some d))
  unfolding file_get_fd
  file_get_fd-slot table (negsuc n) d h = cc
  file_get_fd-slot table (pos zero) d h = cc
  file_get_fd-slot table (pos (suc i)) d h =
      let low : ltb (suc i) 1 ≡ false = ground arith in
      let back : suc i - 1 ≡ i = omega arith in
      let number : suc i ≡ i + 1 = omega arith in
      elim (Bool-cases (ltb max_descriptors (suc i))) [
        | inl high ↦ let h' = rw (low, high) at h in absurd cc
        | inr high ↦
            let h' = rw (low, high, back) at h in
            elim (Option-cases (get_elem? table i)) [
              | inl e ↦ let h'' = rw e at h' in absurd cc
              | inr (slot, e) ↦ let h'' = rw e at h' in (i, ap pos number, e ∙ ap some h'')
            ]
      ]

  -- The descriptor with a number that is in the table.
  pub file_get_fd-at :
      (table : Descriptors P) (i : ℕ) (slot : Option (FileDescriptor P))
      → i < max_descriptors
      → get_elem? table i ≡ some slot
      → file_get_fd table (pos (i + 1)) ≡ slot
  unfolding file_get_fd
  file_get_fd-at table i slot l h =
      let back : i + 1 - 1 ≡ i = omega arith in
      let low : ltb (i + 1) 1 ≡ false = ground arith in
      let high : ltb max_descriptors (i + 1) ≡ false = ground arith in rw (low, high, back, h)

  Added-IsTable :
      (filesystem : Option (FileSystem P)) (table table' : Descriptors P) (n : ℕ)
      → IsTable table
      → Added filesystem table n table'
      → IsTable table'
  Added-IsTable filesystem table table' n is added =
      rw (added.stored) (set-IsTable table added.slot _ is (λ d e. ground arith))

  closed-IsTable : (table : Descriptors P) (fd : ℤ) → IsTable table → IsTable (fclose table fd).1
  unfolding fclose file_free_descriptor
  closed-IsTable table fd is = elim (Option-cases (file_get_fd table fd)) [
    | inl e ↦ rw (fclose, e) is
    | inr (d, e) ↦ elim (Bool-cases (is_zero (d.fs.close d.private))) [
      | inl z ↦ rw (fclose, e, z) (set-IsTable table (d.id - 1) none is (λ d' e'. absurd cc))
      | inr z ↦ rw (fclose, e, z) is
    ]
  ]

  sought-IsTable :
      (table : Descriptors P) (fd : ℤ) (offset : ℕ) (whence : SeekMode)
      → IsTable table
      → IsTable (fseek table fd offset whence).1
  unfolding fseek
  sought-IsTable table fd offset whence is = elim (Option-cases (file_get_fd table fd)) [
    | inl e ↦ rw (fseek, e) is
    | inr (d, e) ↦
        let (i, _, at) = file_get_fd-slot table fd d e in
        let own : d.id ≡ i + 1 = is.numbered i d at in
        rw (fseek, e) (set-IsTable table (d.id - 1) _ is (λ d' e'. ground arith))
  ]

  -- One of the calls that change the table.
  pub data Step (filesystem : Option (FileSystem P)) : Descriptors P → Descriptors P → Type 0 where
    opens :
        {table table' : Descriptors P} (filename mode_str : List ℕ) (n : ℕ)
        → fopen table filesystem filename mode_str ≡ some (n, table')
        → Step filesystem table table'
    closes : {table : Descriptors P} (fd : ℤ) → Step filesystem table (fclose table fd).1
    seeks :
        {table : Descriptors P} (fd : ℤ) (offset : ℕ) (whence : SeekMode)
        → Step filesystem table (fseek table fd offset whence).1

  -- The tables after any sequence of calls.
  pub data Reachable (filesystem : Option (FileSystem P)) : Descriptors P → Type 0 where
    empty : Reachable filesystem (replicate max_descriptors none)
    after :
        {table table' : Descriptors P}
        → Reachable filesystem table
        → Step filesystem table table'
        → Reachable filesystem table'

  no_descriptor : (n i : ℕ) (d : FileDescriptor P) → get_elem? (replicate n none) i ≢ some (some d)
  no_descriptor zero i d h = cc
  no_descriptor (suc n) zero d h = cc
  no_descriptor (suc n) (suc i) d h = no_descriptor n i d h

  Step-IsTable :
      (filesystem : Option (FileSystem P)) (table table' : Descriptors P)
      → IsTable table
      → Step filesystem table table'
      → IsTable table'
  Step-IsTable filesystem table table' is (opens filename mode_str n h) =
      elim (fopen-Opens table filesystem filename mode_str n table' h) [
        | inl (_, same) ↦ rw same is
        | inr added ↦ Added-IsTable filesystem table table' n is added
      ]
  Step-IsTable filesystem table table' is (closes fd) = closed-IsTable table fd is
  Step-IsTable filesystem table table' is (seeks fd offset whence) =
      sought-IsTable table fd offset whence is

  -- After any sequence of `fopen`, `fclose` and `fseek` from the empty table, the table has its 512
  -- slots, and a descriptor in slot `i`, counted from 0, has the number `i + 1`.
  pub Reachable-IsTable :
      (filesystem : Option (FileSystem P)) (table : Descriptors P)
      → Reachable filesystem table
      → IsTable table
  Reachable-IsTable filesystem _ empty = record {
    size = length-replicate {A = Option (FileDescriptor P)} max_descriptors none;
    numbered = λ i d h. absurd (no_descriptor max_descriptors i d h);
  }
  Reachable-IsTable filesystem table (after {table = before} r s) =
      Step-IsTable filesystem before table (Reachable-IsTable filesystem before r) s

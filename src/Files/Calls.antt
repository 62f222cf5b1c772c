-- ===== src/Files/Calls.antt =====
-- `fopen`, `fclose` and `fseek` on a table of descriptors.
use os_dev_mtk.Base.{
  ℕ, ◌+◌, ◌-◌, ◌≡◌, refl, inl, inr, ◌⊎◌, not, Option, none, some, List, [], ◌∷◌, arith, set, ◌>>=◌,
  >>=-eq-some, if◌then◌else◌, ℤ, Bool-cases, Option-cases,
}
use os_dev_mtk.PathParser.{pparser_parse, is_zero}
use os_dev_mtk.Fat16.Driver.{FileMode, read, write, append, invalid}
use os_dev_mtk.Files.{
  FileSystem, Descriptors, Opening, opening, refused, free_slot, file_get_mode_by_str,
  file_new_descriptor, open_with, fopen,
}

module _ {P : Type 0} where
  -- The first free slot holds a new descriptor, and nothing else has changed.
  pub record Added (filesystem : Option (FileSystem P)) (table : Descriptors P) (n : ℕ)
      (table' : Descriptors P) : Type 0 where
    pub slot : ℕ
    pub fs : FileSystem P
    pub private : P
    pub served : filesystem ≡ some fs
    pub first : free_slot table 0 ≡ some slot
    pub number : n ≡ slot + 1
    pub stored :
        table' ≡ set table slot (some (record { id = slot + 1; fs = fs; private = private }))

  abbrev pub Opens : Option (FileSystem P) → Descriptors P → ℕ → Descriptors P → Type 0
  Opens filesystem table n table' = ((n ≡ 0) × (table' ≡ table)) ⊎ Added filesystem table n table'

  stored-Opens :
      (table : Descriptors P) (fs : FileSystem P) (private : P) (n : ℕ) (table' : Descriptors P)
      → elim (file_new_descriptor table) as (λ _. Option (ℕ × Descriptors P)) [
        | none ↦ some (0, table)
        | some id ↦
            some (id, set table (id - 1) (some (record { id = id; fs = fs; private = private })))
      ]
        ≡ some (n, table')
      → Opens (some fs) table n table'
  unfolding file_new_descriptor
  stored-Opens table fs private n table' h = elim (Option-cases (free_slot table 0)) [
    | inl full ↦ let h' = rw full at h in inl (ground arith)
    | inr (i, e) ↦
        let h' = rw e at h in
        let back : i + 1 - 1 ≡ i = omega arith in
        let h'' = rw back at h' in
        inr (record {
          slot = i;
          fs = fs;
          private = private;
          served = refl;
          first = e;
          number = ground arith;
          stored = ground arith;
        })
  ]

  open_some :
      (table : Descriptors P) (fs : FileSystem P) (o : Option (Opening P)) (n : ℕ)
      (table' : Descriptors P)
      → (o >>= λ opened. elim opened as (λ _. Option (ℕ × Descriptors P)) [
        | refused e ↦ some (0, table)
        | opening private ↦ elim (file_new_descriptor table) [
          | none ↦ some (0, table)
          | some id ↦
              some (id, set table (id - 1) (some (record { id = id; fs = fs; private = private })))
        ]
      ])
        ≡ some (n, table')
      → Opens (some fs) table n table'
  open_some table fs none n table' h = cc
  open_some table fs (some (refused e)) n table' h = inl (ground arith)
  open_some table fs (some (opening private)) n table' h = stored-Opens table fs private n table' h

  open_with-Opens :
      (table : Descriptors P) (fs : FileSystem P) (part : List ℕ) (parts : List (List ℕ))
      (mode : FileMode) (n : ℕ) (table' : Descriptors P)
      → open_with table fs part parts mode ≡ some (n, table')
      → Opens (some fs) table n table'
  unfolding open_with
  open_with-Opens table fs part parts read n table' h =
      open_some table fs (fs.open_file part parts read) n table' h
  open_with-Opens table fs part parts write n table' h =
      open_some table fs (fs.open_file part parts write) n table' h
  open_with-Opens table fs part parts append n table' h =
      open_some table fs (fs.open_file part parts append) n table' h
  open_with-Opens table fs part parts invalid n table' h = inl (ground arith)

  parsed-Opens :
      (table : Descriptors P) (filesystem : Option (FileSystem P)) (mode_str : List ℕ) (drive : ℤ)
      (parts : List (List ℕ)) (n : ℕ) (table' : Descriptors P)
      → elim parts as (λ _. Option (ℕ × Descriptors P)) [
        | [] ↦ some (0, table)
        | part ∷ parts ↦ if not (is_zero drive) then some (0, table) else elim filesystem [
          | none ↦ some (0, table)
          | some fs ↦ file_get_mode_by_str mode_str >>= λ mode. open_with table fs part parts mode
        ]
      ]
        ≡ some (n, table')
      → Opens filesystem table n table'
  parsed-Opens table filesystem mode_str drive [] n table' h = inl (ground arith)
  parsed-Opens table none mode_str drive (part ∷ parts) n table' h =
      elim (Bool-cases (is_zero drive)) [
        | inl z ↦ let h' = rw z at h in inl (ground arith)
        | inr z ↦ let h' = rw z at h in inl (ground arith)
      ]
  parsed-Opens table (some fs) mode_str drive (part ∷ parts) n table' h =
      elim (Bool-cases (is_zero drive)) [
        | inl z ↦
            let h' = rw z at h in
            let (mode, _, e) = >>=-eq-some (file_get_mode_by_str mode_str) _ h' in
            open_with-Opens table fs part parts mode n table' e
        | inr z ↦ let h' = rw z at h in inl (ground arith)
      ]

  -- `fopen` returns 0 and leaves the table, or it stores a descriptor in the first free slot and
  -- returns its number.
  pub fopen-Opens :
      (table : Descriptors P) (filesystem : Option (FileSystem P)) (filename mode_str : List ℕ)
      (n : ℕ) (table' : Descriptors P)
      → fopen table filesystem filename mode_str ≡ some (n, table')
      → Opens filesystem table n table'
  unfolding fopen
  fopen-Opens table filesystem filename mode_str n table' h =
      let (root, _, h') = >>=-eq-some (pparser_parse filename) _ h in
      elim (Option-cases root) [
        | inl e ↦ let h'' = rw e at h' in inl (ground arith)
        | inr (path, e) ↦
            parsed-Opens table filesystem mode_str path.drive_number path.parts n table'
              (rw e at h')
      ]

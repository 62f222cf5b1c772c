-- ===== src/Files.antt =====
-- src/kernel/fs/file.c and includes/fs/file.h: the file systems, the table of descriptors, and the
-- calls that the rest of the kernel makes. A file system is a record of its operations over its own
-- descriptors `P`; where one of them is `none`, it accesses memory that it must not, or does not
-- end. A descriptor holds no disk: there is one. The allocation of a descriptor is taken to succeed.
pub mod Table
pub mod Calls
pub mod Sessions
pub mod Reopen
pub mod Fat
mod Tests
use os_dev_mtk.Base.{
  ℕ, zero, suc, ◌+◌, ◌-◌, Bool, true, false, not, ◌||◌, Option, none, some, List, [], ◌∷◌, ◌>>=◌,
  ◌==◌, ltb, if◌then◌else◌, get_elem?, set, replicate, ℤ, pos, negsuc, is_neg, ne, eio, einvarg,
  enomem,
}
use os_dev_mtk.Base.Run
use os_dev_mtk.Base.Run.{Run, panic}
use os_dev_mtk.Text.{strncmp}
use os_dev_mtk.PathParser.{PathRoot, pparser_parse, is_zero}
use os_dev_mtk.Fat16.Driver.{FileMode, read, write, append, invalid, SeekMode, FileStat}
use os_dev_mtk.Fat16.Clusters.{Fetched}

-- `MAX_FILESYSTEMS`
abbrev pub max_filesystems : ℕ
max_filesystems = 12

-- `MAX_FILE_DESCRIPTORS_ACTIVE`
abbrev pub max_descriptors : ℕ
max_descriptors = 512

-- What `open` returns: private data, or an error in a pointer.
pub data Opening (P : Type 0) : Type 0 where
  opening : P → Opening P
  refused : ℤ → Opening P

-- `struct filesystem`, without its name. `open_file` takes the parts of a path, the first one apart.
pub record FileSystem (P : Type 0) : Type 0 where
  pub resolve : (disk : ℕ) → Option ℕ
  pub open_file : (part : List ℕ) → (parts : List (List ℕ)) → FileMode → Option (Opening P)
  pub read_items : P → (size nmemb : ℕ) → Option Fetched
  pub seek : P → (offset : ℕ) → SeekMode → ℤ × P
  pub stat : P → FileStat → ℤ × FileStat
  pub close : P → ℤ

-- `struct file_descriptor`
pub record FileDescriptor (P : Type 0) : Type 0 where
  pub id : ℕ
  pub fs : FileSystem P
  pub private : P

abbrev pub FileSystems : Type 0 → Type 0
FileSystems P = List (Option (FileSystem P))

abbrev pub Descriptors : Type 0 → Type 0
Descriptors P = List (Option (FileDescriptor P))

-- The `for` loops that look for a NULL, from index `i` on.
unfoldable pub free_slot : {A : Type 0} → List (Option A) → (i : ℕ) → Option ℕ
free_slot [] i = none
free_slot (none ∷ slots) i = some i
free_slot (some a ∷ slots) i = free_slot slots (i + 1)

abbrev below_one : ℤ → Bool
below_one (pos n) = n == 0
below_one (negsuc n) = true

module _ {P : Type 0} where
  unfoldable pub fs_get_free_filesystem : FileSystems P → Option ℕ
  fs_get_free_filesystem filesystems = free_slot filesystems 0

  unfoldable pub fs_insert_filesystem : FileSystems P → Option (FileSystem P) → Run (FileSystems P)
  fs_insert_filesystem filesystems none = panic
  fs_insert_filesystem filesystems (some fs) = elim (fs_get_free_filesystem filesystems) [
    | none ↦ panic
    | some i ↦ Run.ok (set filesystems i (some fs))
  ]

  -- `fat16` is what `fat16_init` returns.
  unfoldable pub fs_load : (fat16 : FileSystem P) → Run (FileSystems P)
  fs_load fat16 = fs_insert_filesystem (replicate max_filesystems none) (some fat16)

  unfoldable pub fs_init : (fat16 : FileSystem P) → Run (Descriptors P × FileSystems P)
  fs_init fat16 = elim (fs_load fat16) [
    | Run.ok f ↦ Run.ok (replicate max_descriptors none, f)
    | Run.fault ↦ Run.fault
    | Run.panic ↦ Run.panic
  ]

  unfoldable pub file_free_descriptor : Descriptors P → FileDescriptor P → Descriptors P
  file_free_descriptor table desc = set table (desc.id - 1) none

  -- The id that a new descriptor has, or -ENOMEM. Its fields are stored by `fopen`.
  unfoldable pub file_new_descriptor : Descriptors P → Option ℕ
  file_new_descriptor table = elim (free_slot table 0) [ none ↦ none | some i ↦ some (i + 1) ]

  unfoldable pub file_get_fd : Descriptors P → (fd : ℤ) → Option (FileDescriptor P)
  file_get_fd table (negsuc n) = none
  file_get_fd table (pos fd) =
      if ltb fd 1 || ltb max_descriptors fd
      then none
      else elim (get_elem? table (fd - 1)) [ none ↦ none | some slot ↦ slot ]

  -- The first file system, in order, whose `resolve` returns 0.
  unfoldable pub fs_resolve : FileSystems P → (disk : ℕ) → Option (Option (FileSystem P))
  fs_resolve [] disk = some none
  fs_resolve (none ∷ filesystems) disk = fs_resolve filesystems disk
  fs_resolve (some fs ∷ filesystems) disk =
      let rest = fs_resolve filesystems disk in
      fs.resolve disk >>= λ r. if r == 0 then some (some fs) else rest

unfoldable pub file_get_mode_by_str : (str : List ℕ) → Option FileMode
file_get_mode_by_str str = strncmp str (b'r' ∷ 0 ∷ []) 1 >>= λ r.
    if is_zero r
    then some read
    else strncmp str (b'w' ∷ 0 ∷ []) 1 >>= λ w.
        if is_zero w
        then some write
        else strncmp str (b'a' ∷ 0 ∷ []) 1 >>= λ a. some (if is_zero a then append else invalid)

module _ {P : Type 0} where
  -- The part of `fopen` behind the mode: the file is opened, and a descriptor is stored.
  unfoldable pub open_with :
      Descriptors P
      → FileSystem P
      → (part : List ℕ) → (parts : List (List ℕ)) → FileMode
      → Option (ℕ × Descriptors P)
  open_with table fs part parts invalid = some (0, table)
  open_with table fs part parts mode = fs.open_file part parts mode >>= λ opened. elim opened [
    | refused e ↦ some (0, table)
    | opening private ↦ elim (file_new_descriptor table) [
      | none ↦ some (0, table)
      | some id ↦
          some (id, set table (id - 1) (some (record { id = id; fs = fs; private = private })))
    ]
  ]

  -- The descriptor's number, or 0 for every error. `filesystem` is that of the one disk.
  unfoldable pub fopen :
      Descriptors P
      → (filesystem : Option (FileSystem P)) → (filename mode_str : List ℕ)
      → Option (ℕ × Descriptors P)
  fopen table filesystem filename mode_str = pparser_parse filename >>= λ root. elim root [
    | none ↦ some (0, table)
    | some path ↦ elim (path.parts) [
      | [] ↦ some (0, table)
      | part ∷ parts ↦
          if not (is_zero path.drive_number) then some (0, table) else elim filesystem [
            | none ↦ some (0, table)
            | some fs ↦ file_get_mode_by_str mode_str >>= λ mode. open_with table fs part parts mode
          ]
    ]
  ]

  unfoldable pub fstat : Descriptors P → (fd : ℤ) → FileStat → ℤ × FileStat
  fstat table fd stat = elim (file_get_fd table fd) [
    | none ↦ (eio, stat)
    | some desc ↦ desc.fs.stat desc.private stat
  ]

  unfoldable pub fclose : Descriptors P → (fd : ℤ) → ℤ × Descriptors P
  fclose table fd = elim (file_get_fd table fd) [
    | none ↦ (eio, table)
    | some desc ↦
        let res = desc.fs.close desc.private in
        (res, if is_zero res then file_free_descriptor table desc else table)
  ]

  -- The private data are changed where they are.
  unfoldable pub fseek : Descriptors P → (fd : ℤ) → (offset : ℕ) → SeekMode → ℤ × Descriptors P
  fseek table fd offset whence = elim (file_get_fd table fd) [
    | none ↦ (eio, table)
    | some desc ↦
        let (res, private) = desc.fs.seek desc.private offset whence in
        (res, set table (desc.id - 1) (some (record desc { private = private })))
  ]

  unfoldable pub fread : Descriptors P → (size nmemb : ℕ) → (fd : ℤ) → Option Fetched
  fread table size nmemb fd =
      if size == 0 || nmemb == 0 || below_one fd
      then some (record { res = einvarg; bytes = [] })
      else elim (file_get_fd table fd) [
        | none ↦ some (record { res = einvarg; bytes = [] })
        | some desc ↦ desc.fs.read_items desc.private size nmemb
      ]

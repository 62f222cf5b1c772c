-- ===== src/PathParser.antt =====
-- src/kernel/fs/pparser.c. A path is the list of the bytes from a pointer on, as in Text; the linked
-- list of a `struct path_root` is the list of its parts. Each `kzalloc` is taken to return a fresh
-- block of zero bytes (Heap.Kernel), and `pparser_free` gives back nothing that the model keeps.
-- `none` is an access outside of the path or of the 108 bytes that hold a part.
pub mod Parts
pub mod RoundTrip
mod Tests
use os_dev_mtk.Base.{
  ℕ, zero, suc, ◌+◌, ◌≡◌, Bool, true, false, not, ◌&&◌, ◌||◌, Option, none, some, List, [], ◌∷◌,
  ◌>>=◌, ◌==◌, ltb, if◌then◌else◌, drop, length, ℤ, pos, is_neg, ebadpath,
}
use os_dev_mtk.Memory.{memcmp}
use os_dev_mtk.Text.{strlen, strnlen, isdigit, atoic}

-- `_FS_MAX_PATH_LEN`
abbrev pub max_path_len : ℕ
max_path_len = 108

abbrev pub is_zero : ℤ → Bool
is_zero (pos n) = n == 0
is_zero _ = false

-- `struct path_root`, its parts in order
pub record PathRoot : Type 0 where
  pub drive_number : ℤ
  pub parts : List (List ℕ)

-- The three tests in turn; the later ones read only if the earlier ones pass.
unfoldable pub path_valid_format : List ℕ → Option Bool
path_valid_format filename = strnlen filename max_path_len >>= λ len.
    if not (ltb 2 len) then some false else elim filename [
      | [] ↦ none
      | c ∷ rest ↦
          let slashes = memcmp rest (b':' ∷ b'/' ∷ []) 2 >>= λ r. some (is_zero r) in
          if isdigit c then slashes else some false
    ]

-- The drive, or -EBADPATH, and the path after it.
unfoldable pub get_drive_by_path : List ℕ → Option (ℤ × List ℕ)
get_drive_by_path path = path_valid_format path >>= λ valid.
    if not valid
    then some (ebadpath, path)
    else elim path [ [] ↦ none | c ∷ rest ↦ some (atoic c, drop 2 rest) ]

abbrev pub ends_part : ℕ → Bool
ends_part c = c == b'/' || c == 0

-- The `while` loop, with the bytes of the block that are left: the bytes stored, and the path at the
-- byte that stopped it.
unfoldable pub part_loop : (room : ℕ) → List ℕ → Option (List ℕ × List ℕ)
part_loop room [] = none
part_loop zero (c ∷ path) = if ends_part c then some ([], c ∷ path) else none
part_loop (suc k) (c ∷ path) =
    let more = part_loop k path >>= λ r. some (c ∷ r.0, r.1) in
    if ends_part c then some ([], c ∷ path) else more

abbrev pub skip_slash : List ℕ → List ℕ
skip_slash [] = []
skip_slash (c ∷ path) = if c == b'/' then path else c ∷ path

-- The part, `none` inside where it is empty, and the path behind it.
unfoldable pub pparser_get_path_part : List ℕ → Option (Option (List ℕ) × List ℕ)
unfolding part_loop
pparser_get_path_part path = part_loop max_path_len path >>= λ r.
    some (elim (r.0) [ [] ↦ none | c ∷ cs ↦ some (c ∷ cs) ], skip_slash r.1)

-- `pparser_parse_path_part` until it returns NULL, with the calls that are left. A part that was
-- parsed is linked behind the one before it.
unfoldable pub parse_parts : (calls : ℕ) → List ℕ → Option (List (List ℕ))
parse_parts zero path = none
parse_parts (suc k) path = pparser_get_path_part path >>= λ r. elim (r.0) [
  | none ↦ some []
  | some part ↦ parse_parts k r.1 >>= λ parts. some (part ∷ parts)
]

-- The root, or NULL. A path of `n` bytes takes at most `n + 1` calls.
unfoldable pub pparser_parse : List ℕ → Option (Option PathRoot)
pparser_parse path = strlen path >>= λ len.
    if ltb max_path_len len
    then some none
    else get_drive_by_path path >>= λ r.
        if is_neg r.0
        then some none
        else parse_parts (suc len) r.1 >>= λ parts.
            some (some (record { drive_number = r.0; parts = parts }))

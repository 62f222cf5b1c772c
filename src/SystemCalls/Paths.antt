-- ===== src/SystemCalls/Paths.antt =====
-- src/kernel/isr80h/process.c: the path of a program is its name behind `0:/`, in an array of 108 bytes.
use os_dev_mtk.Base.{
  ℕ, suc, ◌≤◌, ◌≡◌, refl, Option, none, some, List, [], ◌∷◌, ◌++◌, arith, length, length-drop, take,
  drop, ◌>>=◌,
}
use os_dev_mtk.Text.{NoNul, strcpy, strncpy}
use os_dev_mtk.Text.Copy.{strcpy_lem, strcpy-none}

abbrev pub root_text : List ℕ
root_text = b'0' ∷ b':' ∷ b'/' ∷ 0 ∷ []

-- `strcpy(path, "0:/")` and `strcpy(path+3, filename)`
unfoldable pub start_path : (path filename : List ℕ) → Option (List ℕ)
start_path path filename =
    strcpy path root_text >>= λ p. strcpy (drop 3 p) filename >>= λ q. some (take 3 p ++ q)

-- `strcpy(path, "0:/")` and `strncpy(path+3, prog_name, sizeof(path))`
unfoldable pub invoke_path : (path prog_name : List ℕ) → Option (List ℕ)
invoke_path path prog_name =
    strcpy path root_text >>= λ p. strncpy (drop 3 p) prog_name 108 >>= λ q. some (take 3 p ++ q)

root-strcpy :
    (path : List ℕ)
    → length path ≡ 108
    → strcpy path root_text ≡ some (b'0' ∷ b':' ∷ b'/' ∷ 0 ∷ drop 4 path)
root-strcpy path size =
    strcpy_lem (b'0' ∷ b':' ∷ b'/' ∷ []) [] path (omega arith, (omega arith, (omega arith, tt)))
      (omega arith)

-- A name of up to 104 characters, which takes 105 bytes with its NUL, makes a path of the name behind
-- `0:/` in the 108 bytes of the array, and a longer one, up to the 107 that fit the copy of the name, is
-- written past the end of the array.
pub start_path-bounds :
    (path s rest : List ℕ)
    → length path ≡ 108
    → NoNul s
    → (length s ≤ 104
        → (behind : List ℕ) × (start_path path (s ++ 0 ∷ rest)
            ≡ some (b'0' ∷ b':' ∷ b'/' ∷ (s ++ 0 ∷ behind))))
      × (105 ≤ length s → start_path path (s ++ 0 ∷ rest) ≡ none)
unfolding start_path
start_path-bounds path s rest size string =
    let first = root-strcpy path size in
    let left : length (drop 4 path) ≡ 104 = omega (arith, length-drop 4 path) in
    (
      λ fits.
          let copied = strcpy_lem s rest (0 ∷ drop 4 path) string (omega arith) in
          (drop (suc (length s)) (0 ∷ drop 4 path), rw (first, copied) refl),
      λ long. rw (first, strcpy-none s rest (0 ∷ drop 4 path) string (omega arith)) refl,
    )

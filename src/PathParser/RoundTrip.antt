-- ===== src/PathParser/RoundTrip.antt =====
-- `pparser_parse` on every NUL-terminated path, and the path that a root is printed as.
use Prim.Native.Nat.{min}
use os_dev_mtk.Base.{
  ℕ, zero, suc, ◌+◌, ◌-◌, ◌<◌, ◌≤◌, ◌≡◌, ◌∙◌, refl, inl, inr, Bool, true, false, ◌&&◌, Option, none,
  some, List, [], ◌∷◌, ◌++◌, ◌==◌, ltb, if◌then◌else◌, length, length-append, arith, Bool-cases, ap,
  pos,
}
use mathlib.Core.List.{append-nil}
use os_dev_mtk.Memory.{memcmp}
use os_dev_mtk.Text.{NoNul, isdigit, atoic}
use os_dev_mtk.Text.Length.{strlen_lem, strnlen_lem}
use os_dev_mtk.PathParser.{
  PathRoot, max_path_len, path_valid_format, get_drive_by_path, pparser_parse,
}
use os_dev_mtk.PathParser.Parts.{
  IsClean, AllParts, first_part, from_slash, parts_of, parts_of-nil, parts_of-cons,
  parse_parts-parts_of,
}

-- The paths that begin with a digit, a colon and a slash.
unfoldable pub has_drive : List ℕ → Bool
has_drive (c ∷ x ∷ y ∷ t) = isdigit c && (x == b':' && y == b'/')
has_drive _ = false

path_valid_format_lem :
    (s rest : List ℕ) → NoNul s → path_valid_format (s ++ 0 ∷ rest) ≡ some (has_drive s)
unfolding path_valid_format has_drive memcmp
path_valid_format_lem [] rest h = rw (strnlen_lem [] rest max_path_len h)
path_valid_format_lem (c ∷ []) rest h = rw (strnlen_lem (c ∷ []) rest max_path_len h)
path_valid_format_lem (c ∷ x ∷ []) rest h = rw (strnlen_lem (c ∷ x ∷ []) rest max_path_len h)
path_valid_format_lem (c ∷ x ∷ y ∷ t) rest h =
    let len : ltb 2 (min max_path_len (suc (suc (suc (length t))))) ≡ true = ground arith in
    rw (strnlen_lem (c ∷ x ∷ y ∷ t) rest max_path_len h) (rw len (ground arith))

-- What `pparser_parse` makes of a path.
unfoldable pub parsed : List ℕ → Option PathRoot
parsed (c ∷ x ∷ y ∷ t) =
    if has_drive (c ∷ x ∷ y ∷ t)
    then some (record {
      drive_number = pos (c - 48);
      parts = parts_of (suc (suc (suc (suc (length t))))) t;
    })
    else none
parsed _ = none

has_drive-isdigit : (c x y : ℕ) (t : List ℕ) → has_drive (c ∷ x ∷ y ∷ t) ≡ true → isdigit c ≡ true
unfolding has_drive
has_drive-isdigit c x y t h = ground arith

atoic_digit : (c : ℕ) → isdigit c ≡ true → atoic c ≡ pos (c - 48)
unfolding atoic isdigit
atoic_digit c h = ground arith

-- On every NUL-terminated path `pparser_parse` ends, and reads and writes inside its objects. It gives
-- no root for a path of more than 108 bytes, and else the result of the specification: the drive and
-- the parts of a path that begins with a drive, and no root for any other.
pub pparser_parse_lem :
    (s rest : List ℕ)
    → NoNul s
    → pparser_parse (s ++ 0 ∷ rest) ≡ some (if ltb max_path_len (length s) then none else parsed s)
unfolding pparser_parse get_drive_by_path parsed
pparser_parse_lem [] rest h =
    rw (strlen_lem [] rest h, path_valid_format_lem [] rest h) (unfold has_drive in refl)
pparser_parse_lem (c ∷ []) rest h =
    rw (strlen_lem (c ∷ []) rest h, path_valid_format_lem (c ∷ []) rest h)
      (unfold has_drive in refl)
pparser_parse_lem (c ∷ x ∷ []) rest h =
    rw (strlen_lem (c ∷ x ∷ []) rest h, path_valid_format_lem (c ∷ x ∷ []) rest h)
      (unfold has_drive in refl)
pparser_parse_lem (c ∷ x ∷ y ∷ t) rest h =
    let s : List ℕ = c ∷ x ∷ y ∷ t in
    let n : ℕ = suc (suc (suc (length t))) in
    elim (Bool-cases (ltb max_path_len n)) [
      | inl long ↦ rw (strlen_lem s rest h) (rw long)
      | inr short ↦ elim (Bool-cases (has_drive s)) [
        | inr no_drive ↦
            rw (strlen_lem s rest h) (rw short (rw (path_valid_format_lem s rest h) (rw no_drive)))
        | inl drive ↦
            let digit = atoic_digit c (has_drive-isdigit c x y t drive) in
            let parts = parse_parts-parts_of (suc n) t rest h.1.1.1 (ground arith) (omega arith) in
            rw (strlen_lem s rest h)
              (rw short (rw (path_valid_format_lem s rest h) (rw drive (rw digit (rw parts)))))
      ]
    ]

-- The parts with a slash between each two.
unfoldable pub join : List (List ℕ) → List ℕ
join [] = []
join (p ∷ []) = p
join (p ∷ q ∷ ps) = p ++ b'/' ∷ join (q ∷ ps)

unfoldable pub print_path : (drive : ℕ) → List (List ℕ) → List ℕ
unfolding join
print_path drive ps = (48 + drive) ∷ b':' ∷ b'/' ∷ join ps

clean-NoNul : (p s : List ℕ) → IsClean p → NoNul s → NoNul (p ++ s)
clean-NoNul [] s h k = k
clean-NoNul (c ∷ p) s h k = (ground arith, clean-NoNul p s h.1 k)

first_part-clean :
    (p t : List ℕ)
    → IsClean p
    → (first_part (p ++ b'/' ∷ t) ≡ p) × (from_slash (p ++ b'/' ∷ t) ≡ b'/' ∷ t)
first_part-clean [] t h = (refl, refl)
first_part-clean (c ∷ p) t h =
    let other : (c == b'/') ≡ false = ground arith in
    let ih = first_part-clean p t h.1 in rw other (ap (λ l. c ∷ l) ih.0, ih.1)

first_part-all : (p : List ℕ) → IsClean p → (first_part p ≡ p) × (from_slash p ≡ [])
first_part-all [] h = (refl, refl)
first_part-all (c ∷ p) h =
    let other : (c == b'/') ≡ false = ground arith in
    let ih = first_part-all p h.1 in rw other (ap (λ l. c ∷ l) ih.0, ih.1)

join-NoNul : (ps : List (List ℕ)) → AllParts ps → NoNul (join ps)
unfolding join
join-NoNul [] h = tt
join-NoNul (p ∷ []) h = rw (← append-nil p) (clean-NoNul p [] h.0.clean tt)
join-NoNul (p ∷ q ∷ ps) h =
    clean-NoNul p (b'/' ∷ join (q ∷ ps)) h.0.clean (omega arith, join-NoNul (q ∷ ps) h.1)

parts_of-empty : (k : ℕ) → parts_of k [] ≡ []
parts_of-empty zero = unfold parts_of in refl
parts_of-empty (suc k) = parts_of-nil k [] refl

parts_of-join :
    (calls : ℕ) (ps : List (List ℕ))
    → AllParts ps
    → length (join ps) < calls
    → parts_of calls (join ps) ≡ ps
unfolding join
parts_of-join zero ps h f = elim f [ ]
parts_of-join (suc k) [] h f = parts_of-nil k [] refl
parts_of-join (suc k) ([] ∷ ps) h f = absurd (omega (arith, h.0.some_byte))
parts_of-join (suc k) ((c ∷ p) ∷ []) h f =
    let (first, from) = first_part-all (c ∷ p) h.0.clean in
    parts_of-cons k c (c ∷ p) p first ∙ rw from (ap (λ l. (c ∷ p) ∷ l) (parts_of-empty k))
parts_of-join (suc k) ((c ∷ p) ∷ q ∷ ps) h f =
    let t = join (q ∷ ps) in
    let (first, from) = first_part-clean (c ∷ p) t h.0.clean in
    let ih = parts_of-join k (q ∷ ps) h.1 (omega (arith, length-append (c ∷ p) (b'/' ∷ t))) in
    parts_of-cons k c ((c ∷ p) ++ b'/' ∷ t) p first ∙ rw from (ap (λ l. (c ∷ p) ∷ l) ih)

-- Parsing the path that a drive of one digit and parts of 1 to 108 bytes print to gives the drive and
-- the parts back, when the path has at most 108 bytes.
pub pparser_parse-print_path :
    (drive : ℕ) (ps : List (List ℕ)) (rest : List ℕ)
    → drive < 10
    → AllParts ps
    → length (print_path drive ps) ≤ max_path_len
    → pparser_parse (print_path drive ps ++ 0 ∷ rest)
      ≡ some (some (record { drive_number = pos drive; parts = ps }))
unfolding print_path parsed
pparser_parse-print_path drive ps rest d h l =
    let t = join ps in
    let s : List ℕ = print_path drive ps in
    let short : ltb max_path_len (length s) ≡ false = ground arith in
    let digit : has_drive s ≡ true = unfold has_drive isdigit in ground arith in
    let number : 48 + drive - 48 ≡ drive = omega arith in
    let nul_free : NoNul s = (omega arith, (omega arith, (omega arith, join-NoNul ps h))) in
    pparser_parse_lem s rest nul_free
    ∙ rw short (
        rw digit (
          rw number (
            ap (λ parts. some (some (record { drive_number = pos drive; parts = parts })))
              (parts_of-join (suc (suc (suc (suc (length t))))) ps h (omega arith)))))

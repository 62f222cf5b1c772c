-- ===== src/PathParser/Parts.antt =====
-- The parts that the loops of pparser.c take from a path.
use os_dev_mtk.Base.{
  ℕ, zero, suc, ◌+◌, ◌<◌, ◌≤◌, ◌≡◌, refl, inl, inr, true, false, none, some, List, [], ◌∷◌, ◌++◌,
  ◌==◌, if◌then◌else◌, length, arith, Bool-cases, List-cases, ap,
}
use os_dev_mtk.Text.{NoNul}
use os_dev_mtk.PathParser.{
  max_path_len, ends_part, part_loop, skip_slash, pparser_get_path_part, parse_parts,
}

-- No byte ends the part.
abbrev pub IsClean : List ℕ → Type 0
IsClean [] = Unit {0}
IsClean (c ∷ p) = (ends_part c ≡ false) × IsClean p

-- A part as the parser stores it: not empty, clean, and shorter than its block.
pub record IsPart (p : List ℕ) : Type 0 where
  pub some_byte : 0 < length p
  pub clean : IsClean p
  pub fits : length p < max_path_len

abbrev pub AllParts : List (List ℕ) → Type 0
AllParts [] = Unit {0}
AllParts (p ∷ ps) = IsPart p × AllParts ps

-- The loop takes a clean prefix up to the byte that ends it.
pub part_loop-clean :
    (p : List ℕ) (c room : ℕ) (rest : List ℕ)
    → IsClean p
    → ends_part c ≡ true
    → length p ≤ room
    → part_loop room (p ++ c ∷ rest) ≡ some (p, c ∷ rest)
unfolding part_loop
part_loop-clean [] c zero rest h e l = rw e
part_loop-clean [] c (suc k) rest h e l = rw e
part_loop-clean (d ∷ p) c zero rest h e l = elim l [ ]
part_loop-clean (d ∷ p) c (suc k) rest h e l =
    rw (h.0, part_loop-clean p c k rest h.1 e (omega arith))

-- The bytes before the first slash, and those from it on.
abbrev pub first_part : List ℕ → List ℕ
first_part [] = []
first_part (c ∷ s) = let more = c ∷ first_part s in if c == b'/' then [] else more

abbrev pub from_slash : List ℕ → List ℕ
from_slash [] = []
from_slash (c ∷ s) = let more = from_slash s in if c == b'/' then c ∷ s else more

-- A reference for the whole loop: the parts up to the first empty one.
unfoldable pub parts_of : (calls : ℕ) → List ℕ → List (List ℕ)
parts_of zero s = []
parts_of (suc k) s = elim (first_part s) [
  | [] ↦ []
  | c ∷ cs ↦ (c ∷ cs) ∷ parts_of k (skip_slash (from_slash s))
]

first_part-IsClean : (s : List ℕ) → NoNul s → IsClean (first_part s)
first_part-IsClean [] h = tt
first_part-IsClean (c ∷ s) h = elim (Bool-cases (c == b'/')) [
  | inl slash ↦ rw slash tt
  | inr other ↦ rw other (ground arith, first_part-IsClean s h.1)
]

length-first_part : (s : List ℕ) → length (first_part s) + length (from_slash s) ≡ length s
length-first_part [] = omega arith
length-first_part (c ∷ s) = ground (arith, length-first_part s)

part_loop-first_part :
    (s rest : List ℕ) (room : ℕ)
    → NoNul s
    → length s ≤ room
    → part_loop room (s ++ 0 ∷ rest) ≡ some (first_part s, from_slash s ++ 0 ∷ rest)
unfolding part_loop
part_loop-first_part [] rest zero h l = refl
part_loop-first_part [] rest (suc k) h l = refl
part_loop-first_part (c ∷ s) rest zero h l = elim l [ ]
part_loop-first_part (c ∷ s) rest (suc k) h l =
    let ih = part_loop-first_part s rest k h.1 (omega arith) in
    elim (Bool-cases (c == b'/')) [
      | inl slash ↦ rw slash
      | inr other ↦ let stays : (c == 0) ≡ false = ground arith in rw (other, stays, ih)
    ]

-- The rest of the path after a part: shorter, and still without NUL.
skipped :
    (s rest : List ℕ)
    → NoNul s
    → (skip_slash (from_slash s ++ 0 ∷ rest) ≡ skip_slash (from_slash s) ++ 0 ∷ rest)
      × NoNul (skip_slash (from_slash s))
      × (length (skip_slash (from_slash s)) ≤ length (from_slash s))
skipped [] rest h = (refl, tt, omega arith)
skipped (c ∷ s) rest h = elim (Bool-cases (c == b'/')) [
  | inl slash ↦ rw slash (rw slash (refl, h.1, omega arith))
  | inr other ↦ rw other (skipped s rest h.1)
]

get_path_part_lem :
    (s rest : List ℕ)
    → NoNul s
    → length s ≤ max_path_len
    → pparser_get_path_part (s ++ 0 ∷ rest)
      ≡ some (
        elim (first_part s) [ [] ↦ none | c ∷ cs ↦ some (c ∷ cs) ],
        skip_slash (from_slash s) ++ 0 ∷ rest,
      )
unfolding pparser_get_path_part
get_path_part_lem s rest h l =
    rw (part_loop-first_part s rest max_path_len h l, (skipped s rest h).0)

pub parts_of-nil : (k : ℕ) (s : List ℕ) → first_part s ≡ [] → parts_of (suc k) s ≡ []
unfolding parts_of
parts_of-nil k s e = rw (e, parts_of)

pub parts_of-cons :
    (k c : ℕ) (s cs : List ℕ)
    → first_part s ≡ c ∷ cs
    → parts_of (suc k) s ≡ (c ∷ cs) ∷ parts_of k (skip_slash (from_slash s))
unfolding parts_of
parts_of-cons k c s cs e = rw (e, parts_of)

-- With more calls than the path has bytes, the parser takes the parts of the reference: it ends, and
-- reads and writes inside its objects.
pub parse_parts-parts_of :
    (calls : ℕ) (s rest : List ℕ)
    → NoNul s
    → length s ≤ max_path_len
    → length s < calls
    → parse_parts calls (s ++ 0 ∷ rest) ≡ some (parts_of calls s)
unfolding parse_parts
parse_parts-parts_of zero s rest h l f = elim f [ ]
parse_parts-parts_of (suc k) s rest h l f = elim (List-cases (first_part s)) [
  | inl e ↦ rw (get_path_part_lem s rest h l, e, parts_of-nil k s e)
  | inr (c, cs, e) ↦
      let (_, clean, shorter) = skipped s rest h in
      let ih =
        parse_parts-parts_of k (skip_slash (from_slash s)) rest clean
          (omega (arith, length-first_part s)) (omega (arith, length-first_part s, ap length e)) in
      rw (get_path_part_lem s rest h l, e, ih, parts_of-cons k c s cs e)
]

-- Every part is one that fits its block.
pub parts_of-AllParts :
    (calls : ℕ) (s : List ℕ) → NoNul s → length s < max_path_len → AllParts (parts_of calls s)
unfolding parts_of
parts_of-AllParts zero s h l = tt
parts_of-AllParts (suc k) s h l = elim (List-cases (first_part s)) [
  | inl e ↦ rw (parts_of-nil k s e) tt
  | inr (c, cs, e) ↦
      let (_, clean, shorter) = skipped s [] h in
      rw (parts_of-cons k c s cs e) (
        record {
          some_byte = omega arith;
          clean = rw e at (first_part-IsClean s h);
          fits = omega (arith, length-first_part s, ap length e);
        },
        parts_of-AllParts k (skip_slash (from_slash s)) clean (omega (arith, length-first_part s)),
      )
]

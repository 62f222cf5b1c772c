-- ===== src/PathParser/Tests.antt =====
-- Runs of pparser.c, and its theorems at concrete paths.
use os_dev_mtk.Base.{ℕ, ◌≡◌, refl, none, some, List, [], ◌∷◌, ◌++◌, arith, pos}
use os_dev_mtk.Text.{isdigit}
use os_dev_mtk.PathParser.{pparser_parse}
use os_dev_mtk.PathParser.Parts.{AllParts}
use os_dev_mtk.PathParser.RoundTrip.{print_path, pparser_parse-print_path, parsed, has_drive}

-- "bin" and "sh"
abbrev bin : List ℕ
bin = b'b' ∷ b'i' ∷ b'n' ∷ []

abbrev sh : List ℕ
sh = b's' ∷ b'h' ∷ []

parts-AllParts : AllParts (bin ∷ sh ∷ [])
parts-AllParts = (
  record { some_byte = omega arith; clean = (refl, (refl, (refl, tt))); fits = omega arith },
  (record { some_byte = omega arith; clean = (refl, (refl, tt)); fits = omega arith }, tt),
)

-- "0:/bin/sh" and "0:bin"
printed : print_path 0 (bin ∷ sh ∷ []) ≡ b'0' ∷ b':' ∷ b'/' ∷ bin ++ b'/' ∷ sh
unfolding print_path
printed = refl

pparser_parse-print_path_example :
    pparser_parse (print_path 0 (bin ∷ sh ∷ []) ++ 0 ∷ [])
    ≡ some (some (record { drive_number = pos 0; parts = bin ∷ sh ∷ [] }))
pparser_parse-print_path_example =
    pparser_parse-print_path 0 (bin ∷ sh ∷ []) [] (omega arith) parts-AllParts
      (unfold print_path in omega arith)

abbrev no_slash : List ℕ
no_slash = b'0' ∷ b':' ∷ bin

no_slash-none : parsed no_slash ≡ none
unfolding parsed has_drive isdigit
no_slash-none = refl

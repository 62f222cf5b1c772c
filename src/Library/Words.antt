-- ===== src/Library/Words.antt =====
-- The words of a text that spaces divide.
use os_dev_mtk.Base.{
  ℕ, ◌≤◌, ◌≡◌, refl, sym, ap, false, List, [], ◌∷◌, ◌++◌, ◌==◌, if◌then◌else◌, length, inl, inr,
  Bool-cases, arith, snoc-append,
}
use mathlib.Core.List.{append-nil}
use os_dev_mtk.Text.{NoNul}

-- A word that has begun, and the words of the text behind it.
abbrev pub flush : (word : List ℕ) → List (List ℕ) → List (List ℕ)
flush [] ws = ws
flush (c ∷ word) ws = (c ∷ word) ∷ ws

abbrev pub words_from : (word s : List ℕ) → List (List ℕ)
words_from word [] = flush word []
words_from word (c ∷ s) =
    if c == b' ' then flush word (words_from [] s) else words_from (word ++ c ∷ []) s

abbrev pub words : List ℕ → List (List ℕ)
words s = words_from [] s

abbrev pub trim : List ℕ → List ℕ
trim [] = []
trim (c ∷ s) = if c == b' ' then trim s else c ∷ s

abbrev pub word_of : List ℕ → List ℕ
word_of [] = []
word_of (c ∷ s) = if c == b' ' then [] else c ∷ word_of s

abbrev pub after_of : List ℕ → List ℕ
after_of [] = []
after_of (c ∷ s) = if c == b' ' then s else after_of s

pub trim-words : (s : List ℕ) → words (trim s) ≡ words s
trim-words [] = refl
trim-words (c ∷ s) = elim (Bool-cases (c == b' ')) [
  | inl gap ↦ rw (gap, trim-words s) refl
  | inr other ↦ rw (other, other) refl
]

pub word-words :
    (c : ℕ) (word s : List ℕ)
    → words_from (c ∷ word) s ≡ ((c ∷ word) ++ word_of s) ∷ words (after_of s)
word-words c word [] = ap (λ r. (c ∷ r) ∷ []) (sym (append-nil word))
word-words c word (d ∷ s) = elim (Bool-cases (d == b' ')) [
  | inl gap ↦ rw gap (ap (λ r. (c ∷ r) ∷ words s) (sym (append-nil word)))
  | inr other ↦
      rw (other, word-words c (word ++ d ∷ []) s)
        (ap (λ r. (c ∷ r) ∷ words (after_of s)) (snoc-append d word (word_of s)))
]

pub trim-NoNul : (s : List ℕ) → NoNul s → NoNul (trim s)
trim-NoNul [] h = tt
trim-NoNul (c ∷ s) h = elim (Bool-cases (c == b' ')) [
  | inl gap ↦ rw gap (trim-NoNul s h.1)
  | inr other ↦ rw other h
]

pub length-trim : (s : List ℕ) → length (trim s) ≤ length s
length-trim [] = omega arith
length-trim (c ∷ s) = elim (Bool-cases (c == b' ')) [
  | inl gap ↦ rw gap (omega (arith, length-trim s))
  | inr other ↦ rw other (omega arith)
]

pub length-after : (s : List ℕ) → length (after_of s) ≤ length s
length-after [] = omega arith
length-after (c ∷ s) = elim (Bool-cases (c == b' ')) [
  | inl gap ↦ rw gap (omega arith)
  | inr other ↦ rw other (omega (arith, length-after s))
]

pub after-NoNul : (s : List ℕ) → NoNul s → NoNul (after_of s)
after-NoNul [] h = tt
after-NoNul (c ∷ s) h = elim (Bool-cases (c == b' ')) [
  | inl gap ↦ rw gap h.1
  | inr other ↦ rw other (after-NoNul s h.1)
]

pub word-NoNul : (s : List ℕ) → NoNul s → NoNul (word_of s)
word-NoNul [] h = tt
word-NoNul (c ∷ s) h = elim (Bool-cases (c == b' ')) [
  | inl gap ↦ rw gap tt
  | inr other ↦ rw other (h.0, word-NoNul s h.1)
]

-- The first character that is not a space.
pub first_char : (s : List ℕ) (c : ℕ) (t : List ℕ) → trim s ≡ c ∷ t → (c == b' ') ≡ false
first_char [] c t e = cc
first_char (d ∷ s) c t e = elim (Bool-cases (d == b' ')) [
  | inl gap ↦ first_char s c t (rw gap at e)
  | inr other ↦
      let e' : d ∷ s ≡ c ∷ t = rw other at e in let same : d ≡ c = cc in rw (sym same) other
]

-- ===== src/Library/Cut.antt =====
-- What `strtok` does with the words of a text.
use os_dev_mtk.Base.{
  ℕ, zero, suc, ◌+◌, ◌≤◌, ◌<◌, ◌≡◌, refl, ◌∙◌, sym, ap, false, none, some, List, [], ◌∷◌, ◌++◌,
  ◌==◌, ltb, get_elem?, set, drop, length, inl, inr, Bool-cases, arith, length-append, length-set,
  get_elem?-append, set-append, snoc-append, drop-append,
}
use os_dev_mtk.Text.{NoNul}
use os_dev_mtk.Library.Tokens.{find_delimiter, skip_loop, token_loop, Token, token_from}
use os_dev_mtk.Library.Words.{
  words, words_from, trim, word_of, after_of, trim-words, word-words, trim-NoNul, length-trim,
  length-after, after-NoNul, word-NoNul, first_char,
}

delimits : (c : ℕ) → ltb (find_delimiter (b' ' ∷ []) c) 1 ≡ (c == b' ')
unfolding find_delimiter
delimits c = elim (Bool-cases (c == b' ')) [ inl gap ↦ rw gap refl | inr other ↦ rw other refl ]

-- The skipped spaces stand before the rest.
skip_lem :
    (fuel : ℕ) (pre s r : List ℕ)
    → length s < fuel
    → NoNul s
    → (pre' : List ℕ) × (skip_loop fuel (pre ++ (s ++ 0 ∷ r)) (b' ' ∷ []) (length pre)
        ≡ some (length pre'))
      × (pre ++ (s ++ 0 ∷ r) ≡ pre' ++ (trim s ++ 0 ∷ r))
unfolding skip_loop
skip_lem zero pre s r f h = absurd (omega (arith, f))
skip_lem (suc fuel) pre [] r f h = (pre, rw (get_elem?-append 0 pre r, delimits 0) refl, refl)
skip_lem (suc fuel) pre (c ∷ s) r f h = elim (Bool-cases (c == b' ')) [
  | inl gap ↦
      let (pre', eq, same) = skip_lem fuel (pre ++ c ∷ []) s r (omega (arith, f)) h.1 in
      let whole = snoc-append c pre (s ++ 0 ∷ r) in
      let next : length (pre ++ c ∷ []) ≡ length pre + 1 = length-append pre (c ∷ []) in
      (
        pre',
        rw (get_elem?-append c pre (s ++ 0 ∷ r), delimits c, gap) (rw (whole, next) at eq),
        sym whole ∙ same ∙ rw gap refl,
      )
  | inr other ↦
      (pre, rw (get_elem?-append c pre (s ++ 0 ∷ r), delimits c, other) refl, rw other refl)
]

-- A token and the text behind it, in the object.
record IsCut (buf' pre s r : List ℕ) (sp' : ℕ) : Type 0 where
  behind : List ℕ
  before : List ℕ
  token_at : buf' ≡ pre ++ (word_of s ++ 0 ∷ behind)
  rest_at : buf' ≡ before ++ (after_of s ++ 0 ∷ r)
  sp_at : sp' ≡ length before
  size : length buf' ≡ length (pre ++ (s ++ 0 ∷ r))

token_lem :
    (fuel : ℕ) (pre s r : List ℕ)
    → length s < fuel
    → NoNul s
    → (buf' : List ℕ) × (sp' : ℕ) × (token_loop fuel (pre ++ (s ++ 0 ∷ r)) (b' ' ∷ []) (length pre)
        ≡ some (buf', sp'))
      × IsCut buf' pre s r sp'
unfolding token_loop
token_lem zero pre s r f h = absurd (omega (arith, f))
token_lem (suc fuel) pre [] r f h = (
  pre ++ 0 ∷ r,
  length pre,
  rw (get_elem?-append 0 pre r) refl,
  record { behind = r; before = pre; token_at = refl; rest_at = refl; sp_at = refl; size = refl },
)
token_lem (suc fuel) pre (c ∷ s) r f h =
    let real : (c == 0) ≡ false = ground (arith, h.0) in
    let here = get_elem?-append c pre (s ++ 0 ∷ r) in
    elim (Bool-cases (c == b' ')) [
      | inl gap ↦ (
        set (pre ++ (c ∷ s ++ 0 ∷ r)) (length pre) 0,
        length pre + 1,
        rw (here, real, delimits c, gap) refl,
        record {
          behind = s ++ 0 ∷ r;
          before = pre ++ 0 ∷ [];
          token_at = set-append pre (s ++ 0 ∷ r) c 0 ∙ rw gap refl;
          rest_at = set-append pre (s ++ 0 ∷ r) c 0 ∙ rw gap (sym (snoc-append 0 pre (s ++ 0 ∷ r)));
          sp_at = sym (length-append pre (0 ∷ []));
          size = length-set (pre ++ (c ∷ s ++ 0 ∷ r)) (length pre) 0;
        },
      )
      | inr other ↦
          let (buf', sp', eq, cut) = token_lem fuel (pre ++ c ∷ []) s r (omega (arith, f)) h.1 in
          let whole = snoc-append c pre (s ++ 0 ∷ r) in
          let next : length (pre ++ c ∷ []) ≡ length pre + 1 = length-append pre (c ∷ []) in
          (
            buf',
            sp',
            rw (here, real, delimits c, other) (rw (whole, next) at eq),
            record {
              behind = cut.behind;
              before = cut.before;
              token_at =
                  cut.token_at ∙ snoc-append c pre (word_of s ++ 0 ∷ cut.behind) ∙ rw other refl;
              rest_at = cut.rest_at ∙ rw other refl;
              sp_at = cut.sp_at;
              size = cut.size ∙ ap length whole;
            },
          )
    ]

-- What `strtok` finds in an object whose text from `sp` on is `s`: no token if there is no word, else the
-- first word, and the text behind it is left.
pub record IsToken (s r : List ℕ) (size : ℕ) (t : Token) : Type 0 where
  pub word : List ℕ
  pub rest : List ℕ
  pub at : ℕ
  pub behind : List ℕ
  pub before : List ℕ
  pub words_eq : words s ≡ word ∷ words rest
  pub token_at : t.token ≡ some at
  pub text : drop at t.buf ≡ word ++ 0 ∷ behind
  pub left : t.buf ≡ before ++ (rest ++ 0 ∷ r)
  pub sp_at : t.sp ≡ some (length before)
  pub size_eq : length t.buf ≡ size
  pub word_nul : NoNul word
  pub rest_nul : NoNul rest
  pub shorter : length rest < length s

pub token_from-none :
    (pre s r : List ℕ)
    → NoNul s
    → trim s ≡ []
    → token_from (pre ++ (s ++ 0 ∷ r)) (b' ' ∷ []) (length pre)
      ≡ some (record { token = none; buf = pre ++ (s ++ 0 ∷ r); sp = none })
unfolding token_from
token_from-none pre s r h e =
    let buf : List ℕ = pre ++ (s ++ 0 ∷ r) in
    let fuel : length s < suc (length buf) =
      omega (arith, length-append pre (s ++ 0 ∷ r), length-append s (0 ∷ r)) in
    let (pre', skipped, same) = skip_lem (suc (length buf)) pre s r fuel h in
    let whole : buf ≡ pre' ++ 0 ∷ r = rw e at same in
    let end : get_elem? buf (length pre') ≡ some 0 =
      ap (λ b. get_elem? b (length pre')) whole ∙ get_elem?-append 0 pre' r in
    rw (skipped, end) refl

pub token_from-IsToken :
    (pre s r : List ℕ) (c : ℕ) (tail : List ℕ)
    → NoNul s
    → trim s ≡ c ∷ tail
    → (t : Token) × (token_from (pre ++ (s ++ 0 ∷ r)) (b' ' ∷ []) (length pre) ≡ some t)
      × IsToken s r (length (pre ++ (s ++ 0 ∷ r))) t
unfolding token_from
token_from-IsToken pre s r c tail h e =
    let buf : List ℕ = pre ++ (s ++ 0 ∷ r) in
    let sizes = length-append pre (s ++ 0 ∷ r) in
    let size = length-append s (0 ∷ r) in
    let (pre', skipped, same) =
      skip_lem (suc (length buf)) pre s r (omega (arith, sizes, size)) h in
    let clean : NoNul (c ∷ tail) = rw e at (trim-NoNul s h) in
    let less : length (c ∷ tail) ≤ length s = rw e at (length-trim s) in
    let other : (c == b' ') ≡ false = first_char s c tail e in
    let real : (c == 0) ≡ false = ground (arith, clean.0) in
    let whole : buf ≡ pre' ++ ((c ∷ tail) ++ 0 ∷ r) = rw e at same in
    let here : get_elem? buf (length pre') ≡ some c =
      ap (λ b. get_elem? b (length pre')) whole ∙ get_elem?-append c pre' (tail ++ 0 ∷ r) in
    let (buf', sp', cut_eq, cut) =
      token_lem (suc (length buf)) pre' (c ∷ tail) r (omega (arith, less, sizes, size)) clean in
    let cut_here = rw (sym whole) at cut_eq in
    let first : word_of (c ∷ tail) ≡ c ∷ word_of tail = rw other refl in
    let begun : words (c ∷ tail) ≡ words_from (c ∷ []) tail = rw other refl in
    let after : after_of (c ∷ tail) ≡ after_of tail = rw other refl in
    (
      record { token = some (length pre'); buf = buf'; sp = some sp' },
      rw (skipped, here, real, cut_here) refl,
      record {
        word = c ∷ word_of tail;
        rest = after_of tail;
        at = length pre';
        behind = cut.behind;
        before = cut.before;
        words_eq = sym (trim-words s) ∙ ap words e ∙ begun ∙ word-words c [] tail;
        token_at = refl;
        text =
            ap (drop (length pre')) (cut.token_at ∙ ap (λ w. pre' ++ (w ++ 0 ∷ cut.behind)) first)
            ∙ drop-append pre' ((c ∷ word_of tail) ++ 0 ∷ cut.behind);
        left = cut.rest_at ∙ ap (λ w. cut.before ++ (w ++ 0 ∷ r)) after;
        sp_at = ap some cut.sp_at;
        size_eq = cut.size ∙ sym (ap length whole);
        word_nul = (clean.0, word-NoNul tail clean.1);
        rest_nul = after-NoNul tail clean.1;
        shorter = omega (arith, length-after tail, less);
      },
    )

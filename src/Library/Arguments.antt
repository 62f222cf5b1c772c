-- ===== src/Library/Arguments.antt =====
-- The arguments of a command are its words.
use os_dev_mtk.Base.{
  ℕ, zero, suc, ◌≤◌, ◌<◌, ◌≡◌, refl, ◌∙◌, sym, ap, false, Option, none, some, List, [], ◌∷◌, ◌++◌,
  leb, take, drop, length, inl, inr, arith, length-append, List-cases,
}
use os_dev_mtk.Text.{NoNul, strlen, strlen_loop, strncpy}
use os_dev_mtk.Text.Copy.{written, strncpy_lem, take-NoNul}
use os_dev_mtk.Library.Tokens.{
  Token, token_from, strtok, space_delimiter, arguments_loop, basic_os_parse_command,
}
use os_dev_mtk.Library.Words.{words, trim, trim-words}
use os_dev_mtk.Library.Cut.{token_from-none, token_from-IsToken}

first_token :
    (buf : List ℕ) (sp : Option ℕ) (p : ℕ)
    → strtok buf sp (some p) space_delimiter ≡ token_from buf (b' ' ∷ []) p
unfolding strtok strlen strlen_loop
first_token buf sp p = refl

next_token :
    (buf : List ℕ) (sp : Option ℕ) (p : ℕ)
    → sp ≡ some p
    → strtok buf sp none space_delimiter ≡ token_from buf (b' ' ∷ []) p
unfolding strtok strlen strlen_loop
next_token buf sp p e = rw e refl

-- The blocks that the calls of `malloc` return.
module _ (block : ℕ → List ℕ) (room : (k : ℕ) → length (block k) ≡ 512) where
  -- Each word, cut off after 511 bytes, with a NUL behind it in a block of its own.
  abbrev pub copies : (k : ℕ) → List (List ℕ) → List (List ℕ)
  copies k [] = []
  copies k (w ∷ ws) = written (take 511 w) (block k) ∷ copies (suc k) ws

  arguments_step :
      (fuel k at : ℕ) (buf : List ℕ) (sp str : Option ℕ) (t : Token) (argument : List ℕ)
      (rest : List (List ℕ))
      → strtok buf sp str space_delimiter ≡ some t
      → t.token ≡ some at
      → strncpy (block k) (drop at t.buf) 512 ≡ some argument
      → arguments_loop fuel t.buf t.sp none (λ k. some (block k)) (suc k) ≡ some rest
      → arguments_loop (suc fuel) buf sp str (λ k. some (block k)) k ≡ some (argument ∷ rest)
  unfolding arguments_loop
  arguments_step fuel k at buf sp str t argument rest start found copied after =
      rw start (rw found (rw (copied, after) refl))

  arguments_lem :
      (fuel k : ℕ) (buf pre s r : List ℕ) (sp str : Option ℕ)
      → length s < fuel
      → NoNul s
      → buf ≡ pre ++ (s ++ 0 ∷ r)
      → strtok buf sp str space_delimiter ≡ token_from buf (b' ' ∷ []) (length pre)
      → arguments_loop fuel buf sp str (λ k. some (block k)) k ≡ some (copies k (words s))
  unfolding arguments_loop
  arguments_lem zero k buf pre s r sp str f h e start = absurd (omega (arith, f))
  arguments_lem (suc fuel) k buf pre s r sp str f h e start = elim (List-cases (trim s)) [
    | inl gone ↦
        let no_words : words s ≡ [] = sym (trim-words s) ∙ ap words gone in
        rw (start, e, token_from-none pre s r h gone, no_words) refl
    | inr (c, tail, found) ↦
        let (t, eq, it) = token_from-IsToken pre s r c tail h found in
        let fits : 512 ≤ length (block k) = omega (arith, room k) in
        let copied = strncpy_lem 511 it.word it.behind (block k) it.word_nul fits in
        let rest =
          arguments_lem fuel (suc k) t.buf it.before it.rest r t.sp none
            (omega (arith, f, it.shorter)) it.rest_nul it.left
            (next_token t.buf t.sp (length it.before) it.sp_at) in
        let begun : strtok buf sp str space_delimiter ≡ some t =
          start ∙ ap (λ b. token_from b (b' ' ∷ []) (length pre)) e ∙ eq in
        let stored : strncpy (block k) (drop it.at t.buf) 512
            ≡ some (written (take 511 it.word) (block k)) =
          ap (λ x. strncpy (block k) x 512) it.text ∙ copied in
        arguments_step fuel k it.at buf sp str t (written (take 511 it.word) (block k))
          (copies (suc k) (words it.rest)) begun it.token_at stored rest
        ∙ ap (λ ws. some (copies k ws)) (sym it.words_eq)
  ]

  -- If each call of `malloc` gives a block of 512 bytes, then a command of no more than 1024 bytes, or the
  -- first 1024 bytes of a longer one, is parsed to its words, in their order: each is copied to
  -- the next block, cut off after 511 bytes, with a NUL behind it. `max` must be less than 1025.
  pub parse_command-words :
      (scommand s rest : List ℕ) (max : ℕ)
      → length scommand ≡ 1025
      → NoNul s
      → max < 1025
      → basic_os_parse_command scommand (s ++ 0 ∷ rest) max (λ k. some (block k))
        ≡ some (copies 0 (words (take 1024 s)))
  unfolding basic_os_parse_command
  parse_command-words scommand s rest max size h small =
      let text : List ℕ = take 1024 s in
      let behind : List ℕ = drop (suc (length text)) scommand in
      let allowed : leb 1025 max ≡ false = ground (arith, small) in
      let copied = strncpy_lem 1024 s rest scommand h (omega (arith, size)) in
      let buf : List ℕ = text ++ 0 ∷ behind in
      let short = length-append text (0 ∷ behind) in
      let parsed =
        arguments_lem (suc (length buf)) 0 buf [] text behind none (some 0) (omega (arith, short))
          (take-NoNul 1024 s h) refl (first_token buf none 0) in
      rw (allowed, copied) parsed

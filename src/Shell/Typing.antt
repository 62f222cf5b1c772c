-- ===== src/Shell/Typing.antt =====
-- From the keys that are typed to the arguments of the command.
use os_dev_mtk.Base.{
  ℕ, zero, suc, ◌+◌, ◌<◌, ◌≤◌, ◌≡◌, ◌≢◌, refl, ◌∙◌, sym, ap, Option, some, List, [], ◌∷◌, ◌++◌,
  arith, ◌==◌, true, length, take, drop, take-append-drop, snoc-append, Bool-cases, inl, inr, ℤ,
  einvarg, ne,
}
use os_dev_mtk.Text.{NoNul, strncpy}
use os_dev_mtk.Text.Copy.{strncpy_lem}
use os_dev_mtk.Library.Editing.{without_last, edit, edited, IsTyped, readline-edited}
use os_dev_mtk.Library.Tokens.{basic_os_parse_command, basic_os_system_run}
use os_dev_mtk.Library.Words.{words}
use os_dev_mtk.Library.Arguments.{copies, parse_command-words}
use os_dev_mtk.Shell.{Round, prompt, shell_round}

take-all : (n : ℕ) (s : List ℕ) → length s ≤ n → take n s ≡ s
take-all zero [] h = refl
take-all zero (c ∷ s) h = absurd (omega (arith, h))
take-all (suc n) [] h = refl
take-all (suc n) (c ∷ s) h = ap (λ r. c ∷ r) (take-all n s (omega (arith, h)))

snoc-NoNul : (s : List ℕ) (c : ℕ) → NoNul s → c ≢ 0 → NoNul (s ++ c ∷ [])
snoc-NoNul [] c h n = (n, tt)
snoc-NoNul (d ∷ s) c h n = (h.0, snoc-NoNul s c h.1 n)

without_last-NoNul : (s : List ℕ) → NoNul s → NoNul (without_last s)
without_last-NoNul [] h = tt
without_last-NoNul (c ∷ []) h = tt
without_last-NoNul (c ∷ d ∷ s) h = (h.0, without_last-NoNul (d ∷ s) h.1)

edit-NoNul : (line : List ℕ) (key : ℕ) → NoNul line → key ≢ 0 → NoNul (edit line key)
edit-NoNul [] key h n = (n, tt)
edit-NoNul (c ∷ line) key h n = elim (Bool-cases (key == 8)) [
  | inl back ↦ rw back (without_last-NoNul (c ∷ line) h)
  | inr other ↦ rw other (snoc-NoNul (c ∷ line) key h n)
]

-- The line has no NUL and leaves room for its own.
typed_lem :
    (max : ℕ) (line keys : List ℕ)
    → NoNul line
    → IsTyped max line keys
    → NoNul (edited line keys) × (length (edited line keys) + 1 < max)
typed_lem max line [] h t = (h, t)
typed_lem max line (key ∷ keys) h (_, n, _, ts) =
    typed_lem max (edit line key) keys (edit-NoNul line key h n) ts

-- What the command ends with, by its arguments.
abbrev pub result_of : List (List ℕ) → ℤ
result_of [] = einvarg
result_of (a ∷ arguments) = ne

system_step :
    (copy scommand command copied : List ℕ) (malloc : ℕ → Option (List ℕ))
    (arguments : List (List ℕ))
    → strncpy copy command 1024 ≡ some copied
    → basic_os_parse_command scommand command 1024 malloc ≡ some arguments
    → basic_os_system_run copy scommand command malloc ≡ some (result_of arguments, arguments)
unfolding basic_os_system_run
system_step copy scommand command copied malloc [] first parsed = rw (first, parsed) refl
system_step copy scommand command copied malloc (a ∷ arguments) first parsed =
    rw (first, parsed) refl

-- A round of the shell, for keys that are typed before a carriage return and leave room in its buffer: the
-- kernel is called with the words of the line that the keys edit, each cut off after 511 bytes and with
-- a NUL behind it in a block of its own, and the result is 0; a line without a word gives -EINVARG, and
-- the kernel is not called. The prompt, the keys and a line feed are shown. The blocks that `malloc`
-- gives have 512 bytes.
pub round-Words :
    (block : ℕ → List ℕ) (room : (k : ℕ) → length (block k) ≡ 512)
    (buf copy scommand keys rest : List ℕ)
    → length buf ≡ 1024
    → length copy ≡ 1024
    → length scommand ≡ 1025
    → IsTyped 1024 [] keys
    → let arguments = copies block room 0 (words (edited [] keys)) in
      (r : Round) × (shell_round buf copy scommand (keys ++ 13 ∷ rest) (λ k. some (block k))
        ≡ some r)
      × (r.arguments ≡ arguments)
      × (r.result ≡ result_of arguments)
      × (r.shown ≡ prompt ++ keys ++ b'\n' ∷ [])
unfolding shell_round
round-Words block room buf copy scommand keys rest b c s typed =
    let text : List ℕ = edited [] keys in
    let (clean, fits) = typed_lem 1024 [] keys tt typed in
    let (line, read, count, front, echo) =
      readline-edited buf 1024 true keys rest (omega (arith, b)) typed in
    let behind : List ℕ = drop (suc line.count) line.out in
    let whole : line.out ≡ text ++ 0 ∷ behind =
      sym (take-append-drop (suc line.count) line.out)
      ∙ ap (λ r. r ++ behind) front
      ∙ snoc-append 0 text behind in
    let copied = strncpy_lem 1023 text behind copy clean (omega (arith, c)) in
    let parsed = parse_command-words block room scommand text behind 1024 s clean (omega arith) in
    let uncut : take 1024 text ≡ text = take-all 1024 text (omega (arith, fits)) in
    let parsed' = rw uncut at parsed in
    let run =
      system_step copy scommand (text ++ 0 ∷ behind) _ (λ k. some (block k))
        (copies block room 0 (words text)) copied parsed' in
    (
      record {
        result = result_of (copies block room 0 (words text));
        arguments = copies block room 0 (words text);
        shown = prompt ++ line.echo ++ b'\n' ∷ [];
      },
      rw (read, whole, run) refl,
      refl,
      refl,
      ap (λ e. prompt ++ e ++ b'\n' ∷ []) echo,
    )

-- ===== src/Library.antt =====
-- programs/stdlib/src: stdlib.c, stdio.c, string.c and BasicOS.c, the library for programs. A string is
-- the bytes from its pointer on, and an object the list of its bytes; `none` is an access outside of an
-- object. A pointer into an object is an offset, and NULL is `none`.
pub mod Itoa
pub mod Editing
pub mod Tokens
pub mod Words
pub mod Cut
pub mod Arguments
mod Tests
use os_dev_mtk.Base.{
  ℕ, zero, suc, ◌+◌, ◌-◌, ◌*◌, ◌/◌, ◌%◌, ◌^◌, Bool, true, false, ◌&&◌, ◌||◌, not, Option, none,
  some, List, [], ◌∷◌, ◌++◌, ◌==◌, leb, ltb, if◌then◌else◌, get_elem?, set, take, drop, length,
  ◌>>=◌, ℤ, pos, negsuc, einvarg, ne,
}
use os_dev_mtk.Text.{strlen, strncpy}

-- `text[--loc] = c`
unfoldable pub put_before : List ℕ × ℕ → (c : ℕ) → Option (List ℕ × ℕ)
put_before (text, loc) c = if loc == 0 then none else some (set text (loc - 1) c, loc - 1)

-- The number is kept negative, so that the least one has its digits too: `num` is its magnitude.
unfoldable pub itoa_loop : (fuel : ℕ) → List ℕ × ℕ → (num : ℕ) → Option (List ℕ × ℕ)
itoa_loop zero at num = none
itoa_loop (suc fuel) at num =
    if num == 0
    then some at
    else put_before at (b'0' + num % 10) >>= λ at'. itoa_loop fuel at' (num / 10)

unfoldable pub itoa_digits : List ℕ → (num : ℕ) → Option (List ℕ × ℕ)
itoa_digits text num = itoa_loop (suc num) (set text 11 0, 11) num >>= λ at.
    if at.1 == 11 then put_before at b'0' else some at

-- The static buffer, and the offset in it that is returned.
unfoldable pub itoa : (text : List ℕ) → (num : ℤ) → Option (List ℕ × ℕ)
itoa text (pos n) = itoa_digits text n
itoa text (negsuc n) = itoa_digits text (suc n) >>= λ at. put_before at b'-'

-- An argument of `printf` behind its format.
pub data Argument : Type 0 where
  int : ℤ → Argument
  string : List ℕ → Argument

-- What is on the screen after `print`: the bytes before the NUL.
unfoldable pub printed : (msg : List ℕ) → Option (List ℕ)
printed msg = strlen msg >>= λ n. some (take n msg)

-- A directive: what it prints, the buffer of `itoa` and the arguments that are left. An argument of
-- another type than the directive takes is not defined.
unfoldable pub directive :
    (d : ℕ) → (text : List ℕ) → List Argument → Option (List ℕ × List ℕ × List Argument)
directive d text args =
    if d == b'i'
    then elim args [
      | int n ∷ rest ↦
          itoa text n >>= λ at. printed (drop at.1 at.0) >>= λ out. some (out, at.0, rest)
      | _ ↦ none
    ]
    else if d == b's'
    then elim args [ string s ∷ rest ↦ printed s >>= λ out. some (out, text, rest) | _ ↦ none ]
    else some (d ∷ [], text, args)

-- What is written on the terminal.
unfoldable pub printf : (format text : List ℕ) → List Argument → Option (List ℕ)
printf [] text args = none
printf (p ∷ []) text args = if p == 0 then some [] else none
printf (p ∷ d ∷ format) text args =
    if p == 0
    then some []
    else if p == b'%'
    then (directive d text args >>= λ (out, text', args').
        printf format text' args' >>= λ rest. some (out ++ rest))
    else (printf (d ∷ format) text args >>= λ rest. some (p ∷ rest))

-- The polls of the keyboard give 0 without a key. `none` waits for a key.
unfoldable pub getkey : (polls : List ℕ) → Option (ℕ × List ℕ)
getkey [] = none
getkey (val ∷ polls) = let rest = getkey polls in if val == 0 then rest else some (val, polls)

-- The line in `out`, the number of its characters, the polls that are left, and what is echoed.
pub record Line : Type 0 where
  pub out : List ℕ
  pub count : ℕ
  pub echo : List ℕ

abbrev pub store_at : List ℕ → (i c : ℕ) → Option (List ℕ)
store_at out i c = if ltb i (length out) then some (set out i c) else none

-- The test of the backspace, and what follows it: `i` for the next round.
unfoldable pub take_key : (out : List ℕ) → (i key : ℕ) → Option (List ℕ × ℕ)
take_key out i key =
    if key == 8 && leb 1 i
    then (store_at out (i - 1) 0 >>= λ out'. some (out', i - 1))
    else (store_at out i key >>= λ out'. some (out', i + 1))

-- Each round takes a poll at least.
unfoldable pub readline_loop :
    (fuel max : ℕ)
    → (output_while_typing : Bool) → (polls out : List ℕ) → (i : ℕ) → (echo : List ℕ) → Option Line
readline_loop zero max output_while_typing polls out i echo = none
readline_loop (suc fuel) max output_while_typing polls out i echo =
    if ltb i (max - 1)
    then (getkey polls >>= λ (key, polls').
        if key == 13
        then some (record { out = out; count = i; echo = echo })
        else (take_key out i key >>= λ (out', i').
            readline_loop fuel max output_while_typing polls' out' i'
              (if output_while_typing then echo ++ key ∷ [] else echo)))
    else some (record { out = out; count = i; echo = echo })

unfoldable pub terminal_readline :
    (out : List ℕ) → (max : ℕ) → (output_while_typing : Bool) → (polls : List ℕ) → Option Line
terminal_readline out max output_while_typing polls =
    readline_loop (suc (length polls)) max output_while_typing polls out 0 [] >>= λ line.
    store_at line.out line.count 0 >>= λ out'. some (record line { out = out' })

-- ===== src/Text.antt =====
-- src/kernel/string/string.c. A `const char*` is the list of the bytes from it to the end of its
-- object, `none` an access past that end. Bytes are unsigned here; where the code compares a signed
-- `char` the result is the same, as noted.
pub mod Length
pub mod Copy
pub mod Compare
pub mod Atoi
mod Tests
use os_dev_mtk.Base.{
  ℕ, zero, suc, ◌+◌, ◌-◌, ◌*◌, ◌%◌, ◌^◌, ◌≢◌, Bool, true, false, not, ◌&&◌, ◌||◌, Option, none,
  some, List, [], ◌∷◌, ◌>>=◌, ◌==◌, ltb, leb, if◌then◌else◌, ℤ, pos, negsuc,
}

-- A string with no NUL among its bytes.
abbrev pub NoNul : List ℕ → Type 0
NoNul [] = Unit {0}
NoNul (c ∷ s) = (c ≢ 0) × NoNul s

-- `a - b` of two bytes, as an `int`
abbrev pub sub_int : ℕ → ℕ → ℤ
sub_int a b = if leb b a then pos (a - b) else negsuc (b - a - 1)

unfoldable pub strlen_loop : List ℕ → (ctr : ℕ) → Option ℕ
strlen_loop [] ctr = none
strlen_loop (c ∷ str) ctr =
    let rest = strlen_loop str (ctr + 1) in if c == 0 then some ctr else rest

unfoldable pub strlen : List ℕ → Option ℕ
unfolding strlen_loop
strlen str = strlen_loop str 0

-- `room` is `max_len - ctr`.
unfoldable pub strnlen_loop : (room : ℕ) → List ℕ → (ctr : ℕ) → Option ℕ
strnlen_loop zero str ctr = some ctr
strnlen_loop (suc k) [] ctr = none
strnlen_loop (suc k) (c ∷ str) ctr =
    let rest = strnlen_loop k str (ctr + 1) in if c == 0 then some ctr else rest

unfoldable pub strnlen : List ℕ → (max_len : ℕ) → Option ℕ
unfolding strnlen_loop
strnlen str max_len = strnlen_loop max_len str 0

unfoldable pub strncmp : (str1 str2 : List ℕ) → (size : ℕ) → Option ℤ
strncmp str1 str2 zero = some (pos 0)
strncmp [] str2 (suc n) = none
strncmp (t1 ∷ str1) [] (suc n) = none
strncmp (t1 ∷ str1) (t2 ∷ str2) (suc n) =
    let rest = strncmp str1 str2 n in
    if not (t1 == t2) then some (sub_int t1 t2) else if t1 == 0 then some (pos 0) else rest

unfoldable pub tolower : ℕ → ℕ
tolower ch = if ltb ch 65 || ltb 90 ch then ch else ch + 32

unfoldable pub istrncmp : (str1 str2 : List ℕ) → (max : ℕ) → Option ℤ
unfolding tolower
istrncmp str1 str2 zero = some (pos 0)
istrncmp [] str2 (suc n) = none
istrncmp (u1 ∷ str1) [] (suc n) = none
istrncmp (u1 ∷ str1) (u2 ∷ str2) (suc n) =
    let rest = istrncmp str1 str2 n in
    if not (u1 == u2) && not (tolower u1 == tolower u2)
    then some (sub_int u1 u2)
    else if u1 == 0
    then some (pos 0)
    else rest

unfoldable pub terminator_loop : (room : ℕ) → List ℕ → (terminator i : ℕ) → Option ℕ
terminator_loop zero str terminator i = some i
terminator_loop (suc k) [] terminator i = none
terminator_loop (suc k) (c ∷ str) terminator i =
    let rest = terminator_loop k str terminator (i + 1) in
    if c == 0 || c == terminator then some i else rest

unfoldable pub strnlen_terminator : List ℕ → (max terminator : ℕ) → Option ℕ
unfolding terminator_loop
strnlen_terminator str max terminator = terminator_loop max str terminator 0

-- `*dst = b`, with the bytes of the destination after it
unfoldable pub put : ℕ → List ℕ → Option (List ℕ)
put b [] = none
put b (d ∷ dst) = some (b ∷ dst)

-- The results are the bytes of the destination afterwards.
unfoldable pub strcpy : (dst src : List ℕ) → Option (List ℕ)
unfolding put
strcpy dst [] = none
strcpy [] (c ∷ src) = none
strcpy (d ∷ dst) (c ∷ src) =
    let more = strcpy dst src >>= λ rest. some (c ∷ rest) in
    if c == 0 then put 0 (d ∷ dst) else more

-- The loop after `--size`, which leaves `n`.
unfoldable pub strncpy_loop : (n : ℕ) → (dst src : List ℕ) → Option (List ℕ)
unfolding put
strncpy_loop zero dst src = put 0 dst
strncpy_loop (suc n) dst [] = none
strncpy_loop (suc n) [] (c ∷ src) = none
strncpy_loop (suc n) (d ∷ dst) (c ∷ src) =
    let more = strncpy_loop n dst src >>= λ rest. some (c ∷ rest) in
    if c == 0 then put 0 (d ∷ dst) else more

unfoldable pub strncpy : (dst src : List ℕ) → (size : ℕ) → Option (List ℕ)
unfolding strncpy_loop
strncpy dst src zero = some dst
strncpy dst src (suc n) = strncpy_loop n dst src

-- A negative `char` is a byte from 128 on, and is refused as well.
unfoldable pub isdigit : ℕ → Bool
isdigit c = ltb 47 c && ltb c 58

-- The loop over the bytes after the sign; `result` is a 32-bit word.
unfoldable pub atoi_loop : List ℕ → (result : ℕ) → Option ℕ
atoi_loop [] result = none
atoi_loop (c ∷ str) result =
    let rest = atoi_loop str ((result + result * 10 + (c + 2 ^ 32 - 48)) % 2 ^ 32) in
    if not (c == 0) || ltb c 48 || ltb 57 c then rest else some result

unfoldable pub atoi : List ℕ → Option ℕ
unfolding atoi_loop
atoi [] = none
atoi (c ∷ str) =
    if c == b'-'
    then (atoi_loop str 0 >>= λ result. some ((2 ^ 32 - result) % 2 ^ 32))
    else atoi_loop (c ∷ str) 0

unfoldable pub atoic : ℕ → ℤ
atoic ch = sub_int ch 48

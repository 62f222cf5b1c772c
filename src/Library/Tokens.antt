-- ===== src/Library/Tokens.antt =====
-- `strtok` of programs/stdlib/src/string.c, and the parsing of a command in BasicOS.c. The string that
-- is cut up is an object, and `sp` and the tokens are offsets in it.
use os_dev_mtk.Base.{
  ℕ, zero, suc, ◌+◌, Option, none, some, List, [], ◌∷◌, ◌==◌, leb, ltb, if◌then◌else◌, get_elem?,
  set, take, drop, length, ◌>>=◌, ℤ, einvarg, ne,
}
use os_dev_mtk.Text.{strlen, strncpy}

-- The loop over the delimiters: `i` when it ends.
unfoldable pub find_delimiter : (delimiters : List ℕ) → (c : ℕ) → ℕ
find_delimiter [] c = 0
find_delimiter (d ∷ delimiters) c =
    let rest = find_delimiter delimiters c in if c == d then 0 else suc rest

-- The loop that skips delimiters.
unfoldable pub skip_loop : (fuel : ℕ) → (buf delimiters : List ℕ) → (p_start : ℕ) → Option ℕ
skip_loop zero buf delimiters p_start = none
skip_loop (suc fuel) buf delimiters p_start = get_elem? buf p_start >>= λ c.
    let rest = skip_loop fuel buf delimiters (p_start + 1) in
    if ltb (find_delimiter delimiters c) (length delimiters) then rest else some p_start

-- The loop that ends the token: the object and `sp`.
unfoldable pub token_loop : (fuel : ℕ) → (buf delimiters : List ℕ) → (sp : ℕ) → Option (List ℕ × ℕ)
token_loop zero buf delimiters sp = none
token_loop (suc fuel) buf delimiters sp = get_elem? buf sp >>= λ c.
    let rest = token_loop fuel buf delimiters (sp + 1) in
    if c == 0
    then some (buf, sp)
    else if ltb (find_delimiter delimiters c) (length delimiters)
    then some (set buf sp 0, sp + 1)
    else rest

-- The token, the object and `sp`.
pub record Token : Type 0 where
  pub token : Option ℕ
  pub buf : List ℕ
  pub sp : Option ℕ

-- Both loops go through the object once.
unfoldable pub token_from : (buf delimiters : List ℕ) → (sp : ℕ) → Option Token
token_from buf delimiters sp = skip_loop (suc (length buf)) buf delimiters sp >>= λ p_start.
    get_elem? buf p_start >>= λ c.
    if c == 0
    then some (record { token = none; buf = buf; sp = none })
    else (token_loop (suc (length buf)) buf delimiters p_start >>= λ (buf', sp').
        some (record { token = some p_start; buf = buf'; sp = some sp' }))

unfoldable pub strtok : (buf : List ℕ) → (sp str : Option ℕ) → (delimiters : List ℕ) → Option Token
strtok buf sp str delimiters = strlen delimiters >>= λ len. elim str [
  | some p ↦ token_from buf (take len delimiters) p
  | none ↦ elim sp [
    | none ↦ some (record { token = none; buf = buf; sp = none })
    | some p ↦ token_from buf (take len delimiters) p
  ]
]

abbrev pub space_delimiter : List ℕ
space_delimiter = b' ' ∷ 0 ∷ []

abbrev pub argument_size : ℕ
argument_size = 512

-- One token after the other, each copied to a new node of the list of arguments. The block of the node
-- is what the k-th call of `malloc` returns; without one, the list ends. A round takes a byte at
-- least.
unfoldable pub arguments_loop :
    (fuel : ℕ)
    → (buf : List ℕ) → (sp str : Option ℕ) → (malloc : ℕ → Option (List ℕ)) → (k : ℕ)
    → Option (List (List ℕ))
arguments_loop zero buf sp str malloc k = none
arguments_loop (suc fuel) buf sp str malloc k = strtok buf sp str space_delimiter >>= λ t.
    elim t.token [
      | none ↦ some []
      | some token ↦ elim (malloc k) [
        | none ↦ some []
        | some block ↦ strncpy block (drop token t.buf) argument_size >>= λ argument.
            arguments_loop fuel t.buf t.sp none malloc (suc k) >>= λ rest. some (argument ∷ rest)
      ]
    ]

abbrev pub command_size : ℕ
command_size = 1025

-- The arguments in their order, none of them for NULL. `scommand` is the array on the stack.
unfoldable pub basic_os_parse_command :
    (scommand command : List ℕ)
    → (max : ℕ) → (malloc : ℕ → Option (List ℕ)) → Option (List (List ℕ))
basic_os_parse_command scommand command max malloc =
    if leb command_size max
    then some []
    else strncpy scommand command command_size >>= λ buf.
        arguments_loop (suc (length buf)) buf none (some 0) malloc 0

-- The result, and the arguments that `basic_os_kernel_system` is called with.
unfoldable pub basic_os_system_run :
    (buf scommand command : List ℕ) → (malloc : ℕ → Option (List ℕ)) → Option (ℤ × List (List ℕ))
basic_os_system_run buf scommand command malloc = strncpy buf command 1024 >>= λ copy.
    basic_os_parse_command scommand command 1024 malloc >>= λ arguments. elim arguments [
      | [] ↦ some (einvarg, [])
      | argument ∷ rest ↦ some (ne, argument ∷ rest)
    ]

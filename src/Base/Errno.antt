-- ===== src/Base/Errno.antt =====
-- Signed results. `includes/status.h` numbers the errors, and a function that fails returns one of
-- them negated: `neg k` is -k. `negsuc n` is -(n + 1).
use Prim.Native.Nat.{ℕ, zero, suc, ◌-◌, ◌%◌, ◌^◌}
use mathlib.Core.Bool.{Bool, true, false}

pub data ℤ : Type 0 where
  pos : ℕ → ℤ
  negsuc : ℕ → ℤ

abbrev pub neg : ℕ → ℤ
neg zero = pos 0
neg (suc n) = negsuc n

-- the test `res < 0`
abbrev pub is_neg : ℤ → Bool
is_neg (pos n) = false
is_neg (negsuc n) = true

-- `-EIO` and the others, and `NE`
abbrev pub ne : ℤ
ne = pos 0

abbrev pub eio : ℤ
eio = negsuc 0

abbrev pub einvarg : ℤ
einvarg = negsuc 1

abbrev pub enomem : ℤ
enomem = negsuc 2

abbrev pub ebadpath : ℤ
ebadpath = negsuc 3

abbrev pub efsnotsupported : ℤ
efsnotsupported = negsuc 4

abbrev pub erdonly : ℤ
erdonly = negsuc 5

abbrev pub eunimp : ℤ
eunimp = negsuc 6

abbrev pub epid_istkn : ℤ
epid_istkn = negsuc 7

abbrev pub eproc_nomem : ℤ
eproc_nomem = negsuc 8

abbrev pub einvformat : ℤ
einvformat = negsuc 9

-- The conversion of an `int` to an unsigned 32-bit word.
abbrev pub to_word : ℤ → ℕ
to_word (pos n) = n % 2 ^ 32
to_word (negsuc n) = 2 ^ 32 - 1 - n % 2 ^ 32

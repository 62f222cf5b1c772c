-- ===== src/Terminal.antt =====
-- src/kernel/kernel.c, includes/kernel.h and includes/math/math.h: the terminal in the text mode of
-- the screen, and what prints on it. The screen is the 16-bit words from 0xB8000 on, by their
-- offset, beyond its last row too. A character is a byte, and a string the bytes from its pointer
-- on; `none` is a string without an end, or a loop that does not end.
pub mod Column
pub mod Write
pub mod Power
pub mod Numbers
mod Tests
use os_dev_mtk.Base.{
  ℕ, zero, suc, ◌+◌, ◌-◌, ◌*◌, ◌/◌, ◌%◌, ◌^◌, Bool, true, false, ◌&&◌, Option, none, some, List, [],
  ◌∷◌, ◌++◌, ◌==◌, leb, ltb, if◌then◌else◌, get_or, bit_and, bit_or, ◌>>=◌, ℤ, pos, negsuc,
}

-- The variables of the file, and the screen.
pub record Terminal : Type 0 where
  pub terminal_x : ℕ
  pub terminal_y : ℕ
  pub terminal_fg_color : ℕ
  pub terminal_bg_color : ℕ
  pub screen : ℕ → ℕ

abbrev pub characters_per_line : ℕ
characters_per_line = 80

abbrev pub vga_width : ℕ
vga_width = 80

abbrev pub vga_height : ℕ
vga_height = 20

abbrev pub white : ℕ
white = 15

abbrev pub black : ℕ
black = 0

-- A `char` as an `int`, in two's complement.
abbrev pub sign_extend : (ch : ℕ) → ℕ
sign_extend ch = if ltb ch 128 then ch else 2 ^ 32 - 256 + ch

unfoldable pub vga_make_char : (ch color bg_color : ℕ) → ℕ
vga_make_char ch color bg_color =
    bit_or (bit_or (bg_color * 16) (bit_and color 15) * 256) (sign_extend ch) % 2 ^ 16

-- The arguments are an `unsigned char` each.
unfoldable pub vga_get_offset : (x y : ℕ) → ℕ
vga_get_offset x y = y % 256 * characters_per_line + x % 256

abbrev pub write_cell : (ℕ → ℕ) → (offset : ℕ) → (word : ℕ) → ℕ → ℕ
write_cell screen offset word i = if i == offset then word else screen i

unfoldable pub terminal_puts_raw : Terminal → (ch color bg_color offset : ℕ) → Terminal
terminal_puts_raw st ch color bg_color offset = record st {
  screen = write_cell st.screen offset (vga_make_char ch color bg_color);
}

-- A blank at the cursor.
unfoldable pub blank_here : Terminal → Terminal
blank_here st = terminal_puts_raw st b' ' black black (vga_get_offset st.terminal_x st.terminal_y)

unfoldable pub backspace_line : Terminal → Terminal
backspace_line st =
    if st.terminal_x == 0
    then blank_here (record st { terminal_y = st.terminal_y - 1; terminal_x = characters_per_line })
    else st

unfoldable pub terminal_backspace : Terminal → Terminal
terminal_backspace st =
    if st.terminal_x == 0 && st.terminal_y == 0
    then st
    else let st1 = backspace_line st in blank_here (record st1 { terminal_x = st1.terminal_x - 1 })

unfoldable pub wrap_line : Terminal → Terminal
wrap_line st =
    let wraps = leb characters_per_line st.terminal_x in
    record st {
      terminal_x = if wraps then 0 else st.terminal_x;
      terminal_y = if wraps then (st.terminal_y + 1) % 2 ^ 32 else st.terminal_y;
    }

unfoldable pub put_character : Terminal → (ch : ℕ) → Terminal
put_character st ch = record st {
  screen =
      write_cell st.screen ((st.terminal_y * characters_per_line + st.terminal_x) % 2 ^ 32)
        (vga_make_char ch st.terminal_fg_color st.terminal_bg_color);
  terminal_x = (st.terminal_x + 1) % 2 ^ 32;
}

unfoldable pub terminal_puts : Terminal → (ch : ℕ) → Terminal
terminal_puts st0 ch =
    let st = wrap_line st0 in
    if ch == b'\n'
    then record st { terminal_x = 0; terminal_y = (st.terminal_y + 1) % 2 ^ 32 }
    else if ch == 8
    then terminal_backspace st
    else if ch == 13
    then record st { terminal_x = 0 }
    else if ch == 9
    then record st { terminal_x = bit_and ((st.terminal_x + 4) % 2 ^ 32) 0xffff_fffc }
    else put_character st ch

unfoldable pub terminal_write : Terminal → (str : List ℕ) → Option Terminal
terminal_write st [] = none
terminal_write st (c ∷ str) =
    let rest = terminal_write (terminal_puts st c) str in if c == 0 then some st else rest

unfoldable pub print : Terminal → (str : List ℕ) → Option Terminal
print st str =
    terminal_write (record st { terminal_fg_color = white; terminal_bg_color = black }) str

unfoldable pub printc : Terminal → (str : List ℕ) → (color bg_color : ℕ) → Option Terminal
printc st str color bg_color =
    terminal_write (record st { terminal_fg_color = color; terminal_bg_color = bg_color }) str

abbrev pub hex : List ℕ
hex =
    b'0' ∷ b'1' ∷ b'2' ∷ b'3' ∷ b'4' ∷ b'5' ∷ b'6' ∷ b'7' ∷ b'8' ∷ b'9' ∷ b'A' ∷ b'B' ∷ b'C' ∷ b'D'
    ∷ b'E' ∷ b'F' ∷ 0 ∷ []

unfoldable pub print_hex_byte : Terminal → (byte : ℕ) → Terminal
print_hex_byte st byte =
    terminal_puts
      (terminal_puts (terminal_puts st (get_or hex (bit_and (byte / 16) 15) 0))
        (get_or hex (bit_and byte 15) 0))
      b' '

-- The columns of row `y` from `x` on, and the rows from `y` on.
unfoldable pub clear_row : (n : ℕ) → Terminal → (x y : ℕ) → Terminal
clear_row zero st x y = st
clear_row (suc n) st x y =
    clear_row n (terminal_puts_raw st b' ' black black (y * characters_per_line + x)) (x + 1) y

unfoldable pub clear_rows : (n : ℕ) → Terminal → (y : ℕ) → Terminal
clear_rows zero st y = st
clear_rows (suc n) st y = clear_rows n (clear_row vga_width st 0 y) (y + 1)

unfoldable pub terminal_clear : Terminal → Terminal
terminal_clear st = record (clear_rows vga_height st 0) { terminal_x = 0; terminal_y = 0 }

unfoldable pub terminal_init : Terminal → Terminal
terminal_init st = record (terminal_clear st) {
  terminal_fg_color = white;
  terminal_bg_color = black;
}

abbrev pub panic_text : List ℕ
panic_text =
    b'\n' ∷ b'K' ∷ b'e' ∷ b'r' ∷ b'n' ∷ b'e' ∷ b'l' ∷ b' ' ∷ b'p' ∷ b'a' ∷ b'n' ∷ b'i' ∷ b'c' ∷ b':'
    ∷ b' ' ∷ 0 ∷ []

-- The terminal when the processor halts.
unfoldable pub kernel_panic : Terminal → (msg : List ℕ) → Option Terminal
kernel_panic st msg =
    print (if leb vga_height st.terminal_y then terminal_clear st else st) panic_text >>= λ st'.
    print st' msg

abbrev pub negative_text : List ℕ
negative_text =
    b'N' ∷ b'e' ∷ b'g' ∷ b'a' ∷ b't' ∷ b'i' ∷ b'v' ∷ b'e' ∷ b' ' ∷ b'e' ∷ b'x' ∷ b'p' ∷ b'o' ∷ b'n'
    ∷ b'e' ∷ b'n' ∷ b't' ∷ b's' ∷ b' ' ∷ b'n' ∷ b'o' ∷ b't' ∷ b' ' ∷ b's' ∷ b'u' ∷ b'p' ∷ b'p'
    ∷ b'o' ∷ b'r' ∷ b't' ∷ b'e' ∷ b'd' ∷ b'!' ∷ b'\n' ∷ 0 ∷ []

-- The loop of `pow`; a `long int` is its 32-bit word.
unfoldable pub pow_loop : (fuel exp ans base : ℕ) → Option ℕ
pow_loop zero exp ans base = none
pow_loop (suc fuel) exp ans base =
    let base' = if exp % 2 == 1 then base * ans % 2 ^ 32 else base in
    let exp' = if exp % 2 == 1 then exp - 1 else exp in
    let rest = pow_loop fuel (exp' / 2) (ans * ans % 2 ^ 32) base' in
    if ltb 1 exp then rest else some (ans * base % 2 ^ 32)

-- An exponent of n takes n + 1 rounds at most.
unfoldable pub pow : Terminal → (num : ℕ) → (exp : ℤ) → Option (ℕ × Terminal)
pow st num exp = if num == 0 then some (0, st) else if num == 1 then some (1, st) else elim exp [
  | negsuc n ↦ print st negative_text >>= λ st'. some (1, st')
  | pos n ↦ if n == 0 then some (1, st) else (pow_loop (suc n) n num 1 >>= λ ans. some (ans, st))
]

-- The loop that counts the digits of `num`, by its magnitude.
unfoldable pub count_digits : (fuel num : ℕ) → Option ℕ
count_digits zero num = none
count_digits (suc fuel) num =
    let rest = count_digits fuel (num / 10) in
    if num == 0 then some 0 else (rest >>= λ n. some (suc n))

-- The loop that prints the digits: `bkp` is given by its sign and its magnitude, and C divides
-- towards zero.
unfoldable pub print_digits : (n : ℕ) → Terminal → (negative : Bool) → (bkp : ℕ) → Option Terminal
print_digits zero st negative bkp = some st
print_digits (suc n) st negative bkp = pow st 10 (pos n) >>= λ (divres, st1).
    if divres == 0
    then none
    else let q = bkp / divres in
      print_digits n (terminal_puts st1 (if negative then 48 - q else 48 + q)) negative
        (bkp % divres)

unfoldable pub print_magnitude : Terminal → (negative : Bool) → (num : ℕ) → Option Terminal
print_magnitude st negative num =
    if num == 0
    then some (terminal_puts st b'0')
    else count_digits (suc num) num >>= λ n. print_digits n st negative num

-- The least `int` is its own negative.
unfoldable pub printint : Terminal → (num : ℤ) → Option Terminal
printint st (pos n) = print_magnitude st false n
printint st (negsuc n) = print_magnitude (terminal_puts st b'-') (suc n == 2 ^ 31) (suc n)

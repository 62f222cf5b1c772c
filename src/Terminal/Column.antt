-- ===== src/Terminal/Column.antt =====
-- The bounds of the cursor.
use os_dev_mtk.Base.{
  ℕ, ◌+◌, ◌-◌, ◌/◌, ◌%◌, ◌^◌, ◌≤◌, ◌<◌, ◌≡◌, sym, Bool, true, false, ◌&&◌, List, [], ◌∷◌, some,
  ◌==◌, if◌then◌else◌, bit_and, Bool-cases, inl, inr, arith,
}
use os_dev_mtk.Base.Bits.{bit_and-high, bit_and-low}
use os_dev_mtk.Terminal.{
  Terminal, terminal_puts, terminal_write, terminal_backspace, wrap_line, backspace_line,
  blank_here, put_character, terminal_puts_raw,
}

-- A tab stop.
tab_stop : (x : ℕ) → x < 80 → bit_and ((x + 4) % 2 ^ 32) 0xffff_fffc ≤ 80
tab_stop x h =
    ground
      (arith, bit_and-high 2 ((x + 4) % 2 ^ 32) (2 ^ 30 - 1), bit_and-low 30 ((x + 4) % 2 ^ 32 / 4))

pub wrap_line_column : (st : Terminal) → (wrap_line st).terminal_x < 80
unfolding wrap_line
wrap_line_column st = ground arith

if_column :
    (b : Bool) (s1 s2 : Terminal)
    → s1.terminal_x ≤ 80
    → s2.terminal_x ≤ 80
    → (if b then s1 else s2).terminal_x ≤ 80
if_column true s1 s2 h k = h
if_column false s1 s2 h k = k

backspace_column : (st : Terminal) → st.terminal_x ≤ 80 → (terminal_backspace st).terminal_x ≤ 80
unfolding terminal_backspace backspace_line blank_here terminal_puts_raw
backspace_column st h =
    let s1 : Terminal = backspace_line st in
    let le : s1.terminal_x ≤ 80 =
      if_column (st.terminal_x == 0)
        (blank_here (record st { terminal_y = st.terminal_y - 1; terminal_x = 80 })) st
        (omega arith) h in
    if_column (st.terminal_x == 0 && st.terminal_y == 0) st
      (blank_here (record s1 { terminal_x = s1.terminal_x - 1 })) h (omega arith)

-- Whatever is printed, the cursor stands in a column of the screen or just behind the last one.
pub puts_column : (st : Terminal) (ch : ℕ) → (terminal_puts st ch).terminal_x ≤ 80
unfolding terminal_puts put_character
puts_column st ch =
    let w : Terminal = wrap_line st in
    let x : w.terminal_x < 80 = wrap_line_column st in
    let tab : Terminal = record w {
      terminal_x = bit_and ((w.terminal_x + 4) % 2 ^ 32) 0xffff_fffc;
    } in
    let other : Terminal = if ch == 9 then tab else put_character w ch in
    let return : Terminal = record w { terminal_x = 0 } in
    let below : Terminal = if ch == 13 then return else other in
    let special : Terminal = if ch == 8 then terminal_backspace w else below in
    let put : (put_character w ch).terminal_x ≤ 80 = omega arith in
    let last : other.terminal_x ≤ 80 =
      if_column (ch == 9) tab (put_character w ch) (tab_stop w.terminal_x x) put in
    let rest : below.terminal_x ≤ 80 = if_column (ch == 13) return other (omega arith) last in
    let back : special.terminal_x ≤ 80 =
      if_column (ch == 8) (terminal_backspace w) below (backspace_column w (omega arith)) rest in
    if_column (ch == b'\n') (record w { terminal_x = 0; terminal_y = (w.terminal_y + 1) % 2 ^ 32 })
      special (omega arith) back

-- After a string is written, the cursor stands in one of the 80 columns or just behind the last one,
-- if it did before.
pub write_column :
    (st st' : Terminal) (str : List ℕ)
    → st.terminal_x ≤ 80
    → terminal_write st str ≡ some st'
    → st'.terminal_x ≤ 80
unfolding terminal_write
write_column st st' [] h e = cc
write_column st st' (c ∷ str) h e = elim (Bool-cases (c == 0)) [
  | inl end ↦
      let e' : some st ≡ some st' = rw (terminal_write, end) at e in
      let same : st ≡ st' = cc in rw (sym same) h
  | inr more ↦
      write_column (terminal_puts st c) st' str (puts_column st c) (rw (terminal_write, more) at e)
]

-- ===== src/Terminal/Write.antt =====
-- Which cells of the screen a text is written to.
use os_dev_mtk.Base.{
  ℕ, zero, suc, ◌+◌, ◌*◌, ◌%◌, ◌^◌, ◌≤◌, ◌<◌, ◌≡◌, ◌≢◌, ◌⊎◌, refl, ◌∙◌, ap, true, false, List, [],
  ◌∷◌, ◌++◌, some, ◌==◌, ltb, inl, inr, arith, length, get_elem?,
}
use os_dev_mtk.Base.Bits.{bit_and-low, bit_or-shifted}
use os_dev_mtk.Text.{NoNul}
use os_dev_mtk.Terminal.{
  Terminal, terminal_puts, terminal_write, wrap_line, put_character, vga_make_char,
}
use os_dev_mtk.Terminal.Column.{puts_column}

-- A character that has a cell of its own.
abbrev pub IsPrintable : ℕ → Type 0
IsPrintable c = (c ≢ 0) × (c ≢ 8) × (c ≢ 9) × (c ≢ 10) × (c ≢ 13)

abbrev pub ArePrintable : List ℕ → Type 0
ArePrintable [] = Unit {0}
ArePrintable (c ∷ text) = IsPrintable c × ArePrintable text

-- The cell behind the last character, counted row by row.
abbrev pub position : Terminal → ℕ
position st = st.terminal_y * 80 + st.terminal_x

-- The word of a character on the screen: its code in the low byte, and in the high one the background
-- above the four bits of the foreground.
abbrev pub colored : (c fg_color bg_color : ℕ) → ℕ
colored c fg_color bg_color = ((bg_color * 16 + fg_color % 16) * 256 + c) % 2 ^ 16

vga_make_char-colored :
    (c fg_color bg_color : ℕ)
    → c < 128
    → vga_make_char c fg_color bg_color ≡ colored c fg_color bg_color
unfolding vga_make_char
vga_make_char-colored c fg_color bg_color h =
    let ascii : ltb c 128 ≡ true = ground (arith, h) in
    rw
      (
        ascii,
        bit_and-low 4 fg_color,
        bit_or-shifted 4 bg_color (fg_color % 16) (omega arith),
        bit_or-shifted 8 (bg_color * 16 + fg_color % 16) c (omega (arith, h)),
      )
      refl

-- The text stands in the cells from the cursor on, below 128 in its colors, the cursor is behind it, and no
-- other cell has changed.
pub record IsWritten (st st' : Terminal) (text : List ℕ) : Type 0 where
  pub cursor : position st' ≡ position st + length text
  pub cells :
      (i c : ℕ)
      → get_elem? text i ≡ some c
      → st'.screen (position st + i) ≡ vga_make_char c st.terminal_fg_color st.terminal_bg_color
  pub ascii :
      (i c : ℕ)
      → get_elem? text i ≡ some c
      → c < 128
      → st'.screen (position st + i) ≡ colored c st.terminal_fg_color st.terminal_bg_color
  pub others :
      (j : ℕ) → (j < position st) ⊎ (position st + length text ≤ j) → st'.screen j ≡ st.screen j

-- One character.
pub record IsPut (st st' : Terminal) (c : ℕ) : Type 0 where
  pub cursor : position st' ≡ position st + 1
  pub fg_color : st'.terminal_fg_color ≡ st.terminal_fg_color
  pub bg_color : st'.terminal_bg_color ≡ st.terminal_bg_color
  pub cell : st'.screen (position st) ≡ vga_make_char c st.terminal_fg_color st.terminal_bg_color
  pub others : (j : ℕ) → j ≢ position st → st'.screen j ≡ st.screen j

puts_printable :
    (st : Terminal) (c : ℕ) → IsPrintable c → terminal_puts st c ≡ put_character (wrap_line st) c
unfolding terminal_puts
puts_printable st c (n0, n8, n9, n10, n13) =
    let t10 : (c == 10) ≡ false = ground (arith, n10) in
    let t8 : (c == 8) ≡ false = ground (arith, n8) in
    let t13 : (c == 13) ≡ false = ground (arith, n13) in
    let t9 : (c == 9) ≡ false = ground (arith, n9) in rw (t10, t8, t13, t9) refl

module _ (st : Terminal) (c : ℕ) (column : st.terminal_x ≤ 80) (fits : position st < 2 ^ 32) where
  wrap_position : position (wrap_line st) ≡ position st
  unfolding wrap_line
  wrap_position = ground arith

  wrap_x : (wrap_line st).terminal_x < 80
  unfolding wrap_line
  wrap_x = ground arith

  put_character-IsPut : IsPut st (put_character (wrap_line st) c) c
  unfolding put_character wrap_line
  put_character-IsPut = record {
    cursor = ground arith;
    fg_color = refl;
    bg_color = refl;
    cell = ground arith;
    others = λ j ne. ground (arith, ne);
  }

  terminal_puts-IsPut : IsPrintable c → IsPut st (terminal_puts st c) c
  terminal_puts-IsPut p = rw (puts_printable st c p) put_character-IsPut

-- A character, and a text behind it.
module _ (st st1 st' : Terminal) (c : ℕ) (text : List ℕ) (put : IsPut st st1 c)
    (w : IsWritten st1 st' text) where
  written-cells :
      (i d : ℕ)
      → get_elem? (c ∷ text) i ≡ some d
      → st'.screen (position st + i) ≡ vga_make_char d st.terminal_fg_color st.terminal_bg_color
  written-cells zero d e =
      let same : c ≡ d = cc in
      let start : position st + 0 ≡ position st = omega arith in
      ap st'.screen start
      ∙ w.others (position st) (inl (omega (arith, put.cursor)))
      ∙ put.cell
      ∙ ap (λ x. vga_make_char x st.terminal_fg_color st.terminal_bg_color) same
  written-cells (suc i) d e =
      let next : position st + suc i ≡ position st1 + i = omega (arith, put.cursor) in
      ap st'.screen next
      ∙ w.cells i d e
      ∙ ap (λ x. vga_make_char d x st1.terminal_bg_color) put.fg_color
      ∙ ap (λ x. vga_make_char d st.terminal_fg_color x) put.bg_color

  written-others :
      (j : ℕ)
      → (j < position st) ⊎ (position st + length (c ∷ text) ≤ j)
      → st'.screen j ≡ st.screen j
  written-others j (inl before) =
      w.others j (inl (omega (arith, put.cursor, before)))
      ∙ put.others j (λ e. omega (arith, e, before))
  written-others j (inr behind) =
      w.others j (inr (omega (arith, put.cursor, behind)))
      ∙ put.others j (λ e. omega (arith, e, behind))

  cons-IsWritten : IsWritten st st' (c ∷ text)
  cons-IsWritten = record {
    cursor = omega (arith, w.cursor, put.cursor);
    cells = written-cells;
    ascii = λ i d e h.
        written-cells i d e ∙ vga_make_char-colored d st.terminal_fg_color st.terminal_bg_color h;
    others = written-others;
  }

-- A printable text that starts at a column of the screen, at whatever row, is written whole: it stands
-- in the cells from the cursor on, line after line, the cursor ends behind it, and no other cell
-- changes. A character below 128 stands there as its code with the current colors; one from 128 on is
-- the word of `vga_make_char`, which extends its sign into the colors. There must be a 32-bit position for each character; the screen is not
-- scrolled, so text below the last row goes to the words behind it.
pub write-IsWritten :
    (st : Terminal) (text rest : List ℕ)
    → st.terminal_x ≤ 80
    → ArePrintable text
    → position st + length text < 2 ^ 32
    → (st' : Terminal) × (terminal_write st (text ++ 0 ∷ rest) ≡ some st') × IsWritten st st' text
unfolding terminal_write
write-IsWritten st [] rest column p fits = (
  st,
  refl,
  record {
    cursor = omega arith;
    cells = λ i c e. cc;
    ascii = λ i c e h. cc;
    others = λ j far. refl;
  },
)
write-IsWritten st (c ∷ text) rest column (p, ps) fits =
    let st1 : Terminal = terminal_puts st c in
    let put : IsPut st st1 c = terminal_puts-IsPut st c column (omega arith) p in
    let (st', eq, w) =
      write-IsWritten st1 text rest (puts_column st c) ps (omega (arith, put.cursor)) in
    let more : (c == 0) ≡ false = ground (arith, p.0) in
    (st', rw more eq, cons-IsWritten st st1 st' c text put w)

-- The text of a terminal ends at the NUL.
pub terminal_write-stops :
    (st : Terminal) (s rest : List ℕ)
    → NoNul s
    → (st' : Terminal) × (terminal_write st (s ++ 0 ∷ rest) ≡ some st')
      × (terminal_write st (s ++ 0 ∷ []) ≡ some st')
unfolding terminal_write
terminal_write-stops st [] rest h = (st, refl, refl)
terminal_write-stops st (c ∷ s) rest (ne, h) =
    let (st', e, e') = terminal_write-stops (terminal_puts st c) s rest h in
    let real : (c == 0) ≡ false = ground (arith, ne) in (st', rw (real, e) refl, rw (real, e') refl)

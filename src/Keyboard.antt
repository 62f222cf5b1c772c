-- ===== src/Keyboard.antt =====
-- src/kernel/keyboard/keyboard.c and classic.c: the ring of characters of a process, and the driver
-- that fills it. The bytes of the controller and the ports are arguments; the list of drivers has
-- the one driver and is not kept, and neither are the switches of pages around an interrupt.
pub mod Queue
mod Tests
use os_dev_mtk.Base.{
  ℕ, zero, suc, ◌+◌, ◌-◌, ◌%◌, ◌^◌, Bool, true, false, not, ◌&&◌, Option, none, some, List, [], ◌∷◌,
  ◌>>=◌, ◌==◌, ltb, leb, if◌then◌else◌, get_elem?, get_or, set, bit_and, bit_xor,
}

-- `BasicOS_KEYBOARD_BUFFER_SIZE`
abbrev pub buffer_size : ℕ
buffer_size = 0x400

-- `struct keyboard_buffer`: the counters are read modulo the size as unsigned words.
pub record KeyboardBuffer : Type 0 where
  pub buffer : List ℕ
  pub tail : ℕ
  pub head : ℕ

unfoldable pub keyboard_get_tail_index : KeyboardBuffer → ℕ
keyboard_get_tail_index keyboard = keyboard.tail % buffer_size

unfoldable pub keyboard_backspace : KeyboardBuffer → KeyboardBuffer
keyboard_backspace keyboard =
    let back = record keyboard { tail = (keyboard.tail + 2 ^ 32 - 1) % 2 ^ 32 } in
    record back { buffer = set back.buffer (keyboard_get_tail_index back) 0 }

-- On the buffer of the current process; without a process nothing is done.
unfoldable pub keyboard_push : (c : ℕ) → Option KeyboardBuffer → Option KeyboardBuffer
keyboard_push c none = none
keyboard_push c (some keyboard) =
    if c == 0
    then some keyboard
    else some (record {
      buffer = set keyboard.buffer (keyboard_get_tail_index keyboard) c;
      tail = (keyboard.tail + 1) % 2 ^ 32;
      head = keyboard.head;
    })

-- The character, or 0, and the buffer of the process of the current task.
unfoldable pub keyboard_pop : Option KeyboardBuffer → ℕ × Option KeyboardBuffer
keyboard_pop none = (0, none)
keyboard_pop (some keyboard) =
    let real_idx = keyboard.head % buffer_size in
    let c = get_or keyboard.buffer real_idx 0 in
    if c == 0 then (0, some keyboard) else (
      c,
      some (record {
        buffer = set keyboard.buffer real_idx 0;
        tail = keyboard.tail;
        head = (keyboard.head + 1) % 2 ^ 32;
      }),
    )

-- `keyboard_scan_set_one`
abbrev pub scan_set_one : List ℕ
scan_set_one =
    0 ∷ 0x1b ∷ b'1' ∷ b'2' ∷ b'3' ∷ b'4' ∷ b'5' ∷ b'6' ∷ b'7' ∷ b'8' ∷ b'9' ∷ b'0' ∷ b'-' ∷ b'=' ∷ 8
    ∷ 9 ∷ b'Q' ∷ b'W' ∷ b'E' ∷ b'R' ∷ b'T' ∷ b'Y' ∷ b'U' ∷ b'I' ∷ b'O' ∷ b'P' ∷ b'[' ∷ b']' ∷ 0x0d
    ∷ 0 ∷ b'A' ∷ b'S' ∷ b'D' ∷ b'F' ∷ b'G' ∷ b'H' ∷ b'J' ∷ b'K' ∷ b'L' ∷ b';' ∷ 39 ∷ b'`' ∷ 0 ∷ 92
    ∷ b'Z' ∷ b'X' ∷ b'C' ∷ b'V' ∷ b'B' ∷ b'N' ∷ b'M' ∷ b',' ∷ b'.' ∷ b'/' ∷ 0 ∷ b'*' ∷ 0 ∷ 0x20 ∷ 0
    ∷ 0 ∷ 0 ∷ 0 ∷ 0 ∷ 0 ∷ 0 ∷ 0 ∷ 0 ∷ 0 ∷ 0 ∷ b'7' ∷ b'8' ∷ b'9' ∷ b'-' ∷ b'4' ∷ b'5' ∷ b'6' ∷ b'+'
    ∷ b'1' ∷ b'2' ∷ b'3' ∷ b'0' ∷ b'.' ∷ []

-- `sizeof(keyboard_scan_set_one)`
abbrev pub scan_set_size : ℕ
scan_set_size = 82

-- `none` is a read behind the table.
unfoldable pub classic_keyboard_scancode_to_char : (caps_lock scancode : ℕ) → Option ℕ
classic_keyboard_scancode_to_char caps_lock scancode =
    if ltb scan_set_size scancode
    then some 0
    else get_elem? scan_set_one scancode >>= λ c.
        some (if caps_lock == 0 && (leb b'A' c && leb c b'Z') then c + 32 else c)

-- The state of the caps lock, and the buffer of the current process.
unfoldable pub classic_keyboard_handle_interrupt :
    (scancode caps_lock : ℕ) → Option KeyboardBuffer → Option (ℕ × Option KeyboardBuffer)
classic_keyboard_handle_interrupt scancode caps_lock keyboard =
    if not (bit_and scancode 0x80 == 0)
    then some (caps_lock, keyboard)
    else let caps = if scancode == 0x3a then bit_xor caps_lock 1 else caps_lock in
      (classic_keyboard_scancode_to_char caps scancode >>= λ c.
      some (caps, if not (c == 0) then keyboard_push c keyboard else keyboard))

-- ===== src/Keyboard/Tests.antt =====
-- The theorems of the keyboard at a ring that has gone around.
use os_dev_mtk.Base.{
  ℕ, zero, suc, ◌+◌, ◌%◌, ◌≡◌, refl, some, [], ◌∷◌, arith, replicate, length-replicate, get_or,
}
use os_dev_mtk.Keyboard.{
  KeyboardBuffer, buffer_size, keyboard_push, keyboard_pop, classic_keyboard_scancode_to_char,
  classic_keyboard_handle_interrupt,
}
use os_dev_mtk.Keyboard.Queue.{Holds, push-Holds, pop-Holds, key-Holds}

abbrev empty : KeyboardBuffer
empty = record { buffer = replicate buffer_size 0; tail = 0x7ff; head = 0x7ff }

blank : (n k : ℕ) → get_or {A = ℕ} (replicate n 0) k 0 ≡ 0
blank zero k = refl
blank (suc n) zero = refl
blank (suc n) (suc k) = blank n k

empty-Holds : Holds empty []
empty-Holds = record {
  size = length-replicate {A = ℕ} buffer_size 0;
  fits = omega arith;
  tail_at = refl;
  cells = λ k l. blank buffer_size ((0x7ff + k) % buffer_size);
}

one_key :
    (keyboard' : KeyboardBuffer) × (keyboard_push b'x' (some empty) ≡ some keyboard')
    × Holds keyboard' (b'x' ∷ [])
one_key = push-Holds empty [] b'x' empty-Holds (omega arith) (omega arith)

pop-Holds_example :
    (keyboard' : KeyboardBuffer) × (keyboard_pop (some one_key.0) ≡ (b'x', some keyboard'))
    × Holds keyboard' []
pop-Holds_example = pop-Holds one_key.0 b'x' [] one_key.2 (omega arith)

key-Holds_example :
    (keyboard' : KeyboardBuffer) × (classic_keyboard_handle_interrupt 0x10 0 (some empty)
      ≡ some (0, some keyboard'))
    × Holds keyboard' (b'q' ∷ [])
unfolding classic_keyboard_scancode_to_char
key-Holds_example =
    key-Holds empty [] 0x10 0 b'q' empty-Holds (omega arith) (omega arith) (omega arith) refl
      (omega arith)

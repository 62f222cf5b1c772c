-- ===== src/Keyboard/Queue.antt =====
-- The ring as a queue of characters.
use os_dev_mtk.Base.{
  ℕ, zero, suc, ◌+◌, ◌-◌, ◌/◌, bit_and, ◌%◌, ◌^◌, ◌<◌, ◌≤◌, ◌≡◌, ◌≢◌, refl, ◌∙◌, sym, ap, inl, inr,
  false, some, List, [], ◌∷◌, ◌++◌, arith, ◌==◌, length, length-set, get_or, set, Bool-cases,
}
use os_dev_mtk.Keyboard.{
  KeyboardBuffer, buffer_size, keyboard_get_tail_index, keyboard_push, keyboard_pop,
  classic_keyboard_scancode_to_char, classic_keyboard_handle_interrupt,
}
use os_dev_mtk.Base.Bits.{bit_and-high}

get_or-set_self : (xs : List ℕ) (i v : ℕ) → i < length xs → get_or (set xs i v) i 0 ≡ v
get_or-set_self [] i v h = elim h [ ]
get_or-set_self (x ∷ xs) zero v h = refl
get_or-set_self (x ∷ xs) (suc i) v h = get_or-set_self xs i v (omega arith)

get_or-set_ne : (xs : List ℕ) (i j v : ℕ) → i ≢ j → get_or (set xs i v) j 0 ≡ get_or xs j 0
get_or-set_ne [] i j v h = refl
get_or-set_ne (x ∷ xs) zero zero v h = absurd (h refl)
get_or-set_ne (x ∷ xs) zero (suc j) v h = refl
get_or-set_ne (x ∷ xs) (suc i) zero v h = refl
get_or-set_ne (x ∷ xs) (suc i) (suc j) v h = get_or-set_ne xs i j v (λ e. h (ap suc e))

get_or-append_end : (xs : List ℕ) (c : ℕ) → get_or (xs ++ c ∷ []) (length xs) 0 ≡ c
get_or-append_end [] c = refl
get_or-append_end (x ∷ xs) c = get_or-append_end xs c

get_or-append_other :
    (xs : List ℕ) (c k : ℕ) → k ≢ length xs → get_or (xs ++ c ∷ []) k 0 ≡ get_or xs k 0
get_or-append_other [] c zero h = absurd (h refl)
get_or-append_other [] c (suc k) h = refl
get_or-append_other (x ∷ xs) c zero h = refl
get_or-append_other (x ∷ xs) c (suc k) h = get_or-append_other xs c k (λ e. h (ap suc e))

get_or_past : (xs : List ℕ) (k : ℕ) → length xs ≤ k → get_or xs k 0 ≡ 0
get_or_past [] k h = refl
get_or_past (x ∷ xs) zero h = elim h [ ]
get_or_past (x ∷ xs) (suc k) h = get_or_past xs k (omega arith)

-- From the head on, the ring holds the characters of the queue, and then zeroes.
pub record Holds (keyboard : KeyboardBuffer) (queue : List ℕ) : Type 0 where
  pub size : length keyboard.buffer ≡ buffer_size
  pub fits : length queue ≤ buffer_size
  pub tail_at : keyboard.tail ≡ (keyboard.head + length queue) % 2 ^ 32
  pub cells :
      (k : ℕ)
      → k < buffer_size
      → get_or keyboard.buffer ((keyboard.head + k) % buffer_size) 0 ≡ get_or queue k 0

length-snoc : (xs : List ℕ) (c : ℕ) → length (xs ++ c ∷ []) ≡ length xs + 1
length-snoc [] c = refl
length-snoc (x ∷ xs) c = omega (arith, length-snoc xs c)

-- A character other than 0 that is pushed while there is room becomes the last of the queue.
pub push-Holds :
    (keyboard : KeyboardBuffer) (queue : List ℕ) (c : ℕ)
    → Holds keyboard queue
    → length queue < buffer_size
    → c ≢ 0
    → (keyboard' : KeyboardBuffer) × (keyboard_push c (some keyboard) ≡ some keyboard')
      × Holds keyboard' (queue ++ c ∷ [])
unfolding keyboard_push keyboard_get_tail_index
push-Holds keyboard queue c h room given =
    let char : (c == 0) ≡ false = ground (arith, given) in
    let at : ℕ = keyboard.tail % buffer_size in
    (
      record {
        buffer = set keyboard.buffer at c;
        tail = (keyboard.tail + 1) % 2 ^ 32;
        head = keyboard.head;
      },
      rw char,
      record {
        size = length-set keyboard.buffer at c ∙ h.size;
        fits = omega (arith, length-snoc queue c);
        tail_at = omega (arith, h.tail_at, length-snoc queue c);
        cells = λ k l. elim (Bool-cases (k == length queue)) [
          | inl last ↦
              let e : k ≡ length queue = ground arith in
              let here : (keyboard.head + length queue) % buffer_size ≡ at =
                omega (arith, h.tail_at) in
              rw (e, here)
                (get_or-set_self keyboard.buffer at c (omega (arith, h.size))
                  ∙ sym (get_or-append_end queue c))
          | inr before ↦
              let e : k ≢ length queue = ground arith in
              get_or-set_ne keyboard.buffer at ((keyboard.head + k) % buffer_size) c
                (omega (arith, h.tail_at, e))
              ∙ h.cells k l
              ∙ sym (get_or-append_other queue c k e)
        ];
      },
    )

-- From a queue whose first character is not 0 that character is popped, and the others stay.
pub pop-Holds :
    (keyboard : KeyboardBuffer) (c : ℕ) (queue : List ℕ)
    → Holds keyboard (c ∷ queue)
    → c ≢ 0
    → (keyboard' : KeyboardBuffer) × (keyboard_pop (some keyboard) ≡ (c, some keyboard'))
      × Holds keyboard' queue
unfolding keyboard_pop
pop-Holds keyboard c queue h given =
    let char : (c == 0) ≡ false = ground (arith, given) in
    let at : ℕ = keyboard.head % buffer_size in
    let zero_on : keyboard.head + 0 ≡ keyboard.head = omega arith in
    let first : get_or keyboard.buffer at 0 ≡ c =
      ap (λ (n : ℕ). get_or keyboard.buffer (n % buffer_size) 0) (sym zero_on)
      ∙ h.cells 0 (omega arith) in
    (
      record {
        buffer = set keyboard.buffer at 0;
        tail = keyboard.tail;
        head = (keyboard.head + 1) % 2 ^ 32;
      },
      rw (first, char),
      record {
        size = length-set keyboard.buffer at 0 ∙ h.size;
        fits = omega (arith, h.fits);
        tail_at = omega (arith, h.tail_at);
        cells = λ k l. elim (Bool-cases (k == buffer_size - 1)) [
          | inl last ↦
              let e : k ≡ buffer_size - 1 = ground arith in
              let here : ((keyboard.head + 1) % 2 ^ 32 + (buffer_size - 1)) % buffer_size ≡ at =
                omega arith in
              rw (e, here)
                (get_or-set_self keyboard.buffer at 0 (omega (arith, h.size))
                  ∙ sym (get_or_past queue (buffer_size - 1) (omega (arith, h.fits))))
          | inr before ↦
              let e : k ≢ buffer_size - 1 = ground arith in
              let next : ((keyboard.head + 1) % 2 ^ 32 + k) % buffer_size
                  ≡ (keyboard.head + suc k) % buffer_size =
                omega arith in
              rw next (
                get_or-set_ne keyboard.buffer at ((keyboard.head + suc k) % buffer_size) 0
                  (omega (arith, e))
                ∙ h.cells (suc k) (omega (arith, e)))
        ];
      },
    )

-- The interrupt of a key that is pressed, is not caps lock, and stands for a character other than 0
-- puts that character at the end of the queue, when there is room, and leaves caps lock as it is.
pub key-Holds :
    (keyboard : KeyboardBuffer) (queue : List ℕ) (scancode caps_lock c : ℕ)
    → Holds keyboard queue
    → length queue < buffer_size
    → scancode < 0x80
    → scancode ≢ 0x3a
    → classic_keyboard_scancode_to_char caps_lock scancode ≡ some c
    → c ≢ 0
    → (keyboard' : KeyboardBuffer) × (classic_keyboard_handle_interrupt scancode caps_lock
          (some keyboard)
        ≡ some (caps_lock, some keyboard'))
      × Holds keyboard' (queue ++ c ∷ [])
unfolding classic_keyboard_handle_interrupt
key-Holds keyboard queue scancode caps_lock c h room pressed other key given =
    let (keyboard', pushed, holds) = push-Holds keyboard queue c h room given in
    let high : scancode / 2 ^ 7 ≡ 0 = omega arith in
    let bit : bit_and scancode 0x80 ≡ 0 = bit_and-high 7 scancode 1 ∙ rw high in
    let no_caps : (scancode == 0x3a) ≡ false = ground (arith, other) in
    let char : (c == 0) ≡ false = ground (arith, given) in
    (keyboard', rw (bit, no_caps, key, char, pushed), holds)

-- ===== src/Library/Editing.antt =====
-- `terminal_readline` against a line that is edited.
use os_dev_mtk.Base.{
  ℕ, zero, suc, ◌+◌, ◌-◌, ◌≤◌, ◌<◌, ◌≡◌, ◌≢◌, refl, ◌∙◌, sym, ap, Bool, true, false, ◌&&◌, some,
  List, [], ◌∷◌, ◌++◌, ◌==◌, ltb, leb, if◌then◌else◌, set, take, length, inl, inr, Bool-cases,
  arith, length-set, length-append, snoc-append,
}
use mathlib.Core.List.{append-nil}
use os_dev_mtk.Library.{Line, take_key, getkey, readline_loop, terminal_readline}

abbrev pub without_last : List ℕ → List ℕ
without_last [] = []
without_last (c ∷ []) = []
without_last (c ∷ d ∷ cs) = c ∷ without_last (d ∷ cs)

-- A key on a line: a backspace takes the last character away, and is a character on an empty line.
abbrev pub edit : (line : List ℕ) → (key : ℕ) → List ℕ
edit [] key = key ∷ []
edit (c ∷ line) key = if key == 8 then without_last (c ∷ line) else (c ∷ line) ++ key ∷ []

-- The line after some keys.
abbrev pub edited : (line keys : List ℕ) → List ℕ
edited line [] = line
edited line (key ∷ keys) = edited (edit line key) keys

-- The keys end no line, and the line never gets longer than there is room.
abbrev pub IsTyped : (max : ℕ) → (line keys : List ℕ) → Type 0
IsTyped max line [] = length line + 1 < max
IsTyped max line (key ∷ keys) =
    (length line + 1 < max) × (key ≢ 0) × (key ≢ 13) × IsTyped max (edit line key) keys

take-set_end :
    (out : List ℕ) (i c : ℕ) → i < length out → take (suc i) (set out i c) ≡ take i out ++ c ∷ []
take-set_end [] i c h = absurd (omega (arith, h))
take-set_end (x ∷ out) zero c h = refl
take-set_end (x ∷ out) (suc i) c h = ap (λ r. x ∷ r) (take-set_end out i c (omega (arith, h)))

take-set_before : (out : List ℕ) (i c : ℕ) → take i (set out i c) ≡ take i out
take-set_before [] i c = refl
take-set_before (x ∷ out) zero c = refl
take-set_before (x ∷ out) (suc i) c = ap (λ r. x ∷ r) (take-set_before out i c)

without_last-take :
    (out : List ℕ) (i : ℕ) → suc i ≤ length out → without_last (take (suc i) out) ≡ take i out
without_last-take [] i h = absurd (omega (arith, h))
without_last-take (x ∷ out) zero h = refl
without_last-take (x ∷ []) (suc i) h = absurd (omega (arith, h))
without_last-take (x ∷ y ∷ out) (suc i) h =
    ap (λ r. x ∷ r) (without_last-take (y ∷ out) i (omega (arith, h)))

and_false : (a b : Bool) → b ≡ false → (a && b) ≡ false
and_false true b e = e
and_false false b e = refl

-- The first `i` bytes of the buffer are the line.
record Shows (out : List ℕ) (i : ℕ) (line : List ℕ) : Type 0 where
  text : take i out ≡ line
  count : i ≡ length line

append_key :
    (out : List ℕ) (i key : ℕ) (line : List ℕ)
    → i < length out
    → Shows out i line
    → (key == 8 && leb 1 i) ≡ false
    → (take_key out i key ≡ some (set out i key, i + 1))
      × Shows (set out i key) (i + 1) (line ++ key ∷ [])
unfolding take_key
append_key out i key line h s e =
    let fits : ltb i (length out) ≡ true = ground (arith, h) in
    let next : i + 1 ≡ suc i = omega arith in
    (
      rw (e, fits) refl,
      record {
        text =
            ap (λ (k : ℕ). take k (set out i key)) next
            ∙ take-set_end out i key h
            ∙ ap (λ r. r ++ key ∷ []) s.text;
        count = omega (arith, s.count, length-append line (key ∷ []));
      },
    )

length-without_last : (c : ℕ) (line : List ℕ) → length (without_last (c ∷ line)) ≡ length line
length-without_last c [] = refl
length-without_last c (d ∷ line) = ap suc (length-without_last d line)

back_key :
    (out : List ℕ) (i c : ℕ) (line : List ℕ)
    → i < length out
    → Shows out i (c ∷ line)
    → (take_key out i 8 ≡ some (set out (i - 1) 0, i - 1))
      × Shows (set out (i - 1) 0) (i - 1) (without_last (c ∷ line))
unfolding take_key
back_key out i c line h s =
    let some_left : leb 1 i ≡ true = ground (arith, s.count) in
    let fits : ltb (i - 1) (length out) ≡ true = ground (arith, h) in
    let whole : i ≡ suc (i - 1) = omega (arith, s.count) in
    (
      rw (some_left, fits) refl,
      record {
        text =
            take-set_before out (i - 1) 0
            ∙ sym (without_last-take out (i - 1) (omega (arith, h, s.count)))
            ∙ ap (λ (k : ℕ). without_last (take k out)) (sym whole)
            ∙ ap without_last s.text;
        count = omega (arith, s.count, length-without_last c line);
      },
    )

take_key-edit :
    (out : List ℕ) (i key : ℕ) (line : List ℕ)
    → i < length out
    → Shows out i line
    → (out' : List ℕ) × (i' : ℕ) × (take_key out i key ≡ some (out', i'))
      × Shows out' i' (edit line key)
      × (length out' ≡ length out)
take_key-edit out i key [] h s =
    let first : leb 1 i ≡ false = ground (arith, s.count) in
    let (eq, s') = append_key out i key [] h s (and_false (key == 8) (leb 1 i) first) in
    (set out i key, i + 1, eq, s', length-set out i key)
take_key-edit out i key (c ∷ line) h s = elim (Bool-cases (key == 8)) [
  | inl back ↦
      let is_back : key ≡ 8 = ground (arith, back) in
      let (eq, s') = back_key out i c line h s in
      (set out (i - 1) 0, i - 1, rw is_back eq, rw back s', length-set out (i - 1) 0)
  | inr other ↦
      let (eq, s') = append_key out i key (c ∷ line) h s (rw other refl) in
      (set out i key, i + 1, eq, rw other s', length-set out i key)
]

getkey_lem : (key : ℕ) (polls : List ℕ) → key ≢ 0 → getkey (key ∷ polls) ≡ some (key, polls)
unfolding getkey
getkey_lem key polls h = let pressed : (key == 0) ≡ false = ground (arith, h) in rw pressed refl

-- The echo of the keys, behind what was shown before.
abbrev pub echoed : Bool → (echo keys : List ℕ) → List ℕ
echoed echoes echo keys = if echoes then echo ++ keys else echo

echoed-none : (echoes : Bool) (echo : List ℕ) → echo ≡ echoed echoes echo []
echoed-none true echo = sym (append-nil echo)
echoed-none false echo = refl

echoed-key :
    (echoes : Bool) (echo keys : List ℕ) (key : ℕ)
    → echoed echoes (if echoes then echo ++ key ∷ [] else echo) keys
      ≡ echoed echoes echo (key ∷ keys)
echoed-key true echo keys key = snoc-append key echo keys
echoed-key false echo keys key = refl

readline_loop_lem :
    (fuel max : ℕ) (echoes : Bool) (keys rest out : List ℕ) (i : ℕ) (echo line : List ℕ)
    → length keys < fuel
    → max ≤ length out
    → Shows out i line
    → IsTyped max line keys
    → (l : Line) × (readline_loop fuel max echoes (keys ++ 13 ∷ rest) out i echo ≡ some l)
      × Shows l.out l.count (edited line keys)
      × (length l.out ≡ length out)
      × (l.count + 1 < max)
      × (l.echo ≡ echoed echoes echo keys)
unfolding readline_loop
readline_loop_lem zero max echoes keys rest out i echo line f m s t = absurd (omega (arith, f))
readline_loop_lem (suc fuel) max echoes [] rest out i echo line f m s t =
    let room : ltb i (max - 1) ≡ true = ground (arith, t, s.count) in
    (
      record { out = out; count = i; echo = echo },
      rw (room, getkey_lem 13 rest (omega arith)) refl,
      s,
      refl,
      omega (arith, t, s.count),
      echoed-none echoes echo,
    )
readline_loop_lem (suc fuel) max echoes (key ∷ keys) rest out i echo line f m s (t, n0, n13, ts) =
    let room : ltb i (max - 1) ≡ true = ground (arith, t, s.count) in
    let typed : (key == 13) ≡ false = ground (arith, n13) in
    let (out', i', eq, s', size) = take_key-edit out i key line (omega (arith, t, s.count, m)) s in
    let echo' : List ℕ = if echoes then echo ++ key ∷ [] else echo in
    let (l, eq', shown, same, fits, echoed_all) =
      readline_loop_lem fuel max echoes keys rest out' i' echo' (edit line key) (omega (arith, f))
        (omega (arith, m, size)) s' ts in
    (
      l,
      rw (room, getkey_lem key (keys ++ 13 ∷ rest) n0, typed, eq) eq',
      shown,
      same ∙ size,
      fits,
      echoed_all ∙ echoed-key echoes echo keys key,
    )

-- Some keys, none of them 0 or the carriage return, and then the carriage return: if `max` leaves room
-- for a further key and the NUL at each of them, and the buffer has `max` bytes at least, then
-- `terminal_readline` returns the length of the line that they edit, where a backspace takes the last
-- character away but is a character on an empty line, and stores that line with a NUL behind it. If it
-- shows them while they are typed, it shows all of the keys.
pub readline-edited :
    (out : List ℕ) (max : ℕ) (echoes : Bool) (keys rest : List ℕ)
    → max ≤ length out
    → IsTyped max [] keys
    → (l : Line) × (terminal_readline out max echoes (keys ++ 13 ∷ rest) ≡ some l)
      × (l.count ≡ length (edited [] keys))
      × (take (suc l.count) l.out ≡ edited [] keys ++ 0 ∷ [])
      × (l.echo ≡ echoed echoes [] keys)
unfolding terminal_readline
readline-edited out max echoes keys rest m t =
    let longer = length-append keys (13 ∷ rest) in
    let start : Shows out 0 [] = record { text = refl; count = refl } in
    let (l, eq, shown, same, fits, echoed_all) =
      readline_loop_lem (suc (length (keys ++ 13 ∷ rest))) max echoes keys rest out 0 [] []
        (omega (arith, longer)) m start t in
    let inside : l.count < length l.out = omega (arith, m, same, fits) in
    let stored : ltb l.count (length l.out) ≡ true = ground (arith, inside) in
    (
      record l { out = set l.out l.count 0 },
      rw (eq, stored) refl,
      shown.count,
      take-set_end l.out l.count 0 inside ∙ ap (λ r. r ++ 0 ∷ []) shown.text,
      echoed_all,
    )

-- ===== src/Tasks/Rounds.antt =====
-- `task_next` goes around the list of tasks.
use os_dev_mtk.Base.{
  ℕ, zero, suc, ◌+◌, ◌-◌, ◌<◌, ◌≤◌, ◌≡◌, ◌≢◌, refl, ◌∙◌, sym, ap, true, false, Option, some, List,
  [], ◌∷◌, arith, ◌==◌, if◌then◌else◌, length, get_elem?, ltb, Bool-cases, inl, inr,
}
use os_dev_mtk.Base.Run.{Run, ok, fault, panic, Run-cases}
use os_dev_mtk.Tasks.{task_switch, Task, Tasks, task_get_next, task_next, switched}
use os_dev_mtk.Tasks.Links.{Linked}

-- The state after a number of switches to the next task.
unfoldable pub rounds : (k : ℕ) → Tasks → Run Tasks
rounds zero st = ok st
rounds (suc k) st = elim (task_next st) [
  | fault ↦ fault
  | panic ↦ panic
  | ok (task, st') ↦ rounds k st'
]

-- The task behind the one at an index of a list that is linked: the next one, or NULL.
pub Linked-at :
    (tasks : ℕ → Option Task) (p : ℕ) (xs : List ℕ) (i a : ℕ)
    → Linked tasks p xs
    → get_elem? xs i ≡ some a
    → (a ≢ 0)
      × (t : Task) × (tasks a ≡ some t)
      × (suc i < length xs → get_elem? xs (suc i) ≡ some t.next)
      × (length xs ≤ suc i → t.next ≡ 0)
Linked-at tasks p [] i a l e = cc
Linked-at tasks p (x ∷ []) zero a (_, nz, _, t, at, rest) e =
    let same : x ≡ a = ground arith in
    ((λ z. nz (same ∙ z)), t, ap tasks (sym same) ∙ at, (λ h. absurd (omega arith)), λ _. rest)
Linked-at tasks p (x ∷ y ∷ xs) zero a (_, nz, _, t, at, rest) e =
    let same : x ≡ a = ground arith in
    (
      (λ z. nz (same ∙ z)),
      t,
      ap tasks (sym same) ∙ at,
      (λ _. ap some (sym rest.0)),
      λ h. absurd (omega arith),
    )
Linked-at tasks p (x ∷ []) (suc i) a l e = cc
Linked-at tasks p (x ∷ y ∷ xs) (suc i) a (_, _, _, t, at, rest) e =
    let (nz, u, at', later, end) = Linked-at tasks t.next (y ∷ xs) i a rest e in
    (nz, u, at', (λ h. later (omega arith)), λ h. end (omega arith))

Linked-first :
    (tasks : ℕ → Option Task) (p : ℕ) (xs : List ℕ)
    → Linked tasks p xs
    → 0 < length xs
    → (p ≢ 0) × (get_elem? xs 0 ≡ some p)
Linked-first tasks p [] l h = absurd (omega arith)
Linked-first tasks p (x ∷ xs) (e, nz, _, _, _, _) h = ((λ z. nz (sym e ∙ z)), ap some (sym e))

-- The index of the task after the one at an index.
abbrev pub next_index : (n i : ℕ) → ℕ
next_index n i = if suc i == n then 0 else suc i

-- Some task stands at the index, and a number of switches makes it the current one.
abbrev pub Reaches : Tasks → (xs : List ℕ) → (k index : ℕ) → Type 0
Reaches st xs k index = (b : ℕ) × (get_elem? xs index ≡ some b) × (rounds k st ≡ ok (switched st b))

rounds-suc :
    (k : ℕ) (st st' st'' : Tasks) (b : ℕ)
    → task_next st ≡ ok (b, st')
    → rounds k st' ≡ ok st''
    → rounds (suc k) st ≡ ok st''
unfolding rounds
rounds-suc k st st' st'' b next rest = rw (rounds, next, rest) refl

rounds-add : (k m : ℕ) (st st' : Tasks) → rounds k st ≡ ok st' → rounds (k + m) st ≡ rounds m st'
unfolding rounds
rounds-add zero m st st' e =
    let same : st ≡ st' = ground arith in
    let none_yet : zero + m ≡ m = omega arith in rw (none_yet, same)
rounds-add (suc k) m st st' e = elim (Run-cases (task_next st)) [
  | inl f ↦ let e' = rw (rounds, f) at e in absurd cc
  | inr (inl p) ↦ let e' = rw (rounds, p) at e in absurd cc
  | inr (inr (r, o)) ↦
      let e' = rw (rounds, o) at e in
      let more : suc k + m ≡ suc (k + m) = omega arith in
      rw (more, rounds, o) (rounds-add k m r.1 st' e')
]

next_step :
    (st : Tasks) (next : ℕ) (t : Task)
    → task_get_next st ≡ some next
    → next ≢ 0
    → st.task_at next ≡ some t
    → task_next st ≡ ok (next, switched st next)
unfolding task_next task_switch
next_step st next t e nz block =
    let real : (next == 0) ≡ false = ground (arith, nz) in rw (task_next, e, real, block) refl

module _ (xs : List ℕ) where
  -- One switch.
  pub next-at :
      (st : Tasks) (i : ℕ)
      → Linked st.task_at st.task_head xs
      → get_elem? xs i ≡ some st.current_task
      → i < length xs
      → (b : ℕ) × (get_elem? xs (next_index (length xs) i) ≡ some b)
        × (task_next st ≡ ok (b, switched st b))
  unfolding task_get_next
  next-at st i linked e h =
      let (nz, t, at, later, end) =
        Linked-at st.task_at st.task_head xs i st.current_task linked e in
      let here : (st.current_task == 0) ≡ false = ground (arith, nz) in
      elim (Bool-cases (suc i == length xs)) [
        | inl last ↦
            let (hz, first) = Linked-first st.task_at st.task_head xs linked (omega arith) in
            let wraps : t.next ≡ 0 = end (ground arith) in
            let (_, u, block, _, _) =
              Linked-at st.task_at st.task_head xs 0 st.task_head linked first in
            (
              st.task_head,
              rw last first,
              next_step st st.task_head u (rw (here, at, wraps) refl) hz block,
            )
        | inr before ↦
            let follows = later (ground arith) in
            let (nz', u, block, _, _) =
              Linked-at st.task_at st.task_head xs (suc i) t.next linked follows in
            let real : (t.next == 0) ≡ false = ground (arith, nz') in
            (t.next, rw before follows, next_step st t.next u (rw (here, at, real) refl) nz' block)
      ]

  -- The tasks behind the current one are reached in order.
  rounds-forward :
      (k : ℕ) (st : Tasks) (i j : ℕ)
      → Linked st.task_at st.task_head xs
      → get_elem? xs i ≡ some st.current_task
      → i + k ≡ j
      → j < length xs
      → Reaches st xs k j
  unfolding rounds
  rounds-forward zero st i j linked e index h =
      let here : j ≡ i = omega arith in (st.current_task, ap (get_elem? xs) here ∙ e, refl)
  rounds-forward (suc k) st i j linked e index h =
      let (b, at, next) = next-at st i linked e (omega arith) in
      let inside : (suc i == length xs) ≡ false = ground arith in
      let (c, at', rest) =
        rounds-forward k (switched st b) (suc i) j linked (rw inside at at) (omega arith) h in
      (c, at', rounds-suc k st (switched st b) (switched st c) b next rest)

  -- The tasks before the current one are reached after the end of the list.
  rounds-around :
      (k : ℕ) (st : Tasks) (i j : ℕ)
      → Linked st.task_at st.task_head xs
      → get_elem? xs i ≡ some st.current_task
      → i + suc k ≡ length xs
      → j < length xs
      → Reaches st xs (k + suc j) j
  rounds-around k st i j linked e h l =
      let (a, at, there) = rounds-forward k st i (i + k) linked e refl (omega arith) in
      let (b, first, next) = next-at (switched st a) (i + k) linked at (omega arith) in
      let ends : (suc (i + k) == length xs) ≡ true = ground arith in
      let (c, found, rest) =
        rounds-forward j (switched st b) 0 j linked (rw ends at first) (omega arith) l in
      (
        c,
        found,
        rounds-add k (suc j) st (switched st a) there
            ∙ rounds-suc j (switched st a) (switched st b) (switched st c) b next rest,
      )

  -- In a list of tasks that is linked forwards, with one of them current, each task becomes the
  -- current one after at most as many calls of `task_next` as there are tasks, and no call panics.
  pub next-Reaches :
      (st : Tasks) (i j : ℕ)
      → Linked st.task_at st.task_head xs
      → get_elem? xs i ≡ some st.current_task
      → i < length xs
      → j < length xs
      → (k : ℕ) × (k ≤ length xs) × Reaches st xs k j
  next-Reaches st i j linked e h l = elim (Bool-cases (ltb j i)) [
    | inl before ↦
        let k : ℕ = length xs - i - 1 in
        (k + suc j, ground arith, rounds-around k st i j linked e (omega arith) l)
    | inr behind ↦
        let k : ℕ = j - i in (k, omega arith, rounds-forward k st i j linked e (ground arith) l)
  ]

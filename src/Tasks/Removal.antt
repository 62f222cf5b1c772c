-- ===== src/Tasks/Removal.antt =====
-- The blocks that `task_free` leaves in a list of tasks.
use os_dev_mtk.Base.{
  ℕ, ◌≡◌, ◌≢◌, refl, ◌∙◌, sym, true, false, not, Option, none, some, List, [], ◌∷◌, ◌++◌, arith,
  ◌==◌, if◌then◌else◌, Bool-cases, inl, inr,
}
use os_dev_mtk.Tasks.{
  Task, Tasks, write, task_get_next, unlink_prev, move_current, task_list_remove, task_free,
}
use os_dev_mtk.Tasks.Links.{IsNew, Linked, Backed, last_or, IsNew-append, append-IsNew, last-ne}

-- The task at the end of the first part of a list, which the second part begins with.
pub Backed-at :
    (tasks : ℕ → Option Task) (prev p a : ℕ) (xs ys : List ℕ)
    → Backed tasks prev p (xs ++ a ∷ ys)
    → (a ≢ 0)
      × (t : Task) × (tasks a ≡ some t)
      × (t.prev ≡ last_or prev xs)
      × IsNew a xs
      × IsNew a ys
      × Backed tasks a t.next ys
Backed-at tasks prev p a [] ys (e, nz, new, t, at, back, rest) = (nz, t, at, back, tt, new, rest)
Backed-at tasks prev p a (x ∷ xs) ys (e, nz, new, t, at, back, rest) =
    let (nz', u, at', back', new', apart, rest') = Backed-at tasks x t.next a xs ys rest in
    let other = (IsNew-append x xs (a ∷ ys) new).1.0 in
    (nz', u, at', back', ((λ f. other (sym f)), new'), apart, rest')

-- The task before one of the list.
pub Backed-before :
    (tasks : ℕ → Option Task) (prev p a x : ℕ) (xs ys : List ℕ)
    → Backed tasks prev p ((x ∷ xs) ++ a ∷ ys)
    → (u : Task) × (tasks (last_or x xs) ≡ some u) × (last_or x xs ≢ 0) × IsNew (last_or x xs) ys
Backed-before tasks prev p a x [] ys (e, nz, (other, new), u, at, back, rest) = (u, at, nz, new)
Backed-before tasks prev p a x (y ∷ xs) ys (e, nz, new, u, at, back, rest) =
    Backed-before tasks x u.next a y xs ys rest

-- With the task before it linked past it, a task is out of the list.
module _ (tasks h : ℕ → Option Task) (a : ℕ) (ys : List ℕ) where
  pub Linked-skip :
      (prev p x : ℕ) (xs : List ℕ) (t last : Task)
      → Backed tasks prev p ((x ∷ xs) ++ a ∷ ys)
      → tasks a ≡ some t
      → tasks (last_or x xs) ≡ some last
      → h (last_or x xs) ≡ some (record last { next = t.next })
      → ((z : ℕ) → z ≢ a → z ≢ last_or x xs → h z ≡ tasks z)
      → Linked h t.next ys
      → Linked h p ((x ∷ xs) ++ ys)
  Linked-skip prev p x [] t last (e, nz, (other, new), u, at, back, rest) at_a here skipped same
        after =
      (e, nz, new, record last { next = t.next }, skipped, after)
  Linked-skip prev p x (y ∷ xs) t last (e, nz, new, u, at, back, rest) at_a here skipped same
        after =
      let (n, m) = IsNew-append x (y ∷ xs) (a ∷ ys) new in
      (
        e,
        nz,
        append-IsNew x (y ∷ xs) ys n m.1,
        u,
        same x m.0 (last-ne x y xs n) ∙ at,
        Linked-skip x u.next y xs t last rest at_a here skipped same after,
      )

-- The state after `task_free`, with the blocks `h` in which the task before, if any, is linked past.
abbrev pub after_free : Tasks → (h : ℕ → Option Task) → (a : ℕ) → Task → (head : ℕ) → Tasks
after_free st h a t head = record {
  task_at = write h a none;
  task_head = head;
  task_tail = if a == st.task_tail then t.prev else st.task_tail;
  current_task =
      if a == st.current_task
      then (if not (t.next == 0) then t.next else head)
      else st.current_task;
}

module _ (st : Tasks) (a : ℕ) (t : Task) (nz : a ≢ 0) (at : st.task_at a ≡ some t) where
  pub free-first :
      st.task_head ≡ a → t.prev ≡ 0 → task_free st a ≡ some (after_free st st.task_at a t t.next)
  unfolding task_free task_list_remove unlink_prev move_current task_get_next
  free-first head prev =
      let real : (a == 0) ≡ false = ground (arith, nz) in
      let same : (a == a) ≡ true = ground arith in
      elim (Bool-cases (a == st.current_task)) [
        | inl current ↦
            let here : st.current_task ≡ a = ground arith in
            rw (real, at, prev, at, head, same, here, same, real, at, prev) refl
        | inr other ↦ rw (real, at, prev, at, head, same, other, prev) refl
      ]

  pub free-later :
      (y : ℕ) (last : Task)
      → y ≢ 0
      → y ≢ a
      → st.task_at y ≡ some last
      → t.prev ≡ y
      → st.task_head ≢ a
      → task_free st a
        ≡ some (
            after_free st
              (write st.task_at y (some (record last { next = t.next })))
              a
              t
              st.task_head)
  unfolding task_free task_list_remove unlink_prev move_current task_get_next
  free-later y last y0 ya at_y prev head =
      let real : (a == 0) ≡ false = ground (arith, nz) in
      let real_y : (y == 0) ≡ false = ground (arith, y0) in
      let same : (a == a) ≡ true = ground arith in
      let apart : (a == y) ≡ false = ground (arith, ya) in
      let not_head : (a == st.task_head) ≡ false = ground (arith, head) in
      elim (Bool-cases (a == st.current_task)) [
        | inl current ↦
            let here : st.current_task ≡ a = ground arith in
            rw
              (real, at, prev, real_y, at_y, apart, at, not_head, here, same, real, apart, at, prev)
              refl
        | inr other ↦ rw (real, at, prev, real_y, at_y, apart, at, not_head, other, prev) refl
      ]

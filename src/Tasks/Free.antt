-- ===== src/Tasks/Free.antt =====
-- `task_free` in a list of tasks, and the list that is left.
use os_dev_mtk.Base.{
  ℕ, zero, suc, ◌≡◌, ◌≢◌, refl, ◌∙◌, sym, ap, true, false, not, Option, none, some, List, [], ◌∷◌,
  ◌++◌, arith, ◌==◌, if◌then◌else◌, length, get_elem?, Bool-cases, inl, inr, get_elem?-append,
}
use os_dev_mtk.Tasks.{Task, Tasks, write, unlink_prev, task_list_remove, task_free}
use os_dev_mtk.Tasks.Queue.{IsCurrent, IsQueue}
use os_dev_mtk.Tasks.Links.{
  IsNew, Linked, Backed, last_or, append-IsNew, last-ne, Backed-Linked, Linked-write,
}
use os_dev_mtk.Tasks.Removal.{
  Backed-at, Backed-before, Linked-skip, after_free, free-first, free-later,
}

-- A list of tasks as `task_next` walks it: forwards.
pub record IsForward (st : Tasks) (xs : List ℕ) : Type 0 where
  pub linked : Linked st.task_at st.task_head xs
  pub tail_at : st.task_tail ≡ last_or 0 xs
  pub current_in : IsCurrent xs st.current_task

in-IsCurrent : (c : ℕ) (xs : List ℕ) (i : ℕ) → get_elem? xs i ≡ some c → IsCurrent xs c
in-IsCurrent c [] i e = cc
in-IsCurrent c (x ∷ xs) i e = (i, e)

IsCurrent-in :
    (c a : ℕ) (xs ys : List ℕ)
    → IsCurrent (xs ++ a ∷ ys) c
    → (i : ℕ) × (get_elem? (xs ++ a ∷ ys) i ≡ some c)
IsCurrent-in c a [] ys e = e
IsCurrent-in c a (x ∷ xs) ys e = e

-- Another task of the list stays in it.
kept :
    (a c : ℕ) (xs ys : List ℕ) (i : ℕ)
    → get_elem? (xs ++ a ∷ ys) i ≡ some c
    → a ≢ c
    → (j : ℕ) × (get_elem? (xs ++ ys) j ≡ some c)
kept a c [] ys zero e ne = (0, ground (arith, e, ne))
kept a c [] ys (suc i) e ne = (i, e)
kept a c (x ∷ xs) ys zero e ne = (0, e)
kept a c (x ∷ xs) ys (suc i) e ne = let (j, at) = kept a c xs ys i e ne in (suc j, at)

last-append : (d x : ℕ) (xs ys : List ℕ) → last_or d (xs ++ x ∷ ys) ≡ last_or x ys
last-append d x [] ys = refl
last-append d x (z ∷ xs) ys = last-append z x xs ys

last-append_nil : (d : ℕ) (xs : List ℕ) → last_or d (xs ++ []) ≡ last_or d xs
last-append_nil d [] = refl
last-append_nil d (x ∷ xs) = last-append_nil x xs

tail-after :
    (a tail prev : ℕ) (xs ys : List ℕ)
    → tail ≡ last_or 0 (xs ++ a ∷ ys)
    → prev ≡ last_or 0 xs
    → IsNew a ys
    → (if a == tail then prev else tail) ≡ last_or 0 (xs ++ ys)
tail-after a tail prev xs [] e p new =
    let same : (a == tail) ≡ true = ground (arith, e ∙ last-append 0 a xs []) in
    rw same (p ∙ sym (last-append_nil 0 xs))
tail-after a tail prev xs (y ∷ ys) e p new =
    let here : tail ≡ last_or y ys = e ∙ last-append 0 a xs (y ∷ ys) in
    let other : (a == tail) ≡ false = ground (arith, here, last-ne a y ys new) in
    rw other (here ∙ sym (last-append 0 y xs ys))

head-IsCurrent : (h : ℕ → Option Task) (p : ℕ) (xs : List ℕ) → Linked h p xs → IsCurrent xs p
head-IsCurrent h p [] e = e
head-IsCurrent h p (x ∷ xs) l = (0, ap some (sym l.0))

next-IsCurrent :
    (h tasks : ℕ → Option Task) (a next head : ℕ) (xs ys : List ℕ)
    → Backed tasks a next ys
    → Linked h head (xs ++ ys)
    → IsCurrent (xs ++ ys) (if not (next == 0) then next else head)
next-IsCurrent h tasks a next head xs [] e l =
    let end : (next == 0) ≡ true = ground (arith, e) in rw end (head-IsCurrent h head (xs ++ []) l)
next-IsCurrent h tasks a next head xs (y ∷ ys) b l =
    let real : (next == 0) ≡ false = ground (arith, b.0, b.1) in
    in-IsCurrent (if not (next == 0) then next else head) (xs ++ y ∷ ys) (length xs)
      (rw (real, b.0) (get_elem?-append y xs ys))

IsCurrent-after :
    (h tasks : ℕ → Option Task) (a next head c : ℕ) (xs ys : List ℕ)
    → Backed tasks a next ys
    → Linked h head (xs ++ ys)
    → IsCurrent (xs ++ a ∷ ys) c
    → IsCurrent (xs ++ ys) (if a == c then (if not (next == 0) then next else head) else c)
IsCurrent-after h tasks a next head c xs ys b l at = elim (Bool-cases (a == c)) [
  | inl same ↦ rw same (next-IsCurrent h tasks a next head xs ys b l)
  | inr other ↦
      let (i, here) = IsCurrent-in c a xs ys at in
      let (j, there) = kept a c xs ys i here (ground (arith, other)) in
      rw other (in-IsCurrent c (xs ++ ys) j there)
]

-- Freeing any task of a list of tasks succeeds. The list that is left is linked forwards, without that
-- task and in the same order, its last task is the tail, and the current task is one of it.
pub free-IsForward :
    (st : Tasks) (a : ℕ) (xs ys : List ℕ)
    → IsQueue st (xs ++ a ∷ ys)
    → (st' : Tasks) × (task_free st a ≡ some st') × IsForward st' (xs ++ ys)
free-IsForward st a [] ys q =
    let (nz, t, at, back, _, new, rest) = Backed-at st.task_at 0 st.task_head a [] ys q.backed in
    let l =
      Linked-write st.task_at a none t.next ys new (Backed-Linked st.task_at a t.next ys rest) in
    (
      after_free st st.task_at a t t.next,
      free-first st a t nz at q.backed.0 back,
      record {
        linked = l;
        tail_at = tail-after a st.task_tail t.prev [] ys q.tail_at back new;
        current_in =
            IsCurrent-after (write st.task_at a none) st.task_at a t.next t.next st.current_task []
              ys rest l q.current_in;
      },
    )
free-IsForward st a (x ∷ xs) ys q =
    let (nz, t, at, back, apart, new, rest) =
      Backed-at st.task_at 0 st.task_head a (x ∷ xs) ys q.backed in
    let y : ℕ = last_or x xs in
    let (u, at_y, y0, new_y) = Backed-before st.task_at 0 st.task_head a x xs ys q.backed in
    let ya : a ≢ y = last-ne a x xs apart in
    let cell : Option Task = some (record u { next = t.next }) in
    let h : (ℕ → Option Task) = write st.task_at y cell in
    let same : (y == y) ≡ true = ground arith in
    let after =
      Linked-write st.task_at y cell t.next ys new_y (Backed-Linked st.task_at a t.next ys rest) in
    let skip =
      Linked-skip st.task_at h a ys 0 st.task_head x xs t u q.backed at at_y (rw same refl)
        (λ z za zy. ground (arith, za, zy)) after in
    let l =
      Linked-write h a none st.task_head ((x ∷ xs) ++ ys) (append-IsNew a (x ∷ xs) ys apart new)
        skip in
    (
      after_free st h a t st.task_head,
      free-later st a t nz at y u y0 (λ f. ya (sym f)) at_y back
          (λ f. apart.0 (sym f ∙ q.backed.0)),
      record {
        linked = l;
        tail_at = tail-after a st.task_tail t.prev (x ∷ xs) ys q.tail_at back new;
        current_in =
            IsCurrent-after (write h a none) st.task_at a t.next st.task_head st.current_task
              (x ∷ xs) ys rest l q.current_in;
      },
    )

free-dangling :
    (st : Tasks) (a b : ℕ) (u : Task)
    → a ≢ 0
    → b ≢ 0
    → st.task_at b ≡ some u
    → u.prev ≡ a
    → st.task_at a ≡ none
    → task_free st b ≡ none
unfolding task_free task_list_remove unlink_prev
free-dangling st a b u a0 b0 at back gone =
    let real : (b == 0) ≡ false = ground (arith, b0) in
    let real_a : (a == 0) ≡ false = ground (arith, a0) in rw (real, at, back, real_a, gone) refl

-- The task after a freed one still points back to it: when it is freed next, the write through its
-- `prev` goes to a block that is no longer allocated.
pub free-then-next :
    (st : Tasks) (a b : ℕ) (xs ys : List ℕ)
    → IsQueue st (xs ++ a ∷ b ∷ ys)
    → (st' : Tasks) × (task_free st a ≡ some st') × (task_free st' b ≡ none)
free-then-next st a b [] ys q =
    let (a0, t, at, back, _, (ab, new), (e, b0, newb, u, at_b, back_b, rest)) =
      Backed-at st.task_at 0 st.task_head a [] (b ∷ ys) q.backed in
    let st' : Tasks = after_free st st.task_at a t t.next in
    let other : (b == a) ≡ false = ground (arith, ab) in
    let same : (a == a) ≡ true = ground arith in
    (
      st',
      free-first st a t a0 at q.backed.0 back,
      free-dangling st' a b u a0 b0 (rw other at_b) back_b (rw same refl),
    )
free-then-next st a b (x ∷ xs) ys q =
    let (a0, t, at, back, apart, (ab, new), (e, b0, newb, u, at_b, back_b, rest)) =
      Backed-at st.task_at 0 st.task_head a (x ∷ xs) (b ∷ ys) q.backed in
    let y : ℕ = last_or x xs in
    let (before, at_y, y0, (yb, new_y)) =
      Backed-before st.task_at 0 st.task_head a x xs (b ∷ ys) q.backed in
    let ya : a ≢ y = last-ne a x xs apart in
    let h : (ℕ → Option Task) = write st.task_at y (some (record before { next = t.next })) in
    let st' : Tasks = after_free st h a t st.task_head in
    let other : (b == a) ≡ false = ground (arith, ab) in
    let other_y : (b == y) ≡ false = ground (arith, yb) in
    let same : (a == a) ≡ true = ground arith in
    (
      st',
      free-later st a t a0 at y before y0 (λ f. ya (sym f)) at_y back
          (λ f. apart.0 (sym f ∙ q.backed.0)),
      free-dangling st' a b u a0 b0 (rw (other, other_y) at_b) back_b (rw same refl),
    )

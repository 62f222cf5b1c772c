-- ===== src/Tasks/Queue.antt =====
-- `task_new` at the end of the list of tasks.
use os_dev_mtk.Base.{
  ℕ, zero, suc, ◌≡◌, ◌≢◌, refl, ◌∙◌, sym, true, false, Option, some, List, [], ◌∷◌, ◌++◌, arith,
  ◌==◌, if◌then◌else◌, get_elem?,
}
use os_dev_mtk.Tasks.{Task, Tasks, write, task_init, task_new, program_address}
use os_dev_mtk.Tasks.Links.{IsNew, Backed, last_or, append-IsNew, last-ne}

-- The current task is one of the list; there is none without tasks.
abbrev pub IsCurrent : List ℕ → ℕ → Type 0
IsCurrent [] c = c ≡ 0
IsCurrent (x ∷ xs) c = (i : ℕ) × (get_elem? (x ∷ xs) i ≡ some c)

-- The variables of the file and the links of the blocks agree with a list of tasks.
pub record IsQueue (st : Tasks) (xs : List ℕ) : Type 0 where
  pub backed : Backed st.task_at 0 st.task_head xs
  pub tail_at : st.task_tail ≡ last_or 0 xs
  pub current_in : IsCurrent xs st.current_task

pub last-task :
    (tasks : ℕ → Option Task) (prev p x : ℕ) (xs : List ℕ)
    → Backed tasks prev p (x ∷ xs)
    → (t : Task) × (tasks (last_or x xs) ≡ some t) × (t.next ≡ 0) × (last_or x xs ≢ 0)
last-task tasks prev p x [] (e, nz, new, t, at, back, rest) = (t, at, rest, nz)
last-task tasks prev p x (y ∷ xs) (e, nz, new, t, at, back, rest) =
    last-task tasks x t.next y xs rest

-- A list whose last task has been linked to a new one.
module _ (tasks h : ℕ → Option Task) (a : ℕ) (new : Task) (nonnull : a ≢ 0)
    (at_new : h a ≡ some new) (end : new.next ≡ 0) where
  Backed-snoc :
      (prev p x : ℕ) (xs : List ℕ) (t : Task)
      → Backed tasks prev p (x ∷ xs)
      → IsNew a (x ∷ xs)
      → tasks (last_or x xs) ≡ some t
      → h (last_or x xs) ≡ some (record t { next = a })
      → new.prev ≡ last_or x xs
      → ((z : ℕ) → z ≢ a → z ≢ last_or x xs → h z ≡ tasks z)
      → Backed h prev p ((x ∷ xs) ++ a ∷ [])
  Backed-snoc prev p x [] t (e, nz, _, t', at, back, rest) (n, _) here linked prev_at same =
      let one : t' ≡ t = ground arith in
      (
        e,
        nz,
        (λ f. n (sym f), tt),
        record t { next = a },
        linked,
        rw (sym one) back,
        (refl, nonnull, tt, new, at_new, prev_at, end),
      )
  Backed-snoc prev p x (y ∷ xs) t (e, nz, apart, t', at, back, rest) (n, m) here linked prev_at
        same =
      (
        e,
        nz,
        append-IsNew x (y ∷ xs) (a ∷ []) apart (λ f. n (sym f), tt),
        t',
        same x (λ f. n (sym f)) (last-ne x y xs apart) ∙ at,
        back,
        Backed-snoc x t'.next y xs t rest m here linked prev_at same,
      )

snoc-IsCurrent : (c a x : ℕ) (xs : List ℕ) → IsCurrent (x ∷ xs) c → IsCurrent ((x ∷ xs) ++ a ∷ []) c
snoc-IsCurrent c a x xs (i, at) = (i, at_before (x ∷ xs) i at)
  where
    at_before :
        (ys : List ℕ) (i : ℕ) → get_elem? ys i ≡ some c → get_elem? (ys ++ a ∷ []) i ≡ some c
    at_before [] i e = cc
    at_before (y ∷ ys) zero e = e
    at_before (y ∷ ys) (suc i) e = at_before ys i e

last-snoc : (d a : ℕ) (xs : List ℕ) → last_or d (xs ++ a ∷ []) ≡ a
last-snoc d a [] = refl
last-snoc d a (x ∷ xs) = last-snoc x a xs

-- What `task_init` stores.
abbrev pub initial : (page_directory process filetype e_entry : ℕ) → Task
initial page_directory process filetype e_entry = record {
  page_directory = page_directory;
  registers = record {
    edi = 0;
    esi = 0;
    ebp = 0;
    ebx = 0;
    edx = 0;
    ecx = 0;
    eax = 0;
    eip = if filetype == 0 then e_entry else program_address;
    cs = 0x1b;
    eflags = 0;
    esp = 0x3f_f000;
    ss = 0x23;
  };
  process = process;
  prev = 0;
  next = 0;
}

-- The blocks after the three stores of `task_new`.
abbrev pub appended : (ℕ → Option Task) → (a tail : ℕ) → (new last : Task) → ℕ → Option Task
appended tasks a tail new last =
    write (write (write tasks a (some new)) tail (some (record last { next = a }))) a
      (some (record new { prev = tail }))

-- On a list of tasks, `task_new` at a new address, when its allocations succeed, returns that address
-- and puts a task there at the end of the list.
pub new-IsQueue :
    (st : Tasks) (xs : List ℕ) (ptr page_directory process filetype e_entry : ℕ)
    → IsQueue st xs
    → ptr ≢ 0
    → IsNew ptr xs
    → page_directory ≢ 0
    → (st' : Tasks) × (task_new st ptr page_directory process filetype e_entry ≡ some (ptr, st'))
      × IsQueue st' (xs ++ ptr ∷ [])
unfolding task_new task_init
new-IsQueue st [] ptr page_directory process filetype e_entry q nz new pd =
    let given : (ptr == 0) ≡ false = ground (arith, nz) in
    let mapped : (page_directory == 0) ≡ false = ground (arith, pd) in
    let fresh : Task = initial page_directory process filetype e_entry in
    (
      record {
        task_at = write st.task_at ptr (some fresh);
        task_head = ptr;
        task_tail = ptr;
        current_task = ptr;
      },
      rw (given, mapped, q.backed),
      record {
        backed = (refl, nz, tt, fresh, ground arith, refl, refl);
        tail_at = refl;
        current_in = (0, refl);
      },
    )
new-IsQueue st (x ∷ xs) ptr page_directory process filetype e_entry q nz new pd =
    let given : (ptr == 0) ≡ false = ground (arith, nz) in
    let mapped : (page_directory == 0) ≡ false = ground (arith, pd) in
    let fresh : Task = initial page_directory process filetype e_entry in
    let y : ℕ = last_or x xs in
    let (last, at, _, y0) = last-task st.task_at 0 st.task_head x xs q.backed in
    let tail : st.task_tail ≡ y = q.tail_at in
    let head : (st.task_head == 0) ≡ false = ground (arith, q.backed.0, q.backed.1) in
    let real : (y == 0) ≡ false = ground (arith, y0) in
    let other : (y == ptr) ≡ false = ground (arith, last-ne ptr x xs new) in
    let other' : (ptr == y) ≡ false = ground (arith, last-ne ptr x xs new) in
    let same : (ptr == ptr) ≡ true = ground arith in
    let same_tail : (y == y) ≡ true = ground arith in
    (
      record st { task_at = appended st.task_at ptr y fresh last; task_tail = ptr },
      rw (given, mapped, head, tail, real, other, at, other', same),
      record {
        backed =
            Backed-snoc st.task_at (appended st.task_at ptr y fresh last) ptr
              (record fresh { prev = y }) nz (rw same refl) refl 0 st.task_head x xs last q.backed
              new at (rw (other, same_tail) refl) refl (λ z za zy. ground (arith, za, zy));
        tail_at = sym (last-snoc 0 ptr (x ∷ xs));
        current_in = snoc-IsCurrent st.current_task ptr x xs q.current_in;
      },
    )

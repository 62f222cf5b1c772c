-- ===== src/Tasks/Tests.antt =====
-- The theorems of the tasks at a list of three.
use os_dev_mtk.Base.{ℕ, ◌≤◌, ◌≡◌, refl, none, some, List, [], ◌∷◌, ◌++◌, arith, ◌==◌, if◌then◌else◌}
use os_dev_mtk.Tasks.{Task, Tasks, task_new, task_free}
use os_dev_mtk.Tasks.Queue.{IsQueue, initial, new-IsQueue}
use os_dev_mtk.Tasks.Links.{Backed-Linked}
use os_dev_mtk.Tasks.Rounds.{Reaches, next-Reaches}
use os_dev_mtk.Tasks.Free.{IsForward, free-IsForward}

abbrev a_task : (prev next : ℕ) → Task
a_task before after = record (initial 0x8000 0x9000 0 0x40_0100) { prev = before; next = after }

-- Three tasks, of which the second runs.
abbrev three : Tasks
three = record {
  task_at = λ a.
      if a == 16
      then some (a_task 0 32)
      else if a == 32
      then some (a_task 16 48)
      else if a == 48
      then some (a_task 32 0)
      else none;
  task_head = 16;
  task_tail = 48;
  current_task = 32;
}

abbrev listed : List ℕ
listed = 16 ∷ 32 ∷ 48 ∷ []

three-IsQueue : IsQueue three listed
three-IsQueue = record {
  backed = (
    refl,
    omega arith,
    (omega arith, (omega arith, tt)),
    a_task 0 32,
    refl,
    refl,
    (
      refl,
      omega arith,
      (omega arith, tt),
      a_task 16 48,
      refl,
      refl,
      (refl, omega arith, tt, a_task 32 0, refl, refl, refl),
    ),
  );
  tail_at = refl;
  current_in = (1, refl);
}

new-IsQueue_example :
    (st' : Tasks) × (task_new three 64 0x8000 0x9000 0 0x40_0100 ≡ some (64, st'))
    × IsQueue st' (listed ++ 64 ∷ [])
new-IsQueue_example =
    new-IsQueue three listed 64 0x8000 0x9000 0 0x40_0100 three-IsQueue (omega arith)
      (omega arith, (omega arith, (omega arith, tt))) (omega arith)

next-Reaches_example : (k : ℕ) × (k ≤ 3) × Reaches three listed k 0
next-Reaches_example =
    next-Reaches listed three 1 0 (Backed-Linked three.task_at 0 16 listed three-IsQueue.backed)
      refl (omega arith) (omega arith)

free-IsForward_example :
    (st' : Tasks) × (task_free three 32 ≡ some st') × IsForward st' (16 ∷ 48 ∷ [])
free-IsForward_example = free-IsForward three 32 (16 ∷ []) (48 ∷ []) three-IsQueue

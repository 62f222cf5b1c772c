-- ===== src/SystemCalls/Exit.antt =====
-- What the end of a process leaves: another task runs, and the slot is free.
use os_dev_mtk.Base.{
  ℕ, zero, suc, ◌<◌, ◌≡◌, ◌≢◌, refl, ◌∙◌, sym, ap, some, List, [], ◌∷◌, ◌++◌, arith, ◌==◌, false,
  get_elem?, get_elem?-length, get_elem?-set_self, get_elem?-set_ne, set, length, Bool-cases, inl,
  inr,
}
use os_dev_mtk.Base.Run.{ok}
use os_dev_mtk.Tasks.{Tasks, task_free, switched}
use os_dev_mtk.Tasks.Links.{Linked}
use os_dev_mtk.Tasks.Queue.{IsCurrent, IsQueue}
use os_dev_mtk.Tasks.Free.{free-IsForward}
use os_dev_mtk.Tasks.Rounds.{next_index, next-at}
use os_dev_mtk.Processes.{
  Process, ProcessTable, first_process, process_switch, process_switch_available, process_unlink,
  process_terminate, process_terminal_allocations, process_unload_process,
}
use os_dev_mtk.Processes.Kernel.{kernel_services}
use os_dev_mtk.SystemCalls.{Kernel, resumed, current_process_of, directory_of}
use os_dev_mtk.SystemCalls.Programs.{with_pair, close_file, terminate_current, sys_exit}

first_process_lem :
    (ps : List ℕ) (i p : ℕ)
    → get_elem? ps i ≡ some p
    → p ≢ 0
    → (q : ℕ) × (first_process ps ≡ some q)
unfolding first_process
first_process_lem [] i p e real = cc
first_process_lem (q ∷ ps) zero p e real =
    let used : (q == 0) ≡ false = ground (arith, e, real) in (q, rw used refl)
first_process_lem (q ∷ ps) (suc i) p e real =
    let (r, later) = first_process_lem ps i p e real in
    elim (Bool-cases (q == 0)) [ inr used ↦ (q, rw used refl) | inl free ↦ (r, rw free later) ]

-- Another process takes the place of the one that is unlinked, when that was the current one.
unlink_lem :
    (t : ProcessTable) (process id i p : ℕ)
    → get_elem? t.processes i ≡ some p
    → p ≢ 0
    → i ≢ id
    → (t' : ProcessTable) × (process_unlink t process id ≡ ok t')
      × (t'.processes ≡ set t.processes id 0)
unfolding process_unlink process_switch_available process_switch
unlink_lem t process id i p e real other =
    let kept = get_elem?-set_ne t.processes id i 0 (λ f. other (sym f)) ∙ e in
    let (q, first) = first_process_lem (set t.processes id 0) i p kept real in
    elim (Bool-cases (t.current_process == process)) [
      | inl same ↦ (
        record { processes = set t.processes id 0; current_process = q },
        rw (same, process_switch_available, first) refl,
        refl,
      )
      | inr differ ↦ (
        record { processes = set t.processes id 0; current_process = t.current_process },
        rw differ refl,
        refl,
      )
    ]

current-index :
    (xs : List ℕ) (c : ℕ) → IsCurrent xs c → 0 < length xs → (i : ℕ) × (get_elem? xs i ≡ some c)
current-index [] c at h = absurd (omega (arith, h))
current-index (x ∷ xs) c at h = at

-- The end of the process, from what `task_free` and `process_unlink` do.
terminate_step :
    (k : Kernel) (a directory : ℕ) (process : Process) (tasks : Tasks) (table : ProcessTable)
    → current_process_of k ≡ some (a, process)
    → directory_of k process ≡ some directory
    → task_free k.tasks process.task ≡ some tasks
    → process_unlink k.table a process.id ≡ ok table
    → (k' : Kernel) × (terminate_current k ≡ ok k') × (k'.tasks ≡ tasks) × (k'.table ≡ table)
unfolding terminate_current process_terminate
terminate_step k a directory process tasks table this dir freed unlinked =
    let services = kernel_services (k.map_at directory) in
    let (st1, _) =
      process_terminal_allocations services (k.machine.kheap, k.machine.words)
        process.allocations in
    let (_, st2) = process_unload_process services (close_file k) st1 process in
    (
      record (with_pair k (services.kfree st2 process.stack)) { tasks = tasks; table = table },
      rw (this, dir, freed, unlinked) refl,
      refl,
      refl,
    )

-- SYS_EXIT of a process whose task is one of a list of tasks, with another task and another process, does
-- not panic. It resumes one of the other tasks, their list is linked without the task of the process,
-- and the slot of the process is free.
pub exit-Resumes :
    (k : Kernel) (a directory i p : ℕ) (process : Process) (xs ys : List ℕ)
    → current_process_of k ≡ some (a, process)
    → directory_of k process ≡ some directory
    → IsQueue k.tasks (xs ++ process.task ∷ ys)
    → 0 < length (xs ++ ys)
    → process.id < length k.table.processes
    → get_elem? k.table.processes i ≡ some p
    → p ≢ 0
    → i ≢ process.id
    → (b : ℕ) × (k' : Kernel) × (j : ℕ) × (sys_exit k ≡ ok (resumed b k'))
      × (get_elem? (xs ++ ys) j ≡ some b)
      × Linked k'.tasks.task_at k'.tasks.task_head (xs ++ ys)
      × (k'.tasks.current_task ≡ b)
      × (get_elem? k'.table.processes process.id ≡ some 0)
unfolding sys_exit
exit-Resumes k a directory i p process xs ys this dir queue more inside at real other =
    let (tasks, freed, forward) = free-IsForward k.tasks process.task xs ys queue in
    let (table, unlinked, slots) = unlink_lem k.table a process.id i p at real other in
    let (k1, ended, same, same') =
      terminate_step k a directory process tasks table this dir freed unlinked in
    let (n, now) = current-index (xs ++ ys) tasks.current_task forward.current_in more in
    let (b, there, next) =
      next-at (xs ++ ys) tasks n forward.linked now (get_elem?-length (xs ++ ys) n now) in
    (
      b,
      record k1 { tasks = switched tasks b },
      next_index (length (xs ++ ys)) n,
      rw (ended, same, next) refl,
      there,
      forward.linked,
      refl,
      ap (λ (t : ProcessTable). get_elem? t.processes process.id) same'
          ∙ ap (λ (ps : List ℕ). get_elem? ps process.id) slots
          ∙ get_elem?-set_self k.table.processes process.id 0 inside,
    )

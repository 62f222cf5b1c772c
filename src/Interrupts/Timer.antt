-- ===== src/Interrupts/Timer.antt =====
-- The interrupt of the timer in a list of tasks.
use os_dev_mtk.Base.{
  ℕ, ◌<◌, ◌≡◌, ◌≢◌, refl, ◌∙◌, sym, ap, true, false, Option, some, List, [], ◌∷◌, arith, ◌==◌,
  length, get_elem?, Bool-cases, inl, inr,
}
use os_dev_mtk.Base.Run.{Run, ok}
use os_dev_mtk.Tasks.{
  Task, Tasks, Registers, InterruptFrame, write, store, saved, switched, task_save_state,
  task_current_save_state, task_current, task_next,
}
use os_dev_mtk.Tasks.Links.{Linked}
use os_dev_mtk.Tasks.Rounds.{Linked-at, next_index, next-at}
use os_dev_mtk.Interrupts.{
  Callback, timer_interrupt, Leaves, resumes, interrupt_handler, invoke, timer_interrupt_handler,
  finish,
}

-- Other registers in the block of a task leave the list as it is.
registers-Linked :
    (tasks : ℕ → Option Task) (a p : ℕ) (t : Task) (r : Registers) (xs : List ℕ)
    → tasks a ≡ some t
    → Linked tasks p xs
    → Linked (write tasks a (some (record t { registers = r }))) p xs
registers-Linked tasks a p t r [] at l = l
registers-Linked tasks a p t r (x ∷ xs) at (e, nz, new, u, here, rest) =
    let rest' = registers-Linked tasks a u.next t r xs at rest in
    elim (Bool-cases (x == a)) [
      | inl found ↦
          let same : x ≡ a = ground (arith, found) in
          let one : some u ≡ some t = sym here ∙ ap tasks same ∙ at in
          let u_is : u ≡ t = cc in
          (e, nz, new, record t { registers = r }, rw found refl, rw (sym u_is) rest')
      | inr other ↦ (e, nz, new, u, rw other here, rest')
    ]

-- The registers of a task are those of a frame.
pub record HasRegisters (r : Registers) (frame : InterruptFrame) : Type 0 where
  pub edi : r.edi ≡ frame.edi
  pub esi : r.esi ≡ frame.esi
  pub ebp : r.ebp ≡ frame.ebp
  pub ebx : r.ebx ≡ frame.ebx
  pub edx : r.edx ≡ frame.edx
  pub ecx : r.ecx ≡ frame.ecx
  pub eax : r.eax ≡ frame.eax
  pub eip : r.eip ≡ frame.eip
  pub cs : r.cs ≡ frame.cs
  pub eflags : r.eflags ≡ frame.eflags
  pub esp : r.esp ≡ frame.esp
  pub ss : r.ss ≡ frame.ss

-- Its current task has the registers of the frame, and else the state is the same.
pub record IsSaved (st st' : Tasks) (frame : InterruptFrame) : Type 0 where
  pub before : Task
  pub registers : Registers
  pub was_at : st.task_at st.current_task ≡ some before
  pub is_at : st'.task_at st.current_task ≡ some (record before { registers = registers })
  pub of_frame : HasRegisters registers frame
  pub others : (a : ℕ) → a ≢ st.current_task → st'.task_at a ≡ st.task_at a
  pub head : st'.task_head ≡ st.task_head
  pub tail : st'.task_tail ≡ st.task_tail

-- What the interrupt of the timer does: the registers are saved, the controller gets its
-- acknowledgement, and the task `b` is resumed.
pub record Preempts (callbacks : List (Option Callback))
    (other : Callback → InterruptFrame → Tasks → Run Leaves) (frame : InterruptFrame) (st : Tasks)
    (xs : List ℕ) (b : ℕ) : Type 0 where
  pub saved_state : Tasks
  pub is_saved : IsSaved st saved_state frame
  pub still_linked : Linked saved_state.task_at saved_state.task_head xs
  pub run :
      interrupt_handler callbacks other 0x20 frame st
      ≡ ok (resumes b (switched saved_state b), true)

saved-HasRegisters : (frame : InterruptFrame) → HasRegisters (saved frame) frame
unfolding saved
saved-HasRegisters frame = record {
  edi = refl;
  esi = refl;
  ebp = refl;
  ebx = refl;
  edx = refl;
  ecx = refl;
  eax = refl;
  eip = refl;
  cs = refl;
  eflags = refl;
  esp = refl;
  ss = refl;
}

timer_run :
    (callbacks : List (Option Callback)) (other : Callback → InterruptFrame → Tasks → Run Leaves)
    (frame : InterruptFrame) (st st1 st2 : Tasks) (b : ℕ)
    → get_elem? callbacks 0x20 ≡ some (some timer_interrupt)
    → task_current_save_state st frame ≡ ok st1
    → task_next st1 ≡ ok (b, st2)
    → interrupt_handler callbacks other 0x20 frame st ≡ ok (resumes b st2, true)
unfolding interrupt_handler invoke timer_interrupt_handler finish
timer_run callbacks other frame st st1 st2 b handler kept next =
    rw (interrupt_handler, handler, kept, timer_interrupt_handler, next) refl

-- When the timer's callback is registered, the interrupt of the timer in a list of tasks, of which the
-- current one runs, saves the frame's registers in that task and nothing else, keeps the list,
-- acknowledges the interrupt, and resumes the task after it in the list, or the first one after the
-- last.
pub timer-Preempts :
    (callbacks : List (Option Callback)) (other : Callback → InterruptFrame → Tasks → Run Leaves)
    (frame : InterruptFrame) (st : Tasks) (xs : List ℕ) (i : ℕ)
    → get_elem? callbacks 0x20 ≡ some (some timer_interrupt)
    → Linked st.task_at st.task_head xs
    → get_elem? xs i ≡ some st.current_task
    → i < length xs
    → (b : ℕ) × (get_elem? xs (next_index (length xs) i) ≡ some b)
      × Preempts callbacks other frame st xs b
unfolding task_current_save_state task_current task_save_state
timer-Preempts callbacks other frame st xs i handler l current h =
    let (nz, t, at, _, _) = Linked-at st.task_at st.task_head xs i st.current_task l current in
    let real : (st.current_task == 0) ≡ false = ground (arith, nz) in
    let r : Registers = saved frame in
    let st1 : Tasks = store st st.current_task (record t { registers = r }) in
    let kept = registers-Linked st.task_at st.current_task st.task_head t r xs at l in
    let (b, found, next) = next-at xs st1 i kept current h in
    let stored : task_current_save_state st frame ≡ ok st1 = rw (real, at) refl in
    (
      b,
      found,
      record {
        saved_state = st1;
        is_saved = record {
          before = t;
          registers = r;
          was_at = at;
          is_at =
              let here : (st.current_task == st.current_task) ≡ true = ground arith in rw here refl;
          of_frame = saved-HasRegisters frame;
          others = λ a other.
              let apart : (a == st.current_task) ≡ false = ground (arith, other) in rw apart refl;
          head = refl;
          tail = refl;
        };
        still_linked = kept;
        run = timer_run callbacks other frame st st1 (switched st1 b) b handler stored next;
      },
    )

-- ===== src/Tasks.antt =====
-- src/kernel/task/task.c and includes/task/task.h: the tasks and their linked list. A task stands at
-- an address; `none` there is a block that is not allocated or has been freed, and an operation that
-- reads or writes such a block, or NULL, gives `none`. What `kzalloc` and `_gen_paging_4gb` return
-- is an argument of `task_new`. The page directory in use and the registers of the processor
-- (task.asm) are not kept, so a switch of pages changes nothing here.
pub mod Links
pub mod Queue
pub mod Rounds
pub mod Removal
pub mod Free
mod Tests
use os_dev_mtk.Base.{
  ℕ, zero, suc, ◌+◌, ◌*◌, ◌%◌, ◌^◌, Bool, true, false, not, Option, none, some, ◌==◌, if◌then◌else◌,
  ◌>>=◌,
}
use os_dev_mtk.Base.Run
use os_dev_mtk.Base.Run.{Run, of_option}

-- `struct registers`
pub record Registers : Type 0 where
  pub edi : ℕ
  pub esi : ℕ
  pub ebp : ℕ
  pub ebx : ℕ
  pub edx : ℕ
  pub ecx : ℕ
  pub eax : ℕ
  pub eip : ℕ
  pub cs : ℕ
  pub eflags : ℕ
  pub esp : ℕ
  pub ss : ℕ

-- `struct interrupt_frame`
pub record InterruptFrame : Type 0 where
  pub edi : ℕ
  pub esi : ℕ
  pub ebp : ℕ
  pub handler_esp : ℕ
  pub ebx : ℕ
  pub edx : ℕ
  pub ecx : ℕ
  pub eax : ℕ
  pub err_code : ℕ
  pub eip : ℕ
  pub cs : ℕ
  pub eflags : ℕ
  pub esp : ℕ
  pub ss : ℕ

-- `struct task`: the page directory and the process are addresses.
pub record Task : Type 0 where
  pub page_directory : ℕ
  pub registers : Registers
  pub process : ℕ
  pub prev : ℕ
  pub next : ℕ

-- The blocks of the tasks, and the variables of the file.
pub record Tasks : Type 0 where
  pub task_at : ℕ → Option Task
  pub task_head : ℕ
  pub task_tail : ℕ
  pub current_task : ℕ

abbrev pub write : (ℕ → Option Task) → (a : ℕ) → Option Task → ℕ → Option Task
write tasks a c x = if x == a then c else tasks x

-- A read through a pointer.
abbrev pub load : Tasks → (a : ℕ) → Option Task
load st a = if a == 0 then none else st.task_at a

abbrev pub store : Tasks → (a : ℕ) → Task → Tasks
store st a t = record st { task_at = write st.task_at a (some t) }

-- `BKE_TASK_PROGRAM_VIRTUAL_ADDR` and the other constants of config.h
abbrev pub program_address : ℕ
program_address = 0x40_0000

abbrev pub user_data_segment : ℕ
user_data_segment = 0x23

abbrev pub user_code_segment : ℕ
user_code_segment = 0x1b

abbrev pub stack_address : ℕ
stack_address = 0x3f_f000

-- What `task_init` stores; `none` is -EIO. The format 0 is that of an ELF file, whose entry is given.
unfoldable pub task_init : (page_directory process filetype e_entry : ℕ) → Option Task
task_init page_directory process filetype e_entry =
    if page_directory == 0
    then none
    else some (record {
      page_directory = page_directory;
      registers = record {
        edi = 0;
        esi = 0;
        ebp = 0;
        ebx = 0;
        edx = 0;
        ecx = 0;
        eax = 0;
        eip = if filetype == 0 then e_entry else program_address;
        cs = user_code_segment;
        eflags = 0;
        esp = stack_address;
        ss = user_data_segment;
      };
      process = process;
      prev = 0;
      next = 0;
    })

-- The task's address is `ptr`, which `kzalloc` has returned. Both errors lead to a `task_free` that
-- reads through NULL: of the task itself, or of its page directory.
unfoldable pub task_new :
    Tasks → (ptr page_directory process filetype e_entry : ℕ) → Option (ℕ × Tasks)
task_new st ptr page_directory process filetype e_entry =
    if ptr == 0
    then none
    else task_init page_directory process filetype e_entry >>= λ task.
        let st' = store st ptr task in
        if st.task_head == 0
        then some (ptr, record st' { task_head = ptr; task_tail = ptr; current_task = ptr })
        else (load st' st.task_tail >>= λ last.
            let linked = store st' st.task_tail (record last { next = ptr }) in
            load linked ptr >>= λ new. some (
              ptr,
              record (store linked ptr (record new { prev = st.task_tail })) { task_tail = ptr },
            ))

unfoldable pub task_current : Tasks → ℕ
task_current st = st.current_task

unfoldable pub task_get_next : Tasks → Option ℕ
task_get_next st = load st st.current_task >>= λ task.
    some (if not (task.next == 0) then task.next else st.task_head)

abbrev pub switched : Tasks → (task : ℕ) → Tasks
switched st task = record st { current_task = task }

-- The page directory is read from the block of the task; the register that it goes to is not kept.
unfoldable pub task_switch : Tasks → (task : ℕ) → Option Tasks
task_switch st task = load st task >>= λ t. some (switched st task)

-- The task that is returned to, and the state; `panic` without a task.
unfoldable pub task_next : Tasks → Run (ℕ × Tasks)
task_next st = elim (task_get_next st) [
  | none ↦ Run.fault
  | some next ↦
      if next == 0
      then Run.panic
      else elim (task_switch st next) [ none ↦ Run.fault | some st' ↦ Run.ok (next, st') ]
]

-- The four `if`s in turn; the fields of the task are read from its block.
unfoldable pub unlink_prev : Tasks → Task → Option Tasks
unlink_prev st task =
    if task.prev == 0
    then some st
    else load st task.prev >>= λ before.
        some (store st task.prev (record before { next = task.next }))

unfoldable pub move_current : Tasks → (task : ℕ) → Option Tasks
move_current st task =
    if task == st.current_task
    then (task_get_next st >>= λ next. some (record st { current_task = next }))
    else some st

unfoldable pub task_list_remove : Tasks → (task : ℕ) → Option Tasks
task_list_remove st task = load st task >>= λ t. unlink_prev st t >>= λ st1. load st1 task >>= λ t1.
    let head = if task == st1.task_head then t1.next else st1.task_head in
    let tail = if task == st1.task_tail then t1.prev else st1.task_tail in
    move_current (record st1 { task_head = head; task_tail = tail }) task

unfoldable pub task_free : Tasks → (task : ℕ) → Option Tasks
task_free st task =
    task_list_remove st task >>= λ st'. some (record st' { task_at = write st'.task_at task none })

unfoldable pub saved : InterruptFrame → Registers
saved frame = record {
  edi = frame.edi;
  esi = frame.esi;
  ebp = frame.ebp;
  ebx = frame.ebx;
  edx = frame.edx;
  ecx = frame.ecx;
  eax = frame.eax;
  eip = frame.eip;
  cs = frame.cs;
  eflags = frame.eflags;
  esp = frame.esp;
  ss = frame.ss;
}

unfoldable pub task_save_state : Tasks → (task : ℕ) → InterruptFrame → Option Tasks
task_save_state st task frame =
    load st task >>= λ t. some (store st task (record t { registers = saved frame }))

unfoldable pub task_current_save_state : Tasks → InterruptFrame → Run Tasks
task_current_save_state st frame =
    if task_current st == 0
    then Run.panic
    else of_option (task_save_state st (task_current st) frame)

-- The registers that the processor returns to.
unfoldable pub task_run_first_task : Tasks → Run (Registers × Tasks)
task_run_first_task st =
    if st.current_task == 0
    then Run.panic
    else of_option (
        task_switch st st.task_head >>= λ st'.
        load st' st'.task_head >>= λ t. some (t.registers, st'))

-- ===== src/Interrupts.antt =====
-- src/kernel/idt/idt.c, idt/interrupts.c, idt/irq.c and isr80h/isr80h.c, with includes/idt.h and
-- includes/isr80h/isr80h.h: the descriptors of the interrupts, the callbacks and the system calls.
-- What a callback other than the timer's and what the handler of a system call does is an argument;
-- none of these callbacks acknowledges its interrupt.
-- The switch to the pages of the kernel and back is not kept.
pub mod Gates
pub mod Timer
pub mod Calls
mod Tests
use os_dev_mtk.Base.{
  ℕ, zero, suc, ◌+◌, ◌/◌, ◌%◌, ◌^◌, Bool, true, false, ◌&&◌, ◌||◌, Option, none, some, List, [],
  ◌∷◌, ◌==◌, leb, ltb, if◌then◌else◌, get_elem?, set, replicate, bit_and, ℤ, pos, negsuc, einvarg,
  ne,
}
use os_dev_mtk.Base.Run
use os_dev_mtk.Base.Run.{Run, ok, fault, panic, of_option, ◌>>=◌}
use os_dev_mtk.Tasks.{Tasks, InterruptFrame, task_next, task_switch, task_current_save_state}

-- `struct IDT_Descriptor`
pub record IdtDescriptor : Type 0 where
  pub low_offset : ℕ
  pub selector : ℕ
  pub reserved : ℕ
  pub type_attr : ℕ
  pub high_offset : ℕ

abbrev pub idt_entries : ℕ
idt_entries = 256

abbrev pub kernel_code_selector : ℕ
kernel_code_selector = 8

abbrev pub kernel_gate : ℕ
kernel_gate = 0x8e

abbrev pub user_gate : ℕ
user_gate = 0xee

abbrev pub descriptor : (addr selector type_attr : ℕ) → IdtDescriptor
descriptor addr selector type_attr = record {
  low_offset = bit_and addr 0xffff;
  selector = selector;
  reserved = 0;
  type_attr = type_attr;
  high_offset = addr / 2 ^ 16 % 2 ^ 16;
}

unfoldable pub idt_set :
    List IdtDescriptor → (interrupt_number addr selector type_attr : ℕ) → List IdtDescriptor
idt_set idt_descriptors interrupt_number addr selector type_attr =
    set idt_descriptors interrupt_number (descriptor addr selector type_attr)

-- The callbacks of this code, and those that other files register.
pub data Callback : Type 0 where
  int_zero : Callback
  invalid_opcode_fault_handler : Callback
  int_gp_fault : Callback
  page_fault_h : Callback
  timer_interrupt : Callback
  registered : ℕ → Callback

unfoldable pub idt_register_interrupt_callback :
    List (Option Callback) → (interrupt_id : ℤ) → Callback → ℤ × List (Option Callback)
idt_register_interrupt_callback callbacks (negsuc n) callback = (einvarg, callbacks)
idt_register_interrupt_callback callbacks (pos n) callback =
    if leb idt_entries n then (einvarg, callbacks) else (ne, set callbacks n (some callback))

-- The loop over the interrupts from `i` on.
unfoldable pub set_loop :
    (n i : ℕ) → (interrupt_pointer_table : ℕ → ℕ) → List IdtDescriptor → List IdtDescriptor
set_loop zero i interrupt_pointer_table descriptors = descriptors
set_loop (suc n) i interrupt_pointer_table descriptors =
    set_loop n (i + 1) interrupt_pointer_table
      (idt_set descriptors i (interrupt_pointer_table i) kernel_code_selector kernel_gate)

abbrev pub cleared_descriptor : IdtDescriptor
cleared_descriptor = record {
  low_offset = 0;
  selector = 0;
  reserved = 0;
  type_attr = 0;
  high_offset = 0;
}

-- The descriptors, from the addresses of the wrappers in assembly.
unfoldable pub idt_init_descriptors :
    (interrupt_pointer_table : ℕ → ℕ) → (isr80h_wrapper : ℕ) → List IdtDescriptor
idt_init_descriptors interrupt_pointer_table isr80h_wrapper =
    idt_set
      (set_loop idt_entries 0 interrupt_pointer_table (replicate idt_entries cleared_descriptor))
      0x80 isr80h_wrapper kernel_code_selector user_gate

-- The callbacks; they are static, so none at first.
unfoldable pub idt_init_callbacks : List (Option Callback) → List (Option Callback)
idt_init_callbacks c0 =
    let (_, c1) = idt_register_interrupt_callback c0 (pos 0) int_zero in
    let (_, c2) = idt_register_interrupt_callback c1 (pos 6) invalid_opcode_fault_handler in
    let (_, c3) = idt_register_interrupt_callback c2 (pos 13) int_gp_fault in
    let (_, c4) = idt_register_interrupt_callback c3 (pos 14) page_fault_h in
    let (_, c5) = idt_register_interrupt_callback c4 (pos 0x20) timer_interrupt in c5

-- What a callback comes to: it returns, or `task_return` resumes a task.
pub data Leaves : Type 0 where
  returns : Tasks → Leaves
  resumes : (task : ℕ) → Tasks → Leaves

-- With whether the controller has got its acknowledgement.
unfoldable pub timer_interrupt_handler : Tasks → Run (Leaves × Bool)
timer_interrupt_handler st = task_next st >>= λ (task, st'). ok (resumes task st', true)

unfoldable pub task_page : Tasks → Run Tasks
task_page st = of_option (task_switch st st.current_task)

-- With the return to the task, and the acknowledgement.
unfoldable pub finish : (interrupt : ℕ) → Leaves → (acknowledged : Bool) → Run (Leaves × Bool)
finish interrupt (returns st) acknowledged = task_page st >>= λ st'.
    ok (returns st', acknowledged || (leb 0x20 interrupt && ltb interrupt 0x30))
finish interrupt (resumes task st) acknowledged = ok (resumes task st, acknowledged)

unfoldable pub invoke :
    (other : Callback → InterruptFrame → Tasks → Run Leaves)
    → Callback
    → InterruptFrame
    → Tasks
    → Run (Leaves × Bool)
invoke other timer_interrupt frame st = timer_interrupt_handler st
invoke other callback frame st = other callback frame st >>= λ l. ok (l, false)

unfoldable pub interrupt_handler :
    List (Option Callback)
    → (other : Callback → InterruptFrame → Tasks → Run Leaves) → (interrupt : ℕ) → InterruptFrame
    → Tasks
    → Run (Leaves × Bool)
interrupt_handler callbacks other interrupt frame st = elim (get_elem? callbacks interrupt) [
  | none ↦ fault
  | some none ↦
      if ltb interrupt 0x20 && leb 0x30 interrupt
      then panic
      else finish interrupt (returns st) false
  | some (some callback) ↦ task_current_save_state st frame >>= λ st1.
      invoke other callback frame st1 >>= λ (l, acknowledged). finish interrupt l acknowledged
]

-- The handlers of the system calls.
pub data SystemCall : Type 0 where
  sys_exit : SystemCall
  isr_sys_print : SystemCall
  isr_sys_print_ext : SystemCall
  sys_get_key : SystemCall
  sys_putchar : SystemCall
  sys_malloc : SystemCall
  isr_sys_free : SystemCall
  sys_process_load_start : SystemCall
  sys_invoke_sys_command : SystemCall
  sys_get_process_arguments : SystemCall

abbrev pub max_commands : ℕ
max_commands = 0x400

unfoldable pub register_at :
    List (Option SystemCall)
    → (command_id : ℕ) → SystemCall
    → Option (Option SystemCall)
    → Run (List (Option SystemCall))
register_at commands command_id handler none = fault
register_at commands command_id handler (some none) = ok (set commands command_id (some handler))
register_at commands command_id handler (some (some taken)) = panic

unfoldable pub isr80h_register_command :
    List (Option SystemCall) → (command_id : ℤ) → SystemCall → Run (List (Option SystemCall))
isr80h_register_command commands (negsuc n) handler = panic
isr80h_register_command commands (pos n) handler =
    if leb max_commands n then panic else register_at commands n handler (get_elem? commands n)

-- The identifiers of the system calls, in the order of their enumeration.
unfoldable pub isr80h_register_commands : List (Option SystemCall) → Run (List (Option SystemCall))
isr80h_register_commands c = isr80h_register_command c (pos 0) sys_exit >>= λ c.
    isr80h_register_command c (pos 1) isr_sys_print >>= λ c.
    isr80h_register_command c (pos 2) isr_sys_print_ext >>= λ c.
    isr80h_register_command c (pos 3) sys_get_key >>= λ c.
    isr80h_register_command c (pos 4) sys_putchar >>= λ c.
    isr80h_register_command c (pos 5) sys_malloc >>= λ c.
    isr80h_register_command c (pos 6) isr_sys_free >>= λ c.
    isr80h_register_command c (pos 7) sys_process_load_start >>= λ c.
    isr80h_register_command c (pos 8) sys_invoke_sys_command >>= λ c.
    isr80h_register_command c (pos 9) sys_get_process_arguments

-- The result in `eax`, and what the handler comes to.
unfoldable pub call_handler :
    (run : SystemCall → InterruptFrame → Tasks → Run (ℕ × Leaves))
    → InterruptFrame
    → Tasks
    → Option (Option SystemCall)
    → Run (ℕ × Leaves)
call_handler run frame st none = fault
call_handler run frame st (some none) = ok (0, returns st)
call_handler run frame st (some (some handler)) = run handler frame st

unfoldable pub isr80h_handle_command :
    List (Option SystemCall)
    → (run : SystemCall → InterruptFrame → Tasks → Run (ℕ × Leaves)) → (command : ℤ)
    → InterruptFrame
    → Tasks
    → Run (ℕ × Leaves)
isr80h_handle_command commands run (negsuc n) frame st = ok (0, returns st)
isr80h_handle_command commands run (pos n) frame st =
    if leb max_commands n
    then ok (0, returns st)
    else call_handler run frame st (get_elem? commands n)

-- A handler that returns is followed by the switch to the pages of the task.
abbrev pub back : Leaves → Run Leaves
back (returns st) = task_page st >>= λ st'. ok (returns st')
back (resumes task st) = ok (resumes task st)

unfoldable pub isr80h_handler :
    List (Option SystemCall)
    → (run : SystemCall → InterruptFrame → Tasks → Run (ℕ × Leaves)) → (command : ℤ)
    → InterruptFrame
    → Tasks
    → Run (ℕ × Leaves)
isr80h_handler commands run command frame st = task_current_save_state st frame >>= λ st1.
    isr80h_handle_command commands run command frame st1 >>= λ (res, l).
    back l >>= λ l'. ok (res, l')

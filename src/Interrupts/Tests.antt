-- ===== src/Interrupts/Tests.antt =====
-- The theorems of the interrupts at two tasks.
use os_dev_mtk.Base.{
  ℕ, ◌+◌, ◌*◌, ◌%◌, ◌≡◌, refl, Option, none, some, List, [], ◌∷◌, arith, ◌==◌, if◌then◌else◌,
  get_elem?, replicate, pos,
}
use os_dev_mtk.Base.Run.{Run, ok}
use os_dev_mtk.Tasks.{Tasks, InterruptFrame}
use os_dev_mtk.Tasks.Queue.{initial}
use os_dev_mtk.Tasks.Links.{Linked}
use os_dev_mtk.Interrupts.{
  IdtDescriptor, idt_init_descriptors, Callback, timer_interrupt, Leaves, returns, SystemCall,
  idt_init_callbacks, idt_register_interrupt_callback, isr80h_register_commands,
  isr80h_handle_command,
}
use os_dev_mtk.Interrupts.Gates.{IsGate, idt_init-IsGate}
use os_dev_mtk.Interrupts.Timer.{Preempts, timer-Preempts}
use os_dev_mtk.Interrupts.Calls.{called_by, register-handle}

abbrev two : Tasks
two = record {
  task_at = λ a.
      if a == 16
      then some (record (initial 0x8000 0x9000 0 0x40_0100) { next = 32 })
      else if a == 32
      then some (record (initial 0x8000 0x9000 0 0x40_0100) { prev = 16 })
      else none;
  task_head = 16;
  task_tail = 32;
  current_task = 32;
}

abbrev pair : List ℕ
pair = 16 ∷ 32 ∷ []

two-Linked : Linked two.task_at 16 pair
two-Linked = (
  refl,
  omega arith,
  (omega arith, tt),
  record (initial 0x8000 0x9000 0 0x40_0100) { next = 32 },
  refl,
  (refl, omega arith, tt, record (initial 0x8000 0x9000 0 0x40_0100) { prev = 16 }, refl, refl),
)

abbrev frame : InterruptFrame
frame = record {
  edi = 1;
  esi = 2;
  ebp = 3;
  handler_esp = 4;
  ebx = 5;
  edx = 6;
  ecx = 7;
  eax = 8;
  err_code = 0;
  eip = 0x40_0200;
  cs = 0x1b;
  eflags = 0x202;
  esp = 0x3f_e000;
  ss = 0x23;
}

abbrev no_other : Callback → InterruptFrame → Tasks → Run Leaves
no_other _ _ st = ok (returns st)

abbrev with_timer : List (Option Callback)
with_timer = idt_init_callbacks (replicate 256 none)

timer_at : get_elem? with_timer 0x20 ≡ some (some timer_interrupt)
unfolding idt_init_callbacks idt_register_interrupt_callback
timer_at = refl

timer-Preempts_example :
    (b : ℕ) × (get_elem? pair 0 ≡ some b) × Preempts with_timer no_other frame two pair b
timer-Preempts_example =
    timer-Preempts with_timer no_other frame two pair 1 timer_at two-Linked refl (omega arith)

abbrev answers : SystemCall → InterruptFrame → Tasks → Run (ℕ × Leaves)
answers _ _ st = ok (7, returns st)

register-handle_example :
    (commands : List (Option SystemCall)) × (isr80h_register_commands (replicate 1024 none)
      ≡ ok commands)
    × (isr80h_handle_command commands answers (pos 9) frame two
        ≡ called_by answers frame two (pos 9))
register-handle_example = register-handle answers frame two (pos 9)

abbrev wrappers : ℕ → ℕ
wrappers i = 0x10_0000 + 16 * (i % 256)

idt_init-IsGate_example :
    (d : IdtDescriptor) × (get_elem? (idt_init_descriptors wrappers 0x10_2000) 0x80 ≡ some d)
    × IsGate d 0x10_2000 8 0xee
idt_init-IsGate_example =
    idt_init-IsGate wrappers 0x10_2000 0x80 (λ j. omega arith) (omega arith) (omega arith)

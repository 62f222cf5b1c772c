-- ===== src/Exceptions.antt =====
-- src/kernel/idt/interrupts.c: the callbacks of the exceptions, over the state of the kernel. They print
-- what has happened and end the process, but for a division by zero, which only prints. `none` is a
-- fault in a handler. `cr2` is the register of the processor with that name.
use os_dev_mtk.Base.{
  ℕ, zero, suc, ◌+◌, ◌-◌, ◌%◌, ◌^◌, Option, some, List, [], ◌∷◌, ◌==◌, ltb, if◌then◌else◌, bit_and,
  ◌>>=◌, ℤ, pos, negsuc,
}
use os_dev_mtk.Base.Run
use os_dev_mtk.Base.Run.{Run, of_option}
use os_dev_mtk.Paging.{paging_get}
use os_dev_mtk.Terminal.{print, printint, print_hex_byte, terminal_clear}
use os_dev_mtk.Tasks.{InterruptFrame, task_switch}
use os_dev_mtk.UserMemory.{load_byte, translate}
use os_dev_mtk.SystemCalls.{Kernel, Ending, memory_of, current, current_process_of}
use os_dev_mtk.SystemCalls.Programs.{interrupt_handlers_terminate_current_process}

-- A word as an `int`.
abbrev pub to_int : ℕ → ℤ
to_int w = if ltb w (2 ^ 31) then pos w else negsuc (2 ^ 32 - 1 - w)

abbrev pub say : Kernel → (text : List ℕ) → Option Kernel
say k text = print k.terminal text >>= λ terminal. some (record k { terminal = terminal })

abbrev pub say_word : Kernel → (word : ℕ) → Option Kernel
say_word k word =
    printint k.terminal (to_int word) >>= λ terminal. some (record k { terminal = terminal })

abbrev zero_text : List ℕ
zero_text =
    b'D' ∷ b'i' ∷ b'v' ∷ b'i' ∷ b'd' ∷ b'e' ∷ b' ' ∷ b'b' ∷ b'y' ∷ b' ' ∷ b'z' ∷ b'e' ∷ b'r' ∷ b'o'
    ∷ b' ' ∷ b'e' ∷ b'r' ∷ b'r' ∷ b'o' ∷ b'r' ∷ b'!' ∷ b'\n' ∷ 0 ∷ []

abbrev opcode_text : List ℕ
opcode_text =
    b'\n' ∷ b'U' ∷ b'n' ∷ b'd' ∷ b'e' ∷ b'f' ∷ b'i' ∷ b'n' ∷ b'e' ∷ b'd' ∷ b' ' ∷ b'i' ∷ b'n' ∷ b's'
    ∷ b't' ∷ b'r' ∷ b'u' ∷ b'c' ∷ b't' ∷ b'i' ∷ b'o' ∷ b'n' ∷ b' ' ∷ b'(' ∷ b'o' ∷ b'r' ∷ b' '
    ∷ b'r' ∷ b'e' ∷ b's' ∷ b'e' ∷ b'r' ∷ b'v' ∷ b'e' ∷ b'd' ∷ b' ' ∷ b'o' ∷ b'p' ∷ b'-' ∷ b'c'
    ∷ b'o' ∷ b'd' ∷ b'e' ∷ b')' ∷ b' ' ∷ b'e' ∷ b'x' ∷ b'e' ∷ b'c' ∷ b'u' ∷ b't' ∷ b'e' ∷ b'd'
    ∷ b'.' ∷ b'\n' ∷ 0 ∷ []

abbrev gp_text : List ℕ
gp_text =
    b'G' ∷ b'e' ∷ b'n' ∷ b'e' ∷ b'r' ∷ b'a' ∷ b'l' ∷ b' ' ∷ b'P' ∷ b'r' ∷ b'o' ∷ b't' ∷ b'e' ∷ b'c'
    ∷ b't' ∷ b'i' ∷ b'o' ∷ b'n' ∷ b' ' ∷ b'F' ∷ b'a' ∷ b'u' ∷ b'l' ∷ b't' ∷ b' ' ∷ b'(' ∷ b'#'
    ∷ b'G' ∷ b'P' ∷ b')' ∷ b'.' ∷ 0 ∷ []

abbrev raised_text : List ℕ
raised_text =
    b'\n' ∷ b'R' ∷ b'a' ∷ b'i' ∷ b's' ∷ b'e' ∷ b'd' ∷ b' ' ∷ b'a' ∷ b't' ∷ b' ' ∷ b'a' ∷ b'd' ∷ b'd'
    ∷ b'r' ∷ b'e' ∷ b's' ∷ b's' ∷ b':' ∷ b' ' ∷ 0 ∷ []

abbrev code_text : List ℕ
code_text =
    b'\n' ∷ b'E' ∷ b'r' ∷ b'r' ∷ b'o' ∷ b'r' ∷ b' ' ∷ b'C' ∷ b'o' ∷ b'd' ∷ b'e' ∷ b':' ∷ b' ' ∷ 0
    ∷ []

abbrev ins_text : List ℕ
ins_text = b'\n' ∷ b' ' ∷ b'I' ∷ b'N' ∷ b'S' ∷ b':' ∷ 0 ∷ []

abbrev cs_text : List ℕ
cs_text =
    b'\n' ∷ b'P' ∷ b'r' ∷ b'o' ∷ b'c' ∷ b'e' ∷ b's' ∷ b's' ∷ b'o' ∷ b'r' ∷ b' ' ∷ b'C' ∷ b'S' ∷ b' '
    ∷ b'v' ∷ b'a' ∷ b'l' ∷ b'u' ∷ b'e' ∷ b':' ∷ b' ' ∷ 0 ∷ []

abbrev eflags_text : List ℕ
eflags_text =
    b'\n' ∷ b'P' ∷ b'r' ∷ b'o' ∷ b'c' ∷ b'e' ∷ b's' ∷ b's' ∷ b'o' ∷ b'r' ∷ b' ' ∷ b'e' ∷ b'f' ∷ b'l'
    ∷ b'a' ∷ b'g' ∷ b's' ∷ b':' ∷ b' ' ∷ 0 ∷ []

abbrev end_text : List ℕ
end_text = b'\n' ∷ 0 ∷ []

abbrev pf_text : List ℕ
pf_text =
    b'P' ∷ b'a' ∷ b'g' ∷ b'e' ∷ b' ' ∷ b'F' ∷ b'a' ∷ b'u' ∷ b'l' ∷ b't' ∷ b' ' ∷ b'(' ∷ b'#' ∷ b'P'
    ∷ b'F' ∷ b')' ∷ b'.' ∷ 0 ∷ []

abbrev cr2_text : List ℕ
cr2_text =
    b'\n' ∷ b'F' ∷ b'a' ∷ b'u' ∷ b'l' ∷ b't' ∷ b'i' ∷ b'n' ∷ b'g' ∷ b' ' ∷ b'a' ∷ b'd' ∷ b'd' ∷ b'r'
    ∷ b'e' ∷ b's' ∷ b's' ∷ b' ' ∷ b'(' ∷ b'C' ∷ b'R' ∷ b'2' ∷ b')' ∷ b':' ∷ b' ' ∷ 0 ∷ []

abbrev present_text : List ℕ
present_text =
    b'\n' ∷ b' ' ∷ b' ' ∷ b'I' ∷ b's' ∷ b' ' ∷ b'P' ∷ b'r' ∷ b'e' ∷ b's' ∷ b'e' ∷ b'n' ∷ b't' ∷ b':'
    ∷ b' ' ∷ 0 ∷ []

abbrev violation_text : List ℕ
violation_text =
    b'Y' ∷ b' ' ∷ b'(' ∷ b'p' ∷ b'r' ∷ b'o' ∷ b't' ∷ b'e' ∷ b'c' ∷ b't' ∷ b'i' ∷ b'o' ∷ b'n' ∷ b' '
    ∷ b'v' ∷ b'i' ∷ b'o' ∷ b'l' ∷ b'a' ∷ b't' ∷ b'i' ∷ b'o' ∷ b'n' ∷ b')' ∷ 0 ∷ []

abbrev absent_text : List ℕ
absent_text =
    b'N' ∷ b' ' ∷ b'(' ∷ b'n' ∷ b'o' ∷ b't' ∷ b' ' ∷ b'p' ∷ b'r' ∷ b'e' ∷ b's' ∷ b'e' ∷ b'n' ∷ b't'
    ∷ b')' ∷ 0 ∷ []

abbrev write_text : List ℕ
write_text =
    b'\n' ∷ b' ' ∷ b' ' ∷ b'W' ∷ b'r' ∷ b'i' ∷ b't' ∷ b'e' ∷ b' ' ∷ b'A' ∷ b't' ∷ b't' ∷ b'e' ∷ b'm'
    ∷ b'p' ∷ b't' ∷ b'e' ∷ b'd' ∷ b':' ∷ b' ' ∷ 0 ∷ []

abbrev yes_text : List ℕ
yes_text = b'Y' ∷ 0 ∷ []

abbrev read_text : List ℕ
read_text = b'N' ∷ b' ' ∷ b'(' ∷ b'r' ∷ b'e' ∷ b'a' ∷ b'd' ∷ b')' ∷ 0 ∷ []

abbrev privilege_text : List ℕ
privilege_text =
    b'\n' ∷ b' ' ∷ b' ' ∷ b'B' ∷ b'y' ∷ b' ' ∷ b'P' ∷ b'r' ∷ b'i' ∷ b'v' ∷ b'i' ∷ b'l' ∷ b'e' ∷ b'g'
    ∷ b'e' ∷ b':' ∷ b' ' ∷ 0 ∷ []

abbrev user_text : List ℕ
user_text = b'U' ∷ b's' ∷ b'e' ∷ b'r' ∷ 0 ∷ []

abbrev kernel_text : List ℕ
kernel_text = b'K' ∷ b'e' ∷ b'r' ∷ b'n' ∷ b'e' ∷ b'l' ∷ 0 ∷ []

abbrev segfault_text : List ℕ
segfault_text =
    b'\n' ∷ b'S' ∷ b'e' ∷ b'g' ∷ b'm' ∷ b'e' ∷ b'n' ∷ b't' ∷ b'a' ∷ b't' ∷ b'i' ∷ b'o' ∷ b'n' ∷ b' '
    ∷ b'f' ∷ b'a' ∷ b'u' ∷ b'l' ∷ b't' ∷ b' ' ∷ b'[' ∷ b'P' ∷ b'I' ∷ b'D' ∷ b':' ∷ b' ' ∷ 0 ∷ []

abbrev close_text : List ℕ
close_text = b']' ∷ b'\n' ∷ 0 ∷ []

unfoldable pub int_zero : Kernel → Option Kernel
int_zero k = say k zero_text

unfoldable pub invalid_opcode_fault_handler : Kernel → Run Ending
invalid_opcode_fault_handler k =
    Run.◌>>=◌ (of_option (say k opcode_text))
      (λ k1. interrupt_handlers_terminate_current_process k1)

-- The loop over the bytes that are left, from `eip + i` on, through the pages of the task.
unfoldable pub print_ins : (n i : ℕ) → Kernel → (directory eip : ℕ) → Option Kernel
print_ins zero i k directory eip = some k
print_ins (suc n) i k directory eip =
    load_byte (translate k.machine.words directory) (memory_of k) ((eip + i) % 2 ^ 32) >>= λ byte.
    print_ins n (i + 1) (record k { terminal = print_hex_byte k.terminal byte }) directory eip

-- From `task_page` to `kernel_page`.
unfoldable pub show_ins : Kernel → (eip : ℕ) → Option Kernel
show_ins k eip = current k >>= λ task.
    let directory = (k.map_at task.page_directory).d_entry in
    let page_entry = paging_get k.machine.words directory eip in
    task_switch k.tasks k.tasks.current_task >>= λ tasks.
    let paged = record k { tasks = tasks } in
    let bytes = say paged ins_text >>= λ k1. print_ins 8 0 k1 directory eip in
    if bit_and page_entry 1 == 0 then some paged else bytes

-- What both handlers print of the processor.
abbrev pub show_processor : Kernel → InterruptFrame → Option Kernel
show_processor k stack_frame = say k cs_text >>= λ k.
    say_word k stack_frame.cs >>= λ k. say k eflags_text >>= λ k. say_word k stack_frame.eflags

unfoldable pub print_gp_fault : Kernel → InterruptFrame → Option Kernel
print_gp_fault k stack_frame =
    say (record k { terminal = terminal_clear k.terminal }) gp_text >>= λ k.
    say k raised_text >>= λ k. say_word k stack_frame.eip >>= λ k. say k code_text >>= λ k.
    say_word k stack_frame.err_code >>= λ k.
    show_ins k stack_frame.eip >>= λ k. show_processor k stack_frame >>= λ k. say k end_text

unfoldable pub int_gp_fault : Kernel → InterruptFrame → Run Ending
int_gp_fault k stack_frame =
    Run.◌>>=◌ (of_option (print_gp_fault k stack_frame))
      (λ k1. interrupt_handlers_terminate_current_process k1)

abbrev pub show_code : Kernel → (err_code : ℕ) → Option Kernel
show_code k err_code = say k present_text >>= λ k.
    say k (if bit_and err_code 1 == 0 then absent_text else violation_text) >>= λ k.
    say k write_text >>= λ k.
    say k (if bit_and err_code 2 == 0 then read_text else yes_text) >>= λ k.
    say k privilege_text >>= λ k. say k (if bit_and err_code 4 == 0 then kernel_text else user_text)

unfoldable pub print_page_fault : Kernel → InterruptFrame → (cr2 : ℕ) → Option Kernel
print_page_fault k stack_frame cr2 =
    say (record k { terminal = terminal_clear k.terminal }) pf_text >>= λ k. say k cr2_text >>= λ k.
    say_word k cr2 >>= λ k. say k raised_text >>= λ k. say_word k stack_frame.eip >>= λ k.
    say k code_text >>= λ k. say_word k stack_frame.err_code >>= λ k.
    show_code k stack_frame.err_code >>= λ k. show_ins k stack_frame.eip >>= λ k.
    show_processor k stack_frame >>= λ k. say k segfault_text >>= λ k.
    current_process_of k >>= λ (_, process). say_word k process.id >>= λ k. say k close_text

unfoldable pub page_fault_h : Kernel → InterruptFrame → (cr2 : ℕ) → Run Ending
page_fault_h k stack_frame cr2 =
    Run.◌>>=◌ (of_option (print_page_fault k stack_frame cr2))
      (λ k1. interrupt_handlers_terminate_current_process k1)

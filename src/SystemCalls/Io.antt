-- ===== src/SystemCalls/Io.antt =====
-- src/kernel/isr80h/io.c and misc.c.
use os_dev_mtk.Base.{
  ℕ, zero, suc, ◌+◌, ◌-◌, ◌%◌, ◌^◌, ◌||◌, Option, none, some, List, ◌∷◌, ◌==◌, ltb, leb,
  if◌then◌else◌, ◌>>=◌, enomem, to_word,
}
use os_dev_mtk.Heap.Kernel.{kzalloc, kfree}
use os_dev_mtk.Terminal.{sign_extend, print, terminal_write}
use os_dev_mtk.Keyboard.{keyboard_pop}
use os_dev_mtk.SystemCalls.{
  Kernel, memory_of, bytes_at, current, stack_item, copy_string, store_process,
}

-- `print(buf)` of an array of `n` bytes; `none` if no NUL is among them.
abbrev pub print_at : Kernel → (buf n : ℕ) → Option Kernel
print_at k buf n = print k.terminal (bytes_at (memory_of k) buf n) >>= λ terminal.
    some (record k { terminal = terminal })

-- The result of the copy is not read.
unfoldable pub isr_sys_print : Kernel → (buf : ℕ) → Option (ℕ × Kernel)
isr_sys_print k buf = stack_item k 0 >>= λ user_space_msg_buf.
    copy_string k user_space_msg_buf buf 1024 >>= λ (_, k1).
    print_at k1 buf 1024 >>= λ k2. some (0, k2)

-- The copies of at most 1024 bytes, and what is left of the request.
unfoldable pub print_ext_loop :
    (fuel : ℕ) → Kernel → (msg buf ctr size_requested : ℕ) → Option Kernel
print_ext_loop zero k msg buf ctr size_requested = none
print_ext_loop (suc fuel) k msg buf ctr size_requested =
    let max = if ltb size_requested 1024 then size_requested else 1024 in
    let more = copy_string k ((msg + ctr) % 2 ^ 32) ((buf + ctr) % 2 ^ 32) max >>= λ (_, k1).
    print_ext_loop fuel k1 msg buf (ctr + 1024) (size_requested - max) in
    if size_requested == 0 then some k else more

-- The part of the function with a buffer from the heap. Four rounds
-- use up 0x1000 bytes, and a fifth sees that nothing is left.
unfoldable pub print_ext_heap : Kernel → (msg size_requested : ℕ) → Option (ℕ × Kernel)
print_ext_heap k msg size_requested = kzalloc k.machine.kheap size_requested >>= λ (buf, kheap).
    let k1 = record k { machine = record k.machine { kheap = kheap } } in
    if buf == 0
    then some (to_word enomem, k1)
    else print_ext_loop 5 k1 msg buf 0 size_requested >>= λ k2.
        print_at k2 buf size_requested >>= λ k3.
        some (0, record k3 { machine = record k3.machine { kheap = kfree k3.machine.kheap buf } })

-- An `int` from 2^31 on is negative. The local array is at `buf`.
unfoldable pub isr_sys_print_ext : Kernel → (buf : ℕ) → Option (ℕ × Kernel)
isr_sys_print_ext k buf = stack_item k 0 >>= λ size_requested. stack_item k 1 >>= λ msg.
    if size_requested == 0 || leb (2 ^ 31) size_requested
    then some (2 ^ 32 - 1, k)
    else if ltb size_requested 1025
    then (copy_string k msg buf size_requested >>= λ (_, k1).
        print_at k1 buf 1024 >>= λ k2. some (0, k2))
    else if ltb 0x1000 size_requested
    then some (2 ^ 32 - 2, k)
    else print_ext_heap k msg size_requested

-- `keyboard_pop` on the buffer of the process of the current task.
unfoldable pub sys_get_key : Kernel → Option (ℕ × Kernel)
sys_get_key k =
    if k.tasks.current_task == 0
    then some (0, k)
    else current k >>= λ task. k.process_at task.process >>= λ process.
        let (c, keyboard) = keyboard_pop (some process.keyboard) in
        some (
          sign_extend c,
          elim keyboard [
            | none ↦ k
            | some left ↦ store_process k task.process (record process { keyboard = left })
          ],
        )

-- `beyond` are the bytes behind the variable whose address is printed.
unfoldable pub sys_putchar : Kernel → (beyond : List ℕ) → Option (ℕ × Kernel)
sys_putchar k beyond = stack_item k 0 >>= λ word.
    terminal_write k.terminal ((word % 2 ^ 8) ∷ beyond) >>= λ terminal.
    some (0, record k { terminal = terminal })

unfoldable pub sys_sum : Kernel → Option (ℕ × Kernel)
sys_sum k = stack_item k 1 >>= λ v2. stack_item k 0 >>= λ v1. some ((v1 + v2) % 2 ^ 32, k)

-- ===== src/Processes/Arguments.antt =====
-- src/kernel/task/process.c: the arguments of a command come to the memory of a process. The linked list
-- of `struct command_argument` is the list of its strings, each the 512 bytes of its array.
use os_dev_mtk.Base.{
  ℕ, ◌+◌, ◌*◌, ◌%◌, ◌^◌, Option, some, List, [], ◌∷◌, ◌==◌, if◌then◌else◌, replicate, ◌>>=◌, ℤ,
  is_neg, ne, eio, enomem,
}
use os_dev_mtk.Text.{strncpy}
use os_dev_mtk.Processes.{Process, Allocation, Services, process_malloc}

-- What is stored through the pointers that `process_malloc` has returned: the bytes of a string, and a
-- word.
pub record Stores (S : Type 0) : Type 0 where
  pub store_bytes : S → (ptr : ℕ) → List ℕ → S
  pub store_pointer : S → (at ptr : ℕ) → S

-- `sizeof(current->argument)`
abbrev pub argument_bytes : ℕ
argument_bytes = 512

unfoldable pub process_get_arguments : Process → ℕ × ℕ
process_get_arguments process = (process.argc, process.argv)

unfoldable pub process_count_command_arguments : List (List ℕ) → ℕ
process_count_command_arguments [] = 0
process_count_command_arguments (argument ∷ arguments) =
    process_count_command_arguments arguments + 1

module _ {S : Type 0} (services : Services S) (stores : Stores S) where
  -- One argument: the memory for it, the copy, and the pointer. The memory is new, so zero bytes.
  unfoldable pub inject_argument :
      S → List Allocation → (argv i : ℕ) → (argument : List ℕ) → Option (ℤ × S × List Allocation)
  inject_argument st allocations argv i argument =
      process_malloc services st allocations argument_bytes >>= λ (argument_str, st1, allocations1).
      if argument_str == 0
      then some (enomem, st1, allocations1)
      else strncpy (replicate argument_bytes 0) argument argument_bytes >>= λ copied. some (
        ne,
        stores.store_pointer (stores.store_bytes st1 argument_str copied) ((argv + 4 * i) % 2 ^ 32)
            argument_str,
        allocations1,
      )

  -- The loop over the arguments that are left, from number `i` on.
  unfoldable pub inject_loop :
      S → List Allocation → (argv i : ℕ) → List (List ℕ) → Option (ℤ × S × List Allocation)
  inject_loop st allocations argv i [] = some (ne, st, allocations)
  inject_loop st allocations argv i (argument ∷ arguments) =
      inject_argument st allocations argv i argument >>= λ (res, st1, allocations1).
      let rest = inject_loop st1 allocations1 argv (i + 1) arguments in
      if is_neg res then some (res, st1, allocations1) else rest

  -- The part behind the allocation of `argv`.
  unfoldable pub inject_at :
      S → Process → (argc argv : ℕ) → List (List ℕ) → Option (ℤ × S × Process)
  inject_at st process argc argv arguments =
      if argv == 0
      then some (enomem, st, process)
      else inject_loop st process.allocations argv 0 arguments >>= λ (res, st1, allocations).
          let kept = record process { allocations = allocations } in
          some (res, st1, if is_neg res then kept else record kept { argc = argc; argv = argv })

  unfoldable pub process_inject_arguments : S → Process → List (List ℕ) → Option (ℤ × S × Process)
  process_inject_arguments st process arguments =
      let argc = process_count_command_arguments arguments in
      let table = process_malloc services st process.allocations (4 * argc) >>= λ (argv, st1, all).
      inject_at st1 (record process { allocations = all }) argc argv arguments in
      if argc == 0 then some (eio, st, process) else table

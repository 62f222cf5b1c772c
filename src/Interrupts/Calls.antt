-- ===== src/Interrupts/Calls.antt =====
-- Which handler a system call reaches.
use os_dev_mtk.Base.{
  ℕ, zero, suc, ◌+◌, ◌<◌, ◌≤◌, ◌≡◌, refl, Option, none, some, List, [], ◌∷◌, ◌++◌, map, arith, leb,
  length, get_elem?, replicate, Bool-cases, inl, inr, ℤ, pos, negsuc,
}
use os_dev_mtk.Base.Run.{Run, ok}
use os_dev_mtk.Tasks.{Tasks, InterruptFrame}
use os_dev_mtk.Interrupts.{
  Leaves, returns, SystemCall, sys_exit, isr_sys_print, isr_sys_print_ext, sys_get_key, sys_putchar,
  sys_malloc, isr_sys_free, sys_process_load_start, sys_invoke_sys_command,
  sys_get_process_arguments, register_at, isr80h_register_command, isr80h_register_commands,
  call_handler, isr80h_handle_command,
}

-- The system calls by their numbers.
abbrev pub calls : List SystemCall
calls =
    sys_exit ∷ isr_sys_print ∷ isr_sys_print_ext ∷ sys_get_key ∷ sys_putchar ∷ sys_malloc
    ∷ isr_sys_free ∷ sys_process_load_start ∷ sys_invoke_sys_command ∷ sys_get_process_arguments
    ∷ []

abbrev pub registered_calls : List (Option SystemCall)
registered_calls = map some calls ++ replicate 1014 none

pub register_commands_lem : isr80h_register_commands (replicate 1024 none) ≡ ok registered_calls
unfolding isr80h_register_commands isr80h_register_command register_at
register_commands_lem = refl

module _ (run : SystemCall → InterruptFrame → Tasks → Run (ℕ × Leaves)) (frame : InterruptFrame)
    (st : Tasks) where
  -- What a system call does: a number without a handler gives 0 and changes nothing.
  abbrev pub called : Option SystemCall → Run (ℕ × Leaves)
  called none = ok (0, returns st)
  called (some handler) = run handler frame st

  abbrev pub called_by : (command : ℤ) → Run (ℕ × Leaves)
  called_by (pos n) = called (get_elem? calls n)
  called_by (negsuc n) = ok (0, returns st)

  lookup_call :
      (cs : List SystemCall) (k n : ℕ)
      → n < length cs + k
      → call_handler run frame st (get_elem? (map some cs ++ replicate k none) n)
        ≡ called (get_elem? cs n)
  unfolding call_handler
  lookup_call [] zero n h = absurd (omega (arith, h))
  lookup_call [] (suc k) zero h = refl
  lookup_call [] (suc k) (suc n) h = lookup_call [] k n (omega (arith, h))
  lookup_call (c ∷ cs) k zero h = refl
  lookup_call (c ∷ cs) k (suc n) h = lookup_call cs k n (omega (arith, h))

  no_call : (cs : List SystemCall) (n : ℕ) → length cs ≤ n → get_elem? cs n ≡ none
  no_call [] n h = refl
  no_call (c ∷ cs) zero h = absurd (omega (arith, h))
  no_call (c ∷ cs) (suc n) h = no_call cs n (omega (arith, h))

  -- The registration on an empty table does not panic, and afterwards each number, negative ones and
  -- those too large included, reaches the system call of that number and no other.
  pub register-handle :
      (command : ℤ)
      → (commands : List (Option SystemCall)) × (isr80h_register_commands (replicate 1024 none)
          ≡ ok commands)
        × (isr80h_handle_command commands run command frame st ≡ called_by command)
  unfolding isr80h_handle_command
  register-handle (negsuc n) = (registered_calls, register_commands_lem, refl)
  register-handle (pos n) = elim (Bool-cases (leb 1024 n)) [
    | inl over ↦
        let none_there = no_call calls n (ground (arith, over)) in
        (registered_calls, register_commands_lem, rw (isr80h_handle_command, over, none_there) refl)
    | inr inside ↦ (
      registered_calls,
      register_commands_lem,
      rw (isr80h_handle_command, inside) (lookup_call calls 1014 n (ground (arith, inside))),
    )
  ]

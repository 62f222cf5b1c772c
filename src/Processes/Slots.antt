-- ===== src/Processes/Slots.antt =====
-- What the loading of a process does to the table of the processes.
use os_dev_mtk.Base.{
  ℕ, suc, ◌≡◌, ◌≢◌, true, Option, none, some, List, [], ◌∷◌, set, ℤ, is_neg, ne, ◌⊎◌,
}
use os_dev_mtk.Base.Run.{Run, ok}
use os_dev_mtk.Text.{NoNul}
use os_dev_mtk.Processes.{Process, ProcessTable}
use os_dev_mtk.Processes.Steps.{Breaks, MapsOrFails}
use os_dev_mtk.Processes.Loading.{Loader}

-- The first slot that is 0 lies behind slots that are in use.
pub data IsFirstFree : List ℕ → (k : ℕ) → Type 0 where
  here : (ps : List ℕ) → IsFirstFree (0 ∷ ps) 0
  there : (p : ℕ) (ps : List ℕ) (k : ℕ) → p ≢ 0 → IsFirstFree ps k → IsFirstFree (p ∷ ps) (suc k)

-- No slot is 0.
abbrev pub IsFull : List ℕ → Type 0
IsFull [] = Unit {0}
IsFull (p ∷ ps) = (p ≢ 0) × IsFull ps

-- How a call ends that loads a process into slot `k`: with an error, and the table as before, with 0 and no
-- process, and the table as before, where there is no task for it, or with a process that has a block, the slot as its number, and a task, and stands in the slot.
pub data Outcome (t : ProcessTable) (k : ℕ) : ℤ → Option (ℕ × Process) → ProcessTable → Type 0 where
  failed : (res : ℤ) → is_neg res ≡ true → Outcome t k res none t
  no_task : Outcome t k ne none t
  loaded :
      (a : ℕ) (b : Process)
      → a ≢ 0
      → b.id ≡ k
      → b.task ≢ 0
      → Outcome t k ne (some (a, b)) (record t { processes = set t.processes k a })

-- The same with the switch to the process.
pub data Switched (t : ProcessTable) (k : ℕ)
    : ℤ → Option (ℕ × Process) → ProcessTable → Type 0 where
  unchanged : (res : ℤ) → is_neg res ≡ true → Switched t k res none t
  no_process : Switched t k ne none (record t { current_process = 0 })
  switched :
      (a : ℕ) (b : Process)
      → a ≢ 0
      → b.id ≡ k
      → b.task ≢ 0
      → Switched t k ne
          (some (a, b))
          (record { processes = set t.processes k a; current_process = a })

module _ {S : Type 0} (loader : Loader S) (maps : MapsOrFails loader) where
  abbrev pub Ends :
      ProcessTable → (k : ℕ) → Run (ℤ × Option (ℕ × Process) × S × ProcessTable) → Type 0
  Ends t k run =
      ((res : ℤ) × (process : Option (ℕ × Process)) × (st' : S) × (t' : ProcessTable) × (run
          ≡ ok (res, process, st', t'))
        × Outcome t k res process t')
      ⊎ Breaks loader

  module _ (s rest : List ℕ) (string : NoNul s) where
    -- How the call ends: the error leaves the table, and else the process is the current one.
    abbrev pub Switches :
        ProcessTable → (k : ℕ) → Run (ℤ × Option (ℕ × Process) × S × ProcessTable) → Type 0
    Switches t k run =
        ((res : ℤ) × (process : Option (ℕ × Process)) × (st' : S) × (t' : ProcessTable) × (run
            ≡ ok (res, process, st', t'))
          × Switched t k res process t')
        ⊎ Breaks loader

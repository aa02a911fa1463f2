-- ===== src/Scheduler/Processors.antt =====
-- The list of processors and that of processes of kernel/src/Scheduling/Scheduler.cpp.
use frosty_os.Prelude.{
  ℕ, false, Option, none, some, List, [], ◌∷◌, ◌++◌, ◌==◌, add64, sub64, if◌then◌else◌,
}
use frosty_os.Scheduler.{ProcessorState}

-- `g_BSPState`, the states linked behind it, and `g_processorCount`.
pub record ProcessorTable : Type 0 where
  pub bsp : ProcessorState
  pub others : List ProcessorState
  pub count : ℕ

abbrev pub all_states : ProcessorTable → List ProcessorState
all_states t = t.bsp ∷ t.others

-- The id of the last state of the list.
abbrev pub last_id : ProcessorState → List ProcessorState → ℕ
last_id head [] = head.id
last_id head (next ∷ rest) = last_id next rest

-- `InitBSPState`, on the zeroed global.
abbrev pub init_bsp_state : ProcessorState
init_bsp_state = record {
  id = 0;
  current_thread = none;
  idle_thread = none;
  run_counts = λ i. 0;
  threads = λ i. [];
  sleeping_threads = [];
  is_idle = false;
  start_allowed = false;
}

-- `AddProcessor`
unfoldable pub add_processor : ProcessorState → ProcessorTable → ProcessorTable
add_processor processor t = record (t) {
  others =
      t.others
      ++ (record (processor) {
        id = add64 (last_id t.bsp t.others) 1;
        is_idle = false;
        start_allowed = false;
        run_counts = λ i. 0;
        current_thread = none;
      }
          ∷ []);
  count = add64 t.count 1;
}

unfoldable pub find_state : ℕ → List ProcessorState → Option ProcessorState
find_state id [] = none
find_state id (s ∷ rest) = if s.id == id then some s else find_state id rest

-- `GetProcessor`
abbrev pub get_processor : ℕ → ProcessorTable → Option ProcessorState
get_processor id t = find_state id (all_states t)

unfoldable pub drop_state : ℕ → List ProcessorState → List ProcessorState
drop_state id [] = []
drop_state id (s ∷ rest) = if s.id == id then rest else s ∷ drop_state id rest

-- `RemoveProcessor`. The list starts at `g_BSPState` itself, so the first state stays where it is.
unfoldable pub remove_processor : ℕ → ProcessorTable → ProcessorTable
remove_processor id t =
    if t.bsp.id == id
    then record (t) { count = sub64 t.count 1 }
    else elim (find_state id t.others) [
      | none ↦ t
      | some s ↦ record (t) { others = drop_state id t.others; count = sub64 t.count 1 }
    ]

-- `Process`, as far as the scheduler's list reads it, and `g_Processes` with `g_LastPID`.
pub record ProcessTable : Type 0 where
  pub pids : ℕ → ℕ
  pub processes : List ℕ
  pub last_pid : ℕ

-- `AddProcess`: the process takes the next PID.
unfoldable pub add_process : ℕ → ProcessTable → ProcessTable
add_process process t = record {
  pids = λ p. if p == process then t.last_pid else t.pids p;
  processes = t.processes ++ (process ∷ []);
  last_pid = add64 t.last_pid 1;
}

unfoldable pub find_process : (ℕ → ℕ) → ℕ → List ℕ → Option ℕ
find_process pids pid [] = none
find_process pids pid (p ∷ rest) = if pids p == pid then some p else find_process pids pid rest

-- `GetProcess`
unfoldable pub get_process : ℕ → ProcessTable → Option ℕ
get_process pid t = find_process t.pids pid t.processes

unfoldable pub drop_process : ℕ → List ℕ → List ℕ
drop_process process [] = []
drop_process process (p ∷ rest) = if p == process then rest else p ∷ drop_process process rest

-- `RemoveProcess`
unfoldable pub remove_process : ℕ → ProcessTable → ProcessTable
remove_process pid t = elim (get_process pid t) [
  | none ↦ t
  | some process ↦ record (t) { processes = drop_process process t.processes }
]

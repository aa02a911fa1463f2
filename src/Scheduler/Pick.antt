-- ===== src/Scheduler/Pick.antt =====
-- `PickNext` and `StealThreadFromOther` of kernel/src/Scheduling/Scheduler.cpp.
use frosty_os.Prelude.{
  ℕ, Bool, false, Option, none, some, List, [], ◌∷◌, ◌==◌, if◌then◌else◌, Outcome, done,
  assert_failed,
}
use frosty_os.Scheduler.{ProcessorState, put, get_head, pop_front}
use frosty_os.Scheduler.Select.{Choice, select, counts_after}

-- `threads[nice].popFront()`.
abbrev pub popped : ℕ → ProcessorState → ProcessorState
popped level state = record (state) {
  threads = put state.threads level (pop_front (state.threads level));
}

-- What the loop over the processors leaves: the thread with its level, the caller's run counts and
-- the processors.
pub record Stolen : Type 0 where
  pub thread : Option ℕ
  pub level : Option ℕ
  pub counts : ℕ → ℕ
  pub states : List ProcessorState

abbrev pub keep : ProcessorState → Stolen → Stolen
keep state s = record (s) { states = state ∷ s.states }

-- What the loop over one processor's levels gives; the caller's own processor is passed over.
abbrev pub tried : (id : ℕ) → (ℕ → ℕ) → ProcessorState → Choice
tried id counts state =
    if state.id == id
    then (record { level = none; counts = counts })
    else select state.threads counts

unfoldable pub steal_thread : (id : ℕ) → (ℕ → ℕ) → List ProcessorState → Stolen
steal_thread id counts [] = record { thread = none; level = none; counts = counts; states = [] }
steal_thread id counts (state ∷ rest) =
    let c = tried id counts state in
    elim (c.level) [
      | none ↦ keep state (steal_thread id c.counts rest)
      | some level ↦ record {
        thread = get_head (state.threads level);
        level = some level;
        counts = c.counts;
        states = popped level state ∷ rest;
      }
    ]

-- The caller's state and the list of all processors; the list's own entry for the caller is not
-- looked at. `moved` is a stolen thread, whose `CPUInfo` now names the caller's state.
pub record Picked : Type 0 where
  pub moved : Option ℕ
  pub own : ProcessorState
  pub states : List ProcessorState

-- `state->isIdle = thread == state->idleThread`.
abbrev pub is_idle_thread : ℕ → Option ℕ → Bool
is_idle_thread thread none = false
is_idle_thread thread (some idle) = thread == idle

-- The end of `PickNext`: the thread runs on `own`.
abbrev pub run_thread : ℕ → ProcessorState → ProcessorState
run_thread thread own = record (own) {
  current_thread = some thread;
  is_idle = is_idle_thread thread own.idle_thread;
}

-- `PANIC("Scheduler: Nothing to run on current CPU")` where there is no thread.
abbrev pub run : (moved next : Option ℕ) → ProcessorState → List ProcessorState → Outcome Picked
run moved none own states = assert_failed
run moved (some thread) own states =
    done (record { moved = moved; own = run_thread thread own; states = states })

-- The caller's state with other run counts.
abbrev pub with_counts : (ℕ → ℕ) → ProcessorState → ProcessorState
with_counts counts own = record (own) { run_counts = counts }

-- The thread is another processor's, or else the idle thread.
abbrev pub pick_other : ProcessorState → Stolen → Outcome Picked
pick_other own s = elim (s.thread) [
  | none ↦ run none own.idle_thread (with_counts (counts_after none s.counts) own) s.states
  | some thread ↦
      run (some thread) (some thread) (with_counts (counts_after s.level s.counts) own) s.states
]

-- What follows the loop over the levels.
abbrev pub pick_level : ProcessorState → List ProcessorState → Choice → Outcome Picked
pick_level own states c = elim (c.level) [
  | none ↦ pick_other own (steal_thread own.id c.counts states)
  | some level ↦
      run none (get_head (own.threads level))
        (with_counts (counts_after (some level) c.counts) (popped level own)) states
]

unfoldable pub pick_next : ProcessorState → List ProcessorState → Outcome Picked
pick_next own states = pick_level own states (select own.threads own.run_counts)

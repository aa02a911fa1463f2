-- ===== src/Scheduler/Timer.antt =====
-- What a processor does to its own threads: `TimerTick` of kernel/src/Scheduling/Scheduler.cpp.
-- Registers, extended state and locks are left out; each function runs with interrupts off. Saving a
-- thread and switching to it is what makes it `current_thread`.
use frosty_os.Prelude.{
  ℕ, ◌-◌, Bool, true, false, not, ◌&&◌, Option, none, some, List, [], ◌∷◌, ltb, leb, ◌||◌,
  if◌then◌else◌, Outcome, done, assert_failed, ◌>>=◌,
}
use frosty_os.Scheduler.{
  ProcessorState, Thread, nice_levels, default_timeslice, put, push_back, nice_of, appended,
  linked_levels,
}
use frosty_os.Scheduler.Pick.{Picked, pick_next}
use frosty_os.Scheduler.Queue.{set_time, set_sleep, set_cpu, linked_elsewhere, enqueue, Kernel}

-- The loop over the sleeping threads: `still` are those that the list keeps.
pub record Sleepers : Type 0 where
  pub still : List ℕ
  pub threads : ℕ → List ℕ
  pub info : ℕ → Thread

abbrev pub wakes : ℕ → Thread → Bool
wakes ms thread = leb thread.sleep_remaining_time ms

abbrev pub woken_up : (nice : ℕ) → List ℕ → ℕ → Sleepers → Sleepers
woken_up nice list thread s = record {
  still = s.still;
  threads = put s.threads nice list;
  info = set_sleep thread 0 s.info;
}

-- A thread that was taken off the list of the sleeping ones is queued in its level; an access behind
-- the array of the levels is `assert_failed`.
abbrev pub awoken : (elsewhere : Bool) → (nice : ℕ) → ℕ → Sleepers → Outcome Sleepers
awoken elsewhere nice thread s =
    if leb nice_levels nice
    then assert_failed
    else (push_back (elsewhere || linked_levels nice_levels thread s.threads) thread
          (s.threads nice)
        >>= λ list. done (woken_up nice list thread s))

abbrev pub slept_on : (ms : ℕ) → ℕ → Sleepers → Sleepers
slept_on ms thread s = record {
  still = appended thread s.still;
  threads = s.threads;
  info = set_sleep thread ((s.info thread).sleep_remaining_time - ms) s.info;
}

-- `elsewhere` tells of a thread whether a list of no level of this processor gives it a neighbour.
unfoldable pub tick_sleeper : (ms : ℕ) → (elsewhere : ℕ → Bool) → ℕ → Sleepers → Outcome Sleepers
tick_sleeper ms elsewhere thread s =
    if wakes ms (s.info thread)
    then (nice_of (s.info thread) >>= λ nice. awoken (elsewhere thread) nice thread s)
    else done (slept_on ms thread s)

unfoldable pub tick_sleepers :
    (ms : ℕ) → (elsewhere : ℕ → Bool) → List ℕ → Sleepers → Outcome Sleepers
tick_sleepers ms elsewhere [] s = done s
tick_sleepers ms elsewhere (thread ∷ rest) s =
    tick_sleeper ms elsewhere thread s >>= λ s'. tick_sleepers ms elsewhere rest s'

abbrev pub before_sleepers : ProcessorState → (ℕ → Thread) → Sleepers
before_sleepers own info = record { still = []; threads = own.threads; info = info }

abbrev pub after_sleepers : ProcessorState → Sleepers → ProcessorState
after_sleepers own s = record (own) { threads = s.threads; sleeping_threads = s.still }

-- `info->state = state` for a stolen thread.
abbrev pub adopted : Option ℕ → ℕ → (ℕ → Thread) → ℕ → Thread
adopted none id info = info
adopted (some thread) id info = set_cpu thread id info

-- `SetTimeRemaining(DEFAULT_TIMESLICE)` on the current thread, and the panic when there is none.
abbrev pub start_slice : ProcessorState → Kernel → Outcome Kernel
start_slice own k = elim (own.current_thread) [
  | none ↦ assert_failed
  | some thread ↦
      done (record (k) { own = some own; info = set_time thread default_timeslice k.info })
]

abbrev pub run_picked : Picked → Kernel → Outcome Kernel
run_picked p k =
    start_slice p.own (record (k) { states = p.states; info = adopted p.moved p.own.id k.info })

-- `PickNext`, and a new slice for the thread that it gives.
unfoldable pub switch_thread : ProcessorState → Kernel → Outcome Kernel
switch_thread own k = pick_next own k.states >>= λ p. run_picked p k

-- What a tick leaves of a slice.
abbrev pub time_left : ℕ → ℕ → ℕ
time_left ms time = if leb time ms then 0 else time - ms

abbrev pub without_current : ProcessorState → ProcessorState
without_current own = record (own) { current_thread = none }

-- The thread that ran goes to the back of its level; the idle thread does not. `idle` is
-- `isIdle`.
abbrev pub put_back : (idle elsewhere : Bool) → ℕ → Thread → ProcessorState → Outcome ProcessorState
put_back true elsewhere thread info own = done (without_current own)
put_back false elsewhere thread info own =
    nice_of info
    >>= (λ nice. enqueue elsewhere nice thread own)
    >>= (λ after. done (without_current after))

-- The thread goes on where it has some of its slice `left` and is not the idle one.
abbrev pub tick_slice :
    (left : ℕ) (idle : Bool) → ℕ → Thread → ProcessorState → Kernel → Outcome Kernel
tick_slice left idle thread info own k =
    let after = record (k) { own = some own; info = set_time thread left k.info } in
    if ltb 0 left && not idle
    then done after
    else (put_back idle (linked_elsewhere own.id k thread) thread info own >>= λ rested.
        switch_thread rested after)

-- The tick's second half; the first argument is the thread that runs.
abbrev pub tick_current : Option ℕ → (ms : ℕ) → ProcessorState → Kernel → Outcome Kernel
tick_current none ms own k = switch_thread own k
tick_current (some thread) ms own k =
    tick_slice (time_left ms (k.info thread).time_remaining) own.is_idle thread (k.info thread) own
      k

abbrev pub tick_own : (ms : ℕ) → ProcessorState → Kernel → Outcome Kernel
tick_own ms own k =
    tick_sleepers ms (linked_elsewhere own.id k) own.sleeping_threads (before_sleepers own k.info)
    >>= λ s.
        tick_current own.current_thread ms (after_sleepers own s) (record (k) { info = s.info })

-- Nothing happens before the processor is set up and has started.
abbrev pub tick_state : Option ProcessorState → (ms : ℕ) → Kernel → Outcome Kernel
tick_state none ms k = done k
tick_state (some own) ms k = if own.start_allowed then tick_own ms own k else done k

unfoldable pub timer_tick : (ms : ℕ) → Kernel → Outcome Kernel
timer_tick ms k = tick_state k.own ms k

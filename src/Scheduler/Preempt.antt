-- ===== src/Scheduler/Preempt.antt =====
-- What `TimerTick` of kernel/src/Scheduling/Scheduler.cpp does to the thread that runs.
use frosty_os.Prelude.{ℕ, ◌-◌, ◌<◌, ◌≤◌, ◌≡◌, false, some}
use frosty_os.Scheduler.{ProcessorState, default_timeslice, appended, is_in}
use frosty_os.Scheduler.Queue.{Kernel, with_level, linked_elsewhere}
use frosty_os.Scheduler.Conserved.{Taken}

-- A processor with a thread behind the others of a level
abbrev pub queued : (thread nice : ℕ) → ProcessorState → ProcessorState
queued t nice own = with_level nice (appended t (own.threads nice)) own

-- `goes_on`: the thread keeps the processor and its slice is `ms` shorter. `rotates`: the thread is
-- at the back of its nice level, and a thread from the front of one of this processor's levels has
-- the processor and a whole slice.
-- `own` is the processor once the sleeping threads are seen to, and `nice` the level of the thread.
pub data TickResult (ms : ℕ) (k : Kernel) (own : ProcessorState) (t nice : ℕ)
    : Kernel → Type 0 where
  goes_on :
      (after : Kernel)
      → ms < (k.info t).time_remaining
      → after.own ≡ some own
      → after.states ≡ k.states
      → (after.info t).time_remaining ≡ (k.info t).time_remaining - ms
      → TickResult ms k own t nice after
  rotates :
      (after : Kernel) (p : ProcessorState) (u : ℕ)
      → (k.info t).time_remaining ≤ ms
      → after.own ≡ some p
      → after.states ≡ k.states
      → p.current_thread ≡ some u
      → Taken (queued t nice own) p u
      → (after.info u).time_remaining ≡ default_timeslice
      → TickResult ms k own t nice after

-- No list of a processor has the thread, and no other list gives it a neighbour.
abbrev pub Unlisted : ℕ → ProcessorState → Kernel → Type 0
Unlisted t own k =
    ((j : ℕ) → is_in t (own.threads j) ≡ false)
    × (is_in t own.sleeping_threads ≡ false)
    × (linked_elsewhere own.id k t ≡ false)

-- ===== src/Scheduler/Yield.antt =====
-- `Yield` and `SleepCurrentThread` of kernel/src/Scheduling/Scheduler.cpp: a thread gives its processor
-- up.
use frosty_os.Prelude.{
  ℕ, Bool, false, Option, none, some, ◌==◌, ltb, if◌then◌else◌, Outcome, done, assert_failed, ◌>>=◌,
  ◌||◌,
}
use frosty_os.Scheduler.{ProcessorState, push_back, nice_of, linked_levels, nice_levels}
use frosty_os.Scheduler.Timer.{switch_thread, start_slice, without_current}
use frosty_os.Scheduler.Queue.{Kernel, enqueue, linked_elsewhere, set_sleep}

-- The callback of a thread that gives the processor up, which queues it somewhere to wait.
abbrev pub run_callback : Option (Kernel → Kernel) → Kernel → Kernel
run_callback none k = k
run_callback (some callback) k = callback k

-- `Yield_Internal` with a thread that was already taken off the processor: it goes to sleep, or its
-- callback runs, and another thread is picked. The callback leaves the processor's own state alone.
abbrev pub yield_removed : ℕ → Option (Kernel → Kernel) → ProcessorState → Kernel → Outcome Kernel
yield_removed thread callback own k =
    if ltb 0 (k.info thread).sleep_remaining_time
    then (push_back
          (linked_elsewhere own.id k thread || linked_levels nice_levels thread own.threads) thread
          own.sleeping_threads
        >>= λ list. switch_thread (record (own) { sleeping_threads = list }) k)
    else switch_thread own (run_callback callback k)

-- `Yield_Internal` with no such thread: the current one goes on, or with `force_switch` it is queued
-- again, the idle thread too.
abbrev pub yield_current : Bool → ProcessorState → Kernel → Outcome Kernel
yield_current force_switch own k = elim (own.current_thread) [
  | none ↦ switch_thread own k
  | some thread ↦
      if force_switch
      then (nice_of (k.info thread)
          >>= (λ nice. enqueue (linked_elsewhere own.id k thread) nice thread own)
          >>= (λ after. switch_thread (without_current after) k))
      else start_slice own k
]

-- `Yield`; the assertion fails where there is no processor.
unfoldable pub yield_thread :
    Option ℕ → Option (Kernel → Kernel) → (force_switch : Bool) → Kernel → Outcome Kernel
yield_thread old callback force_switch k = elim (k.own) [
  | none ↦ assert_failed
  | some own ↦ elim old [
    | none ↦ yield_current force_switch own k
    | some thread ↦ yield_removed thread callback own k
  ]
]

-- `SleepCurrentThread`: `RemoveCurrentThread`, then `Yield` with the thread. It has no callback, as
-- its sleep comes first. Where there is no processor the null pointer is read (`assert_failed`).
abbrev pub sleep_thread : Option ℕ → (ms : ℕ) → ProcessorState → Kernel → Outcome Kernel
sleep_thread none ms own k = done k
sleep_thread (some thread) ms own k =
    yield_thread (some thread) none false
      (record (k) { own = some (without_current own); info = set_sleep thread ms k.info })

abbrev pub sleep_state : Option ProcessorState → (ms : ℕ) → Kernel → Outcome Kernel
sleep_state none ms k = assert_failed
sleep_state (some own) ms k = sleep_thread own.current_thread ms own k

unfoldable pub sleep_current_thread : (ms : ℕ) → Kernel → Outcome Kernel
sleep_current_thread ms k = if ms == 0 then done k else sleep_state k.own ms k

-- ===== src/Semaphore.antt =====
-- kernel/src/Scheduling/Semaphore.cpp and Semaphore.hpp, and Mutex of kernel/src/Scheduling/Mutex.hpp:
-- `Wait` and `Signal` of many threads, cut at the points where the spinlock `m_lock` is given back.
-- What a thread does under the lock is one step, as interrupts are off and the lock is held. A thread
-- is its number. The scheduler runs, and its assertions hold: `AddExistingThread` succeeds.
pub mod Steps
pub mod Wakeup
pub mod Exclusion
mod Tests
use frosty_os.Prelude.{ℕ, ◌+◌, ◌-◌, ◌≡◌, Bool, true, false, List, [], ◌∷◌, ◌++◌, ltb, if◌then◌else◌}

-- `waiting` is `m_waitingThreads`; `ready` are the threads that `Signal` has given back to the
-- scheduler and that have not looked at the value since.
pub record Semaphore : Type 0 where
  pub value : ℕ
  pub max_value : ℕ
  pub waiting : List ℕ
  pub ready : List ℕ

-- The constructor
abbrev pub new_semaphore : ℕ → ℕ → Semaphore
new_semaphore value max_value = record {
  value = value;
  max_value = max_value;
  waiting = [];
  ready = [];
}

-- What `Wait` does under the lock: it takes one and returns, or queues its thread and yields.
unfoldable pub try_wait : ℕ → Semaphore → Bool × Semaphore
try_wait thread s =
    if ltb 0 s.value
    then (true, record s { value = s.value - 1 })
    else (false, record s { waiting = s.waiting ++ thread ∷ [] })

-- The thread that `Signal` wakes, if one waits.
unfoldable pub wake : List ℕ → Semaphore → Semaphore
wake [] s = s
wake (thread ∷ rest) s = record s { waiting = rest; ready = s.ready ++ thread ∷ [] }

-- `Signal`
unfoldable pub signal : Semaphore → Semaphore
signal s = if ltb s.value s.max_value then wake s.waiting (record s { value = s.value + 1 }) else s

-- The destructor: every waiting thread is given back to the scheduler.
unfoldable pub destroy : Semaphore → Semaphore
destroy s = record s { waiting = []; ready = s.ready ++ s.waiting }

-- `Mutex`
abbrev pub new_mutex : Semaphore
new_mutex = new_semaphore 1 1

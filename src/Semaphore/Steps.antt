-- ===== src/Semaphore/Steps.antt =====
-- The interleavings of the threads that use a semaphore of kernel/src/Scheduling/Semaphore.cpp.
use frosty_os.Prelude.{ℕ, ◌+◌, ◌≡◌, Bool, true, false, List, ◌∷◌, ◌++◌}
use frosty_os.Semaphore.{Semaphore, try_wait, signal}

-- The semaphore, and how often a call of `Wait` has returned and a call of `Signal` was made.
pub record System : Type 0 where
  pub sem : Semaphore
  pub taken : ℕ
  pub signals : ℕ

-- A thread looks at the value: it has just called `Wait`, or was woken and takes the lock again.
abbrev pub looked : System → Bool × Semaphore → System
looked c r = record c { sem = r.1; taken = elim (r.0) [ true ↦ c.taken + 1 | false ↦ c.taken ] }

-- One step of some thread.
pub data Step : System → System → Type 0 where
  enter_wait : {c : System} (thread : ℕ) → Step c (looked c (try_wait thread c.sem))
  resume :
      {c : System} (thread : ℕ) (before after : List ℕ)
      → c.sem.ready ≡ before ++ thread ∷ after
      → Step c (looked c (try_wait thread (record (c.sem) { ready = before ++ after })))
  call_signal : {c : System} → Step c (record c { sem = signal c.sem; signals = c.signals + 1 })

-- Any number of steps.
pub data Reach (a : System) : System → Type 0 where
  here : Reach a a
  then_step : {b c : System} → Reach a b → Step b c → Reach a c

-- ===== src/Semaphore/Exclusion.antt =====
-- Mutual exclusion by the mutex of kernel/src/Scheduling/Mutex.hpp, in any interleaving.
use frosty_os.Prelude.{
  ℕ, ◌+◌, ◌≤◌, ◌<◌, ◌≡◌, ◌⊎◌, inl, inr, refl, true, List, [], ◌∷◌, ◌++◌, arith, ltb, Bool-cases,
  ◌∙◌,
}
use frosty_os.Semaphore.{Semaphore, new_mutex, try_wait, wake, signal}
use frosty_os.Semaphore.Steps.{System, looked, Step, enter_wait, resume, call_signal}

-- Runs in which `Unlock` is called only while the mutex is held: more locks were taken than given
-- back.
pub data LockReach (a : System) : System → Type 0 where
  lock_here : LockReach a a
  lock_step :
      {b c : System}
      → LockReach a b
      → Step b c
      → (b.signals ≡ c.signals) ⊎ (b.signals < b.taken)
      → LockReach a c

abbrev pub unlocked : System
unlocked = record { sem = new_mutex; taken = 0; signals = 0 }

-- The value and the holders make one.
record Exclusive (c : System) : Type 0 where
  limit : c.sem.max_value ≡ 1
  one : c.taken + c.sem.value ≡ 1 + c.signals

wake-value :
    (waiting : List ℕ) (s : Semaphore)
    → ((wake waiting s).value ≡ s.value) × ((wake waiting s).max_value ≡ s.max_value)
unfolding wake
wake-value [] s = (refl, refl)
wake-value (thread ∷ rest) s = (refl, refl)

looked-Exclusive :
    (c : System) (thread : ℕ) (ready : List ℕ)
    → Exclusive c
    → Exclusive (looked c (try_wait thread (record (c.sem) { ready = ready })))
unfolding try_wait
looked-Exclusive c thread ready h = elim (Bool-cases (ltb 0 c.sem.value)) [
  | inl e ↦ rw e (record { limit = h.limit; one = ground (arith, e, h.one) })
  | inr e ↦ rw e (record { limit = h.limit; one = h.one })
]

Step-Exclusive :
    {c d : System}
    → Exclusive c
    → Step c d
    → (c.signals ≡ d.signals) ⊎ (c.signals < c.taken)
    → Exclusive d
unfolding signal
Step-Exclusive {c} h (enter_wait thread) k = looked-Exclusive c thread c.sem.ready h
Step-Exclusive {c} h (resume thread before after e) k =
    looked-Exclusive c thread (before ++ after) h
Step-Exclusive {c} h call_signal (inl e) = absurd (omega arith)
Step-Exclusive {c} h call_signal (inr lt) =
    let woken = wake-value c.sem.waiting (record (c.sem) { value = c.sem.value + 1 }) in
    let below : ltb c.sem.value c.sem.max_value ≡ true = ground (arith, h.one, h.limit, lt) in
    rw below (record { limit = woken.1 ∙ h.limit; one = omega (arith, woken.0, h.one) })

LockReach-Exclusive : {c : System} → LockReach unlocked c → Exclusive c
LockReach-Exclusive lock_here = record { limit = refl; one = refl }
LockReach-Exclusive (lock_step r s k) = Step-Exclusive (LockReach-Exclusive r) s k

-- In every interleaving of `Lock` and `Unlock` on a new mutex in which `Unlock` is called only while
-- the mutex is held, the locks taken are at most one more than those given back: at most one thread
-- holds the mutex, and if none does, the value is 1.
pub exclusion_lem :
    (c : System)
    → LockReach unlocked c
    → (c.taken ≤ c.signals + 1) × (c.taken ≡ c.signals → c.sem.value ≡ 1)
exclusion_lem c r =
    let h = LockReach-Exclusive r in (omega (arith, h.one), λ e. omega (arith, h.one, e))

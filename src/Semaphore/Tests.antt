-- ===== src/Semaphore/Tests.antt =====
-- Two threads at a mutex of kernel/src/Scheduling/Mutex.hpp: the second waits, and is woken.
use frosty_os.Prelude.{◌+◌, ◌≤◌, ◌≡◌, ◌⊎◌, inl, inr, refl, [], ◌∷◌, length, arith}
use frosty_os.Semaphore.{try_wait, wake, signal}
use frosty_os.Semaphore.Steps.{System, looked, enter_wait, call_signal, here, then_step}
use frosty_os.Semaphore.Wakeup.{reach_lem}
use frosty_os.Semaphore.Exclusion.{LockReach, lock_here, lock_step, unlocked, exclusion_lem}

abbrev first_in : System
first_in = looked unlocked (try_wait 1 unlocked.sem)

abbrev second_waits : System
second_waits = looked first_in (try_wait 2 first_in.sem)

abbrev given_back : System
given_back = record second_waits {
  sem = signal second_waits.sem;
  signals = second_waits.signals + 1;
}

-- The second thread is ready, and nobody waits.
second_ready : given_back.sem.ready ≡ 2 ∷ []
unfolding try_wait signal wake
second_ready = refl

reach_lem_example :
    (given_back.sem.value ≤ 1)
    × ((given_back.sem.waiting ≡ []) ⊎ (given_back.sem.value ≤ length given_back.sem.ready))
    × (given_back.taken + given_back.sem.value ≤ 1 + given_back.signals)
reach_lem_example =
    reach_lem 1 1 given_back (omega arith)
      (then_step (then_step (then_step here (enter_wait 1)) (enter_wait 2)) call_signal)

held : LockReach unlocked given_back
unfolding try_wait
held =
    lock_step (lock_step (lock_step lock_here (enter_wait 1) (inl refl)) (enter_wait 2) (inl refl))
      call_signal (inr (omega arith))

exclusion_lem_example :
    (given_back.taken ≤ given_back.signals + 1)
    × (given_back.taken ≡ given_back.signals → given_back.sem.value ≡ 1)
exclusion_lem_example = exclusion_lem given_back held

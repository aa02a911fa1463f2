-- ===== src/Semaphore/Wakeup.antt =====
-- No wakeup of kernel/src/Scheduling/Semaphore.cpp is lost, in any interleaving.
use frosty_os.Prelude.{
  ℕ, suc, ◌+◌, ◌≤◌, ◌<◌, ◌≡◌, ◌⊎◌, inl, inr, refl, List, [], ◌∷◌, ◌++◌, length, length-append,
  arith, ltb, Bool-cases,
}
use frosty_os.Semaphore.{Semaphore, new_semaphore, try_wait, wake, signal}
use frosty_os.Semaphore.Steps.{
  System, looked, Step, enter_wait, resume, call_signal, Reach, here, then_step,
}

-- Nobody waits, or there are as many woken threads as the value says.
abbrev pub NoneLost : Semaphore → Type 0
NoneLost s = (s.waiting ≡ []) ⊎ (s.value ≤ length s.ready)

-- The value is in range, no wakeup is lost, and what was taken and what is left was there at the
-- start or was signalled.
pub record Sane (value max_value : ℕ) (c : System) : Type 0 where
  pub limit : c.sem.max_value ≡ max_value
  pub in_range : c.sem.value ≤ max_value
  pub none_lost : NoneLost c.sem
  pub supply : c.taken + c.sem.value ≤ value + c.signals

abbrev pub start : ℕ → ℕ → System
start value max_value = record { sem = new_semaphore value max_value; taken = 0; signals = 0 }

module _ (value max_value : ℕ) where
  start-Sane : value ≤ max_value → Sane value max_value (start value max_value)
  start-Sane h = record { limit = refl; in_range = h; none_lost = inl refl; supply = omega arith }

  -- A thread looks at a semaphore that has one ready thread less, or none less.
  looked-Sane :
      (c : System) (thread : ℕ) (ready : List ℕ)
      → Sane value max_value c
      → length c.sem.ready ≤ suc (length ready)
      → Sane value max_value (looked c (try_wait thread (record (c.sem) { ready = ready })))
  unfolding try_wait
  looked-Sane c thread ready h le = elim (Bool-cases (ltb 0 c.sem.value)) [
    | inl e ↦ rw e (record {
      limit = h.limit;
      in_range = omega (arith, h.in_range);
      none_lost = elim h.none_lost [ inl w ↦ inl w | inr b ↦ inr (omega (arith, le)) ];
      supply = ground (arith, e, h.supply);
    })
    | inr e ↦ rw e (record {
      limit = h.limit;
      in_range = h.in_range;
      none_lost = inr (ground (arith, e));
      supply = h.supply;
    })
  ]

  -- `Signal` below the limit, with the threads that wait.
  woken :
      (c : System)
      → Sane value max_value c
      → c.sem.value < max_value
      → (waiting : List ℕ) → c.sem.waiting ≡ waiting
      → Sane value max_value (record c {
        sem = wake waiting (record (c.sem) { value = c.sem.value + 1 });
        signals = c.signals + 1;
      })
  unfolding wake
  woken c h lt [] e = record {
    limit = h.limit;
    in_range = omega (arith, lt);
    none_lost = inl e;
    supply = omega (arith, h.supply);
  }
  woken c h lt (thread ∷ rest) e = record {
    limit = h.limit;
    in_range = omega (arith, lt);
    none_lost = elim h.none_lost [
      | inl w ↦ ground (arith, w, e)
      | inr b ↦ inr (omega (arith, length-append c.sem.ready (thread ∷ []), b))
    ];
    supply = omega (arith, h.supply);
  }

  signal-Sane :
      (c : System)
      → Sane value max_value c
      → Sane value max_value (record c { sem = signal c.sem; signals = c.signals + 1 })
  unfolding signal
  signal-Sane c h = elim (Bool-cases (ltb c.sem.value c.sem.max_value)) [
    | inl e ↦ rw e (woken c h (ground (arith, e, h.limit)) c.sem.waiting refl)
    | inr e ↦ rw e (record {
      limit = h.limit;
      in_range = h.in_range;
      none_lost = h.none_lost;
      supply = omega (arith, h.supply);
    })
  ]

  Step-Sane : {c d : System} → Sane value max_value c → Step c d → Sane value max_value d
  Step-Sane {c} h (enter_wait thread) = looked-Sane c thread c.sem.ready h (omega arith)
  Step-Sane {c} h (resume thread before after e) =
      looked-Sane c thread (before ++ after) h
        (rw e (omega (arith, length-append before (thread ∷ after), length-append before after)))
  Step-Sane {c} h call_signal = signal-Sane c h

  Reach-Sane :
      {c : System} → value ≤ max_value → Reach (start value max_value) c → Sane value max_value c
  Reach-Sane h here = start-Sane h
  Reach-Sane h (then_step r s) = Step-Sane (Reach-Sane h r) s

-- From a semaphore whose value is at most its limit, in every interleaving of calls of `Wait` and
-- `Signal` and of resumed threads: the value stays within the limit; if a thread waits, at least as
-- many woken threads are about to look as the value says, so no wakeup is lost; and no more waits
-- have returned than the value at first and the calls of `Signal` allow.
pub reach_lem :
    (value max_value : ℕ) (c : System)
    → value ≤ max_value
    → Reach (start value max_value) c
    → (c.sem.value ≤ max_value)
      × ((c.sem.waiting ≡ []) ⊎ (c.sem.value ≤ length c.sem.ready))
      × (c.taken + c.sem.value ≤ value + c.signals)
reach_lem value max_value c h r =
    let s = Reach-Sane value max_value h r in (s.in_range, s.none_lost, s.supply)

-- ===== src/Scheduler/Asleep.antt =====
-- `SleepCurrentThread` of kernel/src/Scheduling/Scheduler.cpp.
use frosty_os.Prelude.{
  ℕ, ◌<◌, ◌≡◌, refl, sym, ap, ◌∙◌, Bool, true, false, Option, none, some, List, ◌==◌, ltb,
  if◌then◌else◌, arith, done, assert_failed, diverged, Outcome, ==-refl, ◌>>=◌, Bool-cases,
  Option-cases, ==_iff, inl, inr,
}
use frosty_os.Scheduler.{ProcessorState, Thread, appended, nice_levels, get_head, default_timeslice}
use frosty_os.Scheduler.Awake.{linked_levels-out}
use frosty_os.Scheduler.Preempt.{Unlisted}
use frosty_os.Scheduler.Select.{Choice, select}
use frosty_os.Scheduler.Pick.{Picked, Stolen, pick_next, pick_level, pick_other, run, steal_thread}
use frosty_os.Scheduler.Timer.{adopted, switch_thread, run_picked, without_current}
use frosty_os.Scheduler.Queue.{Kernel, set_sleep, set_time}
use frosty_os.Scheduler.Yield.{yield_thread, sleep_current_thread, sleep_state, sleep_thread}
use frosty_os.Scheduler.Conserved.{PickedFrom, own_level, other_level, idle_thread, pick_next_lem}

-- The sleeping threads after a pick.
abbrev sleeping_of : Picked → List ℕ
sleeping_of p = p.own.sleeping_threads

abbrev sleeping_or : List ℕ → Outcome Picked → List ℕ
sleeping_or l (done p) = sleeping_of p
sleeping_or l assert_failed = l
sleeping_or l diverged = l

run-sleeping :
    (moved t : Option ℕ) (o : ProcessorState) (states : List ProcessorState)
    → sleeping_or o.sleeping_threads (run moved t o states) ≡ o.sleeping_threads
run-sleeping moved none o states = refl
run-sleeping moved (some t) o states = refl

-- A pick leaves the sleeping threads alone.
pick_next-sleeping :
    (own : ProcessorState) (states : List ProcessorState)
    → sleeping_or own.sleeping_threads (pick_next own states) ≡ own.sleeping_threads
unfolding pick_next
pick_next-sleeping own states = level (select own.threads own.run_counts)
  where
    other :
        (s : Stolen) → sleeping_or own.sleeping_threads (pick_other own s) ≡ own.sleeping_threads
    other s = elim (Option-cases s.thread) [
      | inl e ↦ rw e (run-sleeping none own.idle_thread _ s.states)
      | inr (t, e) ↦ rw e refl
    ]

    level :
        (c : Choice)
        → sleeping_or own.sleeping_threads (pick_level own states c) ≡ own.sleeping_threads
    level c = elim (Option-cases c.level) [
      | inl e ↦ rw e (other (steal_thread own.id c.counts states))
      | inr (l, e) ↦ rw e (run-sleeping none (get_head (own.threads l)) _ states)
    ]

set_time-sleep :
    (u time t : ℕ) (info : ℕ → Thread)
    → (set_time u time info t).sleep_remaining_time ≡ (info t).sleep_remaining_time
set_time-sleep u time t info = elim (Bool-cases (t == u)) [
  | inl e ↦ rw e (ap (λ x. (info x).sleep_remaining_time) (sym ((==_iff t u).0 e)))
  | inr e ↦ rw e refl
]

adopted-sleep :
    (moved : Option ℕ) (id t : ℕ) (info : ℕ → Thread)
    → (adopted moved id info t).sleep_remaining_time ≡ (info t).sleep_remaining_time
adopted-sleep none id t info = refl
adopted-sleep (some u) id t info = elim (Bool-cases (t == u)) [
  | inl e ↦ rw e (ap (λ x. (info x).sleep_remaining_time) (sym ((==_iff t u).0 e)))
  | inr e ↦ rw e refl
]

-- The processor with its thread asleep.
abbrev pub laid_down : ℕ → ProcessorState → ProcessorState
laid_down t own = record (own) {
  current_thread = none;
  sleeping_threads = appended t own.sleeping_threads;
}

picked-current :
    (own : ProcessorState) (states : List ProcessorState) (p : Picked) (i : ℕ)
    → own.idle_thread ≡ some i
    → PickedFrom own states p
    → (u : ℕ) × (p.own.current_thread ≡ some u)
picked-current own states p i has_idle (own_level r u current out same) = (u, current)
picked-current own states p i has_idle
      (other_level r u before after s left current moved no_work same split all other out rest) =
    (u, current)
picked-current own states p i has_idle (idle_thread r current idle no_work all same rest) =
    (i, current ∙ has_idle)

abbrev asleep_kernel : (ms t : ℕ) → ProcessorState → Kernel → Kernel
asleep_kernel ms t own k = record (k) {
  own = some (without_current own);
  info = set_sleep t ms k.info;
}

falls_asleep :
    (ms t : ℕ) (own : ProcessorState) (k : Kernel)
    → 0 < ms
    → Unlisted t own k
    → sleep_thread (some t) ms own k ≡ switch_thread (laid_down t own) (asleep_kernel ms t own k)
unfolding yield_thread
falls_asleep ms t own k some_time (out, awake, free) =
    let sleeps : ltb 0 ms ≡ true = ground (arith, some_time) in
    let levels = linked_levels-out nice_levels t own.threads out in
    rw (==-refl t) (rw (sleeps, free, levels, awake) refl)

run_picked-done :
    (p : Picked) (k : Kernel) (u : ℕ)
    → p.own.current_thread ≡ some u
    → run_picked p k
      ≡ done (record (k) {
        own = some p.own;
        states = p.states;
        info = set_time u default_timeslice (adopted p.moved p.own.id k.info);
      })
run_picked-done p k u current = rw current refl

-- `SleepCurrentThread` for a time that is not 0, on a processor that has an idle thread and runs a
-- thread which no list of the processor has and to which no other list gives a neighbour, returns: the
-- thread stands behind the other sleeping threads with that time to sleep, and what `PickNext` picks
-- for the processor runs.
pub sleep_lem :
    (ms t i : ℕ) (own : ProcessorState) (k : Kernel)
    → k.own ≡ some own
    → own.current_thread ≡ some t
    → own.idle_thread ≡ some i
    → 0 < ms
    → Unlisted t own k
    → (after : Kernel) × (p : Picked) × (sleep_current_thread ms k ≡ done after)
      × (after.own ≡ some p.own)
      × (after.states ≡ p.states)
      × (p.own.sleeping_threads ≡ appended t own.sleeping_threads)
      × ((after.info t).sleep_remaining_time ≡ ms)
      × PickedFrom (laid_down t own) k.states p
unfolding sleep_current_thread switch_thread
sleep_lem ms t i own k here runs has_idle some_time unlisted =
    let (p, picked, from) = pick_next_lem (laid_down t own) k.states i has_idle in
    let (u, current) = picked-current (laid_down t own) k.states p i has_idle from in
    let info = adopted p.moved p.own.id (set_sleep t ms k.info) in
    let asleep = asleep_kernel ms t own k in
    let after : Kernel = record (k) {
      own = some p.own;
      states = p.states;
      info = set_time u default_timeslice info;
    } in
    let real : (ms == 0) ≡ false = ground (arith, some_time) in
    let kept : p.own.sleeping_threads ≡ appended t own.sleeping_threads =
      ap (λ o. sleeping_or (appended t own.sleeping_threads) o) (sym picked)
      ∙ pick_next-sleeping (laid_down t own) k.states in
    (
      after,
      p,
      (ap (λ (b : Bool). if b then done k else sleep_state k.own ms k) real
          ∙ ap (λ (o : Option ProcessorState). sleep_state o ms k) here
          ∙ ap (λ (c : Option ℕ). sleep_thread c ms own k) runs
          ∙ falls_asleep ms t own k some_time unlisted
          ∙ ap (λ o. o >>= λ q. run_picked q asleep) picked
          ∙ run_picked-done p asleep u current),
      refl,
      refl,
      kept,
      set_time-sleep u default_timeslice t info
          ∙ adopted-sleep p.moved p.own.id t (set_sleep t ms k.info)
          ∙ rw (==-refl t) refl,
      from,
    )

-- ===== src/Scheduler/Tests.antt =====
-- A processor with threads at two nice levels (kernel/src/Scheduling/Scheduler.cpp).
use frosty_os.Prelude.{
  Bool, assert_failed, diverged, Option, Outcome, ℕ, ◌*◌, ◌^◌, ◌<◌, ◌≡◌, ◌==◌, refl, true, false,
  none, some, List, [], ◌∷◌, if◌then◌else◌, arith, done,
}
use frosty_os.Scheduler.{ProcessorState, Thread}
use frosty_os.Scheduler.Select.{select, consider_from, consider, counts_after}
use frosty_os.Scheduler.Pick.{Picked, pick_next, popped, with_counts, run_thread}
use frosty_os.Scheduler.Yield.{yield_thread, sleep_current_thread}
use frosty_os.Scheduler.Timer.{switch_thread, Sleepers, tick_sleepers, timer_tick}
use frosty_os.Scheduler.Queue.{add_existing_thread, Kernel}
use frosty_os.Scheduler.Processors.{
  ProcessorTable, init_bsp_state, add_processor, get_processor, remove_processor, ProcessTable,
  add_process, get_process, remove_process, find_state, drop_state, find_process, drop_process,
}
use frosty_os.Scheduler.Queue.{linked_there}
use frosty_os.Scheduler.Starvation.{PassedOver, begin, pass, starvation_lem}
use frosty_os.Scheduler.Conserved.{PickedFrom, pick_next_lem}
use frosty_os.Scheduler.{appended, is_in, linked_levels}
use frosty_os.Scheduler.Asleep.{laid_down, sleep_lem}
use frosty_os.Scheduler.Preempt.{Unlisted}

abbrev queues : ℕ → List ℕ
queues = λ j. if j == 14 then 5 ∷ [] else (if j == 15 then 7 ∷ [] else [])

abbrev cpu : ProcessorState
cpu = record {
  id = 0;
  current_thread = some 4;
  idle_thread = some 9;
  run_counts = λ j. 0;
  threads = queues;
  sleeping_threads = 1 ∷ 2 ∷ [];
  is_idle = false;
  start_allowed = true;
}

abbrev picked : Picked
picked = record {
  moved = none;
  own = run_thread 7 (with_counts (counts_after (some 15) (λ j. 0)) (popped 15 cpu));
  states = [];
}

-- The last level with a thread is taken first.
cpu_picks : pick_next cpu [] ≡ done picked
unfolding pick_next select consider_from consider
cpu_picks = refl

passed_once : PassedOver 14 (λ j. 0) 1 picked.own.run_counts
passed_once = pass begin cpu [] picked refl (λ e. absurd (cc)) cpu_picks refl

starvation_lem_example : 1 < 2 * 3 ^ 1
starvation_lem_example = starvation_lem 14 1 refl (λ j. omega arith) passed_once

pick_next_lem_example : (p : Picked) × (pick_next cpu [] ≡ done p) × PickedFrom cpu [] p
pick_next_lem_example = pick_next_lem cpu [] 9 refl

abbrev info : ℕ → Thread
info t = record {
  parent_nice = some 8;
  time_remaining = 10;
  sleep_remaining_time = if t == 1 then 3 else 20;
  cpu = none;
}

-- No other list has a thread.
abbrev alone : ℕ → Bool
alone t = false

-- A thread that is neither 5 nor 7 is in no level.
not_queued : (t : ℕ) → (t == 5) ≡ false → (t == 7) ≡ false → (j : ℕ) → is_in t (queues j) ≡ false
not_queued t ne5 ne7 j = ground (arith, ne5, ne7)

abbrev sleepers : Sleepers
sleepers = record { still = []; threads = queues; info = info }

abbrev kernel : Kernel
kernel = record { own = some cpu; states = []; info = info; dead = []; linked_outside = alone }

four-Unlisted : Unlisted 4 cpu kernel
unfolding linked_there
four-Unlisted = (not_queued 4 refl refl, refl, refl)

-- The same processor with no thread asleep
abbrev awake_cpu : ProcessorState
awake_cpu = record cpu { sleeping_threads = [] }

-- A thread that sleeps already cannot be listed again, and a thread without a parent that used up its
-- slice is a null pointer's read.
abbrev twice : Kernel
twice = record kernel { own = some (record cpu { current_thread = some 2 }) }

listed_twice : sleep_current_thread 6 twice ≡ assert_failed
unfolding sleep_current_thread yield_thread linked_there linked_levels
listed_twice = refl

abbrev orphan : ℕ → Thread
orphan t = record (info t) { parent_nice = none }

orphan_tick : timer_tick 12 (record kernel { own = some awake_cpu; info = orphan }) ≡ assert_failed
unfolding timer_tick tick_sleepers
orphan_tick = refl

abbrev table : ProcessorTable
table = record { bsp = init_bsp_state; others = []; count = 1 }

-- The second processor gets the id 1, and is not found once it is removed.
second_id : get_processor 1 (remove_processor 1 (add_processor cpu table)) ≡ none
unfolding remove_processor add_processor find_state drop_state
second_id = refl

-- The first processor stays in the list while the count goes down.
first_stays : (remove_processor 0 table).count ≡ 0
unfolding remove_processor
first_stays = refl

abbrev processes : ProcessTable
processes = record { pids = λ p. 0; processes = []; last_pid = 3 }

process_found : get_process 3 (add_process 6 processes) ≡ some 6
unfolding get_process add_process find_process
process_found = refl

process_removed : get_process 3 (remove_process 3 (add_process 6 processes)) ≡ none
unfolding remove_process get_process add_process find_process drop_process
process_removed = refl

abbrev own_after : Outcome Kernel → Option ProcessorState
own_after (done k) = k.own
own_after other = none

abbrev sleeping_after : Outcome Kernel → List ℕ
sleeping_after r = elim (own_after r) [ none ↦ [] | some own ↦ own.sleeping_threads ]

abbrev current_after : Outcome Kernel → Option ℕ
current_after r = elim (own_after r) [ none ↦ none | some own ↦ own.current_thread ]

-- A thread that sleeps stands behind the other sleeping threads, and another one runs.
sleeps : sleeping_after (sleep_current_thread 6 kernel) ≡ 1 ∷ 2 ∷ 4 ∷ []
unfolding sleep_current_thread yield_thread switch_thread pick_next select consider_from consider
    linked_there linked_levels
sleeps = refl

another_runs : current_after (sleep_current_thread 6 kernel) ≡ some 7
unfolding sleep_current_thread yield_thread switch_thread pick_next select consider_from consider
    linked_there linked_levels
another_runs = refl

-- A thread is given back to the scheduler, and refused for lack of a parent.
abbrev added : Outcome (Bool × Kernel) → Bool
added (done (b, k)) = b
added assert_failed = false
added diverged = false

scheduled : added (add_existing_thread 3 kernel) ≡ true
unfolding add_existing_thread linked_there linked_levels
scheduled = refl

refused_orphan :
    add_existing_thread 3 (record kernel { info = orphan })
    ≡ done (false, record kernel { info = orphan })
unfolding add_existing_thread
refused_orphan = refl

sleep_lem_example :
    (after : Kernel) × (p : Picked) × (sleep_current_thread 6 kernel ≡ done after)
    × (after.own ≡ some p.own)
    × (after.states ≡ p.states)
    × (p.own.sleeping_threads ≡ appended 4 (1 ∷ 2 ∷ []))
    × ((after.info 4).sleep_remaining_time ≡ 6)
    × PickedFrom (laid_down 4 cpu) [] p
sleep_lem_example = sleep_lem 6 4 9 cpu kernel refl refl refl (omega arith) four-Unlisted

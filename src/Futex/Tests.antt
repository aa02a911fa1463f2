-- ===== src/Futex/Tests.antt =====
-- A queue of three threads, and a table without queues, for the tests of
-- kernel/src/SystemCalls/Futex.cpp.
use frosty_os.Prelude.{
  ◌≡◌, refl, true, false, [], ◌∷◌, if◌then◌else◌, ◌==◌, none, some, Outcome, done, assert_failed,
  diverged,
}
use frosty_os.AvlTree.{lookup}
use frosty_os.AvlTree.Assoc.{assoc_tree, add}
use frosty_os.Futex.{
  FutexWaitQueue, no_reason, wake, FutexTable, get_or_create, get_for_wake, put_futex,
}
use frosty_os.Futex.{eagain, wait, wake_from}
use frosty_os.Futex.Call.{
  Access, FutexState, Progress, returned, sleeping, Answer, value, failure, futex_wait, futex_wake,
  sys_futex, call_wait, call_wake, resume,
}
use frosty_os.Futex.Counting.{HasOne, GivesOne, counting_lem}

abbrev three_wait : FutexWaitQueue
three_wait = record {
  waiting = 1 ∷ 2 ∷ 3 ∷ [];
  blocked = λ t. true;
  reason = λ t. no_reason;
  ready = [];
}

abbrev no_queues : FutexTable assoc_tree
no_queues = record { tree = []; ref_count = λ q. 0 }

abbrev one_queue : FutexTable assoc_tree
one_queue = record { tree = (64, 500) ∷ []; ref_count = λ q. 1 }

none_at : assoc_tree.rb_find no_queues.tree 64 ≡ none
unfolding lookup
none_at = refl

one_at : HasOne assoc_tree one_queue 64 500
unfolding lookup
one_at = (refl, refl)

counting_lem_example :
    GivesOne assoc_tree (get_or_create assoc_tree 900 no_queues 64) 64 900
    × GivesOne assoc_tree (get_or_create assoc_tree 7 one_queue 64) 64 500
    × ((get_for_wake assoc_tree one_queue 64).0 ≡ 500)
    × HasOne assoc_tree
        (put_futex assoc_tree (get_for_wake assoc_tree one_queue 64).1 64 500)
        64
        500
counting_lem_example =
    counting_lem assoc_tree no_queues one_queue 64 900 500 7 refl none_at refl one_at

-- Where `new` gives a null pointer, the count is raised through it.
no_memory : get_or_create assoc_tree 0 no_queues 64 ≡ assert_failed
unfolding get_or_create lookup
no_memory = refl

-- A word of 7 at the address 64, and nobody who waits
abbrev seven : Access
seven = record {
  has_mapper = true;
  readable = λ p. true;
  time_readable = true;
  word = λ p. if p == 64 then some 7 else none;
}

abbrev nobody : FutexState assoc_tree
nobody = record {
  table = no_queues;
  queues = λ q. record three_wait { waiting = []; blocked = λ t. false };
}

-- How far a call is, and the state that it leaves
abbrev progress_of : Outcome (Progress × FutexState assoc_tree) → Progress
progress_of (done (p, s)) = p
progress_of assert_failed = returned (value 999)
progress_of diverged = returned (value 999)

abbrev state_of : Outcome (Progress × FutexState assoc_tree) → FutexState assoc_tree
state_of (done (p, s)) = s
state_of assert_failed = nobody
state_of diverged = nobody

-- A thread that expects another word is refused, one that expects this word sleeps; a wakeup at the
-- address counts it, and it returns 0.
refused_run :
    progress_of (sys_futex assoc_tree 900 seven nobody futex_wait 64 8 1)
    ≡ returned (failure eagain)
unfolding sys_futex call_wait wait get_or_create lookup
refused_run = refl

abbrev slept : Outcome (Progress × FutexState assoc_tree)
slept = sys_futex assoc_tree 900 seven nobody futex_wait 64 7 1

sleeping_run : progress_of slept ≡ sleeping 64 900
unfolding sys_futex call_wait wait get_or_create lookup
sleeping_run = refl

abbrev awake : Outcome (Progress × FutexState assoc_tree)
awake = sys_futex assoc_tree 901 seven (state_of slept) futex_wake 64 1 2

woken_run : progress_of awake ≡ returned (value 1)
unfolding sys_futex call_wait call_wake wait wake wake_from get_or_create get_for_wake put_futex
    lookup add
woken_run = refl

abbrev answer_of : Outcome (Answer × FutexState assoc_tree) → Answer
answer_of (done (a, s)) = a
answer_of assert_failed = failure 0
answer_of diverged = failure 0

resumed_run : answer_of (resume assoc_tree (state_of awake) 64 900 1) ≡ value 0
unfolding resume sys_futex call_wait call_wake wait wake wake_from get_or_create get_for_wake
    put_futex lookup add
resumed_run = refl

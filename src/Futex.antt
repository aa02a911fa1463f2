-- ===== src/Futex.antt =====
-- kernel/src/SystemCalls/Futex.cpp: queues of threads that wait at an address, and the tree that has
-- the queue of each address. A queue is its address in memory, and a null pointer is 0. The queue of
-- threads is the list that a ThreadList represents; what the code does under a lock is one step.
pub mod Waking
pub mod Counting
pub mod Call
mod Tests
use frosty_os.Prelude.{
  ℕ, ◌+◌, ◌-◌, ◌^◌, ◌≡◌, Bool, true, false, List, [], ◌∷◌, ◌++◌, Option, none, some, ltb, ◌==◌, not,
  add64, sub64, Outcome, done, assert_failed, if◌then◌else◌,
}
use frosty_os.AvlTree.{RawTree}
use frosty_os.AvlTree

-- FutexWakeReason
pub data WakeReason : Type 0 where
  no_reason : WakeReason
  woken : WakeReason
  timed_out : WakeReason
  interrupted : WakeReason

-- A queue, with what it keeps in its threads: whether `blockedFutex` is this queue, and the reason of
-- the last wakeup. `ready` are the threads given back to the scheduler.
pub record FutexWaitQueue : Type 0 where
  pub waiting : List ℕ
  pub blocked : ℕ → Bool
  pub reason : ℕ → WakeReason
  pub ready : List ℕ

-- How `Wait` goes on: with an error number, or asleep.
pub data WaitResult : Type 0 where
  refused : ℕ → WaitResult
  asleep : WaitResult

abbrev pub efault : ℕ
efault = 14

abbrev pub eagain : ℕ
eagain = 11

-- `Wait` up to the yield; `word` is what the address holds, if it can be read.
unfoldable pub wait : Option ℕ → ℕ → ℕ → FutexWaitQueue → WaitResult × FutexWaitQueue
wait none expected thread q = (refused efault, q)
wait (some word) expected thread q =
    if word == expected
    then (
      asleep,
      record q {
        waiting = q.waiting ++ thread ∷ [];
        blocked = λ t. if t == thread then true else q.blocked t;
        reason = λ t. if t == thread then no_reason else q.reason t;
      },
    )
    else (refused eagain, q)

-- A thread that has left the queue goes back to the scheduler.
abbrev pub release : ℕ → WakeReason → FutexWaitQueue → FutexWaitQueue
release thread reason q = record q {
  blocked = λ t. if t == thread then false else q.blocked t;
  reason = λ t. if t == thread then reason else q.reason t;
  ready = q.ready ++ thread ∷ [];
}

-- The loop of `Wake` over the threads that wait
unfoldable pub wake_from : List ℕ → ℕ → ℕ → FutexWaitQueue → ℕ × FutexWaitQueue
wake_from [] count limit q = (count, q)
wake_from (thread ∷ rest) count limit q =
    let more =
      wake_from rest (count + 1) limit (release thread woken (record q { waiting = rest })) in
    if ltb count limit then more else (count, q)

-- `Wake`; a `maxCount` that is negative as an `int` wakes nobody.
unfoldable pub wake : ℕ → FutexWaitQueue → ℕ × FutexWaitQueue
wake max_count q = wake_from q.waiting 0 (if ltb max_count (2 ^ 31) then max_count else 0) q

-- The list without a thread
unfoldable pub take_out : ℕ → List ℕ → List ℕ
take_out thread [] = []
take_out thread (t ∷ ts) = if t == thread then ts else t ∷ take_out thread ts

-- `Remove`
unfoldable pub remove : ℕ → WakeReason → FutexWaitQueue → FutexWaitQueue
remove thread reason q =
    if q.blocked thread
    then release thread reason (record q { waiting = take_out thread q.waiting })
    else q

module _ (raw : RawTree ℕ) where
  -- The queues of a process: the tree by address, and the reference count of each queue.
  pub record FutexTable : Type 0 where
    pub tree : raw.Tree
    pub ref_count : ℕ → ℕ

  abbrev pub set_count : FutexTable → ℕ → ℕ → FutexTable
  set_count s q n = record s { ref_count = λ p. if p == q then n else s.ref_count p }

  -- `GetOrCreateFutex`; `fresh` is what `new` gives for a new queue. A null pointer from it is entered
  -- in the tree, and then the count is raised through it, which faults (`assert_failed`).
  unfoldable pub get_or_create : ℕ → FutexTable → ℕ → Outcome (ℕ × FutexTable)
  get_or_create fresh s virt =
      let q = AvlTree.find raw 0 s.tree virt in
      if not (q == 0)
      then done (q, set_count s q (add64 (s.ref_count q) 1))
      else if fresh == 0
      then assert_failed
      else done (
        fresh,
        set_count (record s { tree = AvlTree.insert raw s.tree virt fresh }) fresh (add64 1 1),
      )

  -- `GetFutexForWake`
  unfoldable pub get_for_wake : FutexTable → ℕ → ℕ × FutexTable
  get_for_wake s virt =
      let q = AvlTree.find raw 0 s.tree virt in
      if q == 0 then (0, s) else (q, set_count s q (add64 (s.ref_count q) 1))

  -- `PutFutex`
  unfoldable pub put_futex : FutexTable → ℕ → ℕ → FutexTable
  put_futex s virt q =
      let count = sub64 (s.ref_count q) 1 in
      let s' = set_count s q count in
      if count == 0 then record s' { tree = AvlTree.remove raw s.tree virt } else s'

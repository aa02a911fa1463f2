-- ===== src/Futex/Call.antt =====
-- `sys_futex`, and the end of `Wait` after the thread is resumed,
-- kernel/src/SystemCalls/Futex.cpp.
use frosty_os.Prelude.{
  ℕ, Bool, not, ◌||◌, ◌&&◌, Option, ◌==◌, if◌then◌else◌, Outcome, done, assert_failed, diverged,
  ◌>>=◌,
}
use frosty_os.AvlTree.{RawTree}
use frosty_os.Futex.{
  WakeReason, FutexWaitQueue, WaitResult, refused, asleep, efault, wait, wake, FutexTable,
  get_or_create, get_for_wake, put_futex,
}

-- FUTEX_WAIT and FUTEX_WAKE
abbrev pub futex_wait : ℕ
futex_wait = 0

abbrev pub futex_wake : ℕ
futex_wake = 1

abbrev pub eintr : ℕ
eintr = 4

abbrev pub einval : ℕ
einval = 22

abbrev pub enosys : ℕ
enosys = 38

abbrev pub etimedout : ℕ
etimedout = 110

-- What the call returns: a number, or an error number with a minus.
pub data Answer : Type 0 where
  value : ℕ → Answer
  failure : ℕ → Answer

-- The end of `Wait`, by the reason of the wakeup
abbrev pub wait_answer : WakeReason → Outcome Answer
wait_answer WakeReason.woken = done (value 0)
wait_answer WakeReason.timed_out = done (failure etimedout)
wait_answer WakeReason.interrupted = done (failure eintr)
wait_answer WakeReason.no_reason = assert_failed

-- What the memory of the process says: whether it has a page mapper, whether a word can be read at an
-- address, whether the time can be read, and the word that is there.
pub record Access : Type 0 where
  pub has_mapper : Bool
  pub readable : ℕ → Bool
  pub time_readable : Bool
  pub word : ℕ → Option ℕ

-- How far the call is: returned, or asleep in the queue of an address.
pub data Progress : Type 0 where
  returned : Answer → Progress
  sleeping : ℕ → ℕ → Progress

module _ (raw : RawTree ℕ) where
  -- The table of a process, and its queues
  pub record FutexState : Type 0 where
    pub table : FutexTable raw
    pub queues : ℕ → FutexWaitQueue

  abbrev pub set_queue : FutexState → ℕ → FutexWaitQueue → FutexState
  set_queue s q v = record s { queues = λ p. if p == q then v else s.queues p }

  abbrev pub put : FutexState → ℕ → ℕ → FutexState
  put s virt q = record s { table = put_futex raw s.table virt q }

  -- The call once the thread is back from its sleep
  unfoldable pub resume : FutexState → ℕ → ℕ → ℕ → Outcome (Answer × FutexState)
  resume s virt q thread = elim (wait_answer ((s.queues q).reason thread)) [
    | done a ↦ done (a, put s virt q)
    | assert_failed ↦ assert_failed
    | diverged ↦ diverged
  ]

  -- FUTEX_WAIT up to the sleep
  abbrev pub waited : FutexState → ℕ → ℕ → WaitResult × FutexWaitQueue → Progress × FutexState
  waited s virt q (refused e, v) = (returned (failure e), put (set_queue s q v) virt q)
  waited s virt q (asleep, v) = (sleeping virt q, set_queue s q v)

  unfoldable pub call_wait : ℕ → Access → FutexState → ℕ → ℕ → ℕ → Outcome (Progress × FutexState)
  call_wait fresh access s virt expected thread = get_or_create raw fresh s.table virt >>= λ found.
      let t = record s { table = found.1 } in
      done (waited t virt found.0 (wait (access.word virt) expected thread (t.queues found.0)))

  -- FUTEX_WAKE
  unfoldable pub call_wake : FutexState → ℕ → ℕ → Progress × FutexState
  call_wake s virt count =
      let found = get_for_wake raw s.table virt in
      let t = record s { table = found.1 } in
      let woken = wake count (t.queues found.0) in
      if found.0 == 0
      then (returned (value 0), s)
      else (returned (value woken.0), put (set_queue t found.0 woken.1) virt found.0)

  -- `sys_futex` up to the sleep. `fresh` is where a new queue, without threads, would lie, 0 if there
  -- is no memory for it.
  unfoldable pub sys_futex :
      ℕ → Access → FutexState → ℕ → ℕ → ℕ → ℕ → Outcome (Progress × FutexState)
  sys_futex fresh access s operation virt count thread =
      if (not (operation == futex_wake) && not (operation == futex_wait)) || virt == 0
      then done (returned (failure einval), s)
      else if not access.has_mapper
      then done (returned (failure enosys), s)
      else if not (access.readable virt)
      then done (returned (failure efault), s)
      else if not access.time_readable
      then done (returned (failure efault), s)
      else if operation == futex_wait
      then call_wait fresh access s virt count thread
      else done (call_wake s virt count)

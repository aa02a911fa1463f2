-- ===== src/Scheduler/Queue.antt =====
-- How a thread is queued: the state of the system, `pushBack` into a nice level, `ScheduleThread`,
-- `AddExistingThread` and `DeleteThread` of kernel/src/Scheduling/Scheduler.cpp. Registers, extended
-- state and locks are left out; each function runs with interrupts off.
use frosty_os.Prelude.{
  ℕ, Bool, true, false, not, ◌&&◌, Option, none, some, List, [], ◌∷◌, ◌==◌, leb, ◌||◌,
  if◌then◌else◌, Outcome, done, assert_failed, ◌>>=◌,
}
use frosty_os.Scheduler.{
  ProcessorState, Thread, nice_levels, default_timeslice, put, push_back, linked_in, linked_levels,
}

-- `own` is what `GetCurrentProcessorState` gives (`none` for the null pointer), `states` the list
-- of all processors, `dead` the list `g_deadThreads`. `linked_outside` tells whether a list that is not
-- the scheduler's, such as that of a semaphore, gives a thread a neighbour.
pub record Kernel : Type 0 where
  pub own : Option ProcessorState
  pub states : List ProcessorState
  pub info : ℕ → Thread
  pub dead : List ℕ
  pub linked_outside : ℕ → Bool

abbrev pub set_time : ℕ → ℕ → (ℕ → Thread) → ℕ → Thread
set_time thread time info = put info thread (record (info thread) { time_remaining = time })

abbrev pub set_sleep : ℕ → ℕ → (ℕ → Thread) → ℕ → Thread
set_sleep thread ms info = put info thread (record (info thread) { sleep_remaining_time = ms })

abbrev pub set_cpu : ℕ → ℕ → (ℕ → Thread) → ℕ → Thread
set_cpu thread id info = put info thread (record (info thread) { cpu = some id })

-- Whether the lists of a processor give a thread a neighbour.
abbrev pub linked_here : ℕ → ProcessorState → Bool
linked_here thread own =
    linked_levels nice_levels thread own.threads || linked_in thread own.sleeping_threads

-- The same for the processors in a list, but those to pass over.
unfoldable pub linked_there : (skip : ℕ → Bool) → ℕ → List ProcessorState → Bool
linked_there skip thread [] = false
linked_there skip thread (s ∷ rest) =
    (not (skip s.id) && linked_here thread s) || linked_there skip thread rest

-- Whether a list that is not of the processor `id` gives a thread a neighbour.
abbrev pub linked_elsewhere : (id : ℕ) → Kernel → ℕ → Bool
linked_elsewhere id k thread =
    linked_there (λ i. i == id) thread k.states
    || linked_in thread k.dead
    || k.linked_outside thread

abbrev pub with_level : ℕ → List ℕ → ProcessorState → ProcessorState
with_level nice list own = record (own) { threads = put own.threads nice list }

-- `threads[nice].pushBack(thread)`; an access behind the array is `assert_failed`.
abbrev pub enqueue : (elsewhere : Bool) → ℕ → ℕ → ProcessorState → Outcome ProcessorState
enqueue elsewhere nice thread own =
    if leb nice_levels nice
    then assert_failed
    else (push_back (elsewhere || linked_here thread own) thread (own.threads nice) >>= λ list.
        done (with_level nice list own))

-- A thread that starts to wait for its turn: a whole slice, no sleep left, and its processor.
abbrev pub made_ready : ℕ → ℕ → (ℕ → Thread) → ℕ → Thread
made_ready thread id info =
    set_cpu thread id (set_sleep thread 0 (set_time thread default_timeslice info))

-- `ScheduleThread` for the processor `own`.
abbrev pub schedule_on : ℕ → ℕ → ProcessorState → Kernel → Outcome Kernel
schedule_on thread nice own k =
    enqueue (linked_elsewhere own.id k thread) nice thread own >>= λ after.
    done (record (k) { own = some after; info = made_ready thread own.id k.info })

-- `ScheduleThread` for the state numbered `id` in the list of processors; `linked` tells whether any
-- other list gives the thread a neighbour.
unfoldable pub enqueue_at :
    (linked : Bool) → (id thread nice : ℕ) → List ProcessorState → Outcome (List ProcessorState)
enqueue_at linked id thread nice [] = done []
enqueue_at linked id thread nice (s ∷ rest) =
    (if s.id == id then enqueue linked nice thread s else done s) >>= λ s'.
    enqueue_at linked id thread nice rest >>= λ rest'. done (s' ∷ rest')

abbrev pub schedule_at : (id thread nice : ℕ) → ProcessorState → Kernel → Outcome Kernel
schedule_at id thread nice own k =
    let other = linked_there (λ i. (i == id) || (i == own.id)) thread k.states in
    let linked =
      linked_here thread own || other || linked_in thread k.dead || k.linked_outside thread in
    enqueue_at linked id thread nice k.states >>= λ states.
    done (record (k) { states = states; info = made_ready thread id k.info })

-- `ScheduleThread`: `target` is the number of the state that is passed, `none` for the null pointer.
-- A thread with no parent, or of a process whose nice value is out of range, is left alone; where
-- there is no processor the null pointer is read (`assert_failed`).
unfoldable pub schedule_thread : ℕ → (target : Option ℕ) → Kernel → Outcome Kernel
schedule_thread thread target k = elim ((k.info thread).parent_nice) [
  | none ↦ done k
  | some nice ↦ if leb nice_levels nice then done k else elim (k.own) [
    | none ↦ assert_failed
    | some own ↦ elim target [
      | none ↦ schedule_on thread nice own k
      | some id ↦
          if id == own.id then schedule_on thread nice own k else schedule_at id thread nice own k
    ]
  ]
]

-- `AddExistingThread`: a thread with no parent, or of a process whose nice value is out of range, is
-- refused, and so is every thread where there is no processor. The thread's links are cleared before
-- it is queued: one that had a neighbour leaves a broken list behind, which is `assert_failed` here.
unfoldable pub add_existing_thread : ℕ → Kernel → Outcome (Bool × Kernel)
add_existing_thread thread k = elim ((k.info thread).parent_nice) [
  | none ↦ done (false, k)
  | some nice ↦ if leb nice_levels nice then done (false, k) else elim (k.own) [
    | none ↦ done (false, k)
    | some own ↦ schedule_on thread nice own k >>= λ after. done (true, after)
  ]
]

-- `DeleteThread`; the semaphore's `Signal` is that of `Semaphore`.
abbrev pub linked_to_processor : ℕ → Option ProcessorState → Kernel → Bool
linked_to_processor thread none k = linked_there (λ i. false) thread k.states
linked_to_processor thread (some own) k =
    linked_here thread own || linked_there (λ i. i == own.id) thread k.states

unfoldable pub delete_thread : ℕ → Kernel → Outcome Kernel
delete_thread thread k =
    push_back (linked_to_processor thread k.own k || k.linked_outside thread) thread k.dead
    >>= λ dead. done (record (k) { dead = dead })

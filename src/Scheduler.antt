-- ===== src/Scheduler.antt =====
-- The scheduler of kernel/src/Scheduling/Scheduler.cpp: the state of a processor, that of a thread
-- as far as the scheduler reads it, and the whole system. A thread list is the list of the numbers
-- of its threads; `ThreadList` models the links behind it.
pub mod Select
pub mod Pick
pub mod Queue
pub mod Timer
pub mod Yield
pub mod Processors
mod Chosen
mod Digits
mod Starvation
mod Conserved
mod SeenTo
mod Awake
mod Preempt
mod Asleep
mod Tests
use frosty_os.Prelude.{
  ℕ, ◌+◌, ◌%◌, ◌^◌, Bool, true, false, Option, none, some, List, [], ◌∷◌, ◌++◌, ◌==◌, if◌then◌else◌,
  zero, suc, ◌||◌, Outcome, done, assert_failed,
}

-- `NICE_LEVELS`, `MAX_RUN_COUNT` and `DEFAULT_TIMESLICE`.
abbrev pub nice_levels : ℕ
nice_levels = 16

abbrev pub max_run_count : ℕ
max_run_count = 2

abbrev pub default_timeslice : ℕ
default_timeslice = 10

-- The fields of a `ProcessorState` that the scheduler uses; `threads` is the list of each nice
-- level, of which the array has `NICE_LEVELS`: what queues a thread tests that (`enqueue`).
pub record ProcessorState : Type 0 where
  pub id : ℕ
  pub current_thread : Option ℕ
  pub idle_thread : Option ℕ
  pub run_counts : ℕ → ℕ
  pub threads : ℕ → List ℕ
  pub sleeping_threads : List ℕ
  pub is_idle : Bool
  pub start_allowed : Bool

-- What the scheduler keeps in a thread: the nice level of its process (`none` when it has no
-- parent), what is left of its slice and of its sleep, and the processor that it belongs to.
pub record Thread : Type 0 where
  pub parent_nice : Option ℕ
  pub time_remaining : ℕ
  pub sleep_remaining_time : ℕ
  pub cpu : Option ℕ

-- One entry of an array overwritten.
abbrev pub put {ℓ} : {A : Type ℓ} → (ℕ → A) → ℕ → A → ℕ → A
put f i v = λ j. if j == i then v else f j

-- `getHead`, `popFront` and `getCount() == 0` of a thread list.
abbrev pub get_head : List ℕ → Option ℕ
get_head [] = none
get_head (thread ∷ rest) = some thread

abbrev pub pop_front : List ℕ → List ℕ
pop_front [] = []
pop_front (thread ∷ rest) = rest

abbrev pub is_empty : List ℕ → Bool
is_empty [] = true
is_empty (thread ∷ rest) = false

abbrev pub is_in : ℕ → List ℕ → Bool
is_in x [] = false
is_in x (y ∷ ys) = if x == y then true else is_in x ys

abbrev pub appended : ℕ → List ℕ → List ℕ
appended thread list = list ++ (thread ∷ [])

-- `pushBack`, whose assertion fails for a thread that is first or last in the list, or that has a
-- neighbour in any list: in this one, or, if `linked` says so, in another.
abbrev pub push_back : (linked : Bool) → ℕ → List ℕ → Outcome (List ℕ)
push_back linked thread list =
    if linked || is_in thread list then assert_failed else done (appended thread list)

-- Whether a list gives a thread a neighbour; the links of a thread that is alone in its list are null.
abbrev pub linked_in : ℕ → List ℕ → Bool
linked_in thread [] = false
linked_in thread (x ∷ []) = false
linked_in thread (x ∷ y ∷ rest) = is_in thread (x ∷ y ∷ rest)

-- The same for the lists of the first `n` nice levels.
unfoldable pub linked_levels : (n : ℕ) → ℕ → (ℕ → List ℕ) → Bool
linked_levels zero thread threads = false
linked_levels (suc n) thread threads =
    linked_in thread (threads n) || linked_levels n thread threads

-- `thread->GetParent()->GetNice()`, which the code reads with no test that there is a parent.
abbrev pub nice_of : Thread → Outcome ℕ
nice_of info = elim (info.parent_nice) [ none ↦ assert_failed | some nice ↦ done nice ]

-- `runCounts[nice]++` on 32 bits.
abbrev pub count_run : ℕ → ℕ
count_run n = (n + 1) % 2 ^ 32

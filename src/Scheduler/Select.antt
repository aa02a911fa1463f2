-- ===== src/Scheduler/Select.antt =====
-- The loop over the nice levels that `PickNext` and `StealThreadFromOther` share, and the counts
-- that a pick leaves (kernel/src/Scheduling/Scheduler.cpp).
use frosty_os.Prelude.{
  ℕ, zero, suc, ◌+◌, Bool, true, false, not, ◌&&◌, ◌||◌, Option, none, some, List, ◌==◌, ltb, leb,
  if◌then◌else◌,
}
use frosty_os.Scheduler.{nice_levels, max_run_count, put, is_empty, count_run}

-- The locals of the loop: the level of the thread that is chosen so far, which is the head of that
-- level's list, and the run counts.
pub record Choice : Type 0 where
  pub level : Option ℕ
  pub counts : ℕ → ℕ

abbrev pub is_chosen : Option ℕ → Bool
is_chosen none = false
is_chosen (some level) = true

abbrev pub exhausted : (ℕ → ℕ) → ℕ → Bool
exhausted counts i = leb max_run_count (counts i)

-- `runCounts[i] = 0` where the first level with a thread has had its runs.
abbrev pub renewed : (ℕ → ℕ) → ℕ → ℕ → ℕ
renewed counts i = if exhausted counts i then put counts i 0 else counts

module _ (queues : ℕ → List ℕ) where
  -- The test that skips a level.
  abbrev pub is_skipped : Choice → ℕ → Bool
  is_skipped c i =
      is_empty (queues i) || (exhausted c.counts i && (not (i == 0) && is_chosen c.level))

  -- The body of the loop.
  unfoldable pub consider : Choice → ℕ → Choice
  consider c i = if is_skipped c i then c else record {
    level = some i;
    counts = if is_chosen c.level then c.counts else renewed c.counts i;
  }

  -- `n` levels from level `i` on.
  unfoldable pub consider_from : (n i : ℕ) → Choice → Choice
  consider_from zero i c = c
  consider_from (suc n) i c = consider_from n (suc i) (consider c i)

  unfoldable pub select : (ℕ → ℕ) → Choice
  select counts = consider_from nice_levels 0 (record { level = none; counts = counts })

-- The first level after the picked one; all of them where none was picked (`nice` is -1).
abbrev pub next_level : Option ℕ → ℕ
next_level none = 0
next_level (some level) = level + 1

-- The loop that ends a pick: the levels above the picked one start again once they have had their
-- runs.
abbrev pub restarted : Option ℕ → (ℕ → ℕ) → ℕ → ℕ
restarted level counts = λ j.
    if leb (next_level level) j && (ltb j nice_levels && exhausted counts j) then 0 else counts j

-- `runCounts[nice]++` where a thread was picked, then that loop.
abbrev pub counts_after : Option ℕ → (ℕ → ℕ) → ℕ → ℕ
counts_after none counts = restarted none counts
counts_after (some level) counts =
    restarted (some level) (put counts level (count_run (counts level)))

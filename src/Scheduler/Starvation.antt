-- ===== src/Scheduler/Starvation.antt =====
-- How long a level with a queued thread can wait while `PickNext` of
-- kernel/src/Scheduling/Scheduler.cpp takes the threads of other levels.
use frosty_os.Prelude.{
  ℕ, suc, ◌+◌, ◌-◌, ◌*◌, ◌^◌, ◌≤◌, ◌<◌, ◌≡◌, ◌≢◌, ◌⊎◌, inl, inr, refl, sym, ap, ◌∙◌, subst, Option,
  none, some, List, [], ◌∷◌, leb, ltb, if◌then◌else◌, arith, Bool-cases, ==-refl, ltb→lt,
  ltb_false→le, Outcome, done, assert_failed, diverged, length,
}
use frosty_os.Scheduler.{ProcessorState, nice_levels, max_run_count, put, pop_front, get_head}
use frosty_os.Scheduler.Select.{Choice, renewed, select, counts_after, exhausted}
use frosty_os.Scheduler.Pick.{Picked, pick_next, run, pick_level}
use frosty_os.Scheduler.Chosen.{Chosen, idle, ran, select-Chosen, renewed_ne}
use frosty_os.Scheduler.Digits.{value, Digits, value-lt, value-grows}

renewed-le : (counts : ℕ → ℕ) (first j : ℕ) → renewed counts first j ≤ counts j
renewed-le counts first j = elim (Bool-cases (exhausted counts first)) [
  | inl e ↦ rw e (ground arith)
  | inr e ↦ rw e (omega arith)
]

-- The counts after the pick of `level`.
after-at :
    (counts : ℕ → ℕ) (level : ℕ)
    → counts level ≤ 2
    → counts_after (some level) counts level ≡ suc (counts level)
after-at counts level h = ground arith

after-below :
    (counts : ℕ → ℕ) (level j : ℕ) → j < level → counts_after (some level) counts j ≡ counts j
after-below counts level j h = ground arith

after-above :
    (counts : ℕ → ℕ) (level j : ℕ)
    → level < j
    → j < nice_levels
    → Digits counts
    → counts_after (some level) counts j ≡ (if leb 2 (counts j) then 0 else counts j)
after-above counts level j h b d = ground arith

abbrev next : ℕ → (ℕ → ℕ) → ℕ → ℕ → ℕ
next first counts level = counts_after (some level) (renewed counts first)

renewed-Digits : (counts : ℕ → ℕ) (first : ℕ) → Digits counts → Digits (renewed counts first)
renewed-Digits counts first d j = omega (arith, renewed-le counts first j, d j)

-- The chosen level has runs left once its count has started again.
renewed-lt :
    (counts : ℕ → ℕ) (first level : ℕ)
    → (first ≡ level) ⊎ (counts level < max_run_count)
    → renewed counts first level < 2
renewed-lt counts first level (inl e) = rw e (elim (Bool-cases (exhausted counts level)) [
  | inl over ↦ rw (over, ==-refl level) (omega arith)
  | inr under ↦ rw under (ground (arith, under))
])
renewed-lt counts first level (inr low) = omega (arith, renewed-le counts first level)

next-Digits :
    (first : ℕ) (counts : ℕ → ℕ) (level : ℕ)
    → (first ≡ level) ⊎ (counts level < max_run_count)
    → Digits counts
    → Digits (next first counts level)
next-Digits first counts level low d j =
    ground (arith, renewed-Digits counts first d j, renewed-lt counts first level low)

-- What is left of the wait of level `l`, with `n` levels behind it.
abbrev budget : (l n : ℕ) → (ℕ → ℕ) → ℕ
budget l n counts = (if leb 2 (counts l) then 3 ^ n else 0) + (3 ^ n - value counts (suc l) n)

module _ (queues : ℕ → List ℕ) (counts : ℕ → ℕ) (l n : ℕ) where
  budget-falls :
      (first level : ℕ)
      → Digits counts
      → l + suc n ≡ nice_levels
      → queues l ≢ []
      → l ≢ level
      → first ≤ level
      → level < nice_levels
      → ((j : ℕ) → j < first → queues j ≡ [])
      → (first ≡ level) ⊎ (counts level < max_run_count)
      → ((j : ℕ) → level < j → j < nice_levels → (queues j ≡ []) ⊎ (max_run_count ≤ counts j))
      → budget l n (next first counts level) < budget l n counts
  budget-falls first level d size waits other le lt empty low rest =
      elim (Bool-cases (ltb l level)) [
        | inl e ↦
            let above : l < level = ltb→lt l level e in
            let kept : (j : ℕ) → l < j → renewed counts first j ≡ counts j =
              λ j behind. renewed_ne counts first j (omega (arith, front)) in
            let grown =
              value-grows counts (next first counts level) level (suc l) n d above (omega arith)
                (λ j behind before.
                  after-below (renewed counts first) level j before ∙ kept j behind)
                (after-at (renewed counts first) level (omega (arith, small))
                  ∙ ap suc (kept level above)) in
            ground (
              arith,
              grown,
              d l,
              value-lt (next first counts level) (suc l) n after,
              after-below (renewed counts first) level l above,
              renewed-le counts first l,
            )
        | inr e ↦
            let below : level < l = ground (arith, e, other) in
            let spent : 2 ≤ counts l = elim (rest l below (omega arith)) [
              | inl none_here ↦ absurd (waits none_here)
              | inr many ↦ many
            ] in
            ground (
              arith,
              spent,
              value-lt counts (suc l) n d,
              after-above (renewed counts first) level l below (omega arith) after0,
            )
      ]
    where
      front : first ≤ l
      front = elim (Bool-cases (ltb l first)) [
        | inl e ↦ absurd (waits (empty l (ltb→lt l first e)))
        | inr e ↦ ltb_false→le l first e
      ]

      small : renewed counts first level < 2
      small = renewed-lt counts first level low

      after : Digits (next first counts level)
      after = next-Digits first counts level low d

      after0 : Digits (renewed counts first)
      after0 = renewed-Digits counts first d

-- The picks of one processor in order, `k` of which pass over level `l`: each time the level has a
-- thread and its list is left alone. Between two picks the lists change at will; the run counts
-- are what the last pick left.
pub data PassedOver (l : ℕ) (start : ℕ → ℕ) : ℕ → (ℕ → ℕ) → Type 0 where
  begin : PassedOver l start 0 start
  pass :
      {k : ℕ} {counts : ℕ → ℕ}
      → PassedOver l start k counts
      → (own : ProcessorState) (states : List ProcessorState) (p : Picked) → own.run_counts ≡ counts
      → own.threads l ≢ []
      → pick_next own states ≡ done p
      → p.own.threads l ≡ own.threads l
      → PassedOver l start (suc k) p.own.run_counts

abbrev picked_or : Picked → Outcome Picked → Picked
picked_or p (done q) = q
picked_or p assert_failed = p
picked_or p diverged = p

run-counts :
    (moved t : Option ℕ) (own : ProcessorState) (states : List ProcessorState) (p : Picked)
    → run moved t own states ≡ done p
    → (p.own.run_counts ≡ own.run_counts) × (p.own.threads ≡ own.threads)
run-counts moved none own states p h = absurd (cc)
run-counts moved (some t) own states p h = (
  sym (ap (λ (o : Outcome Picked). (picked_or p o).own.run_counts) h),
  sym (ap (λ (o : Outcome Picked). (picked_or p o).own.threads) h),
)

length-pop_front : (list : List ℕ) → list ≢ [] → length (pop_front list) < length list
length-pop_front [] some_here = absurd (some_here refl)
length-pop_front (t ∷ ts) some_here = omega arith

put_self : (f : ℕ → List ℕ) (i : ℕ) (v : List ℕ) → put f i v i ≡ v
put_self f i v = rw (==-refl i) refl

-- One pick that passes over level `l`.
pick_level-budget :
    (l n : ℕ) (own : ProcessorState) (states : List ProcessorState) (p : Picked) (c : Choice)
    → l + suc n ≡ nice_levels
    → Digits own.run_counts
    → own.threads l ≢ []
    → p.own.threads l ≡ own.threads l
    → Chosen own.threads own.run_counts nice_levels c
    → pick_level own states c ≡ done p
    → (budget l n p.own.run_counts < budget l n own.run_counts) × Digits p.own.run_counts
pick_level-budget l n own states p c size d waits left (idle all_empty) h =
    absurd (waits (all_empty l (omega arith)))
pick_level-budget l n own states p c size d waits left
      (ran first level le lt empty some_first some_level low rest) h =
    let facts = run-counts none (get_head (own.threads level)) _ states p h in
    let other : l ≢ level = λ same.
      let now : p.own.threads l ≡ put own.threads l (pop_front (own.threads l)) l =
        subst (λ i. p.own.threads l ≡ put own.threads i (pop_front (own.threads i)) l) (sym same)
          (ap (λ f. f l) facts.1) in
      let gone = now ∙ put_self own.threads l (pop_front (own.threads l)) in
      let shorter = length-pop_front (own.threads l) waits in
      omega (arith, shorter, ap length (sym left ∙ gone)) in
    rw facts.0 (
      budget-falls own.threads own.run_counts l n first level d size waits other le lt empty low
          rest,
      next-Digits first own.run_counts level low d,
    )

PassedOver-budget :
    {start : ℕ → ℕ} (l n : ℕ)
    → l + suc n ≡ nice_levels
    → Digits start
    → {k : ℕ} {counts : ℕ → ℕ} → PassedOver l start k counts
    → (budget l n counts + k ≤ budget l n start) × Digits counts
unfolding pick_next
PassedOver-budget l n size d begin = (omega arith, d)
PassedOver-budget l n size d (pass earlier own states p same waits picked left) =
    let before = PassedOver-budget l n size d earlier in
    let here =
      pick_level-budget l n own states p (select own.threads own.run_counts) size (rw same before.1)
        waits left (select-Chosen own.threads own.run_counts) picked in
    (omega (arith, before.0, here.0, ap (budget l n) same), here.1)

-- Level `l`, with `n` levels behind it, has a thread in its list at every one of the `k` picks of a
-- processor, and none of the picks takes from it: then `k` is less than 2·3ⁿ, so a queued thread's
-- level is always served again. The run counts are at most 2 at the start, and between two picks
-- the lists of all processors may change at will.
pub starvation_lem :
    {start counts : ℕ → ℕ} {k : ℕ} (l n : ℕ)
    → l + suc n ≡ nice_levels
    → Digits start
    → PassedOver l start k counts
    → k < 2 * 3 ^ n
starvation_lem {start} {counts} l n size d run =
    let facts = PassedOver-budget l n size d run in
    ground (arith, facts.0, value-lt counts (suc l) n facts.1)

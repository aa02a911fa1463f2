-- ===== src/Scheduler/Chosen.antt =====
-- Which level the loop of kernel/src/Scheduling/Scheduler.cpp chooses.
use frosty_os.Prelude.{
  ℕ, zero, suc, ◌+◌, ◌≤◌, ◌<◌, ◌≡◌, ◌≢◌, ◌⊎◌, inl, inr, refl, sym, ◌∙◌, subst, true, false, none,
  some, List, [], ◌∷◌, ◌==◌, ◌||◌, arith, Bool-cases, ==-ne, ==_iff,
}
use frosty_os.Scheduler.{nice_levels, max_run_count, is_empty}
use frosty_os.Scheduler.Select.{
  Choice, exhausted, renewed, is_skipped, consider, consider_from, select,
}

-- The outcome of the first `n` levels. `ran first level`: `first` is the first level with a thread
-- and `level` the one that is chosen; it is `first`, or it has had fewer runs than the limit; each
-- level behind it is empty or exhausted; only the count of `first` may have started again.
pub data Chosen (queues : ℕ → List ℕ) (counts : ℕ → ℕ) (n : ℕ) : Choice → Type 0 where
  idle :
      ((j : ℕ) → j < n → queues j ≡ [])
      → Chosen queues counts n (record { level = none; counts = counts })
  ran :
      (first level : ℕ)
      → first ≤ level
      → level < n
      → ((j : ℕ) → j < first → queues j ≡ [])
      → queues first ≢ []
      → queues level ≢ []
      → (first ≡ level) ⊎ (counts level < max_run_count)
      → ((j : ℕ) → level < j → j < n → (queues j ≡ []) ⊎ (max_run_count ≤ counts j))
      → Chosen queues counts n (record { level = some level; counts = renewed counts first })

is_empty-true : (list : List ℕ) → is_empty list ≡ true → list ≡ []
is_empty-true [] h = refl
is_empty-true (x ∷ xs) h = absurd (cc)

is_empty-false : (list : List ℕ) → is_empty list ≡ false → list ≢ []
is_empty-false [] h = absurd (cc)
is_empty-false (x ∷ xs) h = λ e. absurd (cc)

pub renewed_ne : (counts : ℕ → ℕ) (first j : ℕ) → j ≢ first → renewed counts first j ≡ counts j
renewed_ne counts first j ne = elim (Bool-cases (exhausted counts first)) [
  | inl e ↦ rw (e, ==-ne j first ne) refl
  | inr e ↦ rw e refl
]

module _ (queues : ℕ → List ℕ) (counts : ℕ → ℕ) where
  snoc_level : (P : ℕ → Type 0) (n : ℕ) → ((j : ℕ) → j < n → P j) → P n → (j : ℕ) → j < suc n → P j
  snoc_level P n before now j h = elim (Bool-cases (j == n)) [
    | inl e ↦ subst P (sym ((==_iff j n).0 e)) now
    | inr e ↦ before j (ground (arith, e, h))
  ]

  idle-is_skipped :
      (n : ℕ) → is_skipped queues (record { level = none; counts = counts }) n ≡ is_empty (queues n)
  idle-is_skipped n = ground arith

  ran-is_skipped :
      (n first level : ℕ)
      → first ≤ level
      → level < n
      → is_skipped queues (record { level = some level; counts = renewed counts first }) n
        ≡ (is_empty (queues n) || exhausted counts n)
  ran-is_skipped n first level le lt =
      let same = renewed_ne counts first n (omega arith) in
      rw same (rw (==-ne n 0 (omega arith)) (ground arith))

  skip_cases :
      (n : ℕ)
      → (is_empty (queues n) || exhausted counts n) ≡ true
      → (queues n ≡ []) ⊎ (max_run_count ≤ counts n)
  skip_cases n h = elim (Bool-cases (is_empty (queues n))) [
    | inl e ↦ inl (is_empty-true (queues n) e)
    | inr e ↦ inr (ground (arith, e, h))
  ]

  go_cases :
      (n : ℕ)
      → (is_empty (queues n) || exhausted counts n) ≡ false
      → (is_empty (queues n) ≡ false) × (counts n < max_run_count)
  go_cases n h = (ground (arith, h), ground (arith, h))

  consider-Chosen :
      (n : ℕ) (c : Choice)
      → Chosen queues counts n c
      → Chosen queues counts (suc n) (consider queues c n)
  unfolding consider
  consider-Chosen n c (idle none_before) = elim (Bool-cases (is_empty (queues n))) [
    | inl e ↦
        rw (idle-is_skipped n ∙ e)
          (idle (snoc_level (λ j. queues j ≡ []) n none_before (is_empty-true (queues n) e)))
    | inr e ↦
        let some_here = is_empty-false (queues n) e in
        rw (idle-is_skipped n ∙ e) (
          ran n n (omega arith) (omega arith) none_before some_here some_here (inl refl)
            (λ j above below. absurd (omega arith)))
  ]
  consider-Chosen n c (ran first level le lt empty some_first some_level small rest) =
      elim (Bool-cases (is_empty (queues n) || exhausted counts n)) [
        | inl e ↦ rw (ran-is_skipped n first level le lt ∙ e) (
            ran first level le (omega arith) empty some_first some_level small (λ j above below.
              snoc_level (λ k. level < k → (queues k ≡ []) ⊎ (max_run_count ≤ counts k)) n
                (λ k low high. rest k high low) (λ high. skip_cases n e) j below above))
        | inr e ↦ rw (ran-is_skipped n first level le lt ∙ e) (
            ran first n (omega arith) (omega arith) empty some_first
              (is_empty-false (queues n) (go_cases n e).0) (inr (go_cases n e).1)
              (λ j above below. absurd (omega arith)))
      ]

  consider_from-Chosen :
      (m n : ℕ) (c : Choice)
      → Chosen queues counts n c
      → Chosen queues counts (n + m) (consider_from queues m n c)
  unfolding consider_from
  consider_from-Chosen zero n c h = let same : n + zero ≡ n = omega arith in rw same h
  consider_from-Chosen (suc m) n c h =
      let here = consider_from-Chosen m (suc n) (consider queues c n) (consider-Chosen n c h) in
      let shift : n + suc m ≡ suc n + m = omega arith in rw shift here

  pub select-Chosen : Chosen queues counts nice_levels (select queues counts)
  unfolding select
  select-Chosen = consider_from-Chosen nice_levels 0 _ (idle (λ j below. absurd (omega arith)))

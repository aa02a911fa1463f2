-- ===== src/Scheduler/Conserved.antt =====
-- What `PickNext` of kernel/src/Scheduling/Scheduler.cpp takes from which list.
use frosty_os.Prelude.{
  ℕ, ◌<◌, ◌≡◌, ◌≢◌, ◌⊎◌, inl, inr, refl, sym, ap, subst, true, none, some, List, [], ◌∷◌, ◌++◌,
  ◌==◌, arith, Bool-cases, ==-ne, ==-refl, ==_iff, done, All,
}
use frosty_os.Scheduler.{ProcessorState, nice_levels, get_head, pop_front}
use frosty_os.Scheduler.Select.{Choice, renewed, select, counts_after}
use frosty_os.Scheduler.Pick.{
  Picked, Stolen, keep, tried, steal_thread, popped, pick_next, pick_other, pick_level, with_counts,
  run_thread,
}
use frosty_os.Scheduler.Chosen.{Chosen, idle, ran, select-Chosen}

-- No level of the processor has a thread.
abbrev pub NoWork : ProcessorState → Type 0
NoWork s = (j : ℕ) → j < nice_levels → s.threads j ≡ []

-- A processor that `StealThreadFromOther` takes nothing from.
abbrev pub IsPassed : ℕ → ProcessorState → Type 0
IsPassed id s = (s.id ≡ id) ⊎ NoWork s

-- From `s` to `after` the thread left the front of one level, and no other level changed.
pub record Taken (s after : ProcessorState) (thread : ℕ) : Type 0 where
  pub level : ℕ
  pub known : level < nice_levels
  pub front : s.threads level ≡ thread ∷ after.threads level
  pub others : (j : ℕ) → j ≢ level → after.threads j ≡ s.threads j

get_head-ne :
    (list : List ℕ) → list ≢ [] → (t : ℕ) × (get_head list ≡ some t) × (list ≡ t ∷ pop_front list)
get_head-ne [] h = absurd (h refl)
get_head-ne (t ∷ ts) h = (t, refl, refl)

popped-Taken :
    (s after : ProcessorState) (level t : ℕ)
    → after.threads ≡ (popped level s).threads
    → level < nice_levels
    → s.threads level ≡ t ∷ pop_front (s.threads level)
    → Taken s after t
popped-Taken s after level t same below e = record {
  level = level;
  known = below;
  front = rw same (rw (==-refl level) e);
  others = λ j ne. rw same (rw (==-ne j level ne) refl);
}

-- What the loop over the processors comes to.
pub data Found (id : ℕ) (counts : ℕ → ℕ) (states : List ProcessorState) : Stolen → Type 0 where
  nothing :
      All (IsPassed id) states
      → Found id counts states
          (record { thread = none; level = none; counts = counts; states = states })
  taken :
      (before after : List ProcessorState) (s : ProcessorState) (t level first : ℕ)
      → states ≡ before ++ (s ∷ after)
      → All (IsPassed id) before
      → s.id ≢ id
      → Taken s (popped level s) t
      → Found id counts states (record {
        thread = some t;
        level = some level;
        counts = renewed counts first;
        states = before ++ (popped level s ∷ after);
      })

Found-cons :
    {id : ℕ} {counts : ℕ → ℕ} {states : List ProcessorState} (s : ProcessorState) (r : Stolen)
    → IsPassed id s
    → Found id counts states r
    → Found id counts (s ∷ states) (keep s r)
Found-cons s r passed (nothing all) = nothing (passed, all)
Found-cons s r passed (taken before after v t level first split all other out) =
    taken (s ∷ before) after v t level first (ap (λ l. s ∷ l) split) (passed, all) other out

module _ (id : ℕ) (counts : ℕ → ℕ) (s : ProcessorState) (rest : List ProcessorState) where
  abbrev steal_here : Choice → Stolen
  steal_here c = elim (c.level) [
    | none ↦ keep s (steal_thread id c.counts rest)
    | some level ↦ record {
      thread = get_head (s.threads level);
      level = some level;
      counts = c.counts;
      states = popped level s ∷ rest;
    }
  ]

  steal_here-Found :
      (c : Choice)
      → s.id ≢ id
      → Found id counts rest (steal_thread id counts rest)
      → Chosen s.threads counts nice_levels c
      → Found id counts (s ∷ rest) (steal_here c)
  steal_here-Found c other ih (idle empty) =
      Found-cons s (steal_thread id counts rest) (inr empty) ih
  steal_here-Found c other ih (ran first level le lt empty some_first some_level low later) =
      let front = get_head-ne (s.threads level) some_level in
      rw front.1 (
        taken [] rest s front.0 level first refl tt other
          (popped-Taken s (popped level s) level front.0 refl lt front.2))

steal_thread-Found :
    (id : ℕ) (counts : ℕ → ℕ) (states : List ProcessorState)
    → Found id counts states (steal_thread id counts states)
unfolding steal_thread
steal_thread-Found id counts [] = nothing tt
steal_thread-Found id counts (s ∷ rest) =
    let ih = steal_thread-Found id counts rest in
    let Goal : Choice → Type 0 = λ c. Found id counts (s ∷ rest) (steal_here id counts s rest c) in
    elim (Bool-cases (s.id == id)) [
      | inl e ↦
          let own : tried id counts s ≡ record { level = none; counts = counts } = rw e refl in
          subst Goal (sym own)
            (Found-cons s (steal_thread id counts rest) (inl ((==_iff s.id id).0 e)) ih)
      | inr e ↦
          let foreign : tried id counts s ≡ select s.threads counts = rw e refl in
          subst Goal (sym foreign) (
            steal_here-Found id counts s rest (select s.threads counts)
              (λ same. absurd (ground (arith, e, same))) ih (select-Chosen s.threads counts))
    ]

-- Where the thread that runs next comes from: the front of one of the caller's own levels; or, when
-- these are all empty, the front of a level of the first other processor that has a thread; or,
-- when there is no thread on any, the idle thread.
pub data PickedFrom (own : ProcessorState) (states : List ProcessorState) : Picked → Type 0 where
  own_level :
      (p : Picked) (t : ℕ)
      → p.own.current_thread ≡ some t
      → Taken own p.own t
      → p.states ≡ states
      → PickedFrom own states p
  other_level :
      (p : Picked) (t : ℕ) (before after : List ProcessorState) (s left : ProcessorState)
      → p.own.current_thread ≡ some t
      → p.moved ≡ some t
      → NoWork own
      → p.own.threads ≡ own.threads
      → states ≡ before ++ (s ∷ after)
      → All (IsPassed own.id) before
      → s.id ≢ own.id
      → Taken s left t
      → p.states ≡ before ++ (left ∷ after)
      → PickedFrom own states p
  idle_thread :
      (p : Picked)
      → p.own.current_thread ≡ own.idle_thread
      → p.own.is_idle ≡ true
      → NoWork own
      → All (IsPassed own.id) states
      → p.own.threads ≡ own.threads
      → p.states ≡ states
      → PickedFrom own states p

abbrev Picks : ProcessorState → List ProcessorState → Choice → Type 0
Picks own states c = (p : Picked) × (pick_level own states c ≡ done p) × PickedFrom own states p

pick_other-Picks :
    (own : ProcessorState) (states : List ProcessorState) (i : ℕ) (r : Stolen)
    → own.idle_thread ≡ some i
    → NoWork own
    → Found own.id own.run_counts states r
    → (p : Picked) × (pick_other own r ≡ done p) × PickedFrom own states p
pick_other-Picks own states i r has_idle empty (nothing all) =
    let c = counts_after none own.run_counts in
    (
      record { moved = none; own = run_thread i (with_counts c own); states = states },
      rw has_idle refl,
      idle_thread _ (sym has_idle) (rw has_idle (==-refl i)) empty all refl refl,
    )
pick_other-Picks own states i r has_idle empty
      (taken before after s t level first split all other out) =
    (
      record {
        moved = some t;
        own =
            run_thread t
              (with_counts (counts_after (some level) (renewed own.run_counts first)) own);
        states = before ++ (popped level s ∷ after);
      },
      refl,
      other_level _ t before after s (popped level s) refl refl empty refl split all other out refl,
    )

pick_level-Picks :
    (own : ProcessorState) (states : List ProcessorState) (i : ℕ) (c : Choice)
    → own.idle_thread ≡ some i
    → Chosen own.threads own.run_counts nice_levels c
    → Picks own states c
pick_level-Picks own states i c has_idle (idle empty) =
    pick_other-Picks own states i _ has_idle empty (steal_thread-Found own.id own.run_counts states)
pick_level-Picks own states i c has_idle
      (ran first level le lt empty some_first some_level low later) =
    let front = get_head-ne (own.threads level) some_level in
    (
      record {
        moved = none;
        own = run_thread front.0 (
            with_counts (counts_after (some level) (renewed own.run_counts first))
              (popped level own));
        states = states;
      },
      rw front.1 refl,
      own_level _ front.0 refl (popped-Taken own _ level front.0 refl lt front.2) refl,
    )

-- On a processor that has an idle thread, `PickNext` always finds a thread to run. It is the front
-- of one of the processor's own levels, the other processors unchanged; or, only if these are all
-- empty, the front of a level of the first other processor in the list that has one; or, only if
-- no processor of the list has a thread, the idle thread. No other thread leaves a list.
pub pick_next_lem :
    (own : ProcessorState) (states : List ProcessorState) (i : ℕ)
    → own.idle_thread ≡ some i
    → (p : Picked) × (pick_next own states ≡ done p) × PickedFrom own states p
unfolding pick_next
pick_next_lem own states i has_idle =
    pick_level-Picks own states i (select own.threads own.run_counts) has_idle
      (select-Chosen own.threads own.run_counts)

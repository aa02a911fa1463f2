-- ===== src/ThreadList/Walk.antt =====
-- `Enumerate` and `EnumerateConst` of kernel/src/Scheduling/ThreadList.cpp. What the callback does to
-- its data and to the list is part of its result.
use frosty_os.Prelude.{ℕ, true, false, zero, suc, Outcome, done, ◌>>=◌, ◌==◌, if◌then◌else◌}
use frosty_os.ThreadList.{ThreadList, remove}

pub data IteratorDecision : Type 0 where
  break : IteratorDecision
  continue : IteratorDecision
  delete_break : IteratorDecision
  delete : IteratorDecision

-- A callback, over data of the type `A`.
abbrev pub Callback : Type 0 → Type 0
Callback A = ℕ → ThreadList → A → IteratorDecision × ThreadList × A

module _ {A : Type 0} (func : Callback A) where
  -- The loop of `Enumerate` from `thread`, with `rounds` left
  unfoldable pub enumerate_from : ℕ → ℕ → ThreadList → A → Outcome (ThreadList × A)
  enumerate_from zero thread l a = done (l, a)
  enumerate_from (suc rounds) thread l a =
      let next = (l.threads thread).next in
      let (decision, l', a') = func thread l a in
      elim (thread == 0) [
        | true ↦ done (l, a)
        | false ↦ elim decision [
          | break ↦ done (l', a')
          | continue ↦ enumerate_from rounds next l' a'
          | delete_break ↦ remove l' thread >>= λ k. done (k, a')
          | delete ↦ remove l' thread >>= λ k. enumerate_from rounds next k a'
        ]
      ]

  -- `Enumerate`
  unfoldable pub enumerate : ThreadList → A → Outcome (ThreadList × A)
  enumerate l a = enumerate_from l.count l.head l a

-- `EnumerateConst`, whose callback leaves the list alone.
module _ {A : Type 0} (func : ℕ → A → IteratorDecision × A) where
  unfoldable pub enumerate_const_from : ℕ → ℕ → ThreadList → A → A
  enumerate_const_from zero thread l a = a
  enumerate_const_from (suc rounds) thread l a =
      let r = func thread a in
      let rest = enumerate_const_from rounds (l.threads thread).next l r.1 in
      if thread == 0
      then a
      else elim (r.0) [ break ↦ r.1 | delete_break ↦ r.1 | continue ↦ rest | delete ↦ rest ]

  unfoldable pub enumerate_const : ThreadList → A → A
  enumerate_const l a = enumerate_const_from l.count l.head l a

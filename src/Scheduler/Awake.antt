-- ===== src/Scheduler/Awake.antt =====
-- The sleeping threads of `TimerTick` of kernel/src/Scheduling/Scheduler.cpp.
use frosty_os.Prelude.{
  zero, suc, ◌<◌, some, leb, All, done, ◌>>=◌, ℕ, ◌≡◌, refl, ap, ◌∙◌, Bool, false, List, [], ◌∷◌,
  ◌++◌, ◌==◌, arith, Bool-cases, inl, inr,
}
use frosty_os.Scheduler.{Thread, is_in, nice_levels, linked_in, linked_levels}
use frosty_os.Scheduler.Timer.{Sleepers, wakes, tick_sleeper, tick_sleepers}
use frosty_os.Scheduler.SeenTo.{
  keep_if, Distinct, woken, seen_to, all_seen_to, seen_to-info, seen_to-threads,
}

-- The thread's process has a nice level in range, and no list but that of the sleeping threads has the
-- thread.
abbrev pub Ready : (elsewhere : ℕ → Bool) → Sleepers → ℕ → Type 0
Ready elsewhere s thread =
    (nice : ℕ) × ((s.info thread).parent_nice ≡ some nice)
    × (nice < nice_levels)
    × ((j : ℕ) → is_in thread (s.threads j) ≡ false)
    × (elsewhere thread ≡ false)

pub linked_in-out : (t : ℕ) (list : List ℕ) → is_in t list ≡ false → linked_in t list ≡ false
linked_in-out t [] h = refl
linked_in-out t (x ∷ []) h = refl
linked_in-out t (x ∷ y ∷ rest) h = h

pub linked_levels-out :
    (n t : ℕ) (threads : ℕ → List ℕ)
    → ((j : ℕ) → is_in t (threads j) ≡ false)
    → linked_levels n t threads ≡ false
unfolding linked_levels
linked_levels-out zero t threads h = refl
linked_levels-out (suc n) t threads h =
    rw (linked_in-out t (threads n) (h n)) (linked_levels-out n t threads h)

pub is_in-append :
    (t : ℕ) (xs ys : List ℕ) → is_in t xs ≡ false → is_in t ys ≡ false → is_in t (xs ++ ys) ≡ false
is_in-append t [] ys hx hy = hy
is_in-append t (x ∷ xs) ys hx hy = ground (arith, hx, is_in-append t xs ys (ground (arith, hx)) hy)

pub is_in-keep_if :
    (p : ℕ → Bool) (t : ℕ) (xs : List ℕ) → is_in t xs ≡ false → is_in t (keep_if p xs) ≡ false
is_in-keep_if p t [] h = refl
is_in-keep_if p t (x ∷ xs) h = ground (arith, h, is_in-keep_if p t xs (ground (arith, h)))

module _ (ms : ℕ) (elsewhere : ℕ → Bool) where
  -- A thread that is ready passes the assertion and the bounds of the array.
  tick_sleeper-done :
      (thread : ℕ) (s : Sleepers)
      → Ready elsewhere s thread
      → tick_sleeper ms elsewhere thread s ≡ done (seen_to ms thread s)
  unfolding tick_sleeper seen_to
  tick_sleeper-done thread s (nice, parent, below, out, free) =
      let in_range : leb nice_levels nice ≡ false = ground (arith, below) in
      let linked = linked_levels-out nice_levels thread s.threads out in
      elim (Bool-cases (wakes ms (s.info thread))) [
        | inl e ↦ rw (e, parent, in_range, free, linked, out nice) refl
        | inr e ↦ rw e refl
      ]

  -- The other threads stay ready when one is seen to.
  seen_to-Ready :
      (x : ℕ) (s : Sleepers) (xs : List ℕ)
      → is_in x xs ≡ false
      → All (Ready elsewhere s) xs
      → All (Ready elsewhere (seen_to ms x s)) xs
  seen_to-Ready x s [] out h = tt
  seen_to-Ready x s (y ∷ ys) out ((nice, parent, below, none_of, free), h) =
      let other : (y == x) ≡ false = ground (arith, out) in
      let one : is_in y (x ∷ []) ≡ false = rw other refl in
      let same : (seen_to ms x s).info y ≡ s.info y = seen_to-info ms x s y ∙ rw other refl in
      (
        (
          nice,
          ap (λ (i : Thread). i.parent_nice) same ∙ parent,
          below,
          λ j.
              ap (is_in y) (seen_to-threads ms x s j)
              ∙ is_in-append y (s.threads j) _ (none_of j)
                  (is_in-keep_if (woken ms s.info j) y (x ∷ []) one),
          free,
        ),
        seen_to-Ready x s ys (ground (arith, out)) h,
      )

  pub tick_sleepers-done :
      (list : List ℕ) (s : Sleepers)
      → Distinct list
      → All (Ready elsewhere s) list
      → tick_sleepers ms elsewhere list s ≡ done (all_seen_to ms list s)
  unfolding tick_sleepers all_seen_to
  tick_sleepers-done [] s d h = refl
  tick_sleepers-done (x ∷ xs) s (out, d) (first, h) =
      ap (λ o. o >>= λ s'. tick_sleepers ms elsewhere xs s') (tick_sleeper-done x s first)
      ∙ tick_sleepers-done xs (seen_to ms x s) d (seen_to-Ready x s xs out h)

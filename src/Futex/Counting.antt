-- ===== src/Futex/Counting.antt =====
-- The reference counts of the queues of kernel/src/SystemCalls/Futex.cpp.
use frosty_os.Prelude.{
  ℕ, ◌≡◌, false, none, some, arith, ◌==◌, Outcome, done, assert_failed, diverged,
}
use frosty_os.AvlTree.{RawTree}
use frosty_os.Futex.{FutexTable, get_or_create, get_for_wake, put_futex}

module _ (raw : RawTree ℕ) where
  -- The queue of an address, with one reference.
  abbrev pub HasOne : FutexTable raw → ℕ → ℕ → Type 0
  HasOne t virt q = (raw.rb_find t.tree virt ≡ some q) × (t.ref_count q ≡ 1)

  -- After `GetOrCreateFutex` gives `q`, `PutFutex` leaves it with one reference.
  abbrev pub GivesOne : Outcome (ℕ × FutexTable raw) → ℕ → ℕ → Type 0
  GivesOne (done (p, t)) virt q = (p ≡ q) × HasOne (put_futex raw t virt p) virt q
  GivesOne assert_failed virt q = ⊥
  GivesOne diverged virt q = ⊥

  created :
      (s : FutexTable raw) (virt fresh : ℕ)
      → (fresh == 0) ≡ false
      → raw.rb_find s.tree virt ≡ none
      → GivesOne (get_or_create raw fresh s virt) virt fresh
  unfolding get_or_create put_futex
  created s virt fresh nz h = ground (arith, nz, h, raw.find-insert s.tree virt fresh virt)

  used :
      (t : FutexTable raw) (virt q other : ℕ)
      → (q == 0) ≡ false
      → HasOne t virt q
      → GivesOne (get_or_create raw other t virt) virt q
  unfolding get_or_create put_futex
  used t virt q other nz h = ground (arith, nz, h.0, h.1)

  woken_up :
      (t : FutexTable raw) (virt q : ℕ)
      → (q == 0) ≡ false
      → HasOne t virt q
      → ((get_for_wake raw t virt).0 ≡ q)
        × HasOne (put_futex raw (get_for_wake raw t virt).1 virt q) virt q
  unfolding get_for_wake put_futex
  woken_up t virt q nz h = ground (arith, nz, h.0, h.1)

  -- `GetOrCreateFutex` at an address without a queue, with memory for a new one, gives the new queue,
  -- and `PutFutex` leaves it in the tree with the count 1; and whenever the address has a queue with
  -- the count 1, `GetOrCreateFutex` or `GetFutexForWake` gives it, and `PutFutex` leaves it there with
  -- the count 1.
  pub counting_lem :
      (s t : FutexTable raw) (virt fresh q other : ℕ)
      → (fresh == 0) ≡ false
      → raw.rb_find s.tree virt ≡ none
      → (q == 0) ≡ false
      → HasOne t virt q
      → GivesOne (get_or_create raw fresh s virt) virt fresh
        × GivesOne (get_or_create raw other t virt) virt q
        × ((get_for_wake raw t virt).0 ≡ q)
        × HasOne (put_futex raw (get_for_wake raw t virt).1 virt q) virt q
  counting_lem s t virt fresh q other memory h nz one =
      let woken = woken_up t virt q nz one in
      (created s virt fresh memory h, used t virt q other nz one, woken.0, woken.1)

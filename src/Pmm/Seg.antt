-- ===== src/Pmm/Seg.antt =====
-- Linked segments of the free list in memory, and the walks of PMM.cpp over them.
use frosty_os.Prelude.{
  ℕ, zero, suc, ◌≤◌, ◌<◌, ◌≡◌, refl, List, [], ◌∷◌, ◌++◌, done, arith, length, All,
}
use frosty_os.Pmm.Region.Order.{base_above}
use frosty_os.Pmm.Region.{Region, end_of, Sorted}
use frosty_os.Pmm.{Memory}
use frosty_os.Pmm.Take.{find_fit}
use frosty_os.Pmm.Give.{find_place}

-- From `p`, following `Next`, memory holds a node for each region, and then `q` is reached.
abbrev pub Seg : Memory → ℕ → List Region → ℕ → Type 0
Seg mem p [] q = p ≡ q
Seg mem p (r ∷ rs) q =
    (p ≡ r.base) × ((mem r.base).page_count ≡ r.pages) × Seg mem (mem r.base).next rs q

-- The base of the last region, or `prev` if there is none.
abbrev pub last_of : ℕ → List Region → ℕ
last_of prev [] = prev
last_of prev (r ∷ rs) = last_of r.base rs

pub last_of-append :
    (prev : ℕ) (xs : List Region) (r : Region) (ys : List Region)
    → last_of prev (xs ++ r ∷ ys) ≡ last_of r.base ys
last_of-append prev [] r ys = refl
last_of-append prev (x ∷ xs) r ys = last_of-append x.base xs r ys

module _ (mem : Memory) where
  pub Seg-append :
      (p m q : ℕ) (xs ys : List Region) → Seg mem p xs m → Seg mem m ys q → Seg mem p (xs ++ ys) q
  Seg-append p m q [] ys h k = rw h k
  Seg-append p m q (x ∷ xs) ys h k = (h.0, h.1, Seg-append (mem x.base).next m q xs ys h.2 k)

  pub Seg-split :
      (p q : ℕ) (xs : List Region) (r : Region) (ys : List Region)
      → Seg mem p (xs ++ r ∷ ys) q
      → Seg mem p xs r.base × Seg mem r.base (r ∷ ys) q
  Seg-split p q [] r ys h = (h.0, (refl, h.1, h.2))
  Seg-split p q (x ∷ xs) r ys h =
      let rest = Seg-split (mem x.base).next q xs r ys h.2 in ((h.0, h.1, rest.0), rest.1)

  -- Memory that agrees at the nodes of a segment holds the same segment.
  pub Seg-frame :
      (mem' : Memory) (p q : ℕ) (rs : List Region)
      → All (λ r. mem' r.base ≡ mem r.base) rs
      → Seg mem p rs q
      → Seg mem' p rs q
  Seg-frame mem' p q [] a h = h
  Seg-frame mem' p q (r ∷ rs) a h =
      let e = a.0 in (h.0, rw e h.1, rw e (Seg-frame mem' (mem r.base).next q rs a.1 h.2))

  -- The first fit walk passes the regions that are too small.
  pub find_fit-walk :
      (lo n fuel prev cur : ℕ) (xs : List Region) (r : Region) (ys : List Region)
      → 1 ≤ lo
      → length xs < fuel
      → Sorted lo (xs ++ r ∷ ys)
      → Seg mem cur (xs ++ r ∷ ys) 0
      → All (λ s. s.pages < n) xs
      → n ≤ r.pages
      → find_fit fuel mem n prev cur ≡ done (last_of prev xs, r.base)
  unfolding find_fit
  find_fit-walk lo n zero prev cur xs r ys k f s h small large = elim f [ ]
  find_fit-walk lo n (suc fuel) prev cur [] r ys k f s h small large = ground arith
  find_fit-walk lo n (suc fuel) prev cur (x ∷ xs) r ys k f s h small large = ground (
    arith,
    find_fit-walk (end_of x) n fuel cur (mem x.base).next xs r ys (omega arith) (omega arith) s.3
        h.2 small.1 large,
  )

  pub find_fit-none :
      (lo n fuel prev cur : ℕ) (rs : List Region)
      → 1 ≤ lo
      → length rs < fuel
      → Sorted lo rs
      → Seg mem cur rs 0
      → All (λ s. s.pages < n) rs
      → find_fit fuel mem n prev cur ≡ done (last_of prev rs, 0)
  unfolding find_fit
  find_fit-none lo n zero prev cur rs k f s h small = elim f [ ]
  find_fit-none lo n (suc fuel) prev cur [] k f s h small = ground arith
  find_fit-none lo n (suc fuel) prev cur (x ∷ xs) k f s h small = ground (
    arith,
    find_fit-none (end_of x) n fuel cur (mem x.base).next xs (omega arith) (omega arith) s.3 h.2
        small.1,
  )

  -- The walk for a place passes the regions below `node`, up to the last of them, `r`.
  pub find_place-walk :
      (lo node fuel prev cur : ℕ) (xs : List Region) (r : Region) (ys : List Region)
      → prev < lo
      → length (xs ++ r ∷ ys) < fuel
      → Sorted lo (xs ++ r ∷ ys)
      → Seg mem cur (xs ++ r ∷ ys) 0
      → r.base ≤ node
      → (f : ℕ) × (length ys < f)
        × (find_place fuel mem node prev cur ≡ find_place f mem node r.base (mem r.base).next)
  unfolding find_place
  find_place-walk lo node zero prev cur xs r ys k f s h below = elim f [ ]
  find_place-walk lo node (suc fuel) prev cur [] r ys k f s h below =
      (fuel, omega arith, ground arith)
  find_place-walk lo node (suc fuel) prev cur (x ∷ xs) r ys k f s h below =
      let (g, enough, e) =
        find_place-walk (end_of x) node fuel x.base (mem x.base).next xs r ys (omega arith)
          (omega arith) s.3 h.2 below in
      (g, enough, ground (arith, e, base_above (end_of x) xs r ys s.3))

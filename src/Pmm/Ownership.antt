-- ===== src/Pmm/Ownership.antt =====
-- Which addresses are free before and after a call of PMM.cpp.
use frosty_os.Prelude.{
  ℕ, ◌≤◌, ◌<◌, ◌≡◌, ◌≢◌, ◌⊎◌, inl, inr, false, ◌&&◌, ◌||◌, List, [], ◌++◌, arith, Outcome, done,
  All, none, subst,
}
use frosty_os.Pmm.Region.{Region, Sorted, within, covers, give, shrink, take_fit}
use frosty_os.Pmm.Region.Order.{Fit, take_fit-cases}
use frosty_os.Pmm.Region.Cover.{covers-give, covers-shrink}
use frosty_os.Pmm.Place.{block}
use frosty_os.Pmm.Valid.{Valid}
use frosty_os.Pmm.Free.Steps.{Freeable, Counted}
use frosty_os.Pmm.Free.Pages.{free_pages_lem}
use frosty_os.Pmm.Allocate.Pages.{Allocated, allocate_pages_lem}
use frosty_os.Pmm.{Pmm, to_hhdm, from_hhdm}
use frosty_os.Pmm.Give.{free_pages}
use frosty_os.Pmm.Take.{allocate_pages}

-- In a valid state whose free list is not empty, giving back pages that are in use, where the node of
-- the pages comes to hold their number, ends in a valid state in which exactly the addresses of those
-- pages are free besides the ones that were.
pub free_pages-covers :
    (hhdm page n : ℕ) (p : Pmm) (rs : List Region)
    → rs ≢ []
    → Valid p rs
    → Freeable (to_hhdm hhdm page) n p rs
    → Counted (to_hhdm hhdm page) n p rs
    → (q : Pmm) × (rs' : List Region) × (free_pages hhdm page n p ≡ done q)
      × Valid q rs'
      × ((x : ℕ) → covers rs' x ≡ (within (block (to_hhdm hhdm page) n) x || covers rs x))
free_pages-covers hhdm page n p rs ne v f c =
    let (q, e, valid, total, used) = free_pages_lem hhdm page n p rs ne v f c in
    let a = to_hhdm hhdm page in
    (q, give a n rs, e, valid, λ x. covers-give 1 a n rs x f.some_pages f.apart v.sorted)

-- What an allocation comes to: no region is large enough and nothing changes, or the pages
-- returned were free, are free no longer, and every other address is free if it was.
abbrev pub Owns : ℕ → ℕ → Pmm → List Region → Outcome (ℕ × Pmm) → Type 0
Owns hhdm n p rs r =
    ((r ≡ done (0, p)) × All (λ s. s.pages < n) rs)
    ⊎ ((a : ℕ) × (q : Pmm) × (rs' : List Region) × (r ≡ done (from_hhdm hhdm a, q))
        × Valid q rs'
        × ((x : ℕ)
            → (covers rs x ≡ (within (block a n) x || covers rs' x))
              × ((within (block a n) x && covers rs' x) ≡ false)))

Owns-Fit :
    (hhdm n : ℕ) (p : Pmm) (rs : List Region) (r : Outcome (ℕ × Pmm))
    → 1 ≤ n
    → Valid p rs
    → Fit n rs
    → Allocated hhdm n p rs r
    → Owns hhdm n p rs r
Owns-Fit hhdm n p rs r k v f (inl (e, same)) = absurd (ground (arith, f.result))
Owns-Fit hhdm n p rs r k v f (inr (a, rest, q, e, done_e, valid, taken)) =
    let rest_eq : rest ≡ f.before ++ shrink n f.found f.after = cc (f.result) in
    let base_eq : a ≡ f.found.base = cc (f.result) in
    inr (
      a,
      q,
      rest,
      done_e,
      valid,
      λ x.
          rw (f.split, rest_eq, base_eq)
            (covers-shrink 1 n f.before f.found f.after x k f.large
              (subst (Sorted 1) f.split v.sorted)),
    )

Owns-none :
    (hhdm n : ℕ) (p : Pmm) (rs : List Region) (r : Outcome (ℕ × Pmm))
    → take_fit n rs ≡ none
    → All (λ s. s.pages < n) rs
    → Allocated hhdm n p rs r
    → Owns hhdm n p rs r
Owns-none hhdm n p rs r none_e small (inl (e, same)) = inl (same, small)
Owns-none hhdm n p rs r none_e small (inr (a, rest, q, e, done_e, valid, taken)) =
    absurd (ground arith)

-- In a valid state whose free list is not empty, `AllocatePages` of `n` pages, one or more, either
-- changes nothing, returns a null pointer, and no region has `n` pages; or it returns pages that were
-- all free, are free no longer, and leaves every other address as it was, in a valid state.
pub allocate_pages-Owns :
    (hhdm n : ℕ) (p : Pmm) (rs : List Region)
    → 1 ≤ n
    → rs ≢ []
    → Valid p rs
    → Owns hhdm n p rs (allocate_pages hhdm n p)
allocate_pages-Owns hhdm n p rs k ne v = elim (take_fit-cases n rs) [
  | inl (e, small) ↦
      Owns-none hhdm n p rs (allocate_pages hhdm n p) e small
        (allocate_pages_lem hhdm n p rs k ne v)
  | inr f ↦
      Owns-Fit hhdm n p rs (allocate_pages hhdm n p) k v f (allocate_pages_lem hhdm n p rs k ne v)
]

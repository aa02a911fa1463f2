-- ===== src/Pmm/Allocate/Pages.antt =====
-- `PMM::AllocatePages` and `PMM::AllocatePage` as a whole.
use frosty_os.Prelude.{
  ℕ, ◌+◌, ◌≤◌, ◌≡◌, ◌≢◌, refl, ◌⊎◌, inl, inr, List, [], ◌∷◌, ◌++◌, arith, length-append, Outcome,
  done, ap, ◌∙◌, subst, ◌==◌, Bool-cases, some, none, lt→ltb, ==_iff,
}
use frosty_os.Pmm.Region.{Region, total, Sorted, take_fit, shrink}
use frosty_os.Pmm.Region.Order.{
  Sorted-at, Sorted-shrink, total-shrink, total-lt, length-le-total, Fit, take_fit-cases, first_fit,
  total-cons,
}
use frosty_os.Pmm.Seg.{last_of, find_fit-walk, find_fit-none}
use frosty_os.Pmm.Valid.{Linked, Valid}
use frosty_os.Pmm.Allocate.Carve.{carve-Linked}
use frosty_os.Pmm.{Pmm, from_hhdm, take_pages, walk_fuel}
use frosty_os.Pmm.Take.{
  find_fit, carve, carve_first, carve_later, split_first, split_later, allocate_pages,
  allocate_page, allocate_first,
}

-- The counters after `n` pages have been taken.
abbrev pub Taken : ℕ → Pmm → Pmm → Type 0
Taken n p q =
    (q.total_page_count ≡ p.total_page_count) × (q.used_page_count ≡ p.used_page_count + n)

carve-counters :
    (p : Pmm) (n b c : ℕ)
    → ((carve p n b c).free_page_count ≡ p.free_page_count)
      × ((carve p n b c).used_page_count ≡ p.used_page_count)
      × ((carve p n b c).total_page_count ≡ p.total_page_count)
unfolding carve carve_first carve_later split_first split_later
carve-counters p n b c = ground arith

-- `take_pages` after `carve` at the region that fits.
module _ (n : ℕ) (p : Pmm) (rs : List Region) (k : 1 ≤ n) (v : Valid p rs) (f : Fit n rs) where
  open f use {before, found, after, split, small, large, result}

  abbrev carved : Pmm
  carved = take_pages n (carve p n (last_of 0 before) found.base)

  carved-Valid : Valid carved (before ++ shrink n found after) × Taken n p carved
  carved-Valid =
      let s : Sorted 1 (before ++ found ∷ after) = subst (Sorted 1) split v.sorted in
      let linked : Linked p (before ++ found ∷ after) = subst (Linked p) split v.linked in
      let sum : total rs ≡ n + total (before ++ shrink n found after) =
        ap total split ∙ total-shrink n before found after large in
      let counters = carve-counters p n (last_of 0 before) found.base in
      let new =
        carve-Linked p n found after k large before s
          (omega (
            arith,
            length-le-total 1 (before ++ found ∷ after) s,
            total-lt 1 (before ++ found ∷ after) (omega arith) s,
          ))
          linked in
      (
        record {
          linked = record { chain = new.chain; last = new.last; nodes = new.nodes };
          sorted = Sorted-shrink 1 n before found after k large s;
          free = omega (arith, sum, counters, v);
          sum = omega (arith, sum, counters, v);
          bounded = omega (arith, sum, counters, v);
        },
        (counters.2, omega (arith, sum, counters, v)),
      )

  walk : find_fit (walk_fuel p) p.mem n 0 p.free_list_start ≡ done (last_of 0 before, found.base)
  walk =
      let s : Sorted 1 (before ++ found ∷ after) = subst (Sorted 1) split v.sorted in
      let linked : Linked p (before ++ found ∷ after) = subst (Linked p) split v.linked in
      find_fit-walk p.mem 1 n (walk_fuel p) 0 p.free_list_start before found after (omega arith)
        (omega (
          arith,
          v.free,
          ap total split,
          length-le-total 1 (before ++ found ∷ after) s,
          length-append before (found ∷ after),
        ))
        s linked.chain small large

-- What a call comes to: the first region of `n` pages or more gives its first pages, or there is
-- none, and `nullptr` is returned.
abbrev pub Allocated : ℕ → ℕ → Pmm → List Region → Outcome (ℕ × Pmm) → Type 0
Allocated hhdm n p rs r =
    ((take_fit n rs ≡ none) × (r ≡ done (0, p)))
    ⊎ ((a : ℕ) × (rest : List Region) × (q : Pmm) × (take_fit n rs ≡ some (a, rest))
        × (r ≡ done (from_hhdm hhdm a, q))
        × Valid q rest
        × Taken n p q)

total-pos : (lo : ℕ) (rs : List Region) → rs ≢ [] → Sorted lo rs → 1 ≤ total rs
total-pos lo [] ne s = absurd (ne refl)
total-pos lo (r ∷ rs) ne s = omega (arith, s, total-cons r rs)

-- `AllocatePage` does to the first region what `AllocatePages` does.
allocate_first-eq : (p : Pmm) → allocate_first p ≡ take_pages 1 (carve p 1 0 p.free_list_start)
unfolding allocate_first carve
allocate_first-eq p = ground arith

pub allocate_page-Allocated :
    (hhdm : ℕ) (p : Pmm) (rs : List Region)
    → rs ≢ []
    → Valid p rs
    → Allocated hhdm 1 p rs (allocate_page hhdm p)
unfolding allocate_page shrink
allocate_page-Allocated hhdm p [] ne v = absurd (ne refl)
allocate_page-Allocated hhdm p (r ∷ ys) ne v =
    let f = first_fit 1 r ys v.sorted.1 in
    let new = carved-Valid 1 p (r ∷ ys) (omega arith) v f in
    inr (
      r.base,
      shrink 1 r ys,
      carved 1 p (r ∷ ys) (omega arith) v f,
      f.result,
      rw (
        lt→ltb 0 p.free_page_count (omega (arith, v.free, total-pos 1 (r ∷ ys) ne v.sorted)),
        allocate_first-eq,
        v.chain.0,
      ),
      new.0,
      new.1,
    )

-- In a valid state whose free list is not empty, `AllocatePages` of one page or more takes its pages
-- from the first region that has enough of them, as `take_fit` does, and moves the counters; if no
-- region has enough, it returns a null pointer and changes nothing.
pub allocate_pages_lem :
    (hhdm n : ℕ) (p : Pmm) (rs : List Region)
    → 1 ≤ n
    → rs ≢ []
    → Valid p rs
    → Allocated hhdm n p rs (allocate_pages hhdm n p)
unfolding allocate_pages
allocate_pages_lem hhdm n p rs k ne v = elim (Bool-cases (n == 1)) [
  | inl one ↦ rw (one, (==_iff n 1).0 one) (allocate_page-Allocated hhdm p rs ne v)
  | inr more ↦
      rw (more, lt→ltb 0 p.free_page_count (omega (arith, v.free, total-pos 1 rs ne v.sorted)))
        (elim (take_fit-cases n rs) [
          | inl (e, small) ↦ inl (
            e,
            rw (
                find_fit-none p.mem 1 n (walk_fuel p) 0 p.free_list_start rs (omega arith)
                  (omega (arith, v.free, length-le-total 1 rs v.sorted)) v.sorted v.chain small),
          )
          | inr f ↦
              let new = carved-Valid n p rs k v f in
              let place = walk n p rs k v f in
              inr (
                f.found.base,
                f.before ++ shrink n f.found f.after,
                carved n p rs k v f,
                f.result,
                rw place (
                    ground (
                      arith,
                      Sorted-at 1 f.before f.found f.after (subst (Sorted 1) f.split v.sorted),
                    )),
                new.0,
                new.1,
              )
        ])
]

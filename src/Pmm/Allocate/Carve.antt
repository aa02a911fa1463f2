-- ===== src/Pmm/Allocate/Carve.antt =====
-- What `PMM::AllocatePages` does to the list of regions at the node that it has found.
use frosty_os.Prelude.{
  ℕ, ◌+◌, ◌-◌, ◌*◌, ◌≤◌, ◌<◌, ◌≡◌, ◌≢◌, refl, ◌⊎◌, List, [], ◌∷◌, ◌++◌, append_assoc, arith, length,
  length-append, word, ◌==◌, Bool-cases, inl, inr, if◌then◌else◌, ap, sym, subst,
}
use frosty_os.Pmm.Region.{Region, end_of, Sorted, shrink}
use frosty_os.Pmm.Region.Order.{Sorted-at}
use frosty_os.Pmm.Seg.{last_of, Seg-append, Seg-split, last_of-append}
use frosty_os.Pmm.Valid.{Linked, pages_after, last_moved}
use frosty_os.Pmm.Free.Link.{Seg-above, Seg-below}
use frosty_os.Pmm.{Pmm}
use frosty_os.Pmm.Take.{carve, carve_first, carve_later, split_first, split_later}

-- What is left of a region after its first `n` pages.
abbrev pub left : ℕ → Region → Region
left n r = record { base = r.base + n * 4096; pages = r.pages - n }

-- At the first region.
module _ (p : Pmm) (n : ℕ) (r : Region) (ys : List Region) (k : 1 ≤ n) (h : n ≤ r.pages)
    (sorted : Sorted 1 (r ∷ ys)) (small : length (r ∷ ys) < word) (linked : Linked p (r ∷ ys)) where
  carve_first-Linked : Linked (carve_first p r.base) ys
  unfolding carve_first
  carve_first-Linked = record {
    chain = linked.chain.2;
    last = ground (arith, linked.last, last_moved r.base 0 (end_of r) ys (omega arith) sorted.3);
    nodes = omega (arith, linked.nodes);
  }

  split_first-Linked : n ≢ r.pages → Linked (split_first p n r.base) (left n r ∷ ys)
  unfolding split_first
  split_first-Linked ne =
      let q = split_first p n r.base in
      record {
        chain = (
          omega (arith, sorted),
          ground (arith, linked.chain.1, sorted),
          ground (
            arith,
            sorted,
            Seg-above p.mem q.mem (r.base + n * 4096) (end_of r) (p.mem r.base).next 0 ys
                (λ x h. ground (arith, sorted)) (omega arith) sorted.3 linked.chain.2,
          ),
        );
        last = ground (
          arith,
          sorted,
          linked.last,
          last_moved r.base (r.base + n * 4096) (end_of r) ys (omega arith) sorted.3,
        );
        nodes = linked.nodes;
      }

-- At the region `r` behind the region `v`.
module _ (p : Pmm) (n : ℕ) (xs : List Region) (v r : Region) (ys : List Region) (k : 1 ≤ n)
    (h : n ≤ r.pages) (sorted : Sorted 1 (xs ++ v ∷ r ∷ ys))
    (small : length (xs ++ v ∷ r ∷ ys) < word) (linked : Linked p (xs ++ v ∷ r ∷ ys)) where
  carve_later-Linked : Linked (carve_later p v.base r.base) (xs ++ v ∷ ys)
  unfolding carve_later
  carve_later-Linked =
      let at = Sorted-at 1 xs v (r ∷ ys) sorted in
      let seg = Seg-split p.mem p.free_list_start 0 xs v (r ∷ ys) linked.chain in
      let q = carve_later p v.base r.base in
      record {
        chain =
            Seg-append q.mem q.free_list_start v.base 0 xs (v ∷ ys)
              (Seg-below p.mem q.mem 1 p.free_list_start v.base xs v (r ∷ ys) (λ x h. ground arith)
                sorted seg.0)
              (
                refl,
                ground (arith, seg.1.1),
                ground (
                  arith,
                  Seg-above p.mem q.mem v.base (end_of r) (p.mem r.base).next 0 ys
                      (λ x h. ground arith) (omega arith) at.3.3 seg.1.2.2,
                ),
              );
        last = ground (
          arith,
          linked.last,
          last_of-append 0 xs v (r ∷ ys),
          last_of-append 0 xs v ys,
          last_moved r.base v.base (end_of r) ys (omega arith) at.3.3,
        );
        nodes =
            omega (arith, linked.nodes, length-append xs (v ∷ r ∷ ys), length-append xs (v ∷ ys));
      }

  split_later-Linked :
      n ≢ r.pages → Linked (split_later p n v.base r.base) (xs ++ v ∷ left n r ∷ ys)
  unfolding split_later
  split_later-Linked ne =
      let at = Sorted-at 1 xs v (r ∷ ys) sorted in
      let seg = Seg-split p.mem p.free_list_start 0 xs v (r ∷ ys) linked.chain in
      let start_of_rest = pages_after r.base n (omega (arith, at.3.2)) in
      let q = split_later p n v.base r.base in
      record {
        chain =
            Seg-append q.mem q.free_list_start v.base 0 xs (v ∷ left n r ∷ ys)
              (Seg-below p.mem q.mem 1 p.free_list_start v.base xs v (r ∷ ys)
                (λ x h. ground (arith, at.3.0, at.3.2, start_of_rest)) sorted seg.0)
              (
                refl,
                ground (arith, seg.1.1),
                (
                  ground arith,
                  ground (arith, seg.1.2.1),
                  ground (
                    arith,
                    Seg-above p.mem q.mem (r.base + n * 4096) (end_of r) (p.mem r.base).next 0 ys
                        (λ x h. ground arith) (omega arith) at.3.3 seg.1.2.2,
                  ),
                ),
              );
        last = ground (
          arith,
          linked.last,
          last_of-append 0 xs v (r ∷ ys),
          last_of-append 0 xs v (left n r ∷ ys),
          last_moved r.base (r.base + n * 4096) (end_of r) ys (omega arith) at.3.3,
        );
        nodes = omega (
          arith,
          linked.nodes,
          length-append xs (v ∷ r ∷ ys),
          length-append xs (v ∷ left n r ∷ ys),
        );
      }

pub snoc-cases :
    (xs : List Region) → (xs ≡ []) ⊎ ((zs : List Region) × (v : Region) × (xs ≡ zs ++ v ∷ []))
snoc-cases [] = inl refl
snoc-cases (x ∷ xs) = inr (elim (snoc-cases xs) [
  | inl e ↦ ([], x, ap (◌∷◌ x) e)
  | inr (zs, v, e) ↦ (x ∷ zs, v, ap (◌∷◌ x) e)
])

module _ (p : Pmm) (n : ℕ) (r : Region) (ys : List Region) (k : 1 ≤ n) (h : n ≤ r.pages) where
  -- The whole choice, by the regions `xs` that were passed.
  abbrev Carved : List Region → Type 0
  Carved xs =
      Sorted 1 (xs ++ r ∷ ys)
      → length (xs ++ r ∷ ys) < word
      → Linked p (xs ++ r ∷ ys)
      → Linked (carve p n (last_of 0 xs) r.base) (xs ++ shrink n r ys)

  Carved-first : Carved []
  unfolding carve shrink
  Carved-first sorted small linked = elim (Bool-cases (r.pages == n)) [
    | inl whole ↦ rw (linked.chain.1, whole) (carve_first-Linked p n r ys k h sorted small linked)
    | inr part ↦
        rw (linked.chain.1, part)
          (split_first-Linked p n r ys k h sorted small linked (ground arith))
  ]

  carve-later-eq :
      (zs : List Region) (v : Region)
      → Sorted 1 (zs ++ v ∷ r ∷ ys)
      → Linked p (zs ++ v ∷ r ∷ ys)
      → carve p n v.base r.base
        ≡ (if r.pages == n then carve_later p v.base r.base else split_later p n v.base r.base)
  unfolding carve
  carve-later-eq zs v sorted linked = ground (
    arith,
    (Seg-split p.mem p.free_list_start 0 zs v (r ∷ ys) linked.chain).1.2.1,
    Sorted-at 1 zs v (r ∷ ys) sorted,
  )

  carve_behind :
      (zs : List Region) (v : Region)
      → Sorted 1 (zs ++ v ∷ r ∷ ys)
      → length (zs ++ v ∷ r ∷ ys) < word
      → Linked p (zs ++ v ∷ r ∷ ys)
      → Linked (carve p n v.base r.base) (zs ++ v ∷ shrink n r ys)
  unfolding shrink
  carve_behind zs v sorted small linked = elim (Bool-cases (r.pages == n)) [
    | inl whole ↦
        rw (carve-later-eq zs v sorted linked, whole)
          (carve_later-Linked p n zs v r ys k h sorted small linked)
    | inr part ↦
        rw (carve-later-eq zs v sorted linked, part)
          (split_later-Linked p n zs v r ys k h sorted small linked (ground arith))
  ]

  pub carve-Linked : (xs : List Region) → Carved xs
  carve-Linked xs = elim (snoc-cases xs) [
    | inl e ↦ subst Carved (sym e) Carved-first
    | inr (zs, v, e) ↦ subst Carved (sym e) (λ sorted small linked.
        rw (last_of-append 0 zs v [], append_assoc)
          (carve_behind zs v (rw append_assoc at sorted) (rw append_assoc at small)
            (rw append_assoc at linked)))
  ]

-- ===== src/Pmm/Free/Link.antt =====
-- What each pointer manipulation of `PMM::FreePages` does to the list of regions.
use frosty_os.Prelude.{
  ℕ, ◌+◌, ◌<◌, ◌≡◌, refl, List, ◌∷◌, ◌++◌, arith, length, length-append, word, ◌==◌, if◌then◌else◌,
  Bool-cases, inl, inr,
}
use frosty_os.Pmm.Region.{Region, end_of, Sorted, join}
use frosty_os.Pmm.Region.Order.{Sorted-at}
use frosty_os.Pmm.Seg.{Seg, last_of, Seg-frame, Seg-append, last_of-append}
use frosty_os.Pmm.Place.{block}
use frosty_os.Pmm.Valid.{Linked, last_moved, agree_above, agree_below}
use frosty_os.Pmm.{Memory, Pmm}
use frosty_os.Pmm.Give.{merge_first, link_first, link_current, merge_current, point_to}

-- A segment above `a` in memory that changes only up to `a`.
pub Seg-above :
    (mem mem' : Memory) (a lo p q : ℕ) (rs : List Region)
    → ((x : ℕ) → a < x → mem' x ≡ mem x)
    → a < lo
    → Sorted lo rs
    → Seg mem p rs q
    → Seg mem' p rs q
Seg-above mem mem' a lo p q rs same h s =
    Seg-frame mem mem' p q rs (agree_above mem mem' a lo rs same h s)

-- A segment before `r` in memory that changes only from `r` on.
pub Seg-below :
    (mem mem' : Memory) (lo p q : ℕ) (xs : List Region) (r : Region) (ys : List Region)
    → ((x : ℕ) → x < r.base → mem' x ≡ mem x)
    → Sorted lo (xs ++ r ∷ ys)
    → Seg mem p xs q
    → Seg mem' p xs q
Seg-below mem mem' lo p q xs r ys same s =
    Seg-frame mem mem' p q xs (agree_below mem mem' lo xs r ys same s)

-- A node put before the first one.
module _ (p : Pmm) (a n : ℕ) (r : Region) (ys : List Region) (small : length ys + 2 < word)
    (low : a < r.base) (sorted : Sorted r.base (r ∷ ys)) (linked : Linked p (r ∷ ys)) where
  pub merge_first-Linked :
      n + r.pages < word
      → Linked (merge_first p a n r.base) (record { base = a; pages = n + r.pages } ∷ ys)
  unfolding merge_first
  merge_first-Linked k = record {
    chain = (
      refl,
      ground (arith, linked.chain.1),
      ground (
        arith,
        Seg-above p.mem (merge_first p a n r.base).mem a (end_of r) (p.mem r.base).next 0 ys
            (λ x h. ground arith) (omega arith) sorted.3 linked.chain.2,
      ),
    );
    last = ground (arith, linked.last, last_moved r.base a (end_of r) ys (omega arith) sorted.3);
    nodes = linked.nodes;
  }

  pub link_first-Linked : n < word → Linked (link_first p a n) (block a n ∷ r ∷ ys)
  unfolding link_first
  link_first-Linked k = record {
    chain = (
      refl,
      ground arith,
      ground (
        arith,
        Seg-above p.mem (link_first p a n).mem a r.base r.base 0 (r ∷ ys) (λ x h. ground arith)
            (omega arith) sorted (refl, linked.chain.1, linked.chain.2),
      ),
    );
    last = linked.last;
    nodes = omega (arith, linked.nodes);
  }

-- The node of `s` joined to the node of `r` that follows it. Up to `s` the list is linked; `s` has
-- its page count, and its link is the one to be written.
module _ (q : Pmm) (xs : List Region) (s r : Region) (ys : List Region)
    (sorted : Sorted 1 (xs ++ s ∷ r ∷ ys)) (start : Seg q.mem q.free_list_start xs s.base)
    (count : (q.mem s.base).page_count ≡ s.pages) (rest : Seg q.mem r.base (r ∷ ys) 0)
    (last : q.free_list_end ≡ last_of r.base ys)
    (nodes : q.free_list_node_count ≡ length (xs ++ s ∷ r ∷ ys))
    (small : length (xs ++ s ∷ r ∷ ys) < word) where
  merge_current-Linked :
      end_of s ≡ r.base
      → Linked
          (merge_current q s.base r.base)
          (xs ++ record { base = s.base; pages = s.pages + r.pages } ∷ ys)
  unfolding merge_current
  merge_current-Linked e =
      let at = Sorted-at 1 xs s (r ∷ ys) sorted in
      let q' = merge_current q s.base r.base in
      record {
        chain =
            Seg-append q'.mem q'.free_list_start s.base 0 xs
              (record { base = s.base; pages = s.pages + r.pages } ∷ ys)
              (Seg-below q.mem q'.mem 1 q.free_list_start s.base xs s (r ∷ ys) (λ x h. ground arith)
                sorted start)
              (
                refl,
                ground (arith, rest.1, at.3),
                ground (
                  arith,
                  Seg-above q.mem q'.mem s.base (end_of r) (q.mem r.base).next 0 ys
                      (λ x h. ground arith) (omega arith) at.3.3 rest.2,
                ),
              );
        last = ground (
          arith,
          last_of-append 0 xs (record { base = s.base; pages = s.pages + r.pages }) ys,
          last_moved r.base s.base (end_of r) ys (omega arith) at.3.3,
        );
        nodes = omega (
          arith,
          length-append xs (s ∷ r ∷ ys),
          length-append xs (record { base = s.base; pages = s.pages + r.pages } ∷ ys),
        );
      }

  point_to-Linked : Linked (point_to q s.base r.base) (xs ++ s ∷ r ∷ ys)
  point_to-Linked =
      let at = Sorted-at 1 xs s (r ∷ ys) sorted in
      let q' = point_to q s.base r.base in
      record {
        chain =
            Seg-append q'.mem q'.free_list_start s.base 0 xs (s ∷ r ∷ ys)
              (Seg-below q.mem q'.mem 1 q.free_list_start s.base xs s (r ∷ ys) (λ x h. ground arith)
                sorted start)
              (
                refl,
                ground (arith, count),
                ground (
                  arith,
                  Seg-above q.mem q'.mem s.base (end_of s) r.base 0 (r ∷ ys) (λ x h. ground arith)
                      (omega arith) at.3 rest,
                ),
              );
        last = ground (arith, last_of-append 0 xs s (r ∷ ys));
        nodes = nodes;
      }

  link_current-eq :
      link_current q s.base r.base
      ≡ (if end_of s == r.base then merge_current q s.base r.base else point_to q s.base r.base)
  unfolding link_current
  link_current-eq = ground (arith, count, (Sorted-at 1 xs s (r ∷ ys) sorted).2)

  pub link_current-Linked : Linked (link_current q s.base r.base) (xs ++ join s (r ∷ ys))
  unfolding join
  link_current-Linked = elim (Bool-cases (end_of s == r.base)) [
    | inl touch ↦ rw (link_current-eq, touch) (merge_current-Linked (ground arith))
    | inr apart ↦ rw (link_current-eq, apart) point_to-Linked
  ]

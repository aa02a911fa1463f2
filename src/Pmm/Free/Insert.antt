-- ===== src/Pmm/Free/Insert.antt =====
-- The insertion of `PMM::FreePages` at each place does what `give` does to the regions.
use frosty_os.Prelude.{
  ℕ, ◌+◌, ◌*◌, ◌≤◌, ◌<◌, ◌≡◌, refl, List, [], ◌∷◌, ◌++◌, append_assoc, arith, length, length-append,
  word, ◌==◌, Bool-cases, inl, inr, if◌then◌else◌, ◌∙◌,
}
use frosty_os.Pmm.Region.{Region, end_of, Sorted, join}
use frosty_os.Pmm.Region.Order.{Sorted-at, Sorted-tail}
use frosty_os.Pmm.Seg.{Seg-append, Seg-split, last_of-append}
use frosty_os.Pmm.Place.{block, grow, give_after}
use frosty_os.Pmm.Valid.{Linked, pages_after}
use frosty_os.Pmm.Free.Link.{
  Seg-above, Seg-below, link_current-Linked, merge_first-Linked, link_first-Linked,
}
use frosty_os.Pmm.{Pmm}
use frosty_os.Pmm.Give.{
  put_first, link_current, grow_node, link_previous, put_between, put_last, link_last,
}

-- Below the first region.
pub put_first-Linked :
    (p : Pmm) (a n : ℕ) (r : Region) (ys : List Region)
    → length ys + 2 < word
    → 1 ≤ n
    → a + n * 4096 ≤ r.base
    → Sorted r.base (r ∷ ys)
    → Linked p (r ∷ ys)
    → Linked (put_first p a n r.base) (join (block a n) (r ∷ ys))
unfolding put_first join
put_first-Linked p a n r ys small k h s linked = elim (Bool-cases (a + n * 4096 == r.base)) [
  | inl touch ↦
      rw (pages_after a n (omega arith), touch)
        (merge_first-Linked p a n r ys small (omega arith) s linked (omega arith))
  | inr apart ↦
      rw (pages_after a n (omega arith), apart)
        (link_first-Linked p a n r ys small (omega arith) s linked (omega arith))
]

-- Between the regions `v` and `r`.
module _ (p : Pmm) (a n : ℕ) (xs : List Region) (v r : Region) (ys : List Region) (k : 1 ≤ n)
    (above : end_of v ≤ a) (below : a + n * 4096 ≤ r.base) (sorted : Sorted 1 (xs ++ v ∷ r ∷ ys))
    (small : length (xs ++ v ∷ r ∷ ys) + 1 < word) (linked : Linked p (xs ++ v ∷ r ∷ ys)) where
  grow_node-Linked :
      end_of v ≡ a
      → Linked (link_current (grow_node p v.base n) v.base r.base) (xs ++ join (grow v n) (r ∷ ys))
  grow_node-Linked e =
      let at = Sorted-at 1 xs v (r ∷ ys) sorted in
      let seg = Seg-split p.mem p.free_list_start 0 xs v (r ∷ ys) linked.chain in
      let q = grow_node p v.base n in
      link_current-Linked q xs (grow v n) r ys
        (Sorted-tail 1 xs v (r ∷ ys) (grow v n ∷ r ∷ ys) sorted
          (omega arith, omega arith, omega arith, (omega arith, at.3.1, at.3.2, at.3.3)))
        (Seg-below p.mem q.mem 1 p.free_list_start v.base xs v (r ∷ ys) (λ x h. ground arith) sorted
          seg.0)
        (ground (arith, seg.1.1))
        (ground (
          arith,
          Seg-above p.mem q.mem v.base (end_of v) (p.mem v.base).next 0 (r ∷ ys)
              (λ x h. ground arith) (omega arith) at.3 seg.1.2,
        ))
        (ground (arith, linked.last, last_of-append 0 xs v (r ∷ ys)))
        (omega (
          arith,
          linked.nodes,
          length-append xs (v ∷ r ∷ ys),
          length-append xs (grow v n ∷ r ∷ ys),
        ))
        (omega (arith, length-append xs (v ∷ r ∷ ys), length-append xs (grow v n ∷ r ∷ ys)))

  link_previous-Linked :
      Linked
        (link_current (link_previous p a n v.base) a r.base)
        (xs ++ v ∷ join (block a n) (r ∷ ys))
  unfolding link_previous
  link_previous-Linked =
      let at = Sorted-at 1 xs v (r ∷ ys) sorted in
      let seg = Seg-split p.mem p.free_list_start 0 xs v (r ∷ ys) linked.chain in
      let q = link_previous p a n v.base in
      rw append_assoc at (
        link_current-Linked q (xs ++ v ∷ []) (block a n) r ys
          (rw append_assoc (
            Sorted-tail 1 xs v (r ∷ ys) (v ∷ block a n ∷ r ∷ ys) sorted
              (omega arith, at.1, at.2, (above, k, omega arith, (below, at.3.1, at.3.2, at.3.3)))))
          (Seg-append q.mem q.free_list_start v.base a xs (v ∷ [])
            (Seg-below p.mem q.mem 1 p.free_list_start v.base xs v (r ∷ ys) (λ x h. ground arith)
              sorted seg.0)
            (refl, ground (arith, seg.1.1), ground arith))
          (ground arith)
          (
            refl,
            ground (arith, seg.1.2.1),
            ground (
              arith,
              Seg-above p.mem q.mem a r.base r.base 0 (r ∷ ys) (λ x h. ground arith) (omega arith)
                  (omega arith, at.3.1, at.3.2, at.3.3) (refl, seg.1.2.1, seg.1.2.2),
            ),
          )
          (ground (arith, linked.last, last_of-append 0 xs v (r ∷ ys)))
          (omega (
            arith,
            linked.nodes,
            length-append xs (v ∷ r ∷ ys),
            length-append xs (v ∷ []),
            length-append (xs ++ v ∷ []) (block a n ∷ r ∷ ys),
          ))
          (omega (
            arith,
            length-append xs (v ∷ r ∷ ys),
            length-append xs (v ∷ []),
            length-append (xs ++ v ∷ []) (block a n ∷ r ∷ ys),
          )))

  -- The two tests of the insertion between `v` and `r`.
  put_between-eq : put_between p a n v.base r.base ≡ (
      if end_of v == a
      then link_current (grow_node p v.base n) v.base r.base
      else link_current (link_previous p a n v.base) a r.base)
  unfolding put_between
  put_between-eq = ground (
    arith,
    (Seg-split p.mem p.free_list_start 0 xs v (r ∷ ys) linked.chain).1.1,
    (Sorted-at 1 xs v (r ∷ ys) sorted).2,
  )

  pub put_between-Linked :
      Linked (put_between p a n v.base r.base) (xs ++ give_after a n v (r ∷ ys))
  put_between-Linked = elim (Bool-cases (end_of v == a)) [
    | inl touch ↦ rw (put_between-eq, touch) (grow_node-Linked (ground arith))
    | inr apart ↦ rw (put_between-eq, apart) link_previous-Linked
  ]

-- Past the last region, `v`.
module _ (p : Pmm) (a n : ℕ) (xs : List Region) (v : Region) (k : 1 ≤ n) (above : end_of v ≤ a)
    (room : a + n * 4096 < word) (sorted : Sorted 1 (xs ++ v ∷ []))
    (small : length (xs ++ v ∷ []) + 1 < word) (linked : Linked p (xs ++ v ∷ [])) where
  pub put_last-eq : put_last p a n ≡ (if end_of v == a then grow_node p v.base n else link_last p a)
  unfolding put_last
  put_last-eq = ground (
    arith,
    (Seg-split p.mem p.free_list_start 0 xs v [] linked.chain).1.1,
    Sorted-at 1 xs v [] sorted,
    linked.last,
    last_of-append 0 xs v [],
  )

  pub grow_last-Linked : end_of v ≡ a → Linked (grow_node p v.base n) (xs ++ grow v n ∷ [])
  grow_last-Linked e =
      let seg = Seg-split p.mem p.free_list_start 0 xs v [] linked.chain in
      let q = grow_node p v.base n in
      record {
        chain =
            Seg-append q.mem q.free_list_start v.base 0 xs (grow v n ∷ [])
              (Seg-below p.mem q.mem 1 p.free_list_start v.base xs v [] (λ x h. ground arith) sorted
                seg.0)
              (refl, ground (arith, seg.1.1, Sorted-at 1 xs v [] sorted), ground (arith, seg.1.2));
        last =
            ground
              (arith, linked.last, last_of-append 0 xs v [], last_of-append 0 xs (grow v n) []);
        nodes =
            omega
              (arith, linked.nodes, length-append xs (v ∷ []), length-append xs (grow v n ∷ []));
      }

  -- A new last node is a region of as many pages as memory happens to hold in its `PageCount`.
  pub link_last-Linked : Linked (link_last p a) (xs ++ v ∷ block a (p.mem a).page_count ∷ [])
  unfolding link_last
  link_last-Linked =
      let seg = Seg-split p.mem p.free_list_start 0 xs v [] linked.chain in
      let end : p.free_list_end ≡ v.base = linked.last ∙ last_of-append 0 xs v [] in
      let at = Sorted-at 1 xs v [] sorted in
      let q = link_last p a in
      record {
        chain =
            Seg-append q.mem q.free_list_start v.base 0 xs (v ∷ block a (p.mem a).page_count ∷ [])
              (Seg-below p.mem q.mem 1 p.free_list_start v.base xs v [] (λ x h. ground (arith, end))
                sorted seg.0)
              (refl, ground (arith, seg.1.1), (ground (arith, end), ground arith, ground arith));
        last = ground (arith, last_of-append 0 xs v (block a (p.mem a).page_count ∷ []));
        nodes = omega (
          arith,
          linked.nodes,
          length-append xs (v ∷ []),
          length-append xs (v ∷ block a (p.mem a).page_count ∷ []),
        );
      }

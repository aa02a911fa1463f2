-- ===== src/Pmm/Free/Pages.antt =====
-- `PMM::FreePages` and `PMM::FreePage` as a whole.
use frosty_os.Prelude.{
  ℕ, ◌+◌, ◌≤◌, ◌<◌, ◌≡◌, ◌≢◌, inl, inr, List, [], ◌∷◌, ◌++◌, arith, length, word, done, sym, subst,
  ◌==◌, Bool-cases,
}
use frosty_os.Pmm.Region.{Region, end_of, give, join}
use frosty_os.Pmm.Region.Order.{Sorted-at, Sorted-give, total-give, total-lt, length-le-total}
use frosty_os.Pmm.Seg.{last_of-append}
use frosty_os.Pmm.Place.{Place, alone, front, middle, back, Place-cases, block, give-back}
use frosty_os.Pmm.Valid.{Linked, Valid}
use frosty_os.Pmm.Free.Insert.{put_last-eq, grow_last-Linked, link_last-Linked}
use frosty_os.Pmm.Free.Steps.{
  Freeable, Counted, end_last-append, Apart-at, Inserted, insert-front, insert-middle, insert-last,
}
use frosty_os.Pmm.{Pmm, to_hhdm, give_pages, walk_fuel}
use frosty_os.Pmm.Give.{free_pages, link_last}

module _ (a n : ℕ) (p : Pmm) where
  -- In a valid state there is fuel for the whole list.
  pub enough : {rs : List Region} → Valid p rs → length rs < walk_fuel p
  enough {rs} v = omega (arith, v.free, length-le-total 1 rs v.sorted)

  abbrev Goal : List Region → Type 0
  Goal rs =
      Valid p rs → Freeable a n p rs → Counted a n p rs → Inserted a n (walk_fuel p) p (give a n rs)

  -- Past the last region, `w`, where the page count comes out right.
  insert-back :
      (xs : List Region) (w : Region)
      → Valid p (xs ++ w ∷ [])
      → Freeable a n p (xs ++ w ∷ [])
      → w.base ≤ a
      → Counted a n p (xs ++ w ∷ [])
      → Inserted a n (walk_fuel p) p (give a n (xs ++ w ∷ []))
  unfolding join
  insert-back xs w v f h c =
      let at = Sorted-at 1 xs w [] v.sorted in
      let apart = Apart-at a n xs w [] f.apart in
      let above : end_of w ≤ a = ground (arith, f.some_pages) in
      let small : length (xs ++ w ∷ []) + 1 < word = omega (
        arith,
        length-le-total 1 (xs ++ w ∷ []) v.sorted,
        total-lt 1 (xs ++ w ∷ []) (omega arith) v.sorted,
      ) in
      let counted : end_of w ≢ a → (p.mem a).page_count ≡ n =
        λ off. ground (arith, last_of-append 0 xs w [], end_last-append 0 xs w) in
      insert-last a n (walk_fuel p) p xs w (give a n (xs ++ w ∷ [])) v (enough v) h (
        rw
          (
            give-back 1 a n xs w above v.sorted,
            put_last-eq p a n xs w f.some_pages above f.room v.sorted small v.linked,
          )
          (elim (Bool-cases (end_of w == a)) [
            | inl touch ↦ rw touch (
                grow_last-Linked p a n xs w f.some_pages above f.room v.sorted small v.linked
                  (ground arith))
            | inr off ↦ rw off (
                subst (λ m. Linked (link_last p a) (xs ++ w ∷ block a m ∷ []))
                  (counted (ground arith))
                  (link_last-Linked p a n xs w f.some_pages above f.room v.sorted small v.linked))
          ]))

  -- `FreePages` at any place but an empty list.
  inserted :
      (rs : List Region)
      → Place a rs
      → rs ≢ []
      → Valid p rs
      → Freeable a n p rs
      → Counted a n p rs
      → Inserted a n (walk_fuel p) p (give a n rs)
  inserted rs (alone e) ne v f c = absurd (ne e)
  inserted rs (front r ys e h) ne v f c =
      subst Goal (sym e) (λ v f c. insert-front a n (walk_fuel p) p r ys v f (enough v) h) v f c
  inserted rs (middle xs w r ys e h k) ne v f c =
      subst Goal (sym e) (λ v f c. insert-middle a n (walk_fuel p) p xs w r ys v f (enough v) h k) v
        f c
  inserted rs (back xs w e h) ne v f c =
      subst Goal (sym e) (λ v f c. insert-back xs w v f h c) v f c

-- In a valid state whose free list is not empty, giving back pages that are in use, where the node of
-- the pages comes to hold their number, ends in a valid state whose list is that of `give`; the total
-- stays, and the pages in use are fewer by those given back.
pub free_pages_lem :
    (hhdm page n : ℕ) (p : Pmm) (rs : List Region)
    → rs ≢ []
    → Valid p rs
    → Freeable (to_hhdm hhdm page) n p rs
    → Counted (to_hhdm hhdm page) n p rs
    → (q : Pmm) × (free_pages hhdm page n p ≡ done q)
      × Valid q (give (to_hhdm hhdm page) n rs)
      × (q.total_page_count ≡ p.total_page_count)
      × (q.used_page_count + n ≡ p.used_page_count)
unfolding free_pages
free_pages_lem hhdm page n p rs ne v f c =
    let (q, e, linked, same) = inserted (to_hhdm hhdm page) n p rs (Place-cases _ rs) ne v f c in
    (
      give_pages n q,
      rw e,
      record {
        linked = record { chain = linked.chain; last = linked.last; nodes = linked.nodes };
        sorted =
            Sorted-give 1 (to_hhdm hhdm page) n rs f.not_null f.some_pages f.room f.apart v.sorted;
        free = omega (arith, same, v, f, total-give (to_hhdm hhdm page) n rs);
        sum = omega (arith, same, v, f);
        bounded = omega (arith, same, v, f);
      },
      same.2,
      omega (arith, same, v, f),
    )

-- ===== src/Pmm/Faults.antt =====
-- The two ends of `PMM::FreePages` that leave a state which `PMM::Verify` rejects: an empty free
-- list, and a new node after the last.
use frosty_os.Prelude.{
  ℕ, ◌+◌, ◌≤◌, ◌<◌, ◌≡◌, ◌≢◌, refl, inl, List, [], ◌∷◌, ◌++◌, append_assoc, arith, length,
  length-append, word, done, assert_failed, ◌>>=◌, add64, ◌∙◌, ==-ne, ap,
}
use frosty_os.Pmm.Region.{Region, end_of, total}
use frosty_os.Pmm.Region.Order.{total-lt, length-le-total, Sorted-at}
use frosty_os.Pmm.Seg.{last_of-append, Seg-split}
use frosty_os.Pmm.Place.{block}
use frosty_os.Pmm.Valid.{Linked, Valid}
use frosty_os.Pmm.Verified.{verify_loop-walk}
use frosty_os.Pmm.Free.Steps.{Freeable, place-last}
use frosty_os.Pmm.Free.Insert.{put_last-eq, link_last-Linked}
use frosty_os.Pmm.Free.Pages.{enough}
use frosty_os.Pmm.{Pmm, to_hhdm, give_pages, walk_fuel}
use frosty_os.Pmm.Give.{find_place, insert_at, put_last, start_list, link_last, free_pages}
use frosty_os.Pmm.Check.{verify_loop, verify}

-- Giving pages back to an empty list always leaves a state that `Verify` rejects: the new node is
-- not counted.
pub free_pages_empty :
    (hhdm page n : ℕ) (p : Pmm)
    → Valid p []
    → 1 ≤ to_hhdm hhdm page
    → (q : Pmm) × (free_pages hhdm page n p ≡ done q) × (verify q ≡ assert_failed)
unfolding free_pages find_place insert_at put_last start_list verify verify_loop
free_pages_empty hhdm page n p v h =
    let a = to_hhdm hhdm page in
    (give_pages n (start_list p a), ground (arith, v.chain, v.last), ground (arith, v.nodes))

-- A new node after the last one, with the page count `c` that memory holds there.
module _ (a n : ℕ) (p : Pmm) (xs : List Region) (w : Region) (v : Valid p (xs ++ w ∷ []))
    (f : Freeable a n p (xs ++ w ∷ [])) (apart : end_of w < a) (garbage : (p.mem a).page_count ≢ n)
    (bounded : (p.mem a).page_count < word) where
  small : length (xs ++ w ∷ []) + 1 < word
  small = omega (
    arith,
    length-le-total 1 (xs ++ w ∷ []) v.sorted,
    total-lt 1 (xs ++ w ∷ []) (omega arith) v.sorted,
  )

  linked : Linked (link_last p a) ((xs ++ w ∷ []) ++ block a (p.mem a).page_count ∷ [])
  linked =
      rw append_assoc
        (link_last-Linked p a n xs w f.some_pages (omega arith) f.room v.sorted small v.linked)

  -- `Verify` walks over the old nodes to the new one.
  stale-walk :
      verify_loop
        (link_last p a).mem
        (link_last p a).free_list_node_count
        (link_last p a).free_list_start
        0
        0
      ≡ verify_loop (link_last p a).mem 1 a w.base (total (xs ++ w ∷ []))
  stale-walk =
      let q = link_last p a in
      let seg =
        Seg-split q.mem q.free_list_start 0 (xs ++ w ∷ []) (block a (p.mem a).page_count) []
          linked.chain in
      verify_loop-walk q.mem 1 q.free_list_node_count 1 0 q.free_list_start a 0
        (total (xs ++ w ∷ [])) (xs ++ w ∷ []) (omega arith) (inl refl) v.sorted seg.0
        (omega
          (arith, linked.nodes, length-append (xs ++ w ∷ []) (block a (p.mem a).page_count ∷ [])))
        (omega arith) (omega (arith, v))
      ∙ ap (λ l. verify_loop q.mem 1 a l (total (xs ++ w ∷ []))) (last_of-append 0 xs w [])

  -- One more round, and the loop is over.
  stale-round :
      verify_loop (link_last p a).mem 1 a w.base (total (xs ++ w ∷ []))
      ≡ done (0, a, add64 (total (xs ++ w ∷ [])) (p.mem a).page_count)
  unfolding verify_loop link_last
  stale-round =
      let end : p.free_list_end ≡ w.base = v.last ∙ last_of-append 0 xs w [] in
      ground (
        arith,
        end,
        f.not_null,
        Sorted-at 1 xs w [] v.sorted,
        (Seg-split p.mem p.free_list_start 0 xs w [] v.chain).1.1,
      )

  stale-verify : verify (give_pages n (link_last p a)) ≡ assert_failed
  unfolding verify link_last
  stale-verify = rw (stale-walk, stale-round) (ground (arith, v, f))

  stale-inserted :
      (find_place (walk_fuel p) p.mem a 0 p.free_list_start >>= insert_at p a n)
      ≡ done (link_last p a)
  unfolding insert_at
  stale-inserted = rw (
    place-last a n (walk_fuel p) p xs w v (enough a n p v) (omega arith),
    put_last-eq p a n xs w f.some_pages (omega arith) f.room v.sorted small v.linked,
    ==-ne (end_of w) a (omega arith),
  )

-- Giving back pages above the last region and apart from it leaves a state that `Verify` rejects,
-- unless memory happens to hold their number where the new node has its page count.
pub free_pages_stale :
    (hhdm page n : ℕ) (p : Pmm) (xs : List Region) (w : Region)
    → Valid p (xs ++ w ∷ [])
    → Freeable (to_hhdm hhdm page) n p (xs ++ w ∷ [])
    → end_of w < to_hhdm hhdm page
    → (p.mem (to_hhdm hhdm page)).page_count ≢ n
    → (p.mem (to_hhdm hhdm page)).page_count < word
    → (q : Pmm) × (free_pages hhdm page n p ≡ done q) × (verify q ≡ assert_failed)
unfolding free_pages
free_pages_stale hhdm page n p xs w v f apart garbage bounded =
    let a = to_hhdm hhdm page in
    (
      give_pages n (link_last p a),
      rw (stale-inserted a n p xs w v f apart garbage bounded),
      stale-verify a n p xs w v f apart garbage bounded,
    )

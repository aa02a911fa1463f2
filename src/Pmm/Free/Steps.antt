-- ===== src/Pmm/Free/Steps.antt =====
-- The walk of `PMM::FreePages` to each place, with the insertion there.
use frosty_os.Prelude.{
  ℕ, zero, suc, ◌+◌, ◌*◌, ◌≤◌, ◌<◌, ◌≡◌, refl, ◌⊎◌, List, [], ◌∷◌, ◌++◌, arith, length, word, done,
  ◌>>=◌,
}
use frosty_os.Pmm.Region.{Region, end_of, Apart, give}
use frosty_os.Pmm.Region.Order.{Sorted-at, total-lt, length-le-total}
use frosty_os.Pmm.Seg.{last_of, Seg-split, find_place-walk}
use frosty_os.Pmm.Place.{give-front, give-middle}
use frosty_os.Pmm.Valid.{Linked, Valid}
use frosty_os.Pmm.Free.Insert.{put_first-Linked, put_between-Linked}
use frosty_os.Pmm.{Memory, Pmm}
use frosty_os.Pmm.Give.{
  find_place, insert_at, put_last, put_first, put_between, merge_first, link_first, link_current,
  merge_current, link_previous, start_list, link_last,
}

-- The pages from the address `a` on, `n` of them, may be given back: they lie in the address space,
-- they are not free, and as many pages are in use.
pub record Freeable (a n : ℕ) (p : Pmm) (rs : List Region) : Type 0 where
  pub some_pages : 1 ≤ n
  pub not_null : 1 ≤ a
  pub room : a + n * 4096 < word
  pub apart : Apart a n rs
  pub used : n ≤ p.used_page_count

-- The end of the last region.
abbrev pub end_last : ℕ → List Region → ℕ
end_last prev [] = prev
end_last prev (r ∷ rs) = end_last (end_of r) rs

-- The page count of the node at `a` comes out right: `a` is below the last node, or touches the
-- last region, or memory already holds `n` there.
abbrev pub Counted : ℕ → ℕ → Pmm → List Region → Type 0
Counted a n p rs = (a < last_of 0 rs) ⊎ (end_last 0 rs ≡ a) ⊎ ((p.mem a).page_count ≡ n)

find_place-stop :
    (mem : Memory) (f a prev : ℕ) (r : Region)
    → 0 < f
    → prev < r.base
    → a < r.base
    → find_place f mem a prev r.base ≡ done (prev, r.base)
unfolding find_place
find_place-stop mem zero a prev r h k l = elim h [ ]
find_place-stop mem (suc f) a prev r h k l = ground arith

find_place-end : (mem : Memory) (f a prev : ℕ) → 0 < f → find_place f mem a prev 0 ≡ done (prev, 0)
unfolding find_place
find_place-end mem zero a prev h = elim h [ ]
find_place-end mem (suc f) a prev h = ground arith

pub end_last-append :
    (prev : ℕ) (xs : List Region) (r : Region) → end_last prev (xs ++ r ∷ []) ≡ end_of r
end_last-append prev [] r = refl
end_last-append prev (x ∷ xs) r = end_last-append (end_of x) xs r

pub Apart-at :
    (a n : ℕ) (xs : List Region) (r : Region) (ys : List Region)
    → Apart a n (xs ++ r ∷ ys)
    → ((end_of r ≤ a) ⊎ (a + n * 4096 ≤ r.base)) × Apart a n ys
Apart-at a n [] r ys h = h
Apart-at a n (x ∷ xs) r ys h = Apart-at a n xs r ys h.1

-- The counters of pages are the same.
abbrev pub SameCounters : Pmm → Pmm → Type 0
SameCounters q p =
    (q.free_page_count ≡ p.free_page_count)
    × (q.used_page_count ≡ p.used_page_count)
    × (q.total_page_count ≡ p.total_page_count)

put_first-SameCounters : (p : Pmm) (a n c : ℕ) → SameCounters (put_first p a n c) p
unfolding put_first merge_first link_first
put_first-SameCounters p a n c = ground arith

put_between-SameCounters : (p : Pmm) (a n b c : ℕ) → SameCounters (put_between p a n b c) p
unfolding put_between link_current merge_current link_previous
put_between-SameCounters p a n b c = ground arith

put_last-SameCounters : (p : Pmm) (a n : ℕ) → SameCounters (put_last p a n) p
unfolding put_last start_list link_last
put_last-SameCounters p a n = ground arith

-- The place that the walk finds, and the insertion there: `q` has the regions `qs`.
abbrev pub Inserted : ℕ → ℕ → ℕ → Pmm → List Region → Type 0
Inserted a n fuel p qs =
    (q : Pmm) × ((find_place fuel p.mem a 0 p.free_list_start >>= insert_at p a n) ≡ done q)
    × Linked q qs
    × SameCounters q p

module _ (a n fuel : ℕ) (p : Pmm) where
  pub insert-front :
      (r : Region) (ys : List Region)
      → Valid p (r ∷ ys)
      → Freeable a n p (r ∷ ys)
      → length (r ∷ ys) < fuel
      → a < r.base
      → Inserted a n fuel p (give a n (r ∷ ys))
  unfolding insert_at
  insert-front r ys v f enough h = (
    put_first p a n r.base,
    rw (v.chain.0, find_place-stop p.mem fuel a 0 r (omega arith) (omega (arith, v.sorted)) h)
        (ground (arith, v.sorted)),
    rw (give-front a n r ys h) (
        put_first-Linked p a n r ys
          (omega (
            arith,
            length-le-total 1 (r ∷ ys) v.sorted,
            total-lt 1 (r ∷ ys) (omega arith) v.sorted,
          ))
          f.some_pages (ground (arith, f.apart, f.some_pages))
          (omega arith, v.sorted.1, v.sorted.2, v.sorted.3) v.linked),
    put_first-SameCounters p a n r.base,
  )

  pub insert-middle :
      (xs : List Region) (w r : Region) (ys : List Region)
      → Valid p (xs ++ w ∷ r ∷ ys)
      → Freeable a n p (xs ++ w ∷ r ∷ ys)
      → length (xs ++ w ∷ r ∷ ys) < fuel
      → w.base ≤ a
      → a < r.base
      → Inserted a n fuel p (give a n (xs ++ w ∷ r ∷ ys))
  unfolding insert_at
  insert-middle xs w r ys v f enough h k =
      let at = Sorted-at 1 xs w (r ∷ ys) v.sorted in
      let seg = Seg-split p.mem p.free_list_start 0 xs w (r ∷ ys) v.chain in
      let apart = Apart-at a n xs w (r ∷ ys) f.apart in
      let (g, more, walk) =
        find_place-walk p.mem 1 a fuel 0 p.free_list_start xs w (r ∷ ys) (omega arith) enough
          v.sorted v.chain h in
      let below : end_of w ≤ a = ground (arith, f.some_pages) in
      let room : a + n * 4096 ≤ r.base = ground (arith, f.some_pages) in
      (
        put_between p a n w.base r.base,
        rw (walk, seg.1.2.0, find_place-stop p.mem g a w.base r (omega arith) (omega arith) k)
            (ground arith),
        rw (give-middle 1 a n xs w r ys below k v.sorted) (
            put_between-Linked p a n xs w r ys f.some_pages below room v.sorted
              (omega (
                arith,
                length-le-total 1 (xs ++ w ∷ r ∷ ys) v.sorted,
                total-lt 1 (xs ++ w ∷ r ∷ ys) (omega arith) v.sorted,
              ))
              v.linked),
        put_between-SameCounters p a n w.base r.base,
      )

  -- Past the last region, `w`, the walk ends behind it.
  pub place-last :
      (xs : List Region) (w : Region)
      → Valid p (xs ++ w ∷ [])
      → length (xs ++ w ∷ []) < fuel
      → w.base ≤ a
      → find_place fuel p.mem a 0 p.free_list_start ≡ done (w.base, 0)
  place-last xs w v enough h =
      let seg = Seg-split p.mem p.free_list_start 0 xs w [] v.chain in
      let (g, more, walk) =
        find_place-walk p.mem 1 a fuel 0 p.free_list_start xs w [] (omega arith) enough v.sorted
          v.chain h in
      rw (walk, seg.1.2) (find_place-end p.mem g a w.base more)

  -- There `put_last` is what happens.
  pub insert-last :
      (xs : List Region) (w : Region) (qs : List Region)
      → Valid p (xs ++ w ∷ [])
      → length (xs ++ w ∷ []) < fuel
      → w.base ≤ a
      → Linked (put_last p a n) qs
      → Inserted a n fuel p qs
  unfolding insert_at
  insert-last xs w qs v enough h linked =
      (put_last p a n, rw (place-last xs w v enough h), linked, put_last-SameCounters p a n)

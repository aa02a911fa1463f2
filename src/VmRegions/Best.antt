-- ===== src/VmRegions/Best.antt =====
-- `VMRegionAllocator::AllocatePages(uint64_t)` against a best fit,
-- kernel/src/Memory/VMRegionAllocator.cpp.
use frosty_os.Prelude.{
  ℕ, ◌≡◌, ◌≤◌, ◌<◌, ◌⊎◌, List, [], ◌∷◌, some, refl, sym, ap, subst, arith, ◌∙◌, Option-cases, inl,
  inr, true, false, ltb, leb,
}
use frosty_os.AvlTree.{present, IsLeast, IsGreatest, find_node_or_lower}
use frosty_os.AvlTree.Near.{find_node_or_lower_lem}
use frosty_os.VmRegions.{Trees, VmRegions, RegionData}
use frosty_os.VmRegions.Nodes.{in_tree, node_value}
use frosty_os.VmRegions.Take.{
  take_list, take_region, mark_at, mark_used, node_at, count_taken, allocate_found, allocate_pages,
}
use frosty_os.VmRegions.Sound.{ValidMaps-same, Valid, Adds, count, wanted, or_empty, count-head}
use frosty_os.VmRegions.Marks.{taken_map, find-mark_used}
use frosty_os.VmRegions.Taken.{taken_lists, find-take_list, taken-ValidMaps, gap}

module _ (trees : Trees) where
  open trees use {regions, region_order, lists, list_order}

  -- No free region has as many pages.
  abbrev pub NoneFits : VmRegions trees → ℕ → Type 0
  NoneFits s pages =
      (p : ℕ) (d : RegionData)
      → regions.rb_find s.all_pages p ≡ some d
      → d.is_free ≡ true
      → d.size < pages

  -- The region `d` is free at `first` and large enough, no free region that is large enough is
  -- smaller, and its first pages are the only ones that become used.
  pub record BestFit (s : VmRegions trees) (pages first : ℕ) (d : RegionData) (s' : VmRegions trees)
      : Type 0 where
    pub found : regions.rb_find s.all_pages first ≡ some d
    pub was_free : d.is_free ≡ true
    pub large : pages ≤ d.size
    pub smallest :
        (p : ℕ) (e : RegionData)
        → regions.rb_find s.all_pages p ≡ some e
        → e.is_free ≡ true
        → pages ≤ e.size
        → d.size ≤ e.size
    pub taken :
        (q : ℕ)
        → regions.rb_find s'.all_pages q ≡ taken_map (regions.rb_find s.all_pages) first d pages q
    pub valid : Valid s'
    pub adds : Adds s'

  -- The search from `first` on, at a region that starts there, finds the region itself.
  lower-here :
      (t : regions.Tree) (first : ℕ)
      → present (regions.rb_find t first) ≡ true
      → find_node_or_lower regions region_order t first ≡ some first
  lower-here t first here =
      let near = find_node_or_lower_lem regions region_order t first in
      elim (Option-cases (find_node_or_lower regions region_order t first)) [
        | inl e ↦
            let no_lower = subst (IsGreatest (regions.rb_find t) (λ j. leb j first)) e near in
            ground (arith, no_lower first, here)
        | inr (j, e) ↦
            let at_j = subst (IsGreatest (regions.rb_find t) (λ j. leb j first)) e near in
            let same : j ≡ first = ground (arith, at_j.0, at_j.2 first, here) in
            e ∙ ap (λ k. some k) same
      ]

  -- A free region is in the list of its size, so the tree has the size.
  has-list :
      (s : VmRegions trees)
      → Valid s
      → (p : ℕ) (e : RegionData) → regions.rb_find s.all_pages p ≡ some e
      → e.is_free ≡ true
      → present (lists.rb_find s.free_pages e.size) ≡ true
  unfolding count
  has-list s v p e at free = let in_list = v.listed p e.size in ground (arith, in_list, at, free)

  take_region-lem :
      (s : VmRegions trees) (first : ℕ) (d : RegionData) (pages : ℕ)
      → regions.rb_find s.all_pages first ≡ some d
      → d.is_free ≡ true
      → take_region trees s first pages ≡ (
        first,
        count_taken trees
            (record s { all_pages = mark_used trees s.all_pages (in_tree first) pages })
            pages,
      )
  unfolding take_region node_at
  take_region-lem s first d pages at free =
      let here = lower-here s.all_pages first (rw at refl) in
      let not_below : ltb first first ≡ false = ground arith in
      let stays : node_at trees s.all_pages first first ≡ (s.all_pages, in_tree first) =
        rw not_below refl in
      rw (here, take_region)
        (ap (λ r. mark_at trees s r first pages) stays ∙ rw (at, free, node_value) refl)

  -- A size in the tree has a list with a start, at which a free region of the size starts.
  list-head :
      (s : VmRegions trees)
      → Valid s
      → (found : ℕ) → present (lists.rb_find s.free_pages found) ≡ true
      → (first : ℕ) × (rest : List ℕ) × (lists.rb_find s.free_pages found ≡ some (first ∷ rest))
  list-head s v found here = elim (Option-cases (lists.rb_find s.free_pages found)) [
    | inl e ↦ ground (arith, here, e)
    | inr ([], e) ↦ absurd (v.filled found e)
    | inr (first ∷ rest, e) ↦ (first, rest, e)
  ]

  listed-region :
      (s : VmRegions trees)
      → Valid s
      → (first found : ℕ) (rest : List ℕ) → lists.rb_find s.free_pages found ≡ some (first ∷ rest)
      → (d : RegionData) × (regions.rb_find s.all_pages first ≡ some d)
        × (d.is_free ≡ true)
        × (d.size ≡ found)
  listed-region s v first found rest e =
      let once : count first (first ∷ rest) ≡ wanted (regions.rb_find s.all_pages first) found =
        sym (ap (λ o. count first (or_empty o)) e) ∙ v.listed first found in
      let head = count-head first first rest in
      elim (Option-cases (regions.rb_find s.all_pages first)) [
        | inl n ↦ ground (arith, once, head, n)
        | inr (d, y) ↦ (d, y, ground (arith, once, head, y), ground (arith, once, head, y))
      ]

  -- The state after the first pages of a free region are taken
  abbrev after : VmRegions trees → ℕ → RegionData → ℕ → List ℕ → VmRegions trees
  after s first d pages rest =
      let listed = record s { free_pages = take_list trees s.free_pages d.size pages first rest } in
      count_taken trees
        (record listed { all_pages = mark_used trees s.all_pages (in_tree first) pages }) pages

  after-BestFit :
      (s : VmRegions trees) (first : ℕ) (d : RegionData) (pages : ℕ) (rest : List ℕ)
      → 1 ≤ pages
      → Valid s
      → Adds s
      → regions.rb_find s.all_pages first ≡ some d
      → d.is_free ≡ true
      → pages ≤ d.size
      → lists.rb_find s.free_pages d.size ≡ some (first ∷ rest)
      → ((p : ℕ) (e : RegionData)
          → regions.rb_find s.all_pages p ≡ some e
          → e.is_free ≡ true
          → pages ≤ e.size
          → d.size ≤ e.size)
      → BestFit s pages first d (after s first d pages rest)
  after-BestFit s first d pages rest some_pages v adds at free few list best =
      let in_word = v.within first d at in
      let find = regions.rb_find s.all_pages in
      let find_list = lists.rb_find s.free_pages in
      let none_above = gap find find_list v first d pages rest at free some_pages few list in
      let marks =
        find-mark_used trees s.all_pages first d pages at some_pages few in_word none_above in
      record {
        found = at;
        was_free = free;
        large = few;
        smallest = best;
        taken = marks;
        valid =
            ValidMaps-same (taken_map find first d pages)
              (regions.rb_find (mark_used trees s.all_pages (in_tree first) pages))
              (taken_lists find_list d.size pages first rest)
              (lists.rb_find (take_list trees s.free_pages d.size pages first rest)) marks
              (find-take_list trees s.free_pages d.size pages first rest list some_pages few
                in_word)
              (taken-ValidMaps find find_list v first d pages rest at free some_pages few list);
        adds = omega (arith, adds);
      }

  found-BestFit :
      (s : VmRegions trees) (pages first : ℕ) (rest : List ℕ) (d : RegionData)
      → 1 ≤ pages
      → Valid s
      → Adds s
      → regions.rb_find s.all_pages first ≡ some d
      → d.is_free ≡ true
      → list_order.rb_nfind s.free_pages pages ≡ some d.size
      → lists.rb_find s.free_pages d.size ≡ some (first ∷ rest)
      → pages ≤ d.size
      → ((p : ℕ) (e : RegionData)
          → regions.rb_find s.all_pages p ≡ some e
          → e.is_free ≡ true
          → pages ≤ e.size
          → d.size ≤ e.size)
      → (k : ℕ) × (e : RegionData) × (s' : VmRegions trees) × (allocate_pages trees s pages
          ≡ some (k, s'))
        × BestFit s pages k e s'
  unfolding allocate_pages
  found-BestFit s pages first rest d some_pages v adds at free near list few best =
      let listed = record s { free_pages = take_list trees s.free_pages d.size pages first rest } in
      (
        first,
        d,
        after s first d pages rest,
        rw (near, allocate_pages)
            (ap (allocate_found trees s pages d.size) list
              ∙ ap (λ r. some r) (take_region-lem listed first d pages at free)),
        after-BestFit s first d pages rest some_pages v adds at free few list best,
      )

  -- `AllocatePages` of one page or more, in a state in step whose counters add up, gives a null pointer and
  -- changes nothing if no free region has as many; else it takes them from the front of a free region
  -- of the least size that is enough, leaves the rest of it free and every other region as it is, and
  -- both trees and the counters are in step again.
  pub best_fit_lem :
      (s : VmRegions trees) (pages : ℕ)
      → 1 ≤ pages
      → Valid s
      → Adds s
      → ((allocate_pages trees s pages ≡ some (0, s)) × NoneFits s pages)
        ⊎ ((first : ℕ) × (d : RegionData) × (s' : VmRegions trees) × (allocate_pages trees s pages
              ≡ some (first, s'))
            × BestFit s pages first d s')
  unfolding allocate_pages
  best_fit_lem s pages some_pages v adds =
      let near = list_order.nfind-IsLeast s.free_pages pages in
      elim (Option-cases (list_order.rb_nfind s.free_pages pages)) [
        | inl e ↦
            let none_large =
              subst (IsLeast (lists.rb_find s.free_pages) (λ j. leb pages j)) e near in
            inl (
              rw (e, allocate_pages) refl,
              λ p d at free. ground (arith, none_large d.size, has-list s v p d at free),
            )
        | inr (found, e) ↦
            let least = subst (IsLeast (lists.rb_find s.free_pages) (λ j. leb pages j)) e near in
            let head = list-head s v found least.1 in
            let region = listed-region s v head.0 found head.1 head.2 in
            inr (
              found-BestFit s pages head.0 head.1 region.0 some_pages v adds region.1 region.2
                (subst (λ n. list_order.rb_nfind s.free_pages pages ≡ some n) (sym region.3) e)
                (subst (λ n. lists.rb_find s.free_pages n ≡ some (head.0 ∷ head.1)) (sym region.3)
                  head.2)
                (ground (arith, region.3, least.0))
                (λ p b at free large.
                  ground (arith, region.3, least.2 b.size, has-list s v p b at free, large)))
      ]

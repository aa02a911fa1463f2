-- ===== src/VmRegions/Merge.antt =====
-- What `VMRegionAllocator::FreePages` does to the tree of all regions,
-- kernel/src/Memory/VMRegionAllocator.cpp.
use frosty_os.Prelude.{
  ℕ, ◌⊎◌, ◌≡◌, ◌<◌, ◌+◌, ◌*◌, ◌^◌, List, Option, none, some, ◌==◌, ◌&&◌, if◌then◌else◌, refl, sym,
  ap, subst, arith, ◌∙◌, Option-cases, Bool-cases, inl, inr, Bool, true, false, ltb, leb, add64,
}
use frosty_os.AvlTree.{present, IsLeast, IsGreatest}
use frosty_os.VmRegions.{Trees, RegionData, page_bytes}
use frosty_os.VmRegions.Nodes.{node_value}
use frosty_os.VmRegions.Give.{touching, free_before, free_after, remove_before}
use frosty_os.VmRegions.Sound.{ValidMaps}
use frosty_os.VmRegions.Freed.{EndsAt, StartsAt}

-- The map without the previous region and the freed one, which is marked if it stays
abbrev pub without :
    (ℕ → Option RegionData) → ℕ → RegionData → Option (ℕ × ℕ) → ℕ → Option RegionData
without find ptr d none q = if ptr == q then some (record d { is_free = true }) else find q
without find ptr d (some (k, a)) q = if ptr == q then none else if k == q then none else find q

module _ (trees : Trees) where
  open trees use {regions, region_order}
  open regions use {Tree, rb_find, find-insert, find-remove}

  -- A neighbour that touches is a free region of the tree.
  touching-IsNeighbour :
      (t : Tree) (key : ℕ) (touches : ℕ → RegionData → Bool)
      → present (rb_find t key) ≡ true
      → ((d : RegionData) × (touching trees t (some key) touches ≡ none)
          × (rb_find t key ≡ some d)
          × ((d.is_free && touches key d) ≡ false))
        ⊎ ((d : RegionData) × (touching trees t (some key) touches ≡ some (key, d.size))
            × (rb_find t key ≡ some d)
            × (d.is_free ≡ true)
            × (touches key d ≡ true))
  touching-IsNeighbour t key touches here = elim (Option-cases (rb_find t key)) [
    | inl e ↦ ground (arith, here, e)
    | inr (d, e) ↦ elim (Bool-cases (d.is_free && touches key d)) [
      | inl y ↦
          inr (d, rw (touching, e, node_value, y) refl, e, ground (arith, y), ground (arith, y))
      | inr n ↦ inl (d, rw (touching, e, node_value, n) refl, e, n)
    ]
  ]

  module _ (t : Tree) (find : ℕ → Option RegionData) (ptr : ℕ) (d : RegionData)
      (lists : ℕ → Option (List ℕ)) (v : ValidMaps find lists) (at : find ptr ≡ some d)
      (marked : (q : ℕ)
        → rb_find t q ≡ (if ptr == q then some (record d { is_free = true }) else find q))
      (inside : ptr + d.size * 4096 < 2 ^ 64) where
    -- The last region below `ptr`, if it does not touch, leaves no other that does.
    none-EndsAt :
        (m : ℕ) (r : RegionData)
        → IsGreatest (rb_find t) (λ j. ltb j ptr) (some m)
        → rb_find t m ≡ some r
        → (r.is_free && (add64 m (page_bytes r.size) == ptr)) ≡ false
        → EndsAt find ptr none
    none-EndsAt m r last here no_touch k e is free ends =
        let size = v.sized k e is in
        let same : k ≡ m =
          ground
            (arith, marked k, marked m, is, ends, size, here, last.0, last.2 k, v.separate k e m) in
        let equal : r ≡ e = ground (arith, ap find same, marked m, is, here, last.0) in
        let freed : r.is_free ≡ true = ap (λ (x : RegionData). x.is_free) equal ∙ free in
        let ended : m + r.size * 4096 ≡ ptr =
          ground (arith, same, ap (λ (x : RegionData). x.size) equal, ends) in
        ground (arith, no_touch, freed, ended, inside)

    some-EndsAt :
        (m : ℕ) (r : RegionData)
        → ltb m ptr ≡ true
        → rb_find t m ≡ some r
        → r.is_free ≡ true
        → (add64 m (page_bytes r.size) == ptr) ≡ true
        → EndsAt find ptr (some (m, r.size))
    some-EndsAt m r below here free ends =
        let is : find m ≡ some r = ground (arith, marked m, below, here) in
        ((r, is, free, refl), ground (arith, v.within m r is, v.sized m r is, ends, below))

    pub free_before-EndsAt : EndsAt find ptr (free_before trees t ptr ptr)
    unfolding free_before
    free_before-EndsAt =
        let near = region_order.prev-IsGreatest t ptr in
        let touches : ℕ → RegionData → Bool = λ key r. add64 key (page_bytes r.size) == ptr in
        elim (Option-cases (region_order.rb_prev t ptr)) [
          | inl e ↦
              let no_lower = subst (IsGreatest (rb_find t) (λ j. ltb j ptr)) e near in
              rw (e, free_before)
                (λ k r is free ends. ground (arith, no_lower k, marked k, is, ends, v.sized k r is))
          | inr (m, e) ↦
              let last = subst (IsGreatest (rb_find t) (λ j. ltb j ptr)) e near in
              rw (e, free_before)
                (elim (touching-IsNeighbour t m touches last.1) [
                  | inl (r, n, here, no_touch) ↦
                      subst (EndsAt find ptr) (sym n) (none-EndsAt m r last here no_touch)
                  | inr (r, n, here, free, ends) ↦
                      subst (EndsAt find ptr) (sym n) (some-EndsAt m r last.0 here free ends)
                ])
        ]

    pub remove_before-find :
        (before : Option (ℕ × ℕ)) (q : ℕ)
        → rb_find (remove_before trees t ptr before) q ≡ without find ptr d before q
    remove_before-find none q = marked q
    remove_before-find (some (k, a)) q =
        ground (arith, find-remove (regions.rb_remove t k) ptr q, find-remove t k q, marked q)

    -- The region behind, if there is one, is still there.
    behind-find :
        (before : Option (ℕ × ℕ))
        → EndsAt find ptr before
        → rb_find (remove_before trees t ptr before) (ptr + d.size * 4096)
          ≡ find (ptr + d.size * 4096)
    behind-find none x =
        ground (arith, remove_before-find none (ptr + d.size * 4096), v.sized ptr d at)
    behind-find (some (k, a)) x =
        ground
          (arith, remove_before-find (some (k, a)) (ptr + d.size * 4096), v.sized ptr d at, x.1)

    -- The first region from there on, if it does not touch, leaves no other that does.
    behind-used :
        (m : ℕ) (r r' : RegionData) (look : ℕ → Option RegionData)
        → look (ptr + d.size * 4096) ≡ find (ptr + d.size * 4096)
        → IsLeast look (λ j. leb (ptr + d.size * 4096) j) (some m)
        → look m ≡ some r
        → (r.is_free && (ptr + d.size * 4096 == m)) ≡ false
        → find (ptr + d.size * 4096) ≡ some r'
        → r'.is_free ≡ false
    behind-used m r r' look there first here no_touch is =
        let same : m ≡ ptr + d.size * 4096 =
          ground (arith, first.0, first.2 (ptr + d.size * 4096), there, is) in
        let equal : r ≡ r' = ground (arith, ap look same, there, here, is) in
        let used : r.is_free ≡ false = ground (arith, no_touch, same) in
        sym (ap (λ (x : RegionData). x.is_free) equal) ∙ used

    pub free_after-StartsAt :
        (before : Option (ℕ × ℕ))
        → EndsAt find ptr before
        → StartsAt find
            (ptr + d.size * 4096)
            (free_after trees (remove_before trees t ptr before) (add64 ptr (page_bytes d.size)))
    unfolding free_after
    free_after-StartsAt before x =
        let t1 = remove_before trees t ptr before in
        let behind : add64 ptr (page_bytes d.size) ≡ ptr + d.size * 4096 = omega (arith, inside) in
        let touches : ℕ → RegionData → Bool = λ key r. ptr + d.size * 4096 == key in
        let there = behind-find before x in
        let near = region_order.nfind-IsLeast t1 (ptr + d.size * 4096) in
        rw (behind, free_after)
          (elim (Option-cases (region_order.rb_nfind t1 (ptr + d.size * 4096))) [
            | inl e ↦
                let no_higher =
                  subst (IsLeast (rb_find t1) (λ j. leb (ptr + d.size * 4096) j)) e near in
                rw e (λ r is. ground (arith, no_higher (ptr + d.size * 4096), there, is))
            | inr (m, e) ↦
                let first =
                  subst (IsLeast (rb_find t1) (λ j. leb (ptr + d.size * 4096) j)) e near in
                rw (e) (elim (touching-IsNeighbour t1 m touches first.1) [
                  | inl (r, n, here, no_touch) ↦
                      subst (StartsAt find (ptr + d.size * 4096)) (sym n)
                        (λ r' is. behind-used m r r' (rb_find t1) there first here no_touch is)
                  | inr (r, n, here, free, ends) ↦
                      subst (StartsAt find (ptr + d.size * 4096)) (sym n) (
                        let same : m ≡ ptr + d.size * 4096 = ground (arith, ends) in
                        (
                          (
                            r,
                            ground (arith, ap find same, ap (rb_find t1) same, there, here),
                            free,
                            refl,
                          ),
                          same,
                        ))
                ])
          ])

-- ===== src/VmRegions/Return.antt =====
-- `VMRegionAllocator::FreePages` of a whole region in use,
-- kernel/src/Memory/VMRegionAllocator.cpp.
use frosty_os.Prelude.{
  ℕ, ◌≡◌, ◌≢◌, ◌≤◌, ◌<◌, ◌+◌, ◌-◌, ◌*◌, ◌^◌, List, [], Option, none, some, ◌==◌, ◌&&◌,
  if◌then◌else◌, refl, sym, ap, subst, arith, ◌∙◌, ==-refl, true, false, add64,
}
use frosty_os.VmRegions.{Trees, VmRegions, RegionData, page_bytes, size62}
use frosty_os.VmRegions.Nodes.{in_tree, node_value}
use frosty_os.VmRegions.Pool.{put_free}
use frosty_os.VmRegions.Give.{
  merged_start, grown, free_before, free_after, remove_before, remove_after, insert_merged, unlist,
  give_region, free_pages,
}
use frosty_os.VmRegions.Sound.{ValidMaps, ValidMaps-same, Valid, Adds, count, or_empty}
use frosty_os.VmRegions.Listed.{count-put_free, count-drop_free, put_free-filled, drop_free-filled}
use frosty_os.VmRegions.Freed.{
  free_region, extra, once, freed_map, EndsAt, StartsAt, freed-ValidMaps, recount,
}
use frosty_os.VmRegions.Merge.{without, remove_before-find, free_before-EndsAt, free_after-StartsAt}

module _ (trees : Trees) where
  open trees use {regions, lists}
  open regions use {Tree, rb_find, find-insert, find-remove, find-set_value}

  module _ (t : Tree) (find : ℕ → Option RegionData) (ptr : ℕ) (d : RegionData)
      (lists' : ℕ → Option (List ℕ)) (v : ValidMaps find lists') (at : find ptr ≡ some d)
      (marked : (q : ℕ)
        → rb_find t q ≡ (if ptr == q then some (record d { is_free = true }) else find q))
      (inside : ptr + d.size * 4096 < 2 ^ 64) where
    -- The pages of the merged region, which do not wrap
    abbrev total : Option (ℕ × ℕ) → Option (ℕ × ℕ) → ℕ
    total before after = d.size + extra before + extra after

    total-small :
        (before after : Option (ℕ × ℕ))
        → EndsAt find ptr before
        → StartsAt find (ptr + d.size * 4096) after
        → total before after ≤ 2 ^ 52
    total-small none none x y = omega (arith, inside)
    total-small (some (k, a)) none x y = ground (arith, inside, x.1)
    total-small none (some (j, b)) x y = ground (arith, v.within j y.0.0 y.0.1, y.0.3, y.1)
    total-small (some (k, a)) (some (j, b)) x y =
        ground (arith, v.within j y.0.0 y.0.1, y.0.3, y.1, x.1)

    grown-total :
        (before after : Option (ℕ × ℕ))
        → total before after ≤ 2 ^ 52
        → grown (grown d.size before) after ≡ total before after
    grown-total none none l = omega arith
    grown-total (some (k, a)) none l = ground (arith, l)
    grown-total none (some (j, b)) l = ground (arith, l)
    grown-total (some (k, a)) (some (j, b)) l = ground (arith, l)

    removed-find :
        (before : Option (ℕ × ℕ)) (q : ℕ)
        → rb_find (remove_before trees t ptr before) q ≡ without find ptr d before q
    removed-find = remove_before-find trees t find ptr d lists' v at marked inside

    merged_tree : Option (ℕ × ℕ) → Option (ℕ × ℕ) → ℕ → Tree
    merged_tree before after size =
        insert_merged trees (remove_after trees (remove_before trees t ptr before) ptr before after)
          (merged_start ptr before) size before after

    merged-find :
        (before after : Option (ℕ × ℕ)) (size : ℕ)
        → EndsAt find ptr before
        → StartsAt find (ptr + d.size * 4096) after
        → size ≡ total before after
        → size62 size ≡ size
        → (q : ℕ) → rb_find (merged_tree before after size) q ≡ freed_map find ptr d before after q
    unfolding merged_tree
    merged-find none none size x y e f q = marked q
    merged-find (some (k, a)) none size x y e f q =
        let t1 = remove_before trees t ptr (some (k, a)) in
        subst
          (λ n.
            rb_find (regions.rb_insert t1 k (free_region n)) q
            ≡ freed_map find ptr d (some (k, a)) none q)
          (sym (f ∙ e))
          (ground (
            arith,
            find-insert t1 k (free_region (d.size + a)) q,
            removed-find (some (k, a)) q,
            removed-find (some (k, a)) k,
            x.1,
            v.sized k x.0.0 x.0.1,
          ))
    merged-find none (some (j, b)) size x y e f q =
        let t2 = regions.rb_remove (regions.rb_remove t j) ptr in
        subst
          (λ n.
            rb_find (regions.rb_insert t2 ptr (free_region n)) q
            ≡ freed_map find ptr d none (some (j, b)) q)
          (sym (f ∙ e))
          (ground (
            arith,
            find-insert t2 ptr (free_region (d.size + b)) q,
            find-remove (regions.rb_remove t j) ptr q,
            find-remove (regions.rb_remove t j) ptr ptr,
            find-remove t j q,
            marked q,
          ))
    merged-find (some (k, a)) (some (j, b)) size x y e f q =
        let t1 = remove_before trees t ptr (some (k, a)) in
        let t2 = regions.rb_remove t1 j in
        subst
          (λ n.
            rb_find (regions.rb_insert t2 k (free_region n)) q
            ≡ freed_map find ptr d (some (k, a)) (some (j, b)) q)
          (sym (f ∙ e))
          (ground (
            arith,
            find-insert t2 k (free_region (d.size + a + b)) q,
            find-remove t1 j q,
            find-remove t1 j k,
            removed-find (some (k, a)) q,
            removed-find (some (k, a)) k,
            x.1,
            v.sized k x.0.0 x.0.1,
          ))

  unlist-count :
      (l : trees.lists.Tree) (o : Option (ℕ × ℕ)) (p n : ℕ)
      → count p (or_empty (lists.rb_find (unlist trees l o) n))
        ≡ count p (or_empty (lists.rb_find l n)) - once o p n
  unlist-count l none p n = omega arith
  unlist-count l (some (k, a)) p n = count-drop_free lists l a k p n

  unlist-filled :
      (l : trees.lists.Tree) (o : Option (ℕ × ℕ)) (n : ℕ)
      → lists.rb_find l n ≢ some []
      → lists.rb_find (unlist trees l o) n ≢ some []
  unlist-filled l none n h = h
  unlist-filled l (some (k, a)) n h = drop_free-filled lists l a k n h

  merged-count :
      (l : trees.lists.Tree) (before after : Option (ℕ × ℕ)) (size first p n : ℕ)
      → count p (
          or_empty (
            lists.rb_find
              (put_free lists (unlist trees (unlist trees l before) after) size first)
              n))
        ≡ count p (or_empty (lists.rb_find l n))
          - once before p n
          - once after p n
          + (if (size == n) && (first == p) then 1 else 0)
  merged-count l before after size first p n =
      let l1 = unlist trees l before in
      count-put_free lists (unlist trees l1 after) size first p n
      ∙ ap (λ c. c + (if (size == n) && (first == p) then 1 else 0))
          (unlist-count l1 after p n ∙ ap (λ c. c - once after p n) (unlist-count l before p n))

  -- The regions before and after that are free and touch the one given back, if there are any, have
  -- merged with it, every other region is as it was, and trees and counters are in step.
  pub record Returned (s : VmRegions trees) (ptr : ℕ) (d : RegionData) (s' : VmRegions trees)
      : Type 0 where
    pub before : Option (ℕ × ℕ)
    pub after : Option (ℕ × ℕ)
    pub ends : EndsAt (rb_find s.all_pages) ptr before
    pub starts : StartsAt (rb_find s.all_pages) (ptr + d.size * 4096) after
    pub regions :
        (q : ℕ) → rb_find s'.all_pages q ≡ freed_map (rb_find s.all_pages) ptr d before after q
    pub valid : Valid s'
    pub adds : Adds s'

  give_region-Returned :
      (s : VmRegions trees) (t : Tree) (ptr : ℕ) (d : RegionData)
      → Valid s
      → Adds s
      → rb_find s.all_pages ptr ≡ some d
      → d.is_free ≡ false
      → ptr + d.size * 4096 < 2 ^ 64
      → ((q : ℕ)
          → rb_find t q
            ≡ (if ptr == q then some (record d { is_free = true }) else rb_find s.all_pages q))
      → Returned s ptr d (give_region trees s t ptr ptr d.size)
  unfolding give_region merged_tree
  give_region-Returned s t ptr d v adds at used inside marked =
      let find = rb_find s.all_pages in
      let old = lists.rb_find s.free_pages in
      let before = free_before trees t ptr ptr in
      let x = free_before-EndsAt trees t find ptr d old v at marked inside in
      let after =
        free_after trees (remove_before trees t ptr before) (add64 ptr (page_bytes d.size)) in
      let y = free_after-StartsAt trees t find ptr d old v at marked inside before x in
      let small = total-small t find ptr d old v at marked inside before after x y in
      let size = grown (grown d.size before) after in
      let sum = grown-total t find ptr d old v at marked inside before after small in
      let map =
        merged-find t find ptr d old v at marked inside before after size x y sum
          (omega (arith, sum, small)) in
      let new = (give_region trees s t ptr ptr d.size) in
      let counts : (p n : ℕ)
          → count p (or_empty (lists.rb_find new.free_pages n))
            ≡ recount find old v ptr d at used before after p n =
        λ p n.
          merged-count s.free_pages before after size (merged_start ptr before) p n
          ∙ ap
              (λ k.
                count p (or_empty (old n))
                - once before p n
                - once after p n
                + (if (k == n) && (merged_start ptr before == p) then 1 else 0))
              sum in
      let l1 = unlist trees s.free_pages before in
      let full : (n : ℕ) → lists.rb_find new.free_pages n ≢ some [] = λ n.
        put_free-filled lists (unlist trees l1 after) size (merged_start ptr before) n
          (unlist-filled l1 after n (unlist-filled s.free_pages before n (v.filled n))) in
      record {
        before = before;
        after = after;
        ends = x;
        starts = y;
        regions = map;
        valid =
            ValidMaps-same (freed_map find ptr d before after) (rb_find new.all_pages)
              (lists.rb_find new.free_pages) (lists.rb_find new.free_pages) map (λ n. refl)
              (freed-ValidMaps find old v ptr d at used (lists.rb_find new.free_pages) before after
                x y counts full);
        adds = omega (arith, adds);
      }

  -- `FreePages` of a whole region in use, in a state in step whose counters add up, and below the last
  -- byte of the address space, succeeds: the region becomes free and merges with the free regions that
  -- touch it on either side, all others stay, and both trees and the counters are in step again.
  pub free_region_lem :
      (s : VmRegions trees) (ptr : ℕ) (d : RegionData)
      → Valid s
      → Adds s
      → rb_find s.all_pages ptr ≡ some d
      → d.is_free ≡ false
      → ptr + d.size * 4096 < 2 ^ 64
      → (s' : VmRegions trees) × (free_pages trees s ptr d.size true ≡ some s')
        × Returned s ptr d s'
  unfolding free_pages
  free_region_lem s ptr d v adds at used inside =
      let t = regions.set_value s.all_pages ptr (record d { is_free = true }) in
      let value : node_value regions s.all_pages (in_tree ptr) ≡ d = rw (at, node_value) refl in
      (
        give_region trees s t ptr ptr d.size,
        rw (free_pages, at, used, ==-refl d.size)
            (ap
              (λ (e : RegionData). some (
                give_region trees s
                  (regions.set_value s.all_pages ptr (record e { is_free = true })) ptr ptr d.size))
              value),
        give_region-Returned s t ptr d v adds at used inside (λ q.
            ground (arith, find-set_value s.all_pages ptr (record d { is_free = true }) q, at)),
      )

-- ===== src/VmRegions/Tests.antt =====
-- Runs and instances for kernel/src/Memory/VMRegionAllocator.cpp, on trees that are lists.
use frosty_os.Prelude.{
  ◌^◌, ◌-◌, ◌∷◌, [], ℕ, ◌≡◌, refl, arith, List, true, false, Option, none, some, ◌⊎◌,
}
use frosty_os.AvlTree.{lookup, find_node_or_lower}
use frosty_os.AvlTree.Assoc.{list_tree, list_order, best, add, update, drop_key}
use frosty_os.VmRegions.{Trees, VmRegions, RegionData, new_regions, init, init_range}
use frosty_os.VmRegions.Pool.{has_node, delete_node, ensure_node, put_free, drop_free}
use frosty_os.VmRegions.Nodes.{split_node}
use frosty_os.VmRegions.Take.{allocate_pages, take_region, node_at, mark_used, take_list}
use frosty_os.VmRegions.Place.{allocate_at, isolate, cut_below, cut_above}
use frosty_os.VmRegions.Give.{free_pages, give_region, free_before, free_after}
use frosty_os.VmRegions.Copy.{verify, regions_ok}
use frosty_os.VmRegions.Sound.{Valid, Adds, count}
use frosty_os.VmRegions.Best.{NoneFits, BestFit, best_fit_lem}
use frosty_os.VmRegions.Return.{Returned, free_region_lem}
use frosty_os.VmRegions.Fresh.{one_region, init-one_region}

abbrev list_trees : Trees
list_trees = record {
  regions = list_tree RegionData;
  region_order = list_order RegionData;
  lists = list_tree (List ℕ);
  list_order = list_order (List ℕ);
}

-- Eight pages from the second on
abbrev eight_pages : VmRegions list_trees
eight_pages = init list_trees (new_regions list_trees) 4096 36864

init-one_region_example :
    Valid eight_pages
    × Adds eight_pages
    × ((q : ℕ) → lookup q eight_pages.all_pages ≡ one_region 4096 8 q)
init-one_region_example = init-one_region list_trees 4096 36864 (omega arith) (omega arith)

best_fit_lem_example :
    ((allocate_pages list_trees eight_pages 3 ≡ some (0, eight_pages))
      × NoneFits list_trees eight_pages 3)
    ⊎ ((first : ℕ) × (d : RegionData) × (s' : VmRegions list_trees) × (allocate_pages list_trees
            eight_pages 3
          ≡ some (first, s'))
        × BestFit list_trees eight_pages 3 first d s')
best_fit_lem_example =
    best_fit_lem list_trees eight_pages 3 (omega arith)
      (init-one_region list_trees 4096 36864 (omega arith) (omega arith)).0
      (init-one_region list_trees 4096 36864 (omega arith) (omega arith)).1

abbrev start_of : Option (ℕ × VmRegions list_trees) → ℕ
start_of none = 0
start_of (some (first, s)) = first

abbrev state_of : Option (ℕ × VmRegions list_trees) → VmRegions list_trees
state_of none = eight_pages
state_of (some (first, s)) = s

three_pages : start_of (allocate_pages list_trees eight_pages 3) ≡ 4096
unfolding allocate_pages take_region node_at mark_used take_list split_node put_free ensure_node
    init_range best add update drop_key lookup find_node_or_lower
three_pages = refl

three_verify : verify list_trees (state_of (allocate_pages list_trees eight_pages 3)) ≡ true
unfolding verify regions_ok has_node allocate_pages take_region node_at mark_used take_list
    split_node put_free ensure_node init_range best add update drop_key lookup find_node_or_lower
three_verify = refl

-- A request of no pages makes a used region without pages of the first free one.
no_pages_verify : verify list_trees (state_of (allocate_pages list_trees eight_pages 0)) ≡ false
unfolding verify regions_ok has_node allocate_pages take_region node_at mark_used take_list
    split_node put_free ensure_node init_range best add update drop_key lookup find_node_or_lower
no_pages_verify = refl

-- Pages in the middle are taken, and their return merges them with both neighbours.
middle_taken : (allocate_at list_trees eight_pages 8192 2).0 ≡ 8192
unfolding allocate_at isolate cut_below cut_above split_node put_free drop_free delete_node
    ensure_node init_range best add update drop_key lookup find_node_or_lower
middle_taken = refl

abbrev or_same : Option (VmRegions list_trees) → VmRegions list_trees
or_same none = eight_pages
or_same (some s) = s

middle_returned :
    lookup 4096
      (or_same
        (free_pages list_trees (allocate_at list_trees eight_pages 8192 2).1 8192 2 true)).all_pages
    ≡ some (record { size = 8; is_free = true; is_reserved = false })
unfolding free_pages give_region free_before free_after allocate_at isolate cut_below cut_above
    split_node put_free drop_free delete_node ensure_node init_range best add update drop_key lookup
    find_node_or_lower
middle_returned = refl

-- All eight pages taken, as `AllocatePages` of eight pages leaves the state
abbrev full : VmRegions list_trees
full = record eight_pages {
  all_pages = (4096, record { size = 8; is_free = false; is_reserved = false }) ∷ [];
  free_pages = [];
  free_count = 0;
  used_count = 8;
}

full_run : state_of (allocate_pages list_trees eight_pages 8) ≡ full
unfolding allocate_pages take_region node_at mark_used take_list split_node put_free ensure_node
    init_range best add update drop_key lookup find_node_or_lower
full_run = refl

full-Valid : Valid full
unfolding count lookup
full-Valid = record {
  listed = λ p n. ground arith;
  filled = λ n e. ground (arith, e);
  sized = λ p d e. ground (arith, e);
  within = λ p d e. ground (arith, e);
  separate = λ p d q e h l. ground (arith, e, h, l);
}

free_region_lem_example :
    (s' : VmRegions list_trees) × (free_pages list_trees full 4096 8 true ≡ some s')
    × Returned list_trees full 4096 (record { size = 8; is_free = false; is_reserved = false }) s'
unfolding lookup init_range
free_region_lem_example =
    free_region_lem list_trees full 4096 (record { size = 8; is_free = false; is_reserved = false })
      full-Valid refl refl refl (omega arith)

-- All of memory, of which one page in the middle and the last page are taken
abbrev all_memory : VmRegions list_trees
all_memory =
    (allocate_at list_trees
      (allocate_at list_trees (init list_trees (new_regions list_trees) 0 0) 8192 1).1
      (2 ^ 64 - 4096) 1).1

-- The return of the last page merges it with the free region at address 0.
wrapped_merge :
    lookup 0
      (or_same (
        free_pages list_trees
          (allocate_at list_trees all_memory (2 ^ 64 - 8192) 1).1
          (2 ^ 64 - 4096)
          1
          true)).all_pages
    ≡ none
unfolding free_pages give_region free_before free_after allocate_at isolate cut_below cut_above
    split_node put_free drop_free delete_node ensure_node init_range best add update drop_key lookup
    find_node_or_lower
wrapped_merge = refl

-- ===== src/VmRegions/Place.antt =====
-- `VMRegionAllocator::AllocatePages(void*, uint64_t, bool)`, which takes pages at a given address,
-- kernel/src/Memory/VMRegionAllocator.cpp.
use frosty_os.Prelude.{ℕ, Bool, not, none, some, ltb, if◌then◌else◌, ◌||◌, add64, sub64}
use frosty_os.AvlTree.{find_node_or_lower, present}
use frosty_os.VmRegions.{Trees, VmRegions, RegionData, page_bytes, bytes_pages}
use frosty_os.VmRegions.Pool.{put_free, drop_free}
use frosty_os.VmRegions.Nodes.{Node, in_tree, node_key, node_value, split_node}
use frosty_os.VmRegions.Take.{count_taken, mark_split}

-- The end of the region and the end of the pages
abbrev pub ends_before : ℕ → RegionData → ℕ → ℕ → Bool
ends_before key d ptr pages = ltb (add64 key (page_bytes d.size)) (add64 ptr (page_bytes pages))

module _ (trees : Trees) where
  open trees use {regions, region_order, lists}

  -- The trees while the pages are isolated, and the node that has them at its front
  pub record Isolated : Type 0 where
    pub all_pages : regions.Tree
    pub free_pages : lists.Tree
    pub node : Node

  -- The pages of the region below `ptr` stay free: they are split off, and listed.
  unfoldable pub cut_below : Isolated → ℕ → Isolated
  cut_below i ptr =
      let key = node_key i.node in
      let pages = bytes_pages (sub64 ptr key) in
      let split = split_node regions i.all_pages i.node pages in
      if ltb key ptr
      then record {
        all_pages = split.0;
        free_pages = put_free lists i.free_pages pages key;
        node = split.2;
      }
      else i

  -- So do those above.
  unfoldable pub cut_above : Isolated → ℕ → Isolated
  cut_above i pages =
      let split = split_node regions i.all_pages i.node pages in
      let rest = node_value regions split.0 split.2 in
      if ltb pages (node_value regions i.all_pages i.node).size
      then record {
        all_pages = split.0;
        free_pages = put_free lists i.free_pages rest.size (node_key split.2);
        node = split.1;
      }
      else i

  unfoldable pub isolate : VmRegions trees → ℕ → ℕ → ℕ → RegionData → Isolated
  isolate s ptr pages key d =
      cut_above
        (cut_below
          (record {
            all_pages = s.all_pages;
            free_pages = drop_free lists s.free_pages d.size key;
            node = in_tree key;
          })
          ptr)
        pages

  -- The stores of the isolated node and of the counters
  abbrev pub place_in : VmRegions trees → Isolated → ℕ → VmRegions trees
  place_in s i pages =
      count_taken trees
        (record s { all_pages = mark_split trees (i.all_pages, i.node); free_pages = i.free_pages })
        pages

  abbrev pub place_found : VmRegions trees → ℕ → ℕ → ℕ → RegionData → ℕ × VmRegions trees
  place_found s ptr pages key d =
      if not d.is_free || ends_before key d ptr pages
      then (0, s)
      else if not (present (lists.rb_find s.free_pages d.size))
      then (0, s)
      else (ptr, place_in s (isolate s ptr pages key d) pages)

  -- `AllocatePages` at an address; the pointer 0 is null.
  unfoldable pub allocate_at : VmRegions trees → ℕ → ℕ → ℕ × VmRegions trees
  allocate_at s ptr pages = elim (find_node_or_lower regions region_order s.all_pages ptr) [
    | none ↦ (0, s)
    | some key ↦ place_found s ptr pages key (node_value regions s.all_pages (in_tree key))
  ]

-- ===== src/VmRegions/Take.antt =====
-- `VMRegionAllocator::AllocatePages(uint64_t)`, kernel/src/Memory/VMRegionAllocator.cpp.
use frosty_os.Prelude.{
  ℕ, false, not, List, [], ◌∷◌, Option, none, some, ltb, if◌then◌else◌, add64, sub64,
}
use frosty_os.AvlTree.{find_node_or_higher, find_node_or_lower}
use frosty_os.VmRegions.{Trees, VmRegions, page_bytes, bytes_pages}
use frosty_os.VmRegions.Pool.{put_free, store_list}
use frosty_os.VmRegions.Nodes.{Node, in_tree, node_value, set_node, split_node}

module _ (trees : Trees) where
  open trees use {regions, region_order, lists, list_order}

  -- The counters of pages that pass from free to used
  abbrev pub count_taken : VmRegions trees → ℕ → VmRegions trees
  count_taken s pages = record s {
    free_count = sub64 s.free_count pages;
    used_count = add64 s.used_count pages;
  }

  -- A node that has the pages at its front is split if it has more, and marked as used.
  abbrev pub mark_split : regions.Tree × Node → regions.Tree
  mark_split (t, node) =
      (set_node regions t node (record (node_value regions t node) { is_free = false })).0

  unfoldable pub mark_used : regions.Tree → Node → ℕ → regions.Tree
  mark_used t node pages =
      let split = split_node regions t node pages in
      if ltb pages (node_value regions t node).size
      then mark_split (split.0, split.1)
      else mark_split (t, node)

  -- The node at `first`, which is split off a region that starts below it
  unfoldable pub node_at : regions.Tree → ℕ → ℕ → regions.Tree × Node
  node_at t key first =
      let split = split_node regions t (in_tree key) (bytes_pages (sub64 first key)) in
      if ltb key first then (split.0, split.2) else (t, in_tree key)

  -- The second half of `AllocatePages`: the pages from `first` on become used in the tree of all
  -- regions. The pointer 0 is null.
  abbrev pub mark_at : VmRegions trees → regions.Tree × Node → ℕ → ℕ → ℕ × VmRegions trees
  mark_at s (t, node) first pages =
      if not (node_value regions t node).is_free
      then (0, record s { all_pages = t })
      else (first, count_taken (record s { all_pages = mark_used t node pages }) pages)

  unfoldable pub take_region : VmRegions trees → ℕ → ℕ → ℕ × VmRegions trees
  take_region s first pages = elim (find_node_or_lower regions region_order s.all_pages first) [
    | none ↦ (0, s)
    | some key ↦ mark_at s (node_at s.all_pages key first) first pages
  ]

  -- The lists after the first start of size `found` is taken, and the start of what is left is added
  unfoldable pub take_list : lists.Tree → ℕ → ℕ → ℕ → List ℕ → lists.Tree
  take_list t found pages first rest =
      let taken = store_list lists t found rest in
      if ltb pages found
      then put_free lists taken (sub64 found pages) (add64 first (page_bytes pages))
      else taken

  -- `AllocatePages`, or none where it reads through a null list.
  abbrev pub allocate_found :
      VmRegions trees → ℕ → ℕ → Option (List ℕ) → Option (ℕ × VmRegions trees)
  allocate_found s pages found none = none
  allocate_found s pages found (some []) = none
  allocate_found s pages found (some (first ∷ rest)) = some (
      take_region (record s { free_pages = take_list s.free_pages found pages first rest }) first
        pages)

  unfoldable pub allocate_pages : VmRegions trees → ℕ → Option (ℕ × VmRegions trees)
  allocate_pages s pages = elim (find_node_or_higher lists list_order s.free_pages pages) [
    | none ↦ some (0, s)
    | some found ↦ allocate_found s pages found (lists.rb_find s.free_pages found)
  ]

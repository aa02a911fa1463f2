-- ===== src/VmRegions/Give.antt =====
-- `VMRegionAllocator::FreePages`, kernel/src/Memory/VMRegionAllocator.cpp.
use frosty_os.Prelude.{
  ℕ, Bool, true, false, not, Option, none, some, ◌==◌, if◌then◌else◌, ◌||◌, ◌&&◌, add64, sub64,
}
use frosty_os.AvlTree.{find_node_or_lower, find_node_or_higher, previous_node}
use frosty_os.VmRegions.{Trees, VmRegions, RegionData, size62, page_bytes}
use frosty_os.VmRegions.Pool.{put_free, drop_free}
use frosty_os.VmRegions.Nodes.{Node, in_tree, apart, node_value, split_node}
use frosty_os.VmRegions.Take.{node_at}
use frosty_os.VmRegions.Place.{ends_before}

-- The region to insert: its start and its size
abbrev pub merged_start : ℕ → Option (ℕ × ℕ) → ℕ
merged_start ptr none = ptr
merged_start ptr (some (key, size)) = key

abbrev pub grown : ℕ → Option (ℕ × ℕ) → ℕ
grown pages none = pages
grown pages (some (key, size)) = add64 pages size

module _ (trees : Trees) where
  open trees use {regions, region_order, lists}

  -- Step 1: the node of the pages, or none where the routine returns.
  abbrev pub exact_node : regions.Tree → ℕ → ℕ → Option (regions.Tree × Node)
  exact_node t ptr pages = elim (regions.rb_find t ptr) [
    | none ↦ none
    | some d ↦ if d.is_free || not (d.size == pages) then none else some (t, in_tree ptr)
  ]

  -- The node is split if it has another number of pages.
  abbrev pub cut_to : regions.Tree × Node → ℕ → regions.Tree × Node
  cut_to (t, node) pages =
      let split = split_node regions t node pages in
      if (node_value regions t node).size == pages then (t, node) else (split.0, split.1)

  abbrev pub containing_node : regions.Tree → ℕ → ℕ → Option (regions.Tree × Node)
  containing_node t ptr pages = elim (find_node_or_lower regions region_order t ptr) [
    | none ↦ none
    | some key ↦
        let d = node_value regions t (in_tree key) in
        if d.is_free || ends_before key d ptr pages
        then none
        else some (cut_to (node_at trees t key ptr) pages)
  ]

  abbrev pub node_to_free : regions.Tree → ℕ → ℕ → Bool → Option (regions.Tree × Node)
  node_to_free t ptr pages exact =
      if exact then exact_node t ptr pages else containing_node t ptr pages

  -- Step 2: a free neighbour that touches the pages, with its size.
  abbrev pub touching : regions.Tree → Option ℕ → (ℕ → RegionData → Bool) → Option (ℕ × ℕ)
  touching t none touches = none
  touching t (some key) touches =
      let d = node_value regions t (in_tree key) in
      if d.is_free && touches key d then some (key, d.size) else none

  unfoldable pub free_before : regions.Tree → ℕ → ℕ → Option (ℕ × ℕ)
  free_before t node ptr =
      touching t (previous_node regions region_order t node)
        (λ key d. add64 key (page_bytes d.size) == ptr)

  unfoldable pub free_after : regions.Tree → ℕ → Option (ℕ × ℕ)
  free_after t behind =
      touching t (find_node_or_higher regions region_order t behind) (λ key d. behind == key)

  -- The previous node and the current one leave the tree.
  abbrev pub remove_before : regions.Tree → ℕ → Option (ℕ × ℕ) → regions.Tree
  remove_before t node none = t
  remove_before t node (some (key, size)) = regions.rb_remove (regions.rb_remove t key) node

  -- The next node leaves the tree, and the current one if it has not.
  abbrev pub remove_after : regions.Tree → ℕ → Option (ℕ × ℕ) → Option (ℕ × ℕ) → regions.Tree
  remove_after t node before none = t
  remove_after t node none (some (key, size)) = regions.rb_remove (regions.rb_remove t key) node
  remove_after t node (some b) (some (key, size)) = regions.rb_remove t key

  -- Step 3: a merged region is inserted.
  abbrev pub insert_merged : regions.Tree → ℕ → ℕ → Option (ℕ × ℕ) → Option (ℕ × ℕ) → regions.Tree
  insert_merged t first size none none = t
  insert_merged t first size before after =
      regions.rb_insert t first (record { size = size62 size; is_free = true; is_reserved = false })

  -- Step 4: the neighbours leave the lists.
  abbrev pub unlist : lists.Tree → Option (ℕ × ℕ) → lists.Tree
  unlist t none = t
  unlist t (some (key, size)) = drop_free lists t size key

  -- Steps 3 to 6
  abbrev pub give_merged :
      VmRegions trees → regions.Tree → ℕ → ℕ → Option (ℕ × ℕ) → Option (ℕ × ℕ) → VmRegions trees
  give_merged s t ptr pages before after =
      let first = merged_start ptr before in
      let size = grown (grown pages before) after in
      record s {
        all_pages = insert_merged t first size before after;
        free_pages = put_free lists (unlist (unlist s.free_pages before) after) size first;
        free_count = add64 s.free_count pages;
        used_count = sub64 s.used_count pages;
      }

  -- Steps 2 to 6, at a node of the tree that is marked as free
  unfoldable pub give_region : VmRegions trees → regions.Tree → ℕ → ℕ → ℕ → VmRegions trees
  give_region s t node ptr pages =
      let before = free_before t node ptr in
      let t1 = remove_before t node before in
      let after = free_after t1 (add64 ptr (page_bytes pages)) in
      give_merged s (remove_after t1 node before after) ptr pages before after

  -- The node is marked as free. Of a node apart from the tree, the neighbours are not defined: none.
  abbrev pub give_node : VmRegions trees → ℕ → ℕ → regions.Tree × Node → Option (VmRegions trees)
  give_node s ptr pages (t, apart key d) = none
  give_node s ptr pages (t, in_tree key) = some (
      give_region s
        (regions.set_value t key (record (node_value regions t (in_tree key)) { is_free = true }))
        key ptr pages)

  -- `FreePages`
  unfoldable pub free_pages : VmRegions trees → ℕ → ℕ → Bool → Option (VmRegions trees)
  free_pages s ptr pages exact = elim (node_to_free s.all_pages ptr pages exact) [
    | none ↦ some s
    | some (t, node) ↦ give_node s ptr pages (t, node)
  ]

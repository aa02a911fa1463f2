-- ===== src/VmRegions/Copy.antt =====
-- `VMRegionAllocator::ResizeAllocatedRegion`, `Fork`, `Delete` and `Verify`,
-- kernel/src/Memory/VMRegionAllocator.cpp.
use frosty_os.Prelude.{
  ℕ, Bool, true, false, not, List, [], ◌∷◌, Option, none, some, ltb, ◌==◌, if◌then◌else◌, ◌||◌,
  ◌&&◌, ◌^◌, ◌-◌, add64,
}
use frosty_os.AvlTree.{clear, RawTree}
use frosty_os.VmRegions.{Trees, VmRegions, RegionData}
use frosty_os.VmRegions.Pool.{has_node, insert_node}
use frosty_os.VmRegions.Nodes.{Node, node_value, split_node}
use frosty_os.VmRegions.Take.{node_at}

-- A list is copied node by node.
unfoldable pub copy_list : List ℕ → List ℕ → List ℕ
copy_list new [] = new
copy_list new (x ∷ xs) = copy_list (insert_node new x) xs

-- The entries of a tree go into another one.
unfoldable pub copy_entries :
    {V : Type 0} (raw : RawTree V) → (V → V) → raw.Tree → List (ℕ × V) → raw.Tree
copy_entries raw copy t [] = t
copy_entries raw copy t ((k, v) ∷ es) = copy_entries raw copy (raw.rb_insert t k (copy v)) es

-- Whether `findNode` finds the start in the list of a size
abbrev pub listed_ok : Option (List ℕ) → ℕ → Bool
listed_ok none key = false
listed_ok (some l) key = has_node l key

module _ (trees : Trees) where
  open trees use {regions, lists}

  -- `ResizeAllocatedRegion`
  abbrev pub shrink : regions.Tree × Node → ℕ → regions.Tree
  shrink (t, node) pages =
      if (node_value regions t node).size == pages then t else (split_node regions t node pages).0

  abbrev pub resize_found : VmRegions trees → ℕ → ℕ → ℕ → ℕ → RegionData → Bool × VmRegions trees
  resize_found s ptr pages new_start new_pages d =
      if d.is_free || not (d.size == pages) then (false, s) else (
        true,
        record s { all_pages = shrink (node_at trees s.all_pages ptr new_start) new_pages },
      )

  unfoldable pub resize_allocated_region : VmRegions trees → ℕ → ℕ → ℕ → ℕ → Bool × VmRegions trees
  resize_allocated_region s ptr pages new_start new_pages = elim (regions.rb_find s.all_pages ptr) [
    | none ↦ (false, s)
    | some d ↦ resize_found s ptr pages new_start new_pages d
  ]

  -- `Fork`, of `other` into this one
  unfoldable pub fork : VmRegions trees → VmRegions trees → VmRegions trees
  fork s other = record {
    start = other.start;
    end = other.end;
    all_pages = copy_entries regions (λ d. d) s.all_pages (regions.rb_foreach other.all_pages);
    free_pages = copy_entries lists (copy_list []) s.free_pages (lists.rb_foreach other.free_pages);
    free_count = other.free_count;
    used_count = other.used_count;
    reserved_count = other.reserved_count;
    total_count = other.total_count;
  }

  -- `Delete`
  unfoldable pub delete : VmRegions trees → VmRegions trees
  delete s = record s {
    all_pages = clear regions s.all_pages;
    free_pages = clear lists s.free_pages;
    free_count = 0;
    used_count = 0;
    reserved_count = 0;
    total_count = 0;
  }

  -- What `Verify` asserts of a region
  abbrev pub region_ok : lists.Tree → ℕ → RegionData → Bool
  region_ok t key d =
      not (d.size == 0) && (if d.is_free then listed_ok (lists.rb_find t d.size) key else true)

  unfoldable pub regions_ok : lists.Tree → List (ℕ × RegionData) → Bool
  regions_ok t [] = true
  regions_ok t ((k, d) ∷ es) = region_ok t k d && regions_ok t es

  -- `Verify`: whether all its assertions hold.
  unfoldable pub verify : VmRegions trees → Bool
  verify s =
      not (s.start == 2 ^ 64 - 1)
      && not (s.end == 0)
      && ltb s.start s.end
      && (add64 (add64 s.free_count s.used_count) s.reserved_count == s.total_count)
      && regions_ok s.free_pages (regions.rb_foreach s.all_pages)

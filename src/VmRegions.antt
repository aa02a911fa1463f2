-- ===== src/VmRegions.antt =====
-- kernel/src/Memory/VMRegionAllocator.cpp: the regions of an address space, free or in use. One
-- search tree has all regions by their start, another the starts of the free regions by their size in
-- pages. Both trees are parameters, with the behaviour of AVLTree.hpp; the linked lists of starts, of
-- kernel/lib/src/DataStructures/LinkedList.cpp, are lists, and a null pointer is the empty list.
pub mod Pool
pub mod Nodes
pub mod Take
pub mod Place
pub mod Give
pub mod Copy
pub mod Sound
pub mod Lists
pub mod Marks
pub mod Taken
pub mod Best
pub mod Fresh
pub mod Freed
pub mod Listed
pub mod Merge
pub mod Return
mod Tests
use frosty_os.Prelude.{
  ℕ, ◌+◌, ◌-◌, ◌/◌, ◌*◌, ◌%◌, ◌^◌, Bool, true, false, ◌&&◌, List, [], ◌∷◌, ◌==◌, if◌then◌else◌,
  sub64,
}
use frosty_os.AvlTree.{RawTree, RawOrder}

-- PAGE_SIZE
abbrev pub page_size : ℕ
page_size = 4096

-- The number of bytes of pages and the number of pages of bytes, by shifts of PAGE_SIZE_SHIFT
abbrev pub page_bytes : ℕ → ℕ
page_bytes n = n * 4096 % 2 ^ 64

abbrev pub bytes_pages : ℕ → ℕ
bytes_pages n = n / 4096

-- `CompleteTreeNodeData`
pub record RegionData : Type 0 where
  pub size : ℕ
  pub is_free : Bool
  pub is_reserved : Bool

-- A store to the field of 62 bits
abbrev pub size62 : ℕ → ℕ
size62 n = n % 2 ^ 62

-- The trees that the class uses: of all regions, and of the lists of free ones
pub record Trees : Type 1 where
  pub regions : RawTree RegionData
  pub region_order : RawOrder regions
  pub lists : RawTree (List ℕ)
  pub list_order : RawOrder lists

-- The fields of the class
pub record VmRegions (trees : Trees) : Type 0 where
  pub start : ℕ
  pub end : ℕ
  pub all_pages : trees.regions.Tree
  pub free_pages : trees.lists.Tree
  pub free_count : ℕ
  pub used_count : ℕ
  pub reserved_count : ℕ
  pub total_count : ℕ

-- `ALIGN_DOWN` and `ALIGN_UP` to pages
abbrev pub page_down : ℕ → ℕ
page_down n = n / 4096 * 4096

abbrev pub page_up : ℕ → ℕ
page_up n = (n + 4095) % 2 ^ 64 / 4096 * 4096

-- The number of pages of `Init`, where both ends at 0 mean all of memory
abbrev pub page_count : ℕ → ℕ → ℕ
page_count first last =
    if (first == 0) && (last == 0) then 2 ^ 52 else bytes_pages (sub64 last first)

module _ (trees : Trees) where
  -- The constructor
  abbrev pub new_regions : VmRegions trees
  new_regions = record {
    start = 2 ^ 64 - 1;
    end = 0;
    all_pages = trees.regions.rb_init;
    free_pages = trees.lists.rb_init;
    free_count = 0;
    used_count = 0;
    reserved_count = 0;
    total_count = 0;
  }

  -- `Init`
  unfoldable pub init_range : VmRegions trees → ℕ → ℕ → VmRegions trees
  init_range s first last =
      let pages = page_count first last in
      record s {
        start = first;
        end = last;
        all_pages =
            trees.regions.rb_insert s.all_pages first
              (record { size = size62 pages; is_free = true; is_reserved = false });
        free_pages = trees.lists.rb_insert s.free_pages pages (first ∷ []);
        free_count = pages;
        used_count = 0;
        reserved_count = 0;
        total_count = pages;
      }

  abbrev pub init : VmRegions trees → ℕ → ℕ → VmRegions trees
  init s first last = init_range s (page_down first) (page_up last)

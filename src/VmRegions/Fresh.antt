-- ===== src/VmRegions/Fresh.antt =====
-- The trees after `VMRegionAllocator::Init`, kernel/src/Memory/VMRegionAllocator.cpp.
use frosty_os.Prelude.{
  ℕ, ◌≡◌, ◌≤◌, ◌<◌, ◌+◌, ◌-◌, ◌*◌, ◌/◌, ◌^◌, List, [], ◌∷◌, Option, none, some, ◌==◌, if◌then◌else◌,
  ap, arith, ◌∙◌, true, false,
}
use frosty_os.AvlTree.{RawTree}
use frosty_os.VmRegions.{
  Trees, RegionData, page_up, page_down, page_count, size62, new_regions, init_range, init,
}
use frosty_os.VmRegions.Sound.{ValidMaps, ValidMaps-same, Valid, Adds, count}

-- One region, free
abbrev pub one_region : ℕ → ℕ → ℕ → Option RegionData
one_region first pages q =
    if first == q then some (record { size = pages; is_free = true; is_reserved = false }) else none

abbrev one_list : ℕ → ℕ → ℕ → Option (List ℕ)
one_list first pages n = if pages == n then some (first ∷ []) else none

one-ValidMaps :
    (first pages : ℕ)
    → 1 ≤ pages
    → first + pages * 4096 ≤ 2 ^ 64
    → ValidMaps (one_region first pages) (one_list first pages)
unfolding count
one-ValidMaps first pages some_pages in_word = record {
  listed = λ p n. ground (arith);
  filled = λ n e. ground (arith, e);
  sized = λ p d e. ground (arith, e, some_pages);
  within = λ p d e. ground (arith, e, in_word);
  separate = λ p d q e h l. ground (arith, e, h, l);
}

find-one :
    (raw : RawTree RegionData) (first pages q : ℕ)
    → pages < 2 ^ 62
    → raw.rb_find
        (raw.rb_insert raw.rb_init first
          (record { size = size62 pages; is_free = true; is_reserved = false }))
        q
      ≡ one_region first pages q
find-one raw first pages q lt =
    let narrow : size62 pages ≡ pages = omega (arith, lt) in
    let free : RegionData = record { size = pages; is_free = true; is_reserved = false } in
    rw narrow (
      ground
        (arith, raw.find-insert raw.rb_init first free q, raw.find-init q, raw.find-init first))

find-one_list :
    (raw : RawTree (List ℕ)) (first pages n : ℕ)
    → raw.rb_find (raw.rb_insert raw.rb_init pages (first ∷ [])) n ≡ one_list first pages n
find-one_list raw first pages n =
    ground (
      arith,
      raw.find-insert raw.rb_init pages (first ∷ []) n,
      raw.find-init n,
      raw.find-init pages,
    )

-- `Init` of a new allocator with a range of addresses that is not empty and whose end is at most
-- 2^64 - 4096 makes one free region of all its pages, with the two trees in step and counters that add up.
pub init-one_region :
    (trees : Trees) (first last : ℕ)
    → first < last
    → last ≤ 2 ^ 64 - 4096
    → Valid (init trees (new_regions trees) first last)
      × Adds (init trees (new_regions trees) first last)
      × ((q : ℕ)
          → trees.regions.rb_find (init trees (new_regions trees) first last).all_pages q
            ≡ one_region (page_down first) ((page_up last - page_down first) / 4096) q)
unfolding init_range
init-one_region trees first last l hi =
    let low = page_down first in
    let pages = page_count low (page_up last) in
    let number : pages ≡ (page_up last - low) / 4096 = ground (arith, l, hi) in
    let some_pages : 1 ≤ pages = omega (arith, number, l, hi) in
    let in_word : low + pages * 4096 ≤ 2 ^ 64 = omega (arith, number, l, hi) in
    let small : pages < 2 ^ 62 = omega (arith, in_word) in
    let is_one : (q : ℕ)
        → trees.regions.rb_find (init trees (new_regions trees) first last).all_pages q
          ≡ one_region low pages q =
      λ q. find-one trees.regions low pages q small in
    (
      ValidMaps-same (one_region low pages)
          (trees.regions.rb_find (init trees (new_regions trees) first last).all_pages)
          (one_list low pages)
          (trees.lists.rb_find (init trees (new_regions trees) first last).free_pages) is_one
          (find-one_list trees.lists low pages) (one-ValidMaps low pages some_pages in_word),
      omega (arith, small),
      λ q. is_one q ∙ ap (λ n. one_region low n q) number,
    )

-- ===== src/Pmm/Tests.antt =====
-- The physical memory manager at a concrete free list: three pages at 0x10000 and two at 0x20000.
use frosty_os.Prelude.{
  ℕ, ◌+◌, ◌≡◌, refl, inl, inr, List, [], ◌∷◌, arith, done, ◌==◌, if◌then◌else◌, ◌||◌,
}
use frosty_os.Pmm.Region.{Region, within, covers, give, total}
use frosty_os.Pmm.Place.{block}
use frosty_os.Pmm.Valid.{Valid}
use frosty_os.Pmm.Verified.{verify_lem}
use frosty_os.Pmm.Booted.{regions, init_lem}
use frosty_os.Pmm.Free.Steps.{Freeable}
use frosty_os.Pmm.Free.Pages.{free_pages_lem}
use frosty_os.Pmm.Allocate.Pages.{Allocated, allocate_pages_lem}
use frosty_os.Pmm.Ownership.{free_pages-covers, allocate_pages-Owns, Owns}
use frosty_os.Pmm.{Pmm, Memory, to_hhdm}
use frosty_os.Pmm.Boot.{initial, MemoryMapEntry, init}
use frosty_os.Pmm.Give.{free_pages, free_page, find_place, insert_at, put_between, link_current}
use frosty_os.Pmm.Take.{allocate_pages}
use frosty_os.Pmm.Check.{verify}

-- Untouched memory holds some page count and some link.
abbrev dirty : Memory
dirty a = record { page_count = 7; next = 5 }

abbrev two_nodes : Memory
two_nodes a =
    if a == 0x10000
    then record { page_count = 3; next = 0x20000 }
    else (if a == 0x20000 then record { page_count = 2; next = 0 } else dirty a)

abbrev sample : Pmm
sample = record {
  mem = two_nodes;
  free_list_start = 0x10000;
  free_list_end = 0x20000;
  free_list_node_count = 2;
  free_page_count = 5;
  used_page_count = 10;
  total_page_count = 15;
}

abbrev low_region : Region
low_region = block 0x10000 3

abbrev high_region : Region
high_region = block 0x20000 2

abbrev sample_regions : List Region
sample_regions = low_region ∷ high_region ∷ []

sample-Valid : Valid sample sample_regions
unfolding total
sample-Valid = record {
  linked = record { chain = (refl, refl, (refl, refl, refl)); last = refl; nodes = refl };
  sorted = omega arith;
  free = refl;
  sum = refl;
  bounded = omega arith;
}

-- The page after the first region, in front of the second.
sample-Freeable : Freeable (to_hhdm 0 0x13000) 1 sample sample_regions
sample-Freeable = record {
  some_pages = omega arith;
  not_null = omega arith;
  room = omega arith;
  apart = (inl (omega arith), (inr (omega arith), tt));
  used = omega arith;
}

free_pages_lem_example :
    (q : Pmm) × (free_pages 0 0x13000 1 sample ≡ done q)
    × Valid q (give (to_hhdm 0 0x13000) 1 sample_regions)
    × (q.total_page_count ≡ 15)
    × (q.used_page_count + 1 ≡ 10)
free_pages_lem_example =
    free_pages_lem 0 0x13000 1 sample sample_regions (λ e. cc) sample-Valid sample-Freeable
      (inl (omega arith))

free_pages-covers_example :
    (q : Pmm) × (rs' : List Region) × (free_pages 0 0x13000 1 sample ≡ done q)
    × Valid q rs'
    × ((x : ℕ) → covers rs' x ≡ (within (block (to_hhdm 0 0x13000) 1) x || covers sample_regions x))
free_pages-covers_example =
    free_pages-covers 0 0x13000 1 sample sample_regions (λ e. cc) sample-Valid sample-Freeable
      (inl (omega arith))

allocate_pages_lem_example : Allocated 0 2 sample sample_regions (allocate_pages 0 2 sample)
allocate_pages_lem_example =
    allocate_pages_lem 0 2 sample sample_regions (omega arith) (λ e. cc) sample-Valid

allocate_pages-Owns_example : Owns 0 2 sample sample_regions (allocate_pages 0 2 sample)
allocate_pages-Owns_example =
    allocate_pages-Owns 0 2 sample sample_regions (omega arith) (λ e. cc) sample-Valid

verify_lem_example : verify sample ≡ done tt
verify_lem_example = verify_lem sample sample_regions sample-Valid

-- All pages in use.
abbrev exhausted : Pmm
exhausted = record (initial dirty) { used_page_count = 10; total_page_count = 10 }

exhausted-Valid : Valid exhausted []
unfolding total
exhausted-Valid = record {
  linked = record { chain = refl; last = refl; nodes = refl };
  sorted = tt;
  free = refl;
  sum = refl;
  bounded = omega arith;
}

stale-Freeable : Freeable (to_hhdm 0 0x30000) 1 sample sample_regions
stale-Freeable = record {
  some_pages = omega arith;
  not_null = omega arith;
  room = omega arith;
  apart = (inl (omega arith), (inl (omega arith), tt));
  used = omega arith;
}

-- A memory map with a first page at address 0, a reserved entry and a second usable one.
abbrev memory_map : List MemoryMapEntry
memory_map =
    record { base = 0; len = 0x5000; kind = 0 }
    ∷ record { base = 0x5000; len = 0x1000; kind = 1 }
    ∷ record { base = 0x8000; len = 0x2000; kind = 0 }
    ∷ []

init_lem_example :
    Valid (init 0x100000 (initial dirty) memory_map) (regions 0x100000 memory_map)
    × ((init 0x100000 (initial dirty) memory_map).used_page_count ≡ 0)
unfolding regions
init_lem_example = init_lem 0x100000 dirty memory_map (omega arith) (omega arith)

-- The start, the end and the number of nodes after freeing the page between two regions.
freed_between :
    (elim (free_page 0 0x13000 sample) [ done q ↦ (q.mem 0x10000).page_count | _ ↦ 0 ]) ≡ 4
unfolding free_page free_pages find_place insert_at put_between link_current
freed_between = refl

-- ===== src/Pmm/Take.antt =====
-- `PMM::AllocatePage` and `PMM::AllocatePages` of kernel/src/Memory/PMM.cpp.
use frosty_os.Prelude.{
  ℕ, zero, suc, Outcome, done, assert_failed, diverged, ◌>>=◌, add64, sub64, mul64, ltb, leb, ◌==◌,
  if◌then◌else◌,
}
use frosty_os.Pmm.{
  page_size, Memory, set_page_count, set_next, Pmm, from_hhdm, take_pages, walk_fuel,
}

-- The loop of `PMM::AllocatePages` up to a node that is large enough: `previous` and `current`, or
-- `current` 0 if there is none.
unfoldable pub find_fit : ℕ → Memory → ℕ → ℕ → ℕ → Outcome (ℕ × ℕ)
find_fit zero mem n previous current = diverged
find_fit (suc fuel) mem n previous current =
    let rest = find_fit fuel mem n current (mem current).next in
    if current == 0
    then done (previous, 0)
    else (if leb n (mem current).page_count then done (previous, current) else rest)

-- The body of that loop at the node found: the first node or a later one, whole or in part.
unfoldable pub carve_first : Pmm → ℕ → Pmm
carve_first p current = record p {
  free_list_start = (p.mem current).next;
  free_list_node_count = sub64 p.free_list_node_count 1;
  free_list_end = if current == p.free_list_end then 0 else p.free_list_end;
}

unfoldable pub carve_later : Pmm → ℕ → ℕ → Pmm
carve_later p previous current = record p {
  mem = set_next p.mem previous (p.mem current).next;
  free_list_end = if current == p.free_list_end then previous else p.free_list_end;
  free_list_node_count = sub64 p.free_list_node_count 1;
}

unfoldable pub split_first : Pmm → ℕ → ℕ → Pmm
split_first p n current =
    let split = add64 current (mul64 page_size n) in
    let mem' = set_page_count p.mem split (sub64 (p.mem current).page_count n) in
    record p {
      mem = set_next mem' split (mem' current).next;
      free_list_start = split;
      free_list_end = if current == p.free_list_end then split else p.free_list_end;
    }

unfoldable pub split_later : Pmm → ℕ → ℕ → ℕ → Pmm
split_later p n previous current =
    let split = add64 current (mul64 page_size n) in
    let mem' = set_next p.mem previous split in
    let mem'' = set_page_count mem' split (sub64 (mem' current).page_count n) in
    record p {
      mem = set_next mem'' split (mem'' current).next;
      free_list_end = if current == p.free_list_end then split else p.free_list_end;
    }

unfoldable pub carve : Pmm → ℕ → ℕ → ℕ → Pmm
carve p n previous current =
    if (p.mem current).page_count == n
    then (if previous == 0 then carve_first p current else carve_later p previous current)
    else (if previous == 0 then split_first p n current else split_later p n previous current)

-- `PMM::AllocatePage` from the test of `node->PageCount` on, which repeats the text that
-- `AllocatePages` has for the first node, at one page.
unfoldable pub allocate_first : Pmm → Pmm
allocate_first p =
    if (p.mem p.free_list_start).page_count == 1
    then take_pages 1 (carve_first p p.free_list_start)
    else take_pages 1 (split_first p 1 p.free_list_start)

-- `PMM::AllocatePage`
unfoldable pub allocate_page : ℕ → Pmm → Outcome (ℕ × Pmm)
allocate_page hhdm p =
    if ltb 0 p.free_page_count
    then done (from_hhdm hhdm p.free_list_start, allocate_first p)
    else assert_failed

-- `PMM::AllocatePages`
unfoldable pub allocate_pages : ℕ → ℕ → Pmm → Outcome (ℕ × Pmm)
allocate_pages hhdm n p =
    if n == 1
    then allocate_page hhdm p
    else (if ltb 0 p.free_page_count
        then (find_fit (walk_fuel p) p.mem n 0 p.free_list_start >>= λ place.
            if place.1 == 0
            then done (0, p)
            else done (from_hhdm hhdm place.1, take_pages n (carve p n place.0 place.1)))
        else assert_failed)

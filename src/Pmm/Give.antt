-- ===== src/Pmm/Give.antt =====
-- `PMM::FreePage` and `PMM::FreePages` of kernel/src/Memory/PMM.cpp.
use frosty_os.Prelude.{
  ℕ, zero, suc, Outcome, done, assert_failed, diverged, ◌>>=◌, add64, sub64, mul64, ltb, ◌==◌,
  if◌then◌else◌,
}
use frosty_os.Pmm.{page_size, Memory, set_page_count, set_next, Pmm, to_hhdm, give_pages, walk_fuel}

-- The loop of `PMM::FreePages` up to the first node above `node`: `previous` and `current`, or
-- `current` 0 at the end of the list.
unfoldable pub find_place : ℕ → Memory → ℕ → ℕ → ℕ → Outcome (ℕ × ℕ)
find_place zero mem node previous current = diverged
find_place (suc fuel) mem node previous current =
    let rest = find_place fuel mem node current (mem current).next in
    if current == 0
    then done (previous, 0)
    else (if ltb previous current
        then (if ltb node current then done (previous, current) else rest)
        else assert_failed)

-- Below the first node, touching it.
unfoldable pub merge_first : Pmm → ℕ → ℕ → ℕ → Pmm
merge_first p node n current =
    let mem' = set_page_count p.mem node (add64 (p.mem current).page_count n) in
    record p {
      mem = set_next mem' node (mem' current).next;
      free_list_end = if p.free_list_end == current then node else p.free_list_end;
      free_list_start = node;
    }

-- Below the first node, apart from it.
unfoldable pub link_first : Pmm → ℕ → ℕ → Pmm
link_first p node n = record p {
  mem = set_next (set_page_count p.mem node n) node p.free_list_start;
  free_list_node_count = add64 p.free_list_node_count 1;
  free_list_start = node;
}

-- Below the first node.
unfoldable pub put_first : Pmm → ℕ → ℕ → ℕ → Pmm
put_first p node n current =
    if add64 node (mul64 page_size n) == current
    then merge_first p node n current
    else link_first p node n

-- Merge `node` with `current`, which it touches.
unfoldable pub merge_current : Pmm → ℕ → ℕ → Pmm
merge_current p node current =
    let mem' =
      set_page_count p.mem node (add64 (p.mem node).page_count (p.mem current).page_count) in
    record p {
      mem = set_next mem' node (mem' current).next;
      free_list_node_count = sub64 p.free_list_node_count 1;
      free_list_end = if p.free_list_end == current then node else p.free_list_end;
    }

-- `node->Next = v` for the whole allocator.
abbrev pub point_to : Pmm → ℕ → ℕ → Pmm
point_to p node v = record p { mem = set_next p.mem node v }

-- The second half of the insertion between two nodes: merge with `current`, or link to it.
unfoldable pub link_current : Pmm → ℕ → ℕ → Pmm
link_current p node current =
    if add64 node (mul64 (p.mem node).page_count page_size) == current
    then merge_current p node current
    else point_to p node current

-- `node->PageCount += n`
abbrev pub grow_node : Pmm → ℕ → ℕ → Pmm
grow_node p node n = record p { mem = set_page_count p.mem node (add64 (p.mem node).page_count n) }

-- A new node after `previous`.
unfoldable pub link_previous : Pmm → ℕ → ℕ → ℕ → Pmm
link_previous p node n previous = record p {
  mem = set_page_count (set_next p.mem previous node) node n;
  free_list_node_count = add64 p.free_list_node_count 1;
}

-- Between two nodes: merge with `previous`, or link from it; then `current`.
unfoldable pub put_between : Pmm → ℕ → ℕ → ℕ → ℕ → Pmm
put_between p node n previous current =
    if add64 previous (mul64 (p.mem previous).page_count page_size) == node
    then link_current (grow_node p previous n) previous current
    else link_current (link_previous p node n previous) node current

-- A new node on an empty list, and a new node after the last. Neither writes its page count, and
-- the first does not count it.
unfoldable pub start_list : Pmm → ℕ → Pmm
start_list p node = record p {
  free_list_start = node;
  free_list_end = node;
  mem = set_next p.mem node 0;
}

unfoldable pub link_last : Pmm → ℕ → Pmm
link_last p node = record p {
  mem = set_next (set_next p.mem p.free_list_end node) node 0;
  free_list_end = node;
  free_list_node_count = add64 p.free_list_node_count 1;
}

-- Past the last node.
unfoldable pub put_last : Pmm → ℕ → ℕ → Pmm
put_last p node n =
    let last = p.free_list_end in
    if last == 0
    then start_list p node
    else (if add64 last (mul64 (p.mem last).page_count page_size) == node
        then grow_node p last n
        else link_last p node)

-- The insertion at the place that the loop found.
unfoldable pub insert_at : Pmm → ℕ → ℕ → ℕ × ℕ → Outcome Pmm
insert_at p node n place =
    if place.1 == 0
    then done (put_last p node n)
    else (if place.0 == 0
        then done (put_first p node n place.1)
        else (if ltb place.0 node
            then done (put_between p node n place.0 place.1)
            else assert_failed))

-- `PMM::FreePages`
unfoldable pub free_pages : ℕ → ℕ → ℕ → Pmm → Outcome Pmm
free_pages hhdm pages n p =
    let node = to_hhdm hhdm pages in
    (find_place (walk_fuel p) p.mem node 0 p.free_list_start >>= insert_at p node n) >>= λ q.
    done (give_pages n q)

-- `PMM::FreePage`, which is the text of `FreePages` at one page.
unfoldable pub free_page : ℕ → ℕ → Pmm → Outcome Pmm
free_page hhdm page p = free_pages hhdm page 1 p

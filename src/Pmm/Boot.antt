-- ===== src/Pmm/Boot.antt =====
-- `PMM::PMM` and `PMM::Init` of kernel/src/Memory/PMM.cpp: the free list made from the memory map.
use frosty_os.Prelude.{ℕ, ◌/◌, ◌^◌, List, [], ◌∷◌, add64, sub64, ltb, ◌==◌, if◌then◌else◌}
use frosty_os.Pmm.{page_size, Memory, set_page_count, set_next, Pmm, to_hhdm}

-- The constructor `PMM::PMM`, over the memory that the machine starts with.
abbrev pub initial : Memory → Pmm
initial mem = record {
  mem = mem;
  free_list_start = 0;
  free_list_end = 0;
  free_list_node_count = 0;
  free_page_count = 0;
  used_page_count = 0;
  total_page_count = 0;
}

pub record MemoryMapEntry : Type 0 where
  pub base : ℕ
  pub len : ℕ
  pub kind : ℕ

abbrev pub memory_map_entry_usable : ℕ
memory_map_entry_usable = 0

-- The counters of a new node of the list.
abbrev pub count_node : Pmm → ℕ → Pmm
count_node p pages = record p {
  total_page_count = add64 p.total_page_count pages;
  free_page_count = add64 p.free_page_count pages;
  free_list_node_count = add64 p.free_list_node_count 1;
}

-- The first node, and a node after the last.
unfoldable pub first_node : Pmm → ℕ → ℕ → Pmm
first_node p node pages = record (count_node p pages) {
  mem = set_next (set_page_count p.mem node pages) node 0;
  free_list_start = node;
  free_list_end = node;
}

unfoldable pub later_node : Pmm → ℕ → ℕ → Pmm
later_node p node pages = record (count_node p pages) {
  mem = set_next (set_page_count (set_next p.mem p.free_list_end node) node pages) node 0;
  free_list_end = node;
}

-- The body of the loop of `PMM::Init` from the page counts on.
unfoldable pub add_entry : ℕ → Pmm → ℕ → ℕ → Pmm
add_entry hhdm p base len =
    if p.free_list_end == 0
    then first_node p (to_hhdm hhdm base) (len / 2 ^ 12)
    else later_node p (to_hhdm hhdm base) (len / 2 ^ 12)

-- One round of the loop of `PMM::Init`. The first page of an entry at 0 is given up.
unfoldable pub init_entry : ℕ → Pmm → MemoryMapEntry → Pmm
init_entry hhdm p e =
    if e.kind == memory_map_entry_usable
    then (if e.base == 0
        then (if ltb (sub64 e.len page_size) page_size
            then p
            else add_entry hhdm p page_size (sub64 e.len page_size))
        else add_entry hhdm p e.base e.len)
    else p

unfoldable pub init_entries : ℕ → Pmm → List MemoryMapEntry → Pmm
init_entries hhdm p [] = p
init_entries hhdm p (e ∷ es) = init_entries hhdm (init_entry hhdm p e) es

-- `PMM::Init`
unfoldable pub init : ℕ → Pmm → List MemoryMapEntry → Pmm
init hhdm p es = record (init_entries hhdm p es) { used_page_count = 0 }

-- ===== src/Pmm.antt =====
-- kernel/src/Memory/PMM.cpp: the physical memory manager, with the address translation of
-- kernel/src/Memory/PagingUtil.cpp. The free list lives in the free pages themselves: `mem` gives
-- the `FreeListNode` that the memory holds at each address, whatever was last written there. A
-- pointer is its address, `nullptr` is 0. The routines are in the children `Boot`, `Take`, `Give`
-- and `Check`. The lock is left out: every routine holds it throughout.
pub mod Boot
pub mod Take
pub mod Give
pub mod Check
pub mod Region
pub mod Seg
pub mod Valid
pub mod Place
pub mod Free
pub mod Allocate
pub mod Verified
pub mod Faults
pub mod Booted
pub mod Ownership
mod Tests
use frosty_os.Prelude.{
  ℕ, zero, suc, ◌+◌, ◌/◌, ◌%◌, ◌^◌, ◌≡◌, Bool, List, [], ◌∷◌, Outcome, done, assert_failed,
  diverged, ◌>>=◌, add64, sub64, mul64, ltb, leb, ◌==◌, if◌then◌else◌,
}

abbrev pub page_size : ℕ
page_size = 4096

pub record FreeListNode : Type 0 where
  pub page_count : ℕ
  pub next : ℕ

abbrev pub Memory : Type 0
Memory = ℕ → FreeListNode

-- `node->PageCount = v`
abbrev pub set_page_count : Memory → ℕ → ℕ → Memory
set_page_count mem node v a = if a == node then record (mem a) { page_count = v } else mem a

-- `node->Next = v`
abbrev pub set_next : Memory → ℕ → ℕ → Memory
set_next mem node v a = if a == node then record (mem a) { next = v } else mem a

pub record Pmm : Type 0 where
  pub mem : Memory
  pub free_list_start : ℕ
  pub free_list_end : ℕ
  pub free_list_node_count : ℕ
  pub free_page_count : ℕ
  pub used_page_count : ℕ
  pub total_page_count : ℕ

-- `to_HHDM` and `from_HHDM`; `hhdm` is `g_HHDMOffset`.
abbrev pub to_hhdm : ℕ → ℕ → ℕ
to_hhdm hhdm address = add64 address hhdm

abbrev pub from_hhdm : ℕ → ℕ → ℕ
from_hhdm hhdm address = sub64 address hhdm

-- The two counters that every allocation moves.
abbrev pub take_pages : ℕ → Pmm → Pmm
take_pages n p = record p {
  free_page_count = sub64 p.free_page_count n;
  used_page_count = add64 p.used_page_count n;
}

abbrev pub give_pages : ℕ → Pmm → Pmm
give_pages n p = record p {
  free_page_count = add64 p.free_page_count n;
  used_page_count = sub64 p.used_page_count n;
}

-- The fuel of a walk over the free list: each node has at least one page.
abbrev pub walk_fuel : Pmm → ℕ
walk_fuel p = suc p.free_page_count

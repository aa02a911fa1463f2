-- ===== src/Heap.antt =====
-- kernel/src/Memory/Heap.cpp and Heap.hpp: the allocator of the kernel's heaps. A section is an area
-- of pages, with a list of its free blocks; a block is a header of 16 bytes and the bytes after it.
-- `headers` is what memory holds as the size and the flag of the block at each address; the chains of
-- sections and of free blocks, whose links nothing else points into, are lists. The lock is left out:
-- every routine holds it throughout. `Allocate` and `Free` are in the children Take and Give.
pub mod Take
pub mod Give
pub mod Balance
pub mod Fit
pub mod Order
pub mod Insert
pub mod Wrappers
mod Tests
use frosty_os.Prelude.{
  ℕ, ◌+◌, ◌-◌, ◌/◌, ◌%◌, ◌^◌, Bool, true, false, List, [], ◌∷◌, add64, sub64, mul64, ltb, ◌==◌,
  if◌then◌else◌, ◌&&◌, Outcome, done, assert_failed,
}

-- sizeof(HeapBlock), sizeof(HeapSection), HEAP_MIN_BLOCK_SIZE and HEAP_MIN_SECTION_SIZE
abbrev pub block_header : ℕ
block_header = 16

abbrev pub section_header : ℕ
section_header = 32

abbrev pub heap_min_block_size : ℕ
heap_min_block_size = 16

abbrev pub heap_min_section_size : ℕ
heap_min_section_size = 131072

-- `size : 63` and `free : 1` of a block
pub record HeapBlock : Type 0 where
  pub size : ℕ
  pub free : Bool

-- A store to the field of 63 bits
abbrev pub size63 : ℕ → ℕ
size63 n = n % 2 ^ 63

abbrev pub Headers : Type 0
Headers = ℕ → HeapBlock

unfoldable pub set_header : Headers → ℕ → HeapBlock → Headers
set_header h block v a = if a == block then v else h a

pub record HeapSection : Type 0 where
  pub base : ℕ
  pub size : ℕ
  pub blocks : List ℕ

pub record HeapAllocator : Type 0 where
  pub headers : Headers
  pub sections : List HeapSection
  pub used_memory : ℕ
  pub free_memory : ℕ
  pub metadata_memory : ℕ
  pub total_memory : ℕ

-- The constructors, over the memory that there is
abbrev pub new_heap : Headers → HeapAllocator
new_heap h = record {
  headers = h;
  sections = [];
  used_memory = 0;
  free_memory = 0;
  metadata_memory = 0;
  total_memory = 0;
}

-- ALIGN_UP of util.h
abbrev pub align_up : ℕ → ℕ → ℕ
align_up value align = mul64 (add64 value (align - 1) / align) align

-- `GetSize`
abbrev pub get_size : HeapAllocator → ℕ → ℕ
get_size a ptr = if ptr == 0 then 0 else (a.headers (sub64 ptr block_header)).size

-- `Verify`; the four casts to `int64_t` test the top bit.
unfoldable pub verify : HeapAllocator → Outcome (Unit {0})
verify a =
    if add64 (add64 a.used_memory a.free_memory) a.metadata_memory == a.total_memory
      && ltb a.used_memory (2 ^ 63)
      && ltb a.free_memory (2 ^ 63)
      && ltb a.metadata_memory (2 ^ 63)
      && ltb a.total_memory (2 ^ 63)
    then done tt
    else assert_failed

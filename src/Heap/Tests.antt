-- ===== src/Heap/Tests.antt =====
-- A heap of one section, for the tests of kernel/src/Memory/Heap.cpp: blocks of 64 bytes at 4128 and
-- 4288 are free, and one of 64 bytes at 4208 between them is in use.
use frosty_os.Prelude.{
  ℕ, ◌+◌, ◌-◌, ◌^◌, ◌≡◌, refl, true, false, [], ◌∷◌, ◌++◌, none, arith, ◌==◌, if◌then◌else◌,
}
use frosty_os.Heap.{Headers, HeapAllocator}
use frosty_os.Heap.Take.{allocate, allocate_aligned, find_section, find_block}
use frosty_os.Heap.Give.{find_place, insert_block, free}
use frosty_os.Heap.Balance.{Balanced, kept, accounting_lem}
use frosty_os.Heap.Order.{Ordered, bytes}
use frosty_os.Heap.Insert.{insert_lem}

abbrev three_blocks : Headers
three_blocks b = record { size = 64; free = if b == 4208 then false else true }

abbrev one_section : HeapAllocator
one_section = record {
  headers = three_blocks;
  sections = record { base = 4096; size = 240; blocks = 4128 ∷ 4288 ∷ [] } ∷ [];
  used_memory = 64;
  free_memory = 128;
  metadata_memory = 80;
  total_memory = 272;
}

-- 20 bytes come from the first block, rounded up and split off; 70 bytes fit nowhere.
small_request : (allocate none one_section 20).0 ≡ 4144
unfolding allocate allocate_aligned find_section find_block
small_request = refl

large_request : (allocate none one_section 70).0 ≡ 0
unfolding allocate allocate_aligned find_section find_block
large_request = refl

-- A request of 2^64 - 1 bytes is rounded to 0, and is granted.
wrapped_request : (allocate none one_section (2 ^ 64 - 1)).0 ≡ 4144
unfolding allocate allocate_aligned find_section find_block
wrapped_request = refl

accounting_lem_example :
    Balanced (allocate none one_section 20).1 × Balanced (kept (free one_section 4224) one_section)
accounting_lem_example = accounting_lem none one_section 20 4224 (omega arith) refl

-- An address in the part of the address space where the kernel's heap sections lie
abbrev high : ℕ → ℕ
high n = 2 ^ 64 - 2 ^ 47 + n

in_order : Ordered three_blocks (high 32) ((high 32 ∷ []) ++ high 112 ∷ high 192 ∷ []) (high 272)
in_order = (omega arith, (omega arith, (omega arith, omega arith)))

-- The block between them closes the gap: one block of 224 bytes is left.
insert_lem_example :
    let place = find_place three_blocks (high 112) 0 ((high 32 ∷ []) ++ high 192 ∷ []) in
    let r = insert_block one_section (high 112) place.0 place.1 in
    Ordered r.0.headers (high 32) r.1 (high 272)
    × (bytes r.0.headers r.1
        ≡ 16
          + (three_blocks (high 112)).size
          + bytes three_blocks ((high 32 ∷ []) ++ high 192 ∷ []))
insert_lem_example =
    insert_lem one_section (high 112) (high 32) (high 272) (high 32 ∷ []) (high 192 ∷ [])
      (omega arith) (omega arith) in_order

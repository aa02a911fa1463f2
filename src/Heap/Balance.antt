-- ===== src/Heap/Balance.antt =====
-- The counters of kernel/src/Memory/Heap.cpp add up, which `HeapAllocator::Verify` asserts.
use frosty_os.Prelude.{
  ℕ, ◌+◌, ◌-◌, ◌^◌, ◌≡◌, ◌≤◌, ◌<◌, true, false, List, [], ◌∷◌, Option, none, some, Option-cases,
  Bool-cases, inl, inr, add64, sub64, arith, ltb, ◌==◌, Outcome, done, assert_failed, diverged,
  ==-refl,
}
use frosty_os.Heap.{
  HeapSection, HeapAllocator, align_up, size63, set_header, section_header, block_header,
}
use frosty_os.Heap.Take.{
  find_section, count_split, count_used, hand_out, new_section, section_size, splits, rest_of,
  split_headers, allocate_aligned, allocate,
}
use frosty_os.Heap.Give.{
  count_merge, count_free, count_section, merge_previous, merge_current, insert_block, give_back,
  sweep, free_block, free, unused, block_end, last_block, find_place, holds,
}

-- The memory in use, free, and in headers makes the total, in 64 bits.
abbrev pub Balanced : HeapAllocator → Type 0
Balanced a = add64 (add64 a.used_memory a.free_memory) a.metadata_memory ≡ a.total_memory

module _ (a : HeapAllocator) (h : Balanced a) where
  split-Balanced : Balanced (count_split a)
  split-Balanced = omega arith

  used-Balanced : (n : ℕ) → Balanced (count_used a n)
  used-Balanced n = omega arith

  merge-Balanced : Balanced (count_merge a)
  merge-Balanced = omega arith

  free-Balanced : (n : ℕ) → Balanced (count_free a n)
  free-Balanced n = omega arith

  section-Balanced : (n : ℕ) → Balanced (count_section a n)
  section-Balanced n = omega arith

hand_out-Balanced :
    (a : HeapAllocator) (block size : ℕ) → Balanced a → Balanced (hand_out a block size)
unfolding hand_out
hand_out-Balanced a block size h = elim (Bool-cases (splits a.headers block size)) [
  | inl e ↦ rw e (used-Balanced (count_split a) (split-Balanced a h) (size63 size))
  | inr e ↦ rw e (used-Balanced a h (a.headers block).size)
]

section_size-bounds :
    (size : ℕ) → size < 2 ^ 62 → (size + 48 ≤ section_size size) × (section_size size < 2 ^ 63)
section_size-bounds size h = (omega arith, omega arith)

new_section-Balanced :
    (a : HeapAllocator) (base size : ℕ)
    → size < 2 ^ 62
    → Balanced a
    → Balanced (new_section a base size)
unfolding new_section split_headers set_header
new_section-Balanced a base size lt h =
    let b = section_size-bounds size lt in
    let block = add64 base section_header in
    let away : (rest_of block size == block) ≡ false = ground arith in
    let block_size = size63 (sub64 (sub64 (section_size size) section_header) block_header) in
    elim (Bool-cases (ltb (add64 (add64 size block_header) 16) block_size)) [
      | inl e ↦
          rw (new_section, ==-refl block, e, away, ==-refl (rest_of block size))
            (grind (arith, b.0, b.1, e))
      | inr e ↦ rw (new_section, ==-refl block, e) (omega (arith, b.0, b.1))
    ]

allocate_aligned-Balanced :
    (allocator : Option (ℕ → ℕ)) (a : HeapAllocator) (size : ℕ)
    → size < 2 ^ 62
    → Balanced a
    → Balanced (allocate_aligned allocator a size).1
unfolding allocate_aligned
allocate_aligned-Balanced allocator a size lt h =
    elim (Option-cases (find_section a.headers size a.sections)) [
      | inr ((block, sections), e) ↦ rw (allocate_aligned, e) (hand_out-Balanced a block size h)
      | inl e ↦ fresh-Balanced allocator e
    ]
  where
    fresh-Balanced :
        (allocator : Option (ℕ → ℕ))
        → find_section a.headers size a.sections ≡ none
        → Balanced (allocate_aligned allocator a size).1
    fresh-Balanced none e = rw (allocate_aligned, e) h
    fresh-Balanced (some alloc) e = elim (Bool-cases (alloc (section_size size) == 0)) [
      | inl z ↦ rw (allocate_aligned, e, z) h
      | inr z ↦
          rw (allocate_aligned, e, z) (new_section-Balanced a (alloc (section_size size)) size lt h)
    ]

merge_previous-Balanced :
    (a : HeapAllocator) (block : ℕ) (before : List ℕ)
    → Balanced a
    → Balanced (merge_previous a block before).0
unfolding merge_previous
merge_previous-Balanced a block before h =
    elim (Bool-cases (block_end a.headers (last_block 0 before) == block)) [
      | inl e ↦ rw e (merge-Balanced a h)
      | inr e ↦ rw e h
    ]

merge_current-Balanced :
    (a : HeapAllocator) (block current : ℕ) (rest : List ℕ)
    → Balanced a
    → Balanced (merge_current a block current rest).0
unfolding merge_current
merge_current-Balanced a block current rest h =
    elim (Bool-cases (block_end a.headers block == current)) [
      | inl e ↦ rw e (merge-Balanced a h)
      | inr e ↦ rw e h
    ]

insert_block-Balanced :
    (a : HeapAllocator) (block : ℕ) (before after : List ℕ)
    → Balanced a
    → Balanced (insert_block a block before after).0
unfolding insert_block
insert_block-Balanced a block [] [] h = h
insert_block-Balanced a block [] (current ∷ rest) h = merge_current-Balanced a block current rest h
insert_block-Balanced a block (b ∷ bs) [] h = merge_previous-Balanced a block (b ∷ bs) h
insert_block-Balanced a block (b ∷ bs) (current ∷ rest) h =
    let first = merge_previous a block (b ∷ bs) in
    merge_current-Balanced first.0 first.1 current rest (merge_previous-Balanced a block (b ∷ bs) h)

give_back-Balanced :
    (a : HeapAllocator) (block : ℕ) (ss : List HeapSection)
    → Balanced a
    → Balanced (give_back a block ss).0
unfolding give_back
give_back-Balanced a block [] h = h
give_back-Balanced a block (s ∷ ss) h =
    let place = find_place a.headers block 0 s.blocks in
    let inserted = insert_block a block place.0 place.1 in
    elim (Bool-cases (holds s block)) [
      | inl e ↦ rw e (
          free-Balanced inserted.0 (insert_block-Balanced a block place.0 place.1 h)
            (a.headers block).size)
      | inr e ↦ rw e (give_back-Balanced a block ss h)
    ]

sweep-Balanced : (a : HeapAllocator) (ss : List HeapSection) → Balanced a → Balanced (sweep a ss).0
unfolding sweep
sweep-Balanced a [] h = h
sweep-Balanced a (s ∷ ss) h = elim (Bool-cases (unused a.headers s)) [
  | inl e ↦ rw e (sweep-Balanced (count_section a s.size) ss (section-Balanced a h s.size))
  | inr e ↦ rw e (sweep-Balanced a ss h)
]

free_block-Balanced : (a : HeapAllocator) (block : ℕ) → Balanced a → Balanced (free_block a block).0
unfolding free_block
free_block-Balanced a block h =
    let marked = record a {
      headers = set_header a.headers block (record (a.headers block) { free = true });
    } in
    let given = give_back marked block a.sections in
    sweep-Balanced given.0 given.1 (give_back-Balanced marked block a.sections h)

-- What is left of an allocator by a `Free` that does not fail
abbrev pub kept : Outcome (HeapAllocator × List HeapSection) → HeapAllocator → HeapAllocator
kept (done r) a = r.0
kept assert_failed a = a
kept diverged a = a

-- Where the memory in use, free and in headers makes the total, it still does after `Allocate` of less
-- than 2^62 - 16 bytes, from a free block or a new section or in vain, and after `Free` of any pointer,
-- whatever is merged and whichever sections are given up.
pub accounting_lem :
    (allocator : Option (ℕ → ℕ)) (a : HeapAllocator) (size ptr : ℕ)
    → size < 2 ^ 62 - 16
    → Balanced a
    → Balanced (allocate allocator a size).1 × Balanced (kept (free a ptr) a)
unfolding allocate free
accounting_lem allocator a size ptr lt h =
    let block = sub64 ptr block_header in
    (
      allocate_aligned-Balanced allocator a (align_up size 16) (omega arith) h,
      elim (Bool-cases (ptr == 0)) [
        | inl z ↦ rw z h
        | inr z ↦ elim (Bool-cases ((a.headers block).free)) [
          | inl e ↦ rw (z, e) h
          | inr e ↦ rw (z, e) (free_block-Balanced a block h)
        ]
      ],
    )

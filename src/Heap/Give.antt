-- ===== src/Heap/Give.antt =====
-- `HeapAllocator::Free`, kernel/src/Memory/Heap.cpp.
use frosty_os.Prelude.{
  ℕ, ◌+◌, Bool, true, false, List, [], ◌∷◌, ◌++◌, add64, sub64, ltb, leb, ◌==◌, if◌then◌else◌, ◌&&◌,
  Outcome, done, assert_failed,
}
use frosty_os.Heap.{
  block_header, section_header, size63, Headers, set_header, HeapSection, HeapAllocator,
}

-- The end of a block
abbrev pub block_end : Headers → ℕ → ℕ
block_end h block = add64 (add64 block block_header) (h block).size

-- The last of some blocks, `previous` where there is none
abbrev pub last_block : ℕ → List ℕ → ℕ
last_block previous [] = previous
last_block previous (b ∷ bs) = last_block b bs

-- The inner loop: the blocks before the place of `block`, and those after it. `previous` is 0 at the
-- front.
unfoldable pub find_place : Headers → ℕ → ℕ → List ℕ → List ℕ × List ℕ
find_place h block previous [] = ([], [])
find_place h block previous (current ∷ rest) =
    let later = find_place h block current rest in
    if ltb block current && (if previous == 0 then true else leb (block_end h previous) block)
    then ([], current ∷ rest)
    else (current ∷ later.0, later.1)

-- `block->size += sizeof(HeapBlock) + other->size`
unfoldable pub absorb : Headers → ℕ → ℕ → Headers
absorb h block other =
    set_header h block (record (h block) {
      size = size63 (add64 (h block).size (add64 block_header (h other).size));
    })

-- The header that a merge saves becomes free memory.
abbrev pub count_merge : HeapAllocator → HeapAllocator
count_merge a = record a {
  metadata_memory = sub64 a.metadata_memory block_header;
  free_memory = add64 a.free_memory block_header;
}

abbrev pub count_free : HeapAllocator → ℕ → HeapAllocator
count_free a n = record a {
  free_memory = add64 a.free_memory n;
  used_memory = sub64 a.used_memory n;
}

-- Merge with the block before, or stand behind it: the allocator, the block that now ends there, and
-- the list up to it
unfoldable pub merge_previous : HeapAllocator → ℕ → List ℕ → HeapAllocator × ℕ × List ℕ
merge_previous a block before =
    let previous = last_block 0 before in
    if block_end a.headers previous == block
    then (record (count_merge a) { headers = absorb a.headers previous block }, previous, before)
    else (a, block, before ++ block ∷ [])

-- Merge with the block after, or stand before it: the allocator, and the list from there on
unfoldable pub merge_current : HeapAllocator → ℕ → ℕ → List ℕ → HeapAllocator × List ℕ
merge_current a block current rest =
    if block_end a.headers block == current
    then (record (count_merge a) { headers = absorb a.headers block current }, rest)
    else (a, current ∷ rest)

-- The insertion at the place found: the allocator, and the list of the section. `free` counts the
-- size that the block came with.
unfoldable pub insert_block : HeapAllocator → ℕ → List ℕ → List ℕ → HeapAllocator × List ℕ
insert_block a block [] [] = (a, block ∷ [])
insert_block a block [] (current ∷ rest) =
    let merged = merge_current a block current rest in (merged.0, block ∷ merged.1)
insert_block a block (b ∷ bs) [] =
    let merged = merge_previous a block (b ∷ bs) in (merged.0, merged.2)
insert_block a block (b ∷ bs) (current ∷ rest) =
    let first = merge_previous a block (b ∷ bs) in
    let merged = merge_current first.0 first.1 current rest in (merged.0, first.2 ++ merged.1)

-- Whether a section holds a block
abbrev pub holds : HeapSection → ℕ → Bool
holds s block = leb (add64 s.base section_header) block && ltb block (add64 s.base s.size)

-- The first loop over the sections. A block that is in none is only marked.
unfoldable pub give_back : HeapAllocator → ℕ → List HeapSection → HeapAllocator × List HeapSection
give_back a block [] = (a, [])
give_back a block (s ∷ ss) =
    let later = give_back a block ss in
    let place = find_place a.headers block 0 s.blocks in
    let inserted = insert_block a block place.0 place.1 in
    if holds s block
    then (count_free inserted.0 (a.headers block).size, record s { blocks = inserted.1 } ∷ ss)
    else (later.0, s ∷ later.1)

-- Whether a section is one free block
unfoldable pub unused : Headers → HeapSection → Bool
unused h s = elim s.blocks [
  | [] ↦ false
  | b ∷ bs ↦ elim bs [ [] ↦ add64 (h b).size block_header == s.size | c ∷ cs ↦ false ]
]

-- The counters of a section that is given up
abbrev pub count_section : HeapAllocator → ℕ → HeapAllocator
count_section a n = record a {
  total_memory = sub64 a.total_memory (add64 n section_header);
  metadata_memory = sub64 a.metadata_memory (section_header + block_header);
  free_memory = sub64 a.free_memory (sub64 n block_header);
}

-- The second loop: the allocator, the sections that stay, and those given back.
unfoldable pub sweep :
    HeapAllocator → List HeapSection → HeapAllocator × List HeapSection × List HeapSection
sweep a [] = (a, [], [])
sweep a (s ∷ ss) =
    if unused a.headers s
    then (let later = sweep (count_section a s.size) ss in (later.0, later.1, s ∷ later.2))
    else (let later = sweep a ss in (later.0, s ∷ later.1, later.2))

-- `Free` of a block that is in use
unfoldable pub free_block : HeapAllocator → ℕ → HeapAllocator × List HeapSection
free_block a block =
    let marked = record a {
      headers = set_header a.headers block (record (a.headers block) { free = true });
    } in
    let given = give_back marked block a.sections in
    let swept = sweep given.0 given.1 in (record (swept.0) { sections = swept.1 }, swept.2)

-- `Free`: the allocator, and the sections given back to where they came from.
unfoldable pub free : HeapAllocator → ℕ → Outcome (HeapAllocator × List HeapSection)
free a ptr =
    let block = sub64 ptr block_header in
    if ptr == 0
    then done (a, [])
    else (if (a.headers block).free then assert_failed else done (free_block a block))

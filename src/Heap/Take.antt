-- ===== src/Heap/Take.antt =====
-- `HeapAllocator::Allocate`, kernel/src/Memory/Heap.cpp.
use frosty_os.Prelude.{
  ℕ, ◌+◌, Bool, true, false, List, [], ◌∷◌, ◌++◌, Option, none, some, add64, sub64, ltb, leb, ◌==◌,
  if◌then◌else◌, ◌&&◌,
}
use frosty_os.Heap.{
  block_header, section_header, heap_min_block_size, heap_min_section_size, size63, Headers,
  set_header, HeapSection, HeapAllocator, align_up,
}

-- The inner loop: the first free block that is large enough, with the blocks before and after it.
unfoldable pub find_block : Headers → ℕ → List ℕ → Option (List ℕ × ℕ × List ℕ)
find_block h size [] = none
find_block h size (block ∷ rest) =
    let found = find_block h size rest in
    if (h block).free && leb size (h block).size
    then some ([], block, rest)
    else elim found [ none ↦ none | some (before, b, after) ↦ some (block ∷ before, b, after) ]

-- Whether a block is split for `size` bytes
abbrev pub splits : Headers → ℕ → ℕ → Bool
splits h block size = ltb (add64 (add64 size block_header) heap_min_block_size) (h block).size

-- Where the rest of a block that is split lies
abbrev pub rest_of : ℕ → ℕ → ℕ
rest_of block size = add64 (add64 block block_header) size

-- The headers after a block is split, and handed out
unfoldable pub split_headers : Headers → ℕ → ℕ → Headers
split_headers h block size =
    set_header
      (set_header h (rest_of block size)
        (record { size = size63 (sub64 (sub64 (h block).size size) block_header); free = true }))
      block (record { size = size63 size; free = false })

-- A block that is handed out as it is
unfoldable pub whole_headers : Headers → ℕ → Headers
whole_headers h block = set_header h block (record { size = (h block).size; free = false })

-- The counters of an allocation from a free block
abbrev pub count_split : HeapAllocator → HeapAllocator
count_split a = record a {
  metadata_memory = add64 a.metadata_memory block_header;
  free_memory = sub64 a.free_memory block_header;
}

abbrev pub count_used : HeapAllocator → ℕ → HeapAllocator
count_used a n = record a {
  free_memory = sub64 a.free_memory n;
  used_memory = add64 a.used_memory n;
}

-- What is done at the block found, apart from the list: the counters and the headers
unfoldable pub hand_out : HeapAllocator → ℕ → ℕ → HeapAllocator
hand_out a block size =
    if splits a.headers block size
    then record (count_used (count_split a) (size63 size)) {
      headers = split_headers a.headers block size;
    }
    else record (count_used a (a.headers block).size) { headers = whole_headers a.headers block }

-- The free blocks of the section afterwards
unfoldable pub blocks_left : Headers → ℕ → List ℕ → ℕ → List ℕ → List ℕ
blocks_left h size before block after =
    if splits h block size then before ++ rest_of block size ∷ after else before ++ after

-- The outer loop: the block, and the sections afterwards.
unfoldable pub find_section : Headers → ℕ → List HeapSection → Option (ℕ × List HeapSection)
find_section h size [] = none
find_section h size (s ∷ ss) =
    let later = find_section h size ss in
    elim (find_block h size s.blocks) [
      | some (before, block, after) ↦
          some (block, record s { blocks = blocks_left h size before block after } ∷ ss)
      | none ↦ elim later [ none ↦ none | some (block, ss') ↦ some (block, s ∷ ss') ]
    ]

-- The size of a new section
abbrev pub section_size : ℕ → ℕ
section_size size = align_up (add64 (add64 section_header block_header) size) heap_min_section_size

-- A new section at `base`, whose one block is split if it is large enough
unfoldable pub new_section : HeapAllocator → ℕ → ℕ → HeapAllocator
new_section a base size =
    let total = section_size size in
    let block = add64 base section_header in
    let h =
      set_header a.headers block (record {
        size = size63 (sub64 (sub64 total section_header) block_header);
        free = false;
      }) in
    let counted = record a {
      total_memory = add64 a.total_memory total;
      metadata_memory = add64 a.metadata_memory (section_header + block_header);
    } in
    let section : List ℕ → HeapSection =
      λ blocks. record { base = base; size = sub64 total section_header; blocks = blocks } in
    if splits h block size
    then record counted {
      headers = split_headers h block size;
      sections = section (rest_of block size ∷ []) ∷ a.sections;
      metadata_memory = add64 counted.metadata_memory block_header;
      free_memory = add64 a.free_memory (split_headers h block size (rest_of block size)).size;
      used_memory = add64 a.used_memory (size63 size);
    }
    else record counted {
      headers = h;
      sections = section [] ∷ a.sections;
      used_memory = add64 a.used_memory (h block).size;
    }

-- `Allocate` of a size that is a multiple of the smallest block. `allocator` is the function that
-- gives a new section, if there is one; a null pointer is 0.
unfoldable pub allocate_aligned : Option (ℕ → ℕ) → HeapAllocator → ℕ → ℕ × HeapAllocator
allocate_aligned allocator a size = elim (find_section a.headers size a.sections) [
  | some (block, sections) ↦
      (add64 block block_header, record (hand_out a block size) { sections = sections })
  | none ↦ elim allocator [
    | none ↦ (0, a)
    | some allocate ↦ if allocate (section_size size) == 0 then (0, a) else (
      add64 (add64 (allocate (section_size size)) section_header) block_header,
      new_section a (allocate (section_size size)) size,
    )
  ]
]

-- `Allocate`
unfoldable pub allocate : Option (ℕ → ℕ) → HeapAllocator → ℕ → ℕ × HeapAllocator
allocate allocator a size = allocate_aligned allocator a (align_up size heap_min_block_size)

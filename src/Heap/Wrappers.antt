-- ===== src/Heap/Wrappers.antt =====
-- `kmalloc`, `kcalloc`, `krealloc` and `kfree`, kernel/src/Memory/Heap.cpp, on one of the two heaps of
-- the kernel with its source of sections. Memory gives the byte at each address.
use frosty_os.Prelude.{
  ℕ, ◌+◌, ◌-◌, ◌&&◌, List, Option, Outcome, done, ◌>>=◌, ltb, leb, ◌==◌, if◌then◌else◌, mul64,
}
use frosty_os.Heap.{HeapAllocator, HeapSection, get_size}
use frosty_os.Heap.Take.{allocate}
use frosty_os.Heap.Give.{free}

abbrev pub Memory : Type 0
Memory = ℕ → ℕ

-- `memset` to 0, and `memcpy`, of blocks that do not wrap
abbrev pub clear_bytes : Memory → ℕ → ℕ → Memory
clear_bytes m p n a = if leb p a && ltb a (p + n) then 0 else m a

abbrev pub copy_bytes : Memory → ℕ → ℕ → ℕ → Memory
copy_bytes m to from n a = if leb to a && ltb a (to + n) then m (from + (a - to)) else m a

-- `kmalloc` and `kfree`
abbrev pub kmalloc : Option (ℕ → ℕ) → HeapAllocator → ℕ → ℕ × HeapAllocator
kmalloc allocator a size = allocate allocator a size

abbrev pub kfree : HeapAllocator → ℕ → Outcome (HeapAllocator × List HeapSection)
kfree a ptr = free a ptr

-- `kcalloc`
unfoldable pub kcalloc :
    Option (ℕ → ℕ) → HeapAllocator → Memory → ℕ → ℕ → ℕ × HeapAllocator × Memory
kcalloc allocator a m num size =
    let r = allocate allocator a (mul64 num size) in
    if r.0 == 0 then (0, r.1, m) else (r.0, r.1, clear_bytes m r.0 (mul64 num size))

-- `krealloc` of a block in use that is too small
abbrev pub moved :
    Option (ℕ → ℕ) → HeapAllocator → Memory → ℕ → ℕ → Outcome (ℕ × HeapAllocator × Memory)
moved allocator a m ptr size =
    let r = allocate allocator a size in
    if r.0 == 0
    then done (0, r.1, m)
    else free r.1 ptr >>= λ f. done (r.0, f.0, copy_bytes m r.0 ptr (get_size a ptr))

-- `krealloc`
unfoldable pub krealloc :
    Option (ℕ → ℕ) → HeapAllocator → Memory → ℕ → ℕ → Outcome (ℕ × HeapAllocator × Memory)
krealloc allocator a m ptr size =
    let r = allocate allocator a size in
    if ptr == 0
    then done (r.0, r.1, m)
    else if size == 0
    then (free a ptr >>= λ f. done (0, f.0, m))
    else if get_size a ptr == 0
    then done (0, a, m)
    else if leb size (get_size a ptr)
    then done (ptr, a, m)
    else moved allocator a m ptr size

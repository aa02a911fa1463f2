-- ===== src/VmRegions/Freed.antt =====
-- The two trees when a region in use becomes free and merges with its neighbours,
-- kernel/src/Memory/VMRegionAllocator.cpp.
use frosty_os.Prelude.{
  ℕ, ◌≡◌, ◌≢◌, ◌≤◌, ◌<◌, ◌+◌, ◌-◌, ◌*◌, ◌^◌, List, [], Option, none, some, ◌==◌, ◌&&◌,
  if◌then◌else◌, arith, ◌∙◌, true, false,
}
use frosty_os.AvlTree.{present}
use frosty_os.VmRegions.{RegionData}
use frosty_os.VmRegions.Give.{merged_start}
use frosty_os.VmRegions.Sound.{ValidMaps, count, wanted, or_empty}

-- A free region of some pages
abbrev pub free_region : ℕ → RegionData
free_region pages = record { size = pages; is_free = true; is_reserved = false }

-- The pages of a neighbour
abbrev pub extra : Option (ℕ × ℕ) → ℕ
extra none = 0
extra (some (key, size)) = size

-- The map of regions after the region `d` at `ptr` is free and merged
abbrev pub freed_map :
    (ℕ → Option RegionData)
    → ℕ
    → RegionData
    → Option (ℕ × ℕ)
    → Option (ℕ × ℕ)
    → ℕ
    → Option RegionData
freed_map find ptr d none none q = if ptr == q then some (record d { is_free = true }) else find q
freed_map find ptr d (some (k, a)) none q =
    if k == q then some (free_region (d.size + a)) else if ptr == q then none else find q
freed_map find ptr d none (some (j, b)) q =
    if ptr == q then some (free_region (d.size + b)) else if j == q then none else find q
freed_map find ptr d (some (k, a)) (some (j, b)) q =
    if k == q
    then some (free_region (d.size + a + b))
    else if ptr == q
    then none
    else if j == q
    then none
    else find q

-- A neighbour is a free region of its size at its start.
abbrev pub IsNeighbour : (ℕ → Option RegionData) → ℕ → ℕ → Type 0
IsNeighbour find key size =
    (d : RegionData) × (find key ≡ some d) × (d.is_free ≡ true) × (d.size ≡ size)

-- The free region that ends at an address, or that there is none; and the one that starts there
abbrev pub EndsAt : (ℕ → Option RegionData) → ℕ → Option (ℕ × ℕ) → Type 0
EndsAt find ptr none =
    (k : ℕ) (d : RegionData) → find k ≡ some d → d.is_free ≡ true → k + d.size * 4096 ≢ ptr
EndsAt find ptr (some (k, a)) = IsNeighbour find k a × (k + a * 4096 ≡ ptr)

abbrev pub StartsAt : (ℕ → Option RegionData) → ℕ → Option (ℕ × ℕ) → Type 0
StartsAt find behind none = (d : RegionData) → find behind ≡ some d → d.is_free ≡ false
StartsAt find behind (some (j, b)) = IsNeighbour find j b × (j ≡ behind)

-- Whether the neighbour stands in the list of a size, by its start
abbrev pub once : Option (ℕ × ℕ) → ℕ → ℕ → ℕ
once none p n = 0
once (some (key, size)) p n = if (size == n) && (key == p) then 1 else 0

module _ (find : ℕ → Option RegionData) (lists : ℕ → Option (List ℕ)) (v : ValidMaps find lists)
    (ptr : ℕ) (d : RegionData) (at : find ptr ≡ some d) (used : d.is_free ≡ false) where
  freed-sized :
      (before after : Option (ℕ × ℕ)) (p : ℕ) (e : RegionData)
      → freed_map find ptr d before after p ≡ some e
      → 1 ≤ e.size
  freed-sized none none p e h = ground (arith, h, v.sized p e, v.sized ptr d at)
  freed-sized (some (k, a)) none p e h = ground (arith, h, v.sized p e, v.sized ptr d at)
  freed-sized none (some (j, b)) p e h = ground (arith, h, v.sized p e, v.sized ptr d at)
  freed-sized (some (k, a)) (some (j, b)) p e h = ground (arith, h, v.sized p e, v.sized ptr d at)

  freed-within :
      (before after : Option (ℕ × ℕ))
      → EndsAt find ptr before
      → StartsAt find (ptr + d.size * 4096) after
      → (p : ℕ) (e : RegionData) → freed_map find ptr d before after p ≡ some e
      → p + e.size * 4096 ≤ 2 ^ 64
  freed-within none none x y p e h = ground (arith, h, v.within p e, v.within ptr d at)
  freed-within (some (k, a)) none x y p e h =
      ground (arith, h, x.1, v.within p e, v.within ptr d at)
  freed-within none (some (j, b)) x y p e h =
      let next = v.within j y.0.0 y.0.1 in ground (arith, h, y.1, y.0.3, next, v.within p e)
  freed-within (some (k, a)) (some (j, b)) x y p e h =
      let next = v.within j y.0.0 y.0.1 in ground (arith, h, x.1, y.1, y.0.3, next, v.within p e)

  freed-separate :
      (before after : Option (ℕ × ℕ))
      → EndsAt find ptr before
      → StartsAt find (ptr + d.size * 4096) after
      → (p : ℕ) (e : RegionData) (q : ℕ) → freed_map find ptr d before after p ≡ some e
      → present (freed_map find ptr d before after q) ≡ true
      → p < q
      → p + e.size * 4096 ≤ q
  freed-separate none none x y p e q hp hq l =
      ground (arith, hp, hq, l, at, v.separate p e q, v.separate ptr d q)
  freed-separate (some (k, a)) none x y p e q hp hq l =
      let here = v.separate k x.0.0 q x.0.1 in
      ground (
        arith,
        hp,
        hq,
        l,
        at,
        x.1,
        x.0.1,
        x.0.3,
        here,
        v.separate p e q,
        v.separate ptr d q at,
        v.separate p e k,
      )
  freed-separate none (some (j, b)) x y p e q hp hq l =
      let next = v.separate j y.0.0 q y.0.1 in
      ground (
        arith,
        hp,
        hq,
        l,
        at,
        y.1,
        y.0.1,
        y.0.3,
        next,
        v.separate p e q,
        v.separate ptr d q at,
        v.separate p e ptr,
      )
  freed-separate (some (k, a)) (some (j, b)) x y p e q hp hq l =
      let here = v.separate k x.0.0 q x.0.1 in
      let next = v.separate j y.0.0 q y.0.1 in
      ground (
        arith,
        hp,
        hq,
        l,
        at,
        x.1,
        x.0.1,
        x.0.3,
        y.1,
        y.0.1,
        y.0.3,
        here,
        next,
        v.separate p e q,
        v.separate ptr d q at,
        v.separate p e k,
      )

  -- What the lists are to count after the change
  abbrev pub recount : Option (ℕ × ℕ) → Option (ℕ × ℕ) → ℕ → ℕ → ℕ
  recount before after p n =
      count p (or_empty (lists n))
      - once before p n
      - once after p n
      + (if (d.size + extra before + extra after == n) && (merged_start ptr before == p)
          then 1
          else 0)

  freed-listed :
      (before after : Option (ℕ × ℕ))
      → EndsAt find ptr before
      → StartsAt find (ptr + d.size * 4096) after
      → (p n : ℕ) → recount before after p n ≡ wanted (freed_map find ptr d before after p) n
  freed-listed none none x y p n = ground (arith, v.listed p n, at, used)
  freed-listed (some (k, a)) none x y p n =
      ground (arith, v.listed p n, at, used, x.0.1, x.0.2, x.0.3, x.1, v.sized k x.0.0 x.0.1)
  freed-listed none (some (j, b)) x y p n =
      ground (arith, v.listed p n, at, used, y.0.1, y.0.2, y.0.3, y.1, v.sized ptr d at)
  freed-listed (some (k, a)) (some (j, b)) x y p n = ground (
    arith,
    v.listed p n,
    at,
    used,
    x.0.1,
    x.0.2,
    x.0.3,
    x.1,
    y.0.1,
    y.0.2,
    y.0.3,
    y.1,
    v.sized k x.0.0 x.0.1,
    v.sized ptr d at,
  )

  -- Lists that count as they are to are in step with the new map.
  pub freed-ValidMaps :
      (lists' : ℕ → Option (List ℕ)) (before after : Option (ℕ × ℕ))
      → EndsAt find ptr before
      → StartsAt find (ptr + d.size * 4096) after
      → ((p n : ℕ) → count p (or_empty (lists' n)) ≡ recount before after p n)
      → ((n : ℕ) → lists' n ≢ some [])
      → ValidMaps (freed_map find ptr d before after) lists'
  freed-ValidMaps lists' before after x y counts full = record {
    listed = λ p n. counts p n ∙ freed-listed before after x y p n;
    filled = full;
    sized = freed-sized before after;
    within = freed-within before after x y;
    separate = freed-separate before after x y;
  }

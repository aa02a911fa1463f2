-- ===== src/VmRegions/Sound.antt =====
-- The two trees of kernel/src/Memory/VMRegionAllocator.cpp in step.
use frosty_os.Prelude.{
  ℕ, ◌≡◌, ◌≢◌, ◌≤◌, ◌<◌, ◌+◌, ◌*◌, ◌^◌, true, ◌&&◌, List, [], ◌∷◌, ◌++◌, Option, none, some, ◌==◌,
  if◌then◌else◌, refl, sym, subst, arith, add64,
}
use frosty_os.AvlTree.{present}
use frosty_os.VmRegions.{Trees, VmRegions, RegionData}

-- How often a start is in a list
unfoldable pub count : ℕ → List ℕ → ℕ
count p [] = 0
count p (x ∷ xs) = if x == p then 1 + count p xs else count p xs

-- The list of a size, empty where there is none
abbrev pub or_empty : Option (List ℕ) → List ℕ
or_empty none = []
or_empty (some l) = l

-- How often the list of a size is to have the start of a region
abbrev pub wanted : Option RegionData → ℕ → ℕ
wanted none n = 0
wanted (some d) n = if d.is_free && (d.size == n) then 1 else 0

-- Each free region is once in the list of its size, which has nothing else; regions have pages, end
-- within 64 bits, and end where the next one starts or before.
pub record ValidMaps (find : ℕ → Option RegionData) (lists : ℕ → Option (List ℕ)) : Type 0 where
  pub listed : (p n : ℕ) → count p (or_empty (lists n)) ≡ wanted (find p) n
  pub filled : (n : ℕ) → lists n ≢ some []
  pub sized : (p : ℕ) (d : RegionData) → find p ≡ some d → 1 ≤ d.size
  pub within : (p : ℕ) (d : RegionData) → find p ≡ some d → p + d.size * 4096 ≤ 2 ^ 64
  pub separate :
      (p : ℕ) (d : RegionData) (q : ℕ)
      → find p ≡ some d
      → present (find q) ≡ true
      → p < q
      → p + d.size * 4096 ≤ q

abbrev pub Valid : {trees : Trees} → VmRegions trees → Type 0
Valid {trees} s = ValidMaps (trees.regions.rb_find s.all_pages) (trees.lists.rb_find s.free_pages)

-- The counters add up.
abbrev pub Adds : {trees : Trees} → VmRegions trees → Type 0
Adds s = add64 (add64 s.free_count s.used_count) s.reserved_count ≡ s.total_count

pub count-append : (p : ℕ) (xs ys : List ℕ) → count p (xs ++ ys) ≡ count p xs + count p ys
unfolding count
count-append p [] ys = omega arith
count-append p (x ∷ xs) ys = ground (arith, count-append p xs ys)

pub count-one : (p s : ℕ) → count p (s ∷ []) ≡ (if s == p then 1 else 0)
unfolding count
count-one p s = refl

pub count-head : (p s : ℕ) (xs : List ℕ) → count p (s ∷ xs) ≡ (if s == p then 1 else 0) + count p xs
unfolding count
count-head p s xs = ground arith

-- Maps with the same values are in step as well.
pub ValidMaps-same :
    (find find' : ℕ → Option RegionData) (lists lists' : ℕ → Option (List ℕ))
    → ((p : ℕ) → find' p ≡ find p)
    → ((n : ℕ) → lists' n ≡ lists n)
    → ValidMaps find lists
    → ValidMaps find' lists'
ValidMaps-same find find' lists lists' f l v =
    subst {A = (ℕ → Option RegionData) × (ℕ → Option (List ℕ))} (λ m. ValidMaps m.0 m.1)
      (sym (λ i. ((λ p. f p i), (λ n. l n i)))) v

-- ===== src/VmRegions/Taken.antt =====
-- The two trees when a part of a free region is taken,
-- kernel/src/Memory/VMRegionAllocator.cpp.
use frosty_os.Prelude.{
  ℕ, ◌≡◌, ◌≢◌, ◌≤◌, ◌<◌, ◌+◌, ◌-◌, ◌*◌, ◌^◌, List, [], ◌∷◌, ◌++◌, Option, none, some, ◌==◌, ◌&&◌,
  if◌then◌else◌, refl, sym, ap, arith, ◌∙◌, Bool-cases, inl, inr, true, ltb, add64, sub64, ltb→lt,
}
use frosty_os.AvlTree.{present}
use frosty_os.VmRegions.{Trees, RegionData, page_bytes}
use frosty_os.VmRegions.Pool.{store_list}
use frosty_os.VmRegions.Take.{take_list}
use frosty_os.VmRegions.Sound.{
  ValidMaps, count, wanted, or_empty, count-head, count-append, count-one,
}
use frosty_os.VmRegions.Lists.{or_none, find-put_free, find-store_list}
use frosty_os.VmRegions.Marks.{taken_map}

-- The map of lists after the first start of a size is taken
abbrev pub taken_lists : (ℕ → Option (List ℕ)) → ℕ → ℕ → ℕ → List ℕ → ℕ → Option (List ℕ)
taken_lists lists found pages first rest m =
    if found == m
    then or_none rest
    else if ltb pages found && (found - pages == m)
    then some (or_empty (lists m) ++ (first + pages * 4096) ∷ [])
    else lists m

pub find-take_list :
    (trees : Trees) (t : trees.lists.Tree) (found pages first : ℕ) (rest : List ℕ)
    → trees.lists.rb_find t found ≡ some (first ∷ rest)
    → 1 ≤ pages
    → pages ≤ found
    → first + found * 4096 ≤ 2 ^ 64
    → (m : ℕ)
    → trees.lists.rb_find (take_list trees t found pages first rest) m
      ≡ taken_lists (trees.lists.rb_find t) found pages first rest m
unfolding take_list
find-take_list trees t found pages first rest at some_pages few in_word m =
    let taken = store_list trees.lists t found rest in
    let store = find-store_list trees.lists t found rest in
    let here : present (trees.lists.rb_find t found) ≡ true = rw at refl in
    let size : sub64 found pages ≡ found - pages = omega (arith, few, in_word) in
    elim (Bool-cases (ltb pages found)) [
      | inl l ↦
          let key : add64 first (page_bytes pages) ≡ first + pages * 4096 =
            omega (arith, ltb→lt pages found l, in_word) in
          let put = find-put_free trees.lists taken (found - pages) (first + pages * 4096) m in
          rw (l, size, key)
            (ground (arith, put, store m here, store (found - pages) here, some_pages))
      | inr l ↦ rw l (store m here)
    ]

pub or_none-filled : (l : List ℕ) → or_none l ≢ some []
or_none-filled [] = λ e. cc e
or_none-filled (x ∷ xs) = λ e. cc e

pub or_empty-or_none : (l : List ℕ) → or_empty (or_none l) ≡ l
or_empty-or_none [] = refl
or_empty-or_none (x ∷ xs) = refl

pub append-filled : (l : List ℕ) (x : ℕ) → some (l ++ x ∷ []) ≢ some []
append-filled [] x = λ e. cc e
append-filled (y ∷ ys) x = λ e. cc e

module _ (find : ℕ → Option RegionData) (lists : ℕ → Option (List ℕ)) (v : ValidMaps find lists)
    (s : ℕ) (d : RegionData) (pages : ℕ) (rest : List ℕ) (at : find s ≡ some d)
    (free : d.is_free ≡ true) (some_pages : 1 ≤ pages) (few : pages ≤ d.size)
    (list : lists d.size ≡ some (s ∷ rest)) where
  -- The start of what is left over is no region yet.
  pub gap : pages < d.size → find (s + pages * 4096) ≡ none
  gap l = ground (arith, v.separate s d (s + pages * 4096) at, l, some_pages)

  taken-listed :
      (p n : ℕ)
      → count p (or_empty (taken_lists lists d.size pages s rest n))
        ≡ wanted (taken_map find s d pages p) n
  taken-listed p n =
      let key = s + pages * 4096 in
      let old = v.listed p n in
      let head_of : count p (s ∷ rest) ≡ wanted (find p) d.size =
        sym (ap (λ o. count p (or_empty o)) list) ∙ v.listed p d.size in
      let split_head = count-head p s rest in
      elim (Bool-cases (d.size == n)) [
        | inl e ↦
            rw (e, or_empty-or_none rest)
              (ground (arith, head_of, split_head, at, free, gap, e, some_pages, few))
        | inr e ↦ elim (Bool-cases (ltb pages d.size && (d.size - pages == n))) [
          | inl f ↦
              rw (e, f)
                (count-append p (or_empty (lists n)) (key ∷ [])
                  ∙ ground (arith, count-one p key, old, at, free, gap, e, f, some_pages, few))
          | inr f ↦ rw (e, f) (ground (arith, old, at, free, gap, e, f, some_pages, few))
        ]
      ]

  taken-separate :
      (p : ℕ) (e : RegionData) (q : ℕ)
      → taken_map find s d pages p ≡ some e
      → present (taken_map find s d pages q) ≡ true
      → p < q
      → p + e.size * 4096 ≤ q
  taken-separate p e q hp hq l = ground (
    arith,
    at,
    hp,
    hq,
    l,
    some_pages,
    few,
    v.separate p e q,
    v.separate p d q,
    v.separate p e s,
    v.separate s d q,
    v.separate s d p,
  )

  taken-sized : (p : ℕ) (e : RegionData) → taken_map find s d pages p ≡ some e → 1 ≤ e.size
  taken-sized p e hp = ground (arith, at, hp, some_pages, few, v.sized p e)

  taken-within :
      (p : ℕ) (e : RegionData) → taken_map find s d pages p ≡ some e → p + e.size * 4096 ≤ 2 ^ 64
  taken-within p e hp = ground (arith, at, hp, some_pages, few, v.within p e, v.within s d at)

  taken-filled : (n : ℕ) → taken_lists lists d.size pages s rest n ≢ some []
  taken-filled n = elim (Bool-cases (d.size == n)) [
    | inl e ↦ rw e (or_none-filled rest)
    | inr e ↦ elim (Bool-cases (ltb pages d.size && (d.size - pages == n))) [
      | inl f ↦ rw (e, f) (append-filled (or_empty (lists n)) (s + pages * 4096))
      | inr f ↦ rw (e, f) (v.filled n)
    ]
  ]

  pub taken-ValidMaps : ValidMaps (taken_map find s d pages) (taken_lists lists d.size pages s rest)
  taken-ValidMaps = record {
    listed = taken-listed;
    filled = taken-filled;
    sized = taken-sized;
    within = taken-within;
    separate = taken-separate;
  }

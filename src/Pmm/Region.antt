-- ===== src/Pmm/Region.antt =====
-- The free list as the list of the regions that it describes, and what allocation and release do
-- to such a list: the specification that the pointer code of PMM.cpp is proved against.
pub mod Order
pub mod Cover
use frosty_os.Prelude.{
  ℕ, zero, suc, ◌+◌, ◌-◌, ◌*◌, ◌≤◌, ◌<◌, ◌^◌, ◌≡◌, refl, ◌⊎◌, inl, inr, Bool, true, false, ◌&&◌,
  ◌||◌, List, [], ◌∷◌, ◌++◌, Option, none, some, arith, length, All, ltb, leb, ◌==◌, if◌then◌else◌,
  word,
}

pub record Region : Type 0 where
  pub base : ℕ
  pub pages : ℕ

abbrev pub end_of : Region → ℕ
end_of r = r.base + r.pages * 4096

-- The number of pages of all regions.
unfoldable pub total : List Region → ℕ
total [] = 0
total (r ∷ rs) = r.pages + total rs

-- Regions in order, from `lo` on, each of at least one page, none past the end of the address
-- space.
abbrev pub Sorted : ℕ → List Region → Type 0
Sorted lo [] = Unit {0}
Sorted lo (r ∷ rs) = (lo ≤ r.base) × (1 ≤ r.pages) × (end_of r < word) × Sorted (end_of r) rs

-- The pages from `a` on, `n` of them, overlap none of the regions.
abbrev pub Apart : ℕ → ℕ → List Region → Type 0
Apart a n = All (λ r. (end_of r ≤ a) ⊎ (a + n * 4096 ≤ r.base))

-- Whether an address lies in a region, or in one of several.
abbrev pub within : Region → ℕ → Bool
within r x = leb r.base x && ltb x (end_of r)

unfoldable pub covers : List Region → ℕ → Bool
covers [] x = false
covers (r ∷ rs) x = within r x || covers rs x

-- Put a region before a list, merged with the first one if they touch.
unfoldable pub join : Region → List Region → List Region
join r [] = r ∷ []
join r (s ∷ rs) =
    if end_of r == s.base
    then record { base = r.base; pages = r.pages + s.pages } ∷ rs
    else r ∷ s ∷ rs

-- Give `n` pages at `a` back.
unfoldable pub give : ℕ → ℕ → List Region → List Region
give a n [] = record { base = a; pages = n } ∷ []
give a n (r ∷ rs) =
    if ltb a r.base
    then join (record { base = a; pages = n }) (r ∷ rs)
    else (if end_of r == a
        then join (record { base = r.base; pages = r.pages + n }) rs
        else r ∷ give a n rs)

-- Take the `n` pages at the start of a region.
unfoldable pub shrink : ℕ → Region → List Region → List Region
shrink n r rs =
    if r.pages == n then rs else record { base = r.base + n * 4096; pages = r.pages - n } ∷ rs

-- Take `n` pages from the first region that is large enough: where they start, and what is left.
unfoldable pub take_fit : ℕ → List Region → Option (ℕ × List Region)
take_fit n [] = none
take_fit n (r ∷ rs) =
    if leb n r.pages
    then some (r.base, shrink n r rs)
    else (elim (take_fit n rs) [ none ↦ none | some (a, rest) ↦ some (a, r ∷ rest) ])

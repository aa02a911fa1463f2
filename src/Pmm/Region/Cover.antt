-- ===== src/Pmm/Region/Cover.antt =====
-- Which addresses the regions hold: giving pages back adds exactly those pages, and taking pages
-- removes exactly those.
use frosty_os.Prelude.{ℕ, ◌+◌, ◌≤◌, ◌<◌, ◌≡◌, refl, false, ◌&&◌, ◌||◌, List, [], ◌∷◌, ◌++◌, arith}
use frosty_os.Pmm.Region.Order.{base_above}
use frosty_os.Pmm.Region.{Region, end_of, Sorted, Apart, within, covers, join, give, shrink}

-- No region in order from `lo` on holds an address below `lo`.
pub covers_below : (lo : ℕ) (rs : List Region) (x : ℕ) → Sorted lo rs → x < lo → covers rs x ≡ false
unfolding covers
covers_below lo [] x s h = refl
covers_below lo (r ∷ rs) x s h = ground (arith, covers_below (end_of r) rs x s.3)

covers-join :
    (r : Region) (rs : List Region) (x : ℕ) → covers (join r rs) x ≡ (within r x || covers rs x)
unfolding covers join
covers-join r [] x = refl
covers-join r (t ∷ rs) x = ground arith

-- After giving pages back the list holds what it held, and those pages.
pub covers-give :
    (lo a n : ℕ) (rs : List Region) (x : ℕ)
    → 1 ≤ n
    → Apart a n rs
    → Sorted lo rs
    → covers (give a n rs) x ≡ (within (record { base = a; pages = n }) x || covers rs x)
unfolding covers give
covers-give lo a n [] x k d s = refl
covers-give lo a n (r ∷ rs) x k d s = ground (
  arith,
  covers-join (record { base = a; pages = n }) (r ∷ rs) x,
  covers-join (record { base = r.base; pages = r.pages + n }) rs x,
  covers-give (end_of r) a n rs x k d.1 s.3,
)

-- The pages taken were held before, are not held after, and nothing else changes.
pub covers-shrink :
    (lo n : ℕ) (xs : List Region) (r : Region) (ys : List Region) (x : ℕ)
    → 1 ≤ n
    → n ≤ r.pages
    → Sorted lo (xs ++ r ∷ ys)
    → (covers (xs ++ r ∷ ys) x
        ≡ (within (record { base = r.base; pages = n }) x || covers (xs ++ shrink n r ys) x))
      × ((within (record { base = r.base; pages = n }) x && covers (xs ++ shrink n r ys) x) ≡ false)
unfolding covers shrink
covers-shrink lo n [] r ys x k h s = ground (arith, covers_below (end_of r) ys x s.3)
covers-shrink lo n (y ∷ xs) r ys x k h s =
    ground (arith, covers-shrink (end_of y) n xs r ys x k h s.3, base_above (end_of y) xs r ys s.3)

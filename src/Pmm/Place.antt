-- ===== src/Pmm/Place.antt =====
-- The four places at which pages can be given back to a list of regions.
use frosty_os.Prelude.{
  ℕ, ◌+◌, ◌≤◌, ◌<◌, ◌≡◌, refl, List, [], ◌∷◌, ◌++◌, arith, ltb, ◌==◌, if◌then◌else◌, ap, Bool-cases,
  inl, inr, ltb_false→le,
}
use frosty_os.Pmm.Region.Order.{Sorted-at}
use frosty_os.Pmm.Region.{Region, end_of, Sorted, join, give}

-- The region of `n` pages at `a`.
abbrev pub block : ℕ → ℕ → Region
block a n = record { base = a; pages = n }

-- A region with `n` more pages.
abbrev pub grow : Region → ℕ → Region
grow r n = record { base = r.base; pages = r.pages + n }

pub data Place (a : ℕ) (rs : List Region) : Type 0 where
  alone : rs ≡ [] → Place a rs
  front : (r : Region) (ys : List Region) → rs ≡ r ∷ ys → a < r.base → Place a rs
  middle :
      (xs : List Region) (p r : Region) (ys : List Region)
      → rs ≡ xs ++ p ∷ r ∷ ys
      → p.base ≤ a
      → a < r.base
      → Place a rs
  back : (xs : List Region) (p : Region) → rs ≡ xs ++ p ∷ [] → p.base ≤ a → Place a rs

Place-cons : (a : ℕ) (r : Region) (rs : List Region) → r.base ≤ a → Place a rs → Place a (r ∷ rs)
Place-cons a r rs h (alone e) = back [] r (ap (◌∷◌ r) e) h
Place-cons a r rs h (front s ys e k) = middle [] r s ys (ap (◌∷◌ r) e) h k
Place-cons a r rs h (middle xs p s ys e k l) = middle (r ∷ xs) p s ys (ap (◌∷◌ r) e) k l
Place-cons a r rs h (back xs p e k) = back (r ∷ xs) p (ap (◌∷◌ r) e) k

pub Place-cases : (a : ℕ) (rs : List Region) → Place a rs
Place-cases a [] = alone refl
Place-cases a (r ∷ rs) = elim (Bool-cases (ltb a r.base)) [
  | inl below ↦ front r rs refl (ground arith)
  | inr above ↦ Place-cons a r rs (ltb_false→le _ _ above) (Place-cases a rs)
]

-- What `give` does after the region `p` below `a`.
abbrev pub give_after : ℕ → ℕ → Region → List Region → List Region
give_after a n p ys = if end_of p == a then join (grow p n) ys else p ∷ join (block a n) ys

pub give-front :
    (a n : ℕ) (r : Region) (ys : List Region)
    → a < r.base
    → give a n (r ∷ ys) ≡ join (block a n) (r ∷ ys)
unfolding give
give-front a n r ys h = ground arith

pub give-middle :
    (lo a n : ℕ) (xs : List Region) (p r : Region) (ys : List Region)
    → end_of p ≤ a
    → a < r.base
    → Sorted lo (xs ++ p ∷ r ∷ ys)
    → give a n (xs ++ p ∷ r ∷ ys) ≡ xs ++ give_after a n p (r ∷ ys)
unfolding give
give-middle lo a n [] p r ys h k s = ground arith
give-middle lo a n (x ∷ xs) p r ys h k s =
    ground
      (arith, give-middle (end_of x) a n xs p r ys h k s.3, Sorted-at (end_of x) xs p (r ∷ ys) s.3)

pub give-back :
    (lo a n : ℕ) (xs : List Region) (p : Region)
    → end_of p ≤ a
    → Sorted lo (xs ++ p ∷ [])
    → give a n (xs ++ p ∷ []) ≡ xs ++ give_after a n p []
unfolding give join
give-back lo a n [] p h s = ground arith
give-back lo a n (x ∷ xs) p h s =
    ground (arith, give-back (end_of x) a n xs p h s.3, Sorted-at (end_of x) xs p [] s.3)

-- ===== src/Pmm/Region/Order.antt =====
-- Giving and taking pages keep the regions in order, and count them.
use frosty_os.Prelude.{
  ℕ, ◌+◌, ◌-◌, ◌*◌, ◌≤◌, ◌<◌, ◌≡◌, refl, List, [], ◌∷◌, none, some, arith, length, ltb, leb, leb→le,
  ◌==◌, word, Bool-cases, inl, inr, ◌⊎◌, All, ap, ◌++◌,
}
use frosty_os.Pmm.Region.{Region, end_of, total, Sorted, Apart, join, give, shrink, take_fit}

pub Sorted-mono : {lo lo' : ℕ} (rs : List Region) → lo' ≤ lo → Sorted lo rs → Sorted lo' rs
Sorted-mono [] h s = tt
Sorted-mono (r ∷ rs) h s = (omega arith, s.1, s.2, s.3)

Sorted-join :
    (lo : ℕ) (r : Region) (rs : List Region)
    → lo ≤ r.base
    → 1 ≤ r.pages
    → end_of r < word
    → Sorted (end_of r) rs
    → Sorted lo (join r rs)
unfolding join
Sorted-join lo r [] h k w s = (h, k, w, tt)
Sorted-join lo r (t ∷ rs) h k w s =
    ground (arith, Sorted-mono {lo = end_of t} {lo' = r.base + (r.pages + t.pages) * 4096} rs)

-- Pages that touch none of the regions from `a` on end before all of them.
Sorted-past :
    (a n lo : ℕ) (rs : List Region)
    → 1 ≤ n
    → a ≤ lo
    → Apart a n rs
    → Sorted lo rs
    → Sorted (a + n * 4096) rs
Sorted-past a n lo [] k h d s = tt
Sorted-past a n lo (r ∷ rs) k h d s = (omega arith, s.1, s.2, s.3)

-- Giving pages back keeps the list in order.
pub Sorted-give :
    (lo a n : ℕ) (rs : List Region)
    → lo ≤ a
    → 1 ≤ n
    → a + n * 4096 < word
    → Apart a n rs
    → Sorted lo rs
    → Sorted lo (give a n rs)
unfolding give
Sorted-give lo a n [] h k w d s = (h, k, w, tt)
Sorted-give lo a n (r ∷ rs) h k w d s = elim (Bool-cases (ltb a r.base)) [
  | inl below ↦
      rw below (Sorted-join lo (record { base = a; pages = n }) (r ∷ rs) h k w (ground arith))
  | inr above ↦ rw above (elim (Bool-cases (end_of r == a)) [
    | inl touch ↦ rw touch (
        Sorted-join lo (record { base = r.base; pages = r.pages + n }) rs s.0 (omega arith)
          (ground arith)
          (Sorted-mono {lo = a + n * 4096} rs (ground arith)
            (Sorted-past a n (end_of r) rs k (ground arith) d.1 s.3)))
    | inr apart ↦ rw apart (s.0, s.1, s.2, Sorted-give (end_of r) a n rs (ground arith) k w d.1 s.3)
  ])
]

total-join : (r : Region) (rs : List Region) → total (join r rs) ≡ r.pages + total rs
unfolding total join
total-join r [] = refl
total-join r (t ∷ rs) = ground arith

-- Giving `n` pages back makes the total larger by `n`.
pub total-give : (a n : ℕ) (rs : List Region) → total (give a n rs) ≡ n + total rs
unfolding give total
total-give a n [] = refl
total-give a n (r ∷ rs) = ground (
  arith,
  total-join (record { base = a; pages = n }) (r ∷ rs),
  total-join (record { base = r.base; pages = r.pages + n }) rs,
  total-give a n rs,
)

-- In order, the regions fit in the address space, and there are no more of them than pages.
pub total-lt : (lo : ℕ) (rs : List Region) → lo < word → Sorted lo rs → lo + total rs * 4096 < word
unfolding total
total-lt lo [] h s = omega arith
total-lt lo (r ∷ rs) h s = omega (arith, total-lt (end_of r) rs s.2 s.3)

pub length-le-total : (lo : ℕ) (rs : List Region) → Sorted lo rs → length rs ≤ total rs
unfolding total
length-le-total lo [] s = omega arith
length-le-total lo (r ∷ rs) s = omega (arith, length-le-total (end_of r) rs s.3)

-- Any region of the list in order: above the bound, not empty, and before those that follow.
pub Sorted-at :
    (lo : ℕ) (xs : List Region) (r : Region) (ys : List Region)
    → Sorted lo (xs ++ r ∷ ys)
    → (lo ≤ r.base) × (1 ≤ r.pages) × (end_of r < word) × Sorted (end_of r) ys
Sorted-at lo [] r ys s = s
Sorted-at lo (x ∷ xs) r ys s =
    let t = Sorted-at (end_of x) xs r ys s.3 in (omega arith, t.1, t.2, t.3)

pub base_above :
    (lo : ℕ) (xs : List Region) (r : Region) (ys : List Region)
    → Sorted lo (xs ++ r ∷ ys)
    → lo ≤ r.base
base_above lo xs r ys s = (Sorted-at lo xs r ys s).0

-- Where `take_fit` succeeds: the first region of at least `n` pages, and what it leaves.
pub record Fit (n : ℕ) (rs : List Region) : Type 0 where
  pub before : List Region
  pub found : Region
  pub after : List Region
  pub split : rs ≡ before ++ found ∷ after
  pub small : All (λ r. r.pages < n) before
  pub large : n ≤ found.pages
  pub result : take_fit n rs ≡ some (found.base, before ++ shrink n found after)

pub take_fit-cases :
    (n : ℕ) (rs : List Region) → ((take_fit n rs ≡ none) × All (λ r. r.pages < n) rs) ⊎ Fit n rs
unfolding take_fit
take_fit-cases n [] = inl (refl, tt)
take_fit-cases n (r ∷ rs) = elim (Bool-cases (leb n r.pages)) [
  | inl fits ↦ inr (record {
    before = [];
    found = r;
    after = rs;
    split = refl;
    small = tt;
    large = leb→le _ _ fits;
    result = rw fits;
  })
  | inr short ↦ elim (take_fit-cases n rs) [
    | inl (e, h) ↦ inl (rw (short, e), (ground arith, h))
    | inr f ↦ inr (record {
      before = r ∷ f.before;
      found = f.found;
      after = f.after;
      split = ap (◌∷◌ r) f.split;
      small = (ground arith, f.small);
      large = f.large;
      result = rw (short, f.result);
    })
  ]
]

-- Taking pages keeps the list in order.
pub Sorted-shrink :
    (lo n : ℕ) (xs : List Region) (r : Region) (ys : List Region)
    → 1 ≤ n
    → n ≤ r.pages
    → Sorted lo (xs ++ r ∷ ys)
    → Sorted lo (xs ++ shrink n r ys)
unfolding shrink
Sorted-shrink lo n [] r ys k h s = ground (
  arith,
  Sorted-mono {lo = end_of r} {lo' = lo} ys (omega arith) s.3,
  Sorted-mono {lo = end_of r} {lo' = r.base + n * 4096 + (r.pages - n) * 4096} ys (omega arith) s.3,
)
Sorted-shrink lo n (x ∷ xs) r ys k h s = (s.0, s.1, s.2, Sorted-shrink (end_of x) n xs r ys k h s.3)

-- Taking `n` pages makes the total smaller by `n`.
pub total-shrink :
    (n : ℕ) (xs : List Region) (r : Region) (ys : List Region)
    → n ≤ r.pages
    → total (xs ++ r ∷ ys) ≡ n + total (xs ++ shrink n r ys)
unfolding shrink total
total-shrink n [] r ys h = ground arith
total-shrink n (x ∷ xs) r ys h = omega (arith, total-shrink n xs r ys h)

-- The end of a list in order, from `r` on, can be exchanged for another that starts no lower.
pub Sorted-tail :
    (lo : ℕ) (xs : List Region) (r : Region) (ys zs : List Region)
    → Sorted lo (xs ++ r ∷ ys)
    → Sorted r.base zs
    → Sorted lo (xs ++ zs)
Sorted-tail lo [] r ys zs s t = Sorted-mono {lo = r.base} zs s.0 t
Sorted-tail lo (x ∷ xs) r ys zs s t = (s.0, s.1, s.2, Sorted-tail (end_of x) xs r ys zs s.3 t)

pub total-cons : (r : Region) (rs : List Region) → total (r ∷ rs) ≡ r.pages + total rs
unfolding total
total-cons r rs = refl

pub take_fit-first :
    (n : ℕ) (r : Region) (rs : List Region)
    → n ≤ r.pages
    → take_fit n (r ∷ rs) ≡ some (r.base, shrink n r rs)
unfolding take_fit
take_fit-first n r rs h = ground arith

-- If the first region is large enough, it is the one.
abbrev pub first_fit : (n : ℕ) (r : Region) (rs : List Region) → n ≤ r.pages → Fit n (r ∷ rs)
first_fit n r rs h = record {
  before = [];
  found = r;
  after = rs;
  split = refl;
  small = tt;
  large = h;
  result = take_fit-first n r rs h;
}

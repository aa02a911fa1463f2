-- ===== src/FdManager/Search.antt =====
-- The search for a free number in the bitmap of kernel/src/fs/FDManager.cpp, and its enlargement.
use frosty_os.Prelude.{
  ℕ, zero, suc, ◌+◌, ◌*◌, ◌/◌, ◌%◌, ◌≤◌, ◌<◌, ◌≡◌, refl, true, false, arith, length, length-append,
  length-replicate, replicate, get_or, All-append, All-replicate, List, [], ◌∷◌, ◌++◌, Option, none,
  some, Bool-cases, inl, inr, ◌==◌, ==_iff,
}
use frosty_os.Bitmap.{RawBitmap, IsValid, get}
use frosty_os.Bitmap.Bits.{test_bit-zero}
use frosty_os.FdManager.{first_free, grow}

-- What the search found: the first number that is free, or that there is none.
abbrev pub Found : RawBitmap → ℕ → ℕ → Option ℕ → Type 0
Found b n i none = (j : ℕ) → i ≤ j → j < i + n → get b j ≡ true
Found b n i (some k) =
    (i ≤ k) × (k < i + n) × (get b k ≡ false) × ((j : ℕ) → i ≤ j → j < k → get b j ≡ true)

Found-later :
    (b : RawBitmap) (n i : ℕ) (r : Option ℕ)
    → get b i ≡ true
    → Found b n (i + 1) r
    → Found b (suc n) i r
Found-later b n i none e h = λ j lo hi. elim (Bool-cases (i == j)) [
  | inl t ↦ ground (arith, e, (==_iff i j).0 t)
  | inr f ↦ h j (ground arith) (omega arith)
]
Found-later b n i (some k) e h = (
  omega (arith, h.0),
  omega (arith, h.1),
  h.2,
  λ j lo hi. elim (Bool-cases (i == j)) [
    | inl t ↦ ground (arith, e, (==_iff i j).0 t)
    | inr f ↦ h.3 j (ground arith) (omega arith)
  ],
)

pub first_free-Found : (b : RawBitmap) (n i : ℕ) → Found b n i (first_free b n i)
unfolding first_free
first_free-Found b zero i = λ j lo hi. absurd (omega arith)
first_free-Found b (suc n) i = elim (Bool-cases (get b i)) [
  | inl e ↦ rw e (Found-later b n i (first_free b n (i + 1)) e (first_free-Found b n (i + 1)))
  | inr e ↦ rw e ((omega arith, omega arith, e, λ j lo hi. absurd (omega arith)))
]

pub get_or-replicate : (n k : ℕ) → get_or {A = ℕ} (replicate n 0) k 0 ≡ 0
get_or-replicate zero k = refl
get_or-replicate (suc n) zero = refl
get_or-replicate (suc n) (suc k) = get_or-replicate n k

-- Bytes of 0 at the end read the same as no bytes.
get_or-zeros : (xs : List ℕ) (n k : ℕ) → get_or (xs ++ replicate n 0) k 0 ≡ get_or xs k 0
get_or-zeros [] n k = get_or-replicate n k
get_or-zeros (x ∷ xs) n zero = refl
get_or-zeros (x ∷ xs) n (suc k) = get_or-zeros xs n k

get_or-past : (xs : List ℕ) (k : ℕ) → length xs ≤ k → get_or xs k 0 ≡ 0
get_or-past [] k h = refl
get_or-past (x ∷ xs) zero h = absurd (omega arith)
get_or-past (x ∷ xs) (suc k) h = get_or-past xs k (omega arith)

-- Growing changes no bit.
pub get-grow : (b : RawBitmap) (j : ℕ) → IsValid b → get (grow b) j ≡ get b j
unfolding get grow
get-grow b j h = ground (
  arith,
  h.sized,
  test_bit-zero (j % 8) (omega arith),
  get_or-zeros b.buffer 16 (j / 8),
  get_or-past b.buffer (j / 8),
)

pub grow-IsValid : (b : RawBitmap) → IsValid b → IsValid (grow b)
unfolding grow
grow-IsValid b h = record {
  sized =
      omega
        (arith, h.sized, length-append b.buffer (replicate 16 0), length-replicate {A = ℕ} 16 0);
  bytes =
      All-append (λ x. x < 256) b.buffer (replicate 16 0) h.bytes
        (All-replicate (λ x. x < 256) 16 0 (omega arith));
}

pub size-grow : (b : RawBitmap) → (grow b).size ≡ b.size + 16
unfolding grow
size-grow b = refl

-- A number past the end reads as free.
pub get-past : (b : RawBitmap) (j : ℕ) → b.size * 8 ≤ j → get b j ≡ false
unfolding get
get-past b j h = ground arith

-- ===== src/ThreadList/Chain.antt =====
-- The list of threads that the links of kernel/src/Scheduling/ThreadList.cpp represent.
use frosty_os.Prelude.{ℕ, ◌+◌, ◌<◌, ◌≡◌, false, List, [], ◌∷◌, length, word, arith, ◌==◌, All}
use frosty_os.ThreadList.{Links, ThreadList}

abbrev pub head_or : ℕ → List ℕ → ℕ
head_or d [] = d
head_or d (x ∷ xs) = x

abbrev pub last_or : ℕ → List ℕ → ℕ
last_or d [] = d
last_or d (x ∷ xs) = last_or x xs

-- A thread differs from all of a list.
abbrev pub Apart : ℕ → List ℕ → Type 0
Apart t xs = All (λ x. (t == x) ≡ false) xs

-- Each thread points to the one before and to the one after, is no null pointer, and occurs once.
abbrev pub Chain : (ℕ → Links) → ℕ → List ℕ → Type 0
Chain threads p [] = Unit
Chain threads p (x ∷ xs) =
    ((threads x).previous ≡ p)
    × ((threads x).next ≡ head_or 0 xs)
    × ((x == 0) ≡ false)
    × Apart x xs
    × Chain threads x xs

-- The list represents the threads `xs`, from the front to the back.
pub record Represents (l : ThreadList) (xs : List ℕ) : Type 0 where
  pub chain : Chain l.threads 0 xs
  pub first : l.head ≡ head_or 0 xs
  pub last : l.tail ≡ last_or 0 xs
  pub counted : l.count ≡ length xs
  pub bounded : length xs + 1 < word

-- Links that agree on a list make the same chain.
pub Chain-agree :
    (m n : ℕ → Links) (p : ℕ) (xs : List ℕ) → All (λ x. n x ≡ m x) xs → Chain m p xs → Chain n p xs
Chain-agree m n p [] h c = tt
Chain-agree m n p (x ∷ xs) h c =
    (rw (h.0) c.0, rw (h.0) c.1, c.2, c.3, Chain-agree m n x xs h.1 c.4)

-- A thread is not among those it is apart from.
pub Apart-last :
    (t p : ℕ) (xs : List ℕ) → (t == p) ≡ false → Apart t xs → (t == last_or p xs) ≡ false
Apart-last t p [] h a = h
Apart-last t p (x ∷ xs) h a = Apart-last t x xs a.0 a.1

pub Apart-head :
    (t d : ℕ) (xs : List ℕ) → (t == d) ≡ false → Apart t xs → (t == head_or d xs) ≡ false
Apart-head t d [] h a = h
Apart-head t d (x ∷ xs) h a = a.0

pub ==-flip : (a b : ℕ) → (a == b) ≡ false → (b == a) ≡ false
==-flip a b h = ground (arith, h)

-- ===== src/LinkedList/Search.antt =====
-- The loops of kernel/lib/src/DataStructures/LinkedList.cpp that only read, against a list.
use frosty_os.Prelude.{
  ℕ, zero, suc, ◌≤◌, ◌≡◌, refl, ap, Bool, true, false, not, List, [], ◌∷◌, map, length, done, ◌==◌,
  if◌then◌else◌, arith,
}
use frosty_os.VmRegions.Pool.{has_node}
use frosty_os.ThreadList.{Links}
use frosty_os.ThreadList.Chain.{Chain, head_or, last_or}
use frosty_os.LinkedList.{Heap, length_from, length_of, find_last, find_node, seek}

-- The links of the nodes, as those of a list of threads
abbrev pub links : Heap → ℕ → Links
links h a = record { previous = (h a).previous; next = (h a).next; in_list = true }

-- The heap has the list of nodes `xs`.
abbrev pub IsList : Heap → List ℕ → Type 0
IsList h xs = Chain (links h) 0 xs

-- The words in the nodes
abbrev pub contents : Heap → List ℕ → List ℕ
contents h xs = map (λ x. (h x).value) xs

-- The first node with a word
unfoldable pub first_with : Heap → ℕ → List ℕ → ℕ
first_with h v [] = 0
first_with h v (x ∷ xs) = if (h x).value == v then x else first_with h v xs

if-done :
    {A : Type 0} (b : Bool) (x y : A) → (if b then done x else done y) ≡ done (if b then x else y)
if-done true x y = refl
if-done false x y = refl

pub find_last-last_or :
    (h : Heap) (fuel p x : ℕ) (xs : List ℕ)
    → length (x ∷ xs) ≤ fuel
    → Chain (links h) p (x ∷ xs)
    → find_last h fuel x ≡ done (last_or x xs)
unfolding find_last
find_last-last_or h zero p x xs l c = absurd (omega (arith, l))
find_last-last_or h (suc fuel) p x [] l c = rw (c.1) refl
find_last-last_or h (suc fuel) p x (y ∷ ys) l c =
    rw (c.1, c.4.2) (find_last-last_or h fuel x y ys (omega (arith, l)) c.4)

length_from-length :
    (h : Heap) (fuel p x : ℕ) (xs : List ℕ)
    → length (x ∷ xs) ≤ fuel
    → Chain (links h) p (x ∷ xs)
    → length_from h fuel x ≡ done (length (x ∷ xs))
unfolding length_from
length_from-length h zero p x xs l c = absurd (omega (arith, l))
length_from-length h (suc fuel) p x [] l c = rw (c.1) refl
length_from-length h (suc fuel) p x (y ∷ ys) l c =
    rw (c.1, c.4.2, length_from-length h fuel x y ys (omega (arith, l)) c.4)
      (ap (λ n. done n) (omega arith))

find_node-first_with :
    (h : Heap) (fuel p v : ℕ) (xs : List ℕ)
    → length xs ≤ fuel
    → Chain (links h) p xs
    → find_node h fuel (head_or 0 xs) v ≡ done (first_with h v xs)
unfolding find_node first_with
find_node-first_with h zero p v [] l c = refl
find_node-first_with h (suc fuel) p v [] l c = refl
find_node-first_with h zero p v (x ∷ xs) l c = absurd (omega (arith, l))
find_node-first_with h (suc fuel) p v (x ∷ xs) l c =
    let rest = find_node-first_with h fuel x v xs (omega (arith, l)) c.4 in
    rw (c.2, c.1, rest) (if-done ((h x).value == v) x (first_with h v xs))

pub seek-first_with :
    (h : Heap) (fuel p x v : ℕ) (xs : List ℕ)
    → length (x ∷ xs) ≤ fuel
    → Chain (links h) p (x ∷ xs)
    → seek h fuel x v ≡ done (first_with h v (x ∷ xs))
unfolding seek first_with
seek-first_with h zero p x v xs l c = absurd (omega (arith, l))
seek-first_with h (suc fuel) p x v [] l c = rw (c.1) (if-done ((h x).value == v) x 0)
seek-first_with h (suc fuel) p x v (y ∷ ys) l c =
    let rest = seek-first_with h fuel x y v ys (omega (arith, l)) c.4 in
    rw (c.1, c.4.2, rest) (if-done ((h x).value == v) x (first_with h v (y ∷ ys)))

-- A word is found exactly if the list of words has it.
first_with-has_node :
    (h : Heap) (p v : ℕ) (xs : List ℕ)
    → Chain (links h) p xs
    → (first_with h v xs == 0) ≡ not (has_node (contents h xs) v)
unfolding first_with has_node
first_with-has_node h p v [] c = refl
first_with-has_node h p v (x ∷ xs) c = ground (arith, first_with-has_node h x v xs c.4, c.2)

-- On a list of nodes, with one unit of fuel for each node, the loops of `length` and `findNode` end:
-- `length` gives their number, and `findNode` the first node with the word, which is a null pointer
-- exactly if no node has it.
pub walk_lem :
    (h : Heap) (v : ℕ) (xs : List ℕ)
    → IsList h xs
    → (length_of h (length xs) (head_or 0 xs) ≡ done (length xs))
      × (find_node h (length xs) (head_or 0 xs) v ≡ done (first_with h v xs))
      × ((first_with h v xs == 0) ≡ not (has_node (contents h xs) v))
unfolding length_of
walk_lem h v [] c =
    (refl, find_node-first_with h 0 0 v [] (omega arith) c, first_with-has_node h 0 v [] c)
walk_lem h v (x ∷ xs) c = (
  rw (c.2) (length_from-length h (length (x ∷ xs)) 0 x xs (omega arith) c),
  find_node-first_with h (length (x ∷ xs)) 0 v (x ∷ xs) (omega arith) c,
  first_with-has_node h 0 v (x ∷ xs) c,
)

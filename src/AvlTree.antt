-- ===== src/AvlTree.antt =====
-- kernel/lib/include/DataStructures/AVLTree.hpp: the class `wAVLTree` over the search tree of
-- tree.h, which is FreeBSD's and enters as a parameter, with the behaviour that its macros document.
-- Keys are 64-bit words. A node is its key, since a tree has a key at most once.
pub mod Assoc
pub mod Clear
pub mod Near
mod Tests
use frosty_os.Prelude.{
  ℕ, ◌≡◌, ◌<◌, Bool, true, false, List, [], ◌∷◌, Option, none, some, map, ltb, leb, ◌==◌,
  if◌then◌else◌,
}

-- The value at the first entry with the key.
unfoldable pub lookup : {V : Type 0} → ℕ → List (ℕ × V) → Option V
lookup k [] = none
lookup k ((j, v) ∷ es) = if j == k then some v else lookup k es

-- RB_INIT, RB_INSERT, RB_REMOVE, RB_FIND, a store to the value of a node, and the order of RB_FOREACH.
-- RB_INSERT leaves a tree that has the key already as it is.
pub record RawTree (V : Type 0) : Type 1 where
  pub Tree : Type 0
  pub rb_init : Tree
  pub rb_insert : Tree → ℕ → V → Tree
  pub rb_remove : Tree → ℕ → Tree
  pub rb_find : Tree → ℕ → Option V
  pub set_value : Tree → ℕ → V → Tree
  pub rb_foreach : Tree → List (ℕ × V)
  pub find-init : (k : ℕ) → rb_find rb_init k ≡ none
  pub find-insert :
      (t : Tree) (k : ℕ) (v : V) (j : ℕ)
      → rb_find (rb_insert t k v) j
        ≡ (if k == j then (elim (rb_find t k) [ none ↦ some v | some w ↦ some w ]) else rb_find t j)
  pub find-remove :
      (t : Tree) (k j : ℕ) → rb_find (rb_remove t k) j ≡ (if k == j then none else rb_find t j)
  pub find-set_value :
      (t : Tree) (k : ℕ) (v : V) (j : ℕ)
      → rb_find (set_value t k v) j
        ≡ (if k == j then (elim (rb_find t k) [ none ↦ none | some w ↦ some v ]) else rb_find t j)
  pub lookup-foreach : (t : Tree) (k : ℕ) → lookup k (rb_foreach t) ≡ rb_find t k

-- Whether there is a value.
abbrev pub present : {V : Type 0} → Option V → Bool
present none = false
present (some v) = true

-- A key is the least, or the greatest, of those that a test accepts; or there is none.
abbrev pub IsLeast : {V : Type 0} → (ℕ → Option V) → (ℕ → Bool) → Option ℕ → Type 0
IsLeast find accepts none = (j : ℕ) → accepts j ≡ true → find j ≡ none
IsLeast find accepts (some k) =
    (accepts k ≡ true)
    × (present (find k) ≡ true)
    × ((j : ℕ) → accepts j ≡ true → j < k → find j ≡ none)

abbrev pub IsGreatest : {V : Type 0} → (ℕ → Option V) → (ℕ → Bool) → Option ℕ → Type 0
IsGreatest find accepts none = (j : ℕ) → accepts j ≡ true → find j ≡ none
IsGreatest find accepts (some k) =
    (accepts k ≡ true)
    × (present (find k) ≡ true)
    × ((j : ℕ) → accepts j ≡ true → k < j → find j ≡ none)

-- RB_NFIND, RB_MAX, RB_PREV and RB_NEXT
pub record RawOrder {V : Type 0} (raw : RawTree V) : Type 0 where
  pub rb_nfind : raw.Tree → ℕ → Option ℕ
  pub rb_max : raw.Tree → Option ℕ
  pub rb_prev : raw.Tree → ℕ → Option ℕ
  pub rb_next : raw.Tree → ℕ → Option ℕ
  pub nfind-IsLeast : (t : raw.Tree) (k : ℕ) → IsLeast (raw.rb_find t) (λ j. leb k j) (rb_nfind t k)
  pub max-IsGreatest : (t : raw.Tree) → IsGreatest (raw.rb_find t) (λ j. true) (rb_max t)
  pub prev-IsGreatest :
      (t : raw.Tree) (k : ℕ) → IsGreatest (raw.rb_find t) (λ j. ltb j k) (rb_prev t k)
  pub next-IsLeast : (t : raw.Tree) (k : ℕ) → IsLeast (raw.rb_find t) (λ j. ltb k j) (rb_next t k)

module _ {V : Type 0} (raw : RawTree V) where
  open raw use {Tree, rb_init, rb_insert, rb_remove, rb_find}

  -- `Insert`, whose allocation is taken to succeed: the class does not check it.
  abbrev pub insert : Tree → ℕ → V → Tree
  insert t k v = rb_insert t k v

  -- `FindNode`: the value of the node, or none.
  abbrev pub find_node : Tree → ℕ → Option V
  find_node t k = rb_find t k

  -- `Find`, with what a null pointer is read as.
  abbrev pub find : V → Tree → ℕ → V
  find null t k = elim (rb_find t k) [ none ↦ null | some v ↦ v ]

  -- `Remove`
  abbrev pub remove : Tree → ℕ → Tree
  remove t k = elim (rb_find t k) [ none ↦ t | some v ↦ rb_remove t k ]

  -- `RemoveNode`, at the node with the key `k`.
  abbrev pub remove_node : Tree → ℕ → Tree
  remove_node t k = rb_remove t k

  -- `Clear`, which removes the nodes one by one, in the order of the tree.
  unfoldable pub remove_all : Tree → List (ℕ × V) → Tree
  remove_all t [] = t
  remove_all t ((k, v) ∷ es) = remove_all (rb_remove t k) es

  unfoldable pub clear : Tree → Tree
  clear t = remove_all t (raw.rb_foreach t)

  module _ (order : RawOrder raw) where
    -- `FindNodeOrHigher`
    abbrev pub find_node_or_higher : Tree → ℕ → Option ℕ
    find_node_or_higher t k = order.rb_nfind t k

    -- `FindNodeOrLower`
    unfoldable pub find_node_or_lower : Tree → ℕ → Option ℕ
    find_node_or_lower t k = elim (order.rb_nfind t k) [
      | none ↦ order.rb_max t
      | some j ↦ if ltb k j then order.rb_prev t j else some j
    ]

    -- `PreviousNode` and `NextNode`
    abbrev pub previous_node : Tree → ℕ → Option ℕ
    previous_node t k = order.rb_prev t k

    abbrev pub next_node : Tree → ℕ → Option ℕ
    next_node t k = order.rb_next t k

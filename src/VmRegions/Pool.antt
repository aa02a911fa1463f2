-- ===== src/VmRegions/Pool.antt =====
-- The lists of free regions by size: what kernel/src/Memory/VMRegionAllocator.cpp does to its second
-- tree, and `insertNode`, `findNode` and `deleteNode` of kernel/lib/src/DataStructures/LinkedList.cpp
-- on the lists in it.
use frosty_os.Prelude.{ℕ, Bool, true, false, List, [], ◌∷◌, ◌++◌, none, some, ◌==◌, if◌then◌else◌}
use frosty_os.AvlTree.{RawTree}

-- `insertNode`, at the end of the list
abbrev pub insert_node : List ℕ → ℕ → List ℕ
insert_node l start = l ++ start ∷ []

-- `deleteNode` of the first node with a key
unfoldable pub delete_node : List ℕ → ℕ → List ℕ
delete_node [] key = []
delete_node (x ∷ xs) key = if x == key then xs else x ∷ delete_node xs key

-- Whether `findNode` finds a node
unfoldable pub has_node : List ℕ → ℕ → Bool
has_node [] start = false
has_node (x ∷ xs) start = if x == start then true else has_node xs start

module _ (raw : RawTree (List ℕ)) where
  -- The list of a size after a deletion goes back to the node, or the node goes.
  abbrev pub store_list : raw.Tree → ℕ → List ℕ → raw.Tree
  store_list t size [] = raw.rb_remove t size
  store_list t size (x ∷ xs) = raw.set_value t size (x ∷ xs)

  -- The node of a size, and a new one with a null pointer if there is none
  unfoldable pub ensure_node : raw.Tree → ℕ → raw.Tree
  ensure_node t size = elim (raw.rb_find t size) [ none ↦ raw.rb_insert t size [] | some l ↦ t ]

  -- A start is added to the list of a size.
  unfoldable pub put_free : raw.Tree → ℕ → ℕ → raw.Tree
  put_free t size start = elim (raw.rb_find (ensure_node t size) size) [
    | none ↦ ensure_node t size
    | some l ↦ raw.set_value (ensure_node t size) size (insert_node l start)
  ]

  -- A start is taken off the list of a size, if there is one.
  unfoldable pub drop_free : raw.Tree → ℕ → ℕ → raw.Tree
  drop_free t size start = elim (raw.rb_find t size) [
    | none ↦ t
    | some l ↦ store_list t size (delete_node l start)
  ]

-- ===== src/VmRegions/Nodes.antt =====
-- Pointers to nodes of the tree of all regions, and `SplitAPTNode`,
-- kernel/src/Memory/VMRegionAllocator.cpp.
use frosty_os.Prelude.{ℕ, Bool, none, some, add64, sub64}
use frosty_os.AvlTree.{RawTree}
use frosty_os.VmRegions.{RegionData, size62, page_bytes}

-- A node of the tree is its key. `Insert` of a key that is there gives a node apart from the tree.
pub data Node : Type 0 where
  in_tree : ℕ → Node
  apart : ℕ → RegionData → Node

abbrev pub node_key : Node → ℕ
node_key (in_tree k) = k
node_key (apart k d) = k

-- A cast of the value, with a size that is no more than the field has
abbrev pub no_region : RegionData
no_region = record { size = 0; is_free = Bool.false; is_reserved = Bool.false }

module _ (raw : RawTree RegionData) where
  -- `std::bit_cast<CompleteTreeNodeData>(node->value)`
  abbrev pub node_value : raw.Tree → Node → RegionData
  node_value t (in_tree k) = elim (raw.rb_find t k) [ none ↦ no_region | some d ↦ d ]
  node_value t (apart k d) = d

  -- `node->value = std::bit_cast<uint64_t>(nodeData)`
  abbrev pub set_node : raw.Tree → Node → RegionData → raw.Tree × Node
  set_node t (in_tree k) d = (raw.set_value t k d, in_tree k)
  set_node t (apart k old) d = (t, apart k d)

  -- The node that `Insert` gives
  abbrev pub inserted : raw.Tree → ℕ → RegionData → Node
  inserted t k d = elim (raw.rb_find t k) [ none ↦ in_tree k | some old ↦ apart k d ]

  -- `SplitAPTNode`: the tree, the node that keeps the lower pages, and the new node for the others.
  unfoldable pub split_node : raw.Tree → Node → ℕ → raw.Tree × Node × Node
  split_node t node pages =
      let d = node_value t node in
      let lower = set_node t node (record d { size = size62 pages }) in
      let upper = record d { size = size62 (sub64 d.size pages) } in
      let key = add64 (node_key node) (page_bytes pages) in
      (raw.rb_insert lower.0 key upper, lower.1, inserted lower.0 key upper)

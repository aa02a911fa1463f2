-- ===== src/HashMap.antt =====
-- kernel/lib/include/DataStructures/HashMap.hpp: calls of the search tree of AVLTree.hpp.
use frosty_os.Prelude.{ℕ, ◌≡◌, none, some, arith, Option-cases, inl, inr}
use frosty_os.AvlTree.{RawTree}
use frosty_os.AvlTree

module _ {V : Type 0} (raw : RawTree V) where
  open raw use {Tree}

  -- `insert`, `remove` and `get`, with what a null pointer is read as
  abbrev pub insert : Tree → ℕ → V → Tree
  insert t key v = AvlTree.insert raw t key v

  abbrev pub remove : Tree → ℕ → Tree
  remove t key = AvlTree.remove raw t key

  abbrev pub get : V → Tree → ℕ → V
  get null t key = AvlTree.find raw null t key

  -- After `insert` the key has the value that it had, or the new one if it had none.
  get-insert :
      (null v : V) (t : Tree) (key : ℕ)
      → get null (insert t key v) key ≡ (elim (raw.rb_find t key) [ none ↦ v | some w ↦ w ])
  get-insert null v t key = elim (Option-cases (raw.rb_find t key)) [
    | inl e ↦ ground (arith, raw.find-insert t key v key, e)
    | inr (w, e) ↦ ground (arith, raw.find-insert t key v key, e)
  ]

  -- After `remove` it has none.
  get-remove : (null : V) (t : Tree) (key : ℕ) → get null (remove t key) key ≡ null
  get-remove null t key = elim (Option-cases (raw.rb_find t key)) [
    | inl e ↦ ground (arith, raw.find-remove t key key, e)
    | inr (w, e) ↦ ground (arith, raw.find-remove t key key, e)
  ]

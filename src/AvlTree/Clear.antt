-- ===== src/AvlTree/Clear.antt =====
-- `wAVLTree::Clear`, kernel/lib/include/DataStructures/AVLTree.hpp.
use frosty_os.Prelude.{
  ℕ, ◌≡◌, refl, ◌∙◌, List, [], ◌∷◌, Option, none, some, arith, Option-cases, inl, inr,
}
use frosty_os.AvlTree.{RawTree, lookup, remove_all, clear}

module _ {V : Type 0} (raw : RawTree V) where
  open raw use {Tree, rb_find, rb_remove, rb_foreach, find-remove, lookup-foreach}

  -- What is left at a key: nothing if the list has it.
  abbrev left_over : Option V → Option V → Option V
  left_over none o = o
  left_over (some v) o = none

  find-remove_all :
      (es : List (ℕ × V)) (t : Tree) (k : ℕ)
      → rb_find (remove_all raw t es) k ≡ left_over (lookup k es) (rb_find t k)
  unfolding remove_all lookup
  find-remove_all [] t k = refl
  find-remove_all ((j, v) ∷ es) t k =
      ground (arith, find-remove_all es (rb_remove t j) k, find-remove t j k)

  -- After `Clear` no key has a value.
  pub find-clear : (t : Tree) (k : ℕ) → rb_find (clear raw t) k ≡ none
  unfolding clear
  find-clear t k =
      find-remove_all (rb_foreach t) t k
      ∙ rw (lookup-foreach t k)
          (elim (Option-cases (rb_find t k)) [ inl e ↦ rw e refl | inr (v, e) ↦ rw e refl ])

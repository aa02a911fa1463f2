-- ===== src/AvlTree/Near.antt =====
-- `FindNodeOrLower`, kernel/lib/include/DataStructures/AVLTree.hpp.
use frosty_os.Prelude.{
  ℕ, ◌<◌, refl, true, Option, none, some, arith, ltb, leb, ltb→lt, Option-cases, Bool-cases, inl,
  inr, subst,
}
use frosty_os.AvlTree.{RawTree, RawOrder, IsLeast, IsGreatest, find_node_or_lower}

module _ {V : Type 0} (find : ℕ → Option V) (k : ℕ) where
  -- No key is `k` or higher: the greatest of all is the one.
  below-IsGreatest :
      (o : Option ℕ)
      → IsLeast find (λ j. leb k j) none
      → IsGreatest find (λ j. true) o
      → IsGreatest find (λ j. leb j k) o
  below-IsGreatest none h g = λ j p. g j refl
  below-IsGreatest (some m) h g = (ground (arith, h m), g.1, λ j p l. g.2 j refl l)

  -- The nearest key from `k` on is higher: the greatest of those below `k` is the one.
  previous-IsGreatest :
      (o : Option ℕ) (j : ℕ)
      → k < j
      → IsLeast find (λ i. leb k i) (some j)
      → IsGreatest find (λ i. ltb i j) o
      → IsGreatest find (λ i. leb i k) o
  previous-IsGreatest none j l h g = λ i p. g i (ground arith)
  previous-IsGreatest (some m) j l h g =
      (ground (arith, h.2 m), g.1, λ i p q. g.2 i (ground arith) q)

module _ {V : Type 0} (raw : RawTree V) (order : RawOrder raw) where
  open raw use {Tree, rb_find}
  open order use {rb_nfind, rb_max, rb_prev, nfind-IsLeast, max-IsGreatest, prev-IsGreatest}

  -- `FindNodeOrLower` gives the node with the greatest key that is at most `k`, and none if there
  -- is no such key.
  pub find_node_or_lower_lem :
      (t : Tree) (k : ℕ) → IsGreatest (rb_find t) (λ j. leb j k) (find_node_or_lower raw order t k)
  unfolding find_node_or_lower
  find_node_or_lower_lem t k =
      let near = nfind-IsLeast t k in
      elim (Option-cases (rb_nfind t k)) [
        | inl e ↦
            let near_none = subst (IsLeast (rb_find t) (λ j. leb k j)) e near in
            rw (e, IsGreatest)
              (below-IsGreatest (rb_find t) k (rb_max t) near_none (max-IsGreatest t))
        | inr (j, e) ↦
            let near_some = subst (IsLeast (rb_find t) (λ j. leb k j)) e near in
            rw (e, IsGreatest)
              (elim (Bool-cases (ltb k j)) [
                | inl l ↦ rw l (
                    previous-IsGreatest (rb_find t) k (rb_prev t j) j (ltb→lt k j l) near_some
                      (prev-IsGreatest t j))
                | inr l ↦ rw l (ground (arith, near_some.0), near_some.1, λ i p q. ground arith)
              ])
      ]

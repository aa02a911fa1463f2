-- ===== src/VmRegions/Lists.antt =====
-- What the updates of the lists of free regions do, kernel/src/Memory/VMRegionAllocator.cpp.
use frosty_os.Prelude.{
  ℕ, ◌≡◌, List, [], ◌∷◌, ◌++◌, Option, none, some, ◌==◌, if◌then◌else◌, refl, arith, Option-cases,
  inl, inr, ==-refl, true,
}
use frosty_os.AvlTree.{RawTree, present}
use frosty_os.VmRegions.Pool.{delete_node, store_list, ensure_node, put_free, drop_free}
use frosty_os.VmRegions.Sound.{or_empty}

-- No node for an empty list
abbrev pub or_none : List ℕ → Option (List ℕ)
or_none [] = none
or_none (x ∷ xs) = some (x ∷ xs)

module _ (raw : RawTree (List ℕ)) where
  open raw use {Tree, rb_find, find-insert, find-remove, find-set_value}

  find-ensure_node :
      (t : Tree) (n m : ℕ)
      → rb_find (ensure_node raw t n) m
        ≡ (if n == m then some (or_empty (rb_find t n)) else rb_find t m)
  unfolding ensure_node
  find-ensure_node t n m = elim (Option-cases (rb_find t n)) [
    | inl e ↦ rw (e, ensure_node) (ground (arith, find-insert t n [] m, e))
    | inr (l, e) ↦ rw (e, ensure_node) (ground (arith, e))
  ]

  pub find-put_free :
      (t : Tree) (n s m : ℕ)
      → rb_find (put_free raw t n s) m
        ≡ (if n == m then some (or_empty (rb_find t n) ++ s ∷ []) else rb_find t m)
  unfolding put_free
  find-put_free t n s m =
      let e = find-ensure_node t n n in
      let old = or_empty (rb_find t n) in
      rw (e, ==-refl n, put_free)
        (ground (
          arith,
          find-set_value (ensure_node raw t n) n (old ++ s ∷ []) m,
          e,
          find-ensure_node t n m,
        ))

  pub find-store_list :
      (t : Tree) (n : ℕ) (l : List ℕ) (m : ℕ)
      → present (rb_find t n) ≡ true
      → rb_find (store_list raw t n l) m ≡ (if n == m then or_none l else rb_find t m)
  find-store_list t n [] m h = find-remove t n m
  find-store_list t n (x ∷ xs) m h = ground (arith, find-set_value t n (x ∷ xs) m, h)

  pub find-drop_free :
      (t : Tree) (n s m : ℕ)
      → rb_find (drop_free raw t n s) m
        ≡ (if n == m then or_none (delete_node (or_empty (rb_find t n)) s) else rb_find t m)
  unfolding drop_free delete_node
  find-drop_free t n s m = elim (Option-cases (rb_find t n)) [
    | inl e ↦ rw (e, drop_free) (ground (arith, e))
    | inr (l, e) ↦ rw (e, drop_free) (find-store_list t n (delete_node l s) m (rw e refl))
  ]

-- ===== src/VmRegions/Listed.antt =====
-- What the updates of the lists of free regions count,
-- kernel/src/Memory/VMRegionAllocator.cpp.
use frosty_os.Prelude.{
  ℕ, ◌≡◌, ◌≢◌, ◌+◌, ◌-◌, List, [], ◌∷◌, some, ◌==◌, ==_iff, ◌&&◌, if◌then◌else◌, arith, ap,
  Bool-cases, inl, inr,
}
use frosty_os.AvlTree.{RawTree}
use frosty_os.VmRegions.Pool.{delete_node, put_free, drop_free}
use frosty_os.VmRegions.Sound.{count, or_empty, count-append, count-one}
use frosty_os.VmRegions.Lists.{find-put_free, find-drop_free}
use frosty_os.VmRegions.Taken.{or_none-filled, or_empty-or_none, append-filled}

count-delete_node :
    (p s : ℕ) (l : List ℕ) → count p (delete_node l s) ≡ count p l - (if s == p then 1 else 0)
unfolding count delete_node
count-delete_node p s [] = ground arith
count-delete_node p s (x ∷ xs) = ground (arith, count-delete_node p s xs)

module _ (raw : RawTree (List ℕ)) where
  open raw use {Tree, rb_find}

  pub count-put_free :
      (t : Tree) (n s p m : ℕ)
      → count p (or_empty (rb_find (put_free raw t n s) m))
        ≡ count p (or_empty (rb_find t m)) + (if (n == m) && (s == p) then 1 else 0)
  count-put_free t n s p m =
      let l = or_empty (rb_find t n) in
      elim (Bool-cases (n == m)) [
        | inl e ↦
            let same = ap (λ i. count p (or_empty (rb_find t i))) ((==_iff n m).0 e) in
            rw (find-put_free raw t n s m, e)
              (ground (arith, count-append p l (s ∷ []), count-one p s, same))
        | inr e ↦ rw (find-put_free raw t n s m, e) (omega arith)
      ]

  pub count-drop_free :
      (t : Tree) (n s p m : ℕ)
      → count p (or_empty (rb_find (drop_free raw t n s) m))
        ≡ count p (or_empty (rb_find t m)) - (if (n == m) && (s == p) then 1 else 0)
  count-drop_free t n s p m =
      let l = or_empty (rb_find t n) in
      elim (Bool-cases (n == m)) [
        | inl e ↦
            let same = ap (λ i. count p (or_empty (rb_find t i))) ((==_iff n m).0 e) in
            rw (find-drop_free raw t n s m, e)
              (ground (arith, or_empty-or_none (delete_node l s), count-delete_node p s l, same))
        | inr e ↦ rw (find-drop_free raw t n s m, e) (omega arith)
      ]

  pub put_free-filled :
      (t : Tree) (n s m : ℕ) → rb_find t m ≢ some [] → rb_find (put_free raw t n s) m ≢ some []
  put_free-filled t n s m h = elim (Bool-cases (n == m)) [
    | inl e ↦ rw (find-put_free raw t n s m, e) (append-filled (or_empty (rb_find t n)) s)
    | inr e ↦ rw (find-put_free raw t n s m, e) h
  ]

  pub drop_free-filled :
      (t : Tree) (n s m : ℕ) → rb_find t m ≢ some [] → rb_find (drop_free raw t n s) m ≢ some []
  drop_free-filled t n s m h = elim (Bool-cases (n == m)) [
    | inl e ↦
        rw (find-drop_free raw t n s m, e) (or_none-filled (delete_node (or_empty (rb_find t n)) s))
    | inr e ↦ rw (find-drop_free raw t n s m, e) h
  ]

-- ===== src/FdManager/Forked.antt =====
-- `FileDescriptorManager::Fork`, kernel/src/fs/FDManager.cpp.
use frosty_os.Prelude.{
  ℕ, ◌≡◌, refl, sym, ◌∙◌, ap, true, arith, Option, none, some, inl, inr, Option-cases, List, [],
  ◌∷◌,
}
use frosty_os.AvlTree.{RawTree, lookup}
use frosty_os.FdManager.{FdManager, fork, fork_entries}
use frosty_os.FdManager.Table.{has, Valid}

module _ (raw : RawTree ℕ) (copy : ℕ → Option ℕ) where
  open raw use {Tree, rb_find, rb_insert, rb_foreach, find-insert, lookup-foreach}

  -- The copy of a descriptor, where there is one.
  abbrev pub copied : Option ℕ → Option ℕ
  copied none = none
  copied (some d) = copy d

  -- What the tree that is filled holds at a key: what it held, or else the copy of the entry.
  abbrev filled : Option ℕ → Option ℕ → Option ℕ
  filled none o = copied o
  filled (some w) o = some w

  find-fork_entries :
      (es : List (ℕ × ℕ)) (t : Tree) (k : ℕ)
      → (fork_entries raw copy t es).0 ≡ true
      → rb_find (fork_entries raw copy t es).1 k ≡ filled (rb_find t k) (lookup k es)
  unfolding fork_entries lookup
  find-fork_entries [] t k h = ground arith
  find-fork_entries ((i, d) ∷ es) t k h = elim (Option-cases (copy d)) [
    | inl e ↦ ground (arith, h, e)
    | inr (c, e) ↦
        ground (arith, h, e, find-fork_entries es (rb_insert t i c) k, find-insert t i c k)
  ]

  has-copied :
      (es : List (ℕ × ℕ)) (t : Tree) (k : ℕ)
      → (fork_entries raw copy t es).0 ≡ true
      → has (copied (lookup k es)) ≡ has (lookup k es)
  unfolding fork_entries lookup
  has-copied [] t k h = refl
  has-copied ((i, d) ∷ es) t k h = elim (Option-cases (copy d)) [
    | inl e ↦ ground (arith, h, e)
    | inr (c, e) ↦ ground (arith, h, e, has-copied es (rb_insert t i c) k)
  ]

  -- The tree that a successful run makes from one without descriptors.
  find-forked :
      (m other : FdManager raw) (k : ℕ)
      → rb_find m.current_fds k ≡ none
      → (fork_entries raw copy m.current_fds (rb_foreach other.current_fds)).0 ≡ true
      → rb_find (fork_entries raw copy m.current_fds (rb_foreach other.current_fds)).1 k
        ≡ copied (rb_find other.current_fds k)
  find-forked m other k fresh h =
      find-fork_entries (rb_foreach other.current_fds) m.current_fds k h
      ∙ rw (fresh, lookup-foreach other.current_fds k) refl

  has-forked :
      (m other : FdManager raw) (k : ℕ)
      → (fork_entries raw copy m.current_fds (rb_foreach other.current_fds)).0 ≡ true
      → has (copied (rb_find other.current_fds k)) ≡ has (rb_find other.current_fds k)
  has-forked m other k h =
      rw (← lookup-foreach other.current_fds k)
        (has-copied (rb_foreach other.current_fds) m.current_fds k h)

  entries_hold :
      (m other : FdManager raw)
      → (fork raw true copy m other).0 ≡ true
      → (fork_entries raw copy m.current_fds (rb_foreach other.current_fds)).0 ≡ true
  unfolding fork
  entries_hold m other h = ground (arith, h)

  -- If `Fork` into a table without descriptors succeeds and the other table is in step, both are in
  -- step afterwards, the other is unchanged, and the new table has a descriptor at the same numbers,
  -- each the copy of the other's.
  pub fork_lem :
      (m other : FdManager raw)
      → ((k : ℕ) → rb_find m.current_fds k ≡ none)
      → Valid raw other
      → (fork raw true copy m other).0 ≡ true
      → Valid raw (fork raw true copy m other).1
        × ((fork raw true copy m other).2 ≡ other)
        × ((k : ℕ)
            → rb_find (fork raw true copy m other).1.current_fds k
              ≡ copied (rb_find other.current_fds k))
        × ((k : ℕ)
            → has (rb_find (fork raw true copy m other).1.current_fds k)
              ≡ has (rb_find other.current_fds k))
  unfolding fork
  fork_lem m other fresh v h =
      let e = entries_hold m other h in
      rw (fork, e)
        (
          record {
            unlocked = refl;
            bits = v.bits;
            bounded = v.bounded;
            stepped = v.stepped;
            agree = λ i.
                v.agree i
                ∙ sym (has-forked m other i e)
                ∙ ap has (sym (find-forked m other i (fresh i) e));
          },
          rw (← v.unlocked) refl,
          λ k. find-forked m other k (fresh k) e,
          λ k. ap has (find-forked m other k (fresh k) e) ∙ has-forked m other k e,
        )

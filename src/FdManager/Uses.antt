-- ===== src/FdManager/Uses.antt =====
-- `Init`, `Free`, `ReserveFD` and `Get` of kernel/src/fs/FDManager.cpp on a table in step.
use frosty_os.Prelude.{
  ℕ, ◌*◌, ◌≤◌, ◌<◌, ◌≡◌, refl, sym, ap, ◌∙◌, Bool, true, false, not, ◌&&◌, arith, none, some,
  Bool-cases, inl, inr, ◌==◌, if◌then◌else◌, All-replicate, Option-cases, subst, List, [], ◌∷◌,
  ◌||◌,
}
use frosty_os.Bitmap.{get, put}
use frosty_os.Bitmap.Laws.{get-put, put-IsValid, size-put}
use frosty_os.AvlTree.{RawTree, lookup}
use frosty_os.AvlTree.Clear.{find-clear}
use frosty_os.FdManager.{
  fd, FdManager, init, new_manager, allocate, free, reserve_fd, get_fd, delete, close_all,
}
use frosty_os.FdManager.Search.{get-past}
use frosty_os.FdManager.Table.{
  has, Valid, enter-Valid, unlock-Valid, none-has, find-enter, Allocated, allocate_lem,
}
use frosty_os.FdManager.Empty.{get-zeros}

-- Whether a descriptor is in a list.
abbrev pub is_in : ℕ → List ℕ → Bool
is_in d [] = false
is_in d (c ∷ cs) = c == d || is_in d cs

module _ (raw : RawTree ℕ) where
  open raw use {Tree, rb_find, rb_insert, find-insert, find-remove, find-init}

  close_all-entry :
      (is_open : ℕ → Bool) (k d : ℕ) (es : List (ℕ × ℕ))
      → lookup k es ≡ some d
      → (d == 0) ≡ false
      → (is_in d (close_all raw is_open es).1 ≡ true)
        × (is_open d ≡ true → is_in d (close_all raw is_open es).0 ≡ true)
  unfolding close_all lookup
  close_all-entry is_open k d [] e n = absurd (ground arith)
  close_all-entry is_open k d ((j, c) ∷ es) e n = elim (Bool-cases (j == k)) [
    | inl same ↦ ground (arith, e, n, same)
    | inr other ↦ ground (arith, e, n, other, close_all-entry is_open k d es)
  ]

  -- `Init` of a new table, with memory for its bitmap, puts the table in step.
  pub init-Valid : Valid raw (init raw true (new_manager raw)).1
  unfolding init
  init-Valid = record {
    unlocked = refl;
    bits = record { sized = refl; bytes = All-replicate (λ x. x < 256) 16 0 (omega arith) };
    bounded = omega arith;
    stepped = refl;
    agree = λ i. rw (find-init i) (get-zeros i);
  }

  -- On a table in step, `Free` succeeds exactly if the number has a descriptor, passes that
  -- descriptor on, and removes it and no other; the table stays in step.
  pub free_lem :
      (m : FdManager raw) (i : ℕ)
      → Valid raw m
      → Valid raw (free raw m i).2
        × ((free raw m i).0 ≡ has (rb_find m.current_fds i))
        × ((free raw m i).1 ≡ rb_find m.current_fds i)
        × ((j : ℕ)
            → rb_find (free raw m i).2.current_fds j
              ≡ (if i == j then none else rb_find m.current_fds j))
  unfolding free
  free_lem m i v = elim (Option-cases (rb_find m.current_fds i)) [
    | inl e ↦ rw (free, e) (v, refl, refl, λ j. ground (arith, e))
    | inr (d, e) ↦
        rw (free, e)
          (
            record {
              unlocked = refl;
              bits = put-IsValid m.bitmap i false v.bits;
              bounded = rw (size-put m.bitmap i false) v.bounded;
              stepped = rw (size-put m.bitmap i false) v.stepped;
              agree = λ j. ground (
                arith,
                get-put m.bitmap i j false v.bits,
                find-remove m.current_fds i j,
                v.agree j,
                get-past m.bitmap j,
              );
            },
            refl,
            refl,
            λ j. find-remove m.current_fds i j,
          )
  ]

  -- On a table in step, `ReserveFD` of a number within the bitmap succeeds exactly if the number has
  -- no descriptor, and then enters the given one and changes no other; a number that is taken keeps
  -- its descriptor. The table stays in step.
  pub reserve_fd_lem :
      (m : FdManager raw) (i desc : ℕ)
      → Valid raw m
      → i < m.bitmap.size * 8
      → Valid raw (reserve_fd raw m i desc).1
        × ((reserve_fd raw m i desc).0 ≡ not (has (rb_find m.current_fds i)))
        × ((j : ℕ)
            → rb_find (reserve_fd raw m i desc).1.current_fds j ≡ (
                if not (has (rb_find m.current_fds i)) && i == j
                then some desc
                else rb_find m.current_fds j))
  unfolding reserve_fd
  reserve_fd_lem m i desc v lt = elim (Bool-cases (get m.bitmap i)) [
    | inl e ↦ rw (e, ← v.agree i, e) (unlock-Valid raw m v, refl, λ j. refl)
    | inr e ↦
        let out = none-has raw (rb_find m.current_fds i) (sym (v.agree i) ∙ e) in
        rw (e, out)
          (
            enter-Valid raw m m.bitmap i desc (unlock-Valid raw m v) lt,
            refl,
            λ j. find-enter raw m m.bitmap i desc j out,
          )
  ]

  -- `ReserveFD` of a number past the end of the bitmap puts a table in step out of step.
  pub reserve_fd_beyond :
      (m : FdManager raw) (i desc : ℕ)
      → Valid raw m
      → m.bitmap.size * 8 ≤ i
      → ¬ Valid raw (reserve_fd raw m i desc).1
  unfolding reserve_fd put
  reserve_fd_beyond m i desc v le w =
      ground
        (arith, w.agree i, get-past m.bitmap i le, find-insert m.current_fds i desc i, v.agree i)

  -- A number that `Allocate` gave on a table in step leads `Get` to the descriptor, and `Free` gives
  -- the descriptor back and leaves the table in step, every number with the descriptor it had before
  -- and every bit of the bitmap as it was before.
  pub allocate-free :
      (alloc_ok : Bool) (m : FdManager raw) (desc i : ℕ)
      → Valid raw m
      → (allocate raw alloc_ok m desc).0 ≡ fd i
      → let n = (allocate raw alloc_ok m desc).1 in
        (get_fd raw n i ≡ desc)
        × ((free raw n i).1 ≡ some desc)
        × ((j : ℕ) → rb_find (free raw n i).2.current_fds j ≡ rb_find m.current_fds j)
        × Valid raw (free raw n i).2
        × ((j : ℕ) → get (free raw n i).2.bitmap j ≡ get m.bitmap j)
  unfolding get_fd
  allocate-free alloc_ok m desc i v e =
      let (w, at) = allocate_lem raw alloc_ok m desc v in
      let n = (allocate raw alloc_ok m desc).1 in
      let at' = subst (λ r. Allocated raw alloc_ok m desc r n) e at in
      let here = at'.3 i in
      let back = free_lem n i w in
      let same : (j : ℕ) → rb_find (free raw n i).2.current_fds j ≡ rb_find m.current_fds j =
        λ j. ground (arith, back.3 j, at'.3 j, at'.1) in
      (
        ground (arith, here),
        back.2 ∙ ground (arith, here),
        same,
        back.0,
        λ j. back.0.agree j ∙ ap has (same j) ∙ sym (v.agree j),
      )

  -- After `Delete` the table is in step and no number has a descriptor; of the descriptors that it
  -- had, at any number and no null pointer, each is deleted, and closed first if it was open.
  pub delete_lem :
      (is_open : ℕ → Bool) (m : FdManager raw)
      → Valid raw (delete raw is_open m).1
        × ((k : ℕ) → rb_find (delete raw is_open m).1.current_fds k ≡ none)
        × ((k d : ℕ)
            → rb_find m.current_fds k ≡ some d
            → (d == 0) ≡ false
            → (is_in d (delete raw is_open m).0.1 ≡ true)
              × (is_open d ≡ true → is_in d (delete raw is_open m).0.0 ≡ true))
  unfolding delete
  delete_lem is_open m = (
    record {
      unlocked = refl;
      bits = record { sized = refl; bytes = tt };
      bounded = omega arith;
      stepped = refl;
      agree = λ i.
          rw (find-clear raw m.current_fds i)
            (get-past (record { buffer = []; size = 0 }) i (omega arith));
    },
    find-clear raw m.current_fds,
    λ k d e n.
        close_all-entry is_open k d (raw.rb_foreach m.current_fds)
          (raw.lookup-foreach m.current_fds k ∙ e) n,
  )

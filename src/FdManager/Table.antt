-- ===== src/FdManager/Table.antt =====
-- The bitmap and the tree of a table of kernel/src/fs/FDManager.cpp stay in step, and a new
-- descriptor gets the lowest free number.
use frosty_os.Prelude.{
  ℕ, ◌+◌, ◌*◌, ◌%◌, ◌≤◌, ◌<◌, ◌≡◌, ◌⊎◌, refl, sym, ◌∙◌, Bool, true, false, arith, Option, none,
  some, Bool-cases, inl, inr, ◌==◌, if◌then◌else◌, Option-cases, subst,
}
use frosty_os.Bitmap.{RawBitmap, IsValid, get}
use frosty_os.Bitmap.Laws.{get-put, put-IsValid, size-put}
use frosty_os.AvlTree.{RawTree}
use frosty_os.FdManager.{
  Fd, fd, failed, FdManager, first_free, grow, max_fd, emfile, enomem, allocate, enter,
}
use frosty_os.FdManager.Search.{
  Found, first_free-Found, get-grow, grow-IsValid, size-grow, get-past,
}

-- Whether a number has a descriptor.
abbrev pub has : {A : Type 0} → Option A → Bool
has none = false
has (some a) = true

module _ (raw : RawTree ℕ) where
  open raw use {Tree, rb_find, rb_insert, find-insert, find-remove, find-init}

  -- No lock is held, the bitmap is well-formed and of an allowed size, and a bit is set exactly if
  -- the tree has the number.
  pub record Valid (m : FdManager raw) : Type 0 where
    pub unlocked : m.bitmap_locked ≡ false
    pub bits : IsValid m.bitmap
    pub bounded : m.bitmap.size * 8 ≤ max_fd
    pub stepped : m.bitmap.size % 16 ≡ 0
    pub agree : (i : ℕ) → get m.bitmap i ≡ has (rb_find m.current_fds i)

  -- A valid table to which a free number in range is added.
  pub enter-Valid :
      (m : FdManager raw) (b : RawBitmap) (i desc : ℕ)
      → Valid (record m { bitmap = b; bitmap_locked = false })
      → i < b.size * 8
      → Valid (enter raw m b i desc)
  enter-Valid m b i desc v lt = record {
    unlocked = refl;
    bits = put-IsValid b i true v.bits;
    bounded = rw (size-put b i true) v.bounded;
    stepped = rw (size-put b i true) v.stepped;
    agree = λ j. ground (
      arith,
      get-put b i j true v.bits,
      find-insert m.current_fds i desc j,
      v.agree j,
      v.agree i,
    );
  }

  pub none-has : {A : Type 0} (o : Option A) → has o ≡ false → o ≡ none
  none-has none h = refl
  none-has (some a) h = ground arith

  grow-Valid :
      (m : FdManager raw)
      → Valid m
      → ((m.bitmap.size * 8 == max_fd) ≡ false)
      → Valid (record m { bitmap = grow m.bitmap; bitmap_locked = false })
  grow-Valid m v ne = record {
    unlocked = refl;
    bits = grow-IsValid m.bitmap v.bits;
    bounded = ground (arith, size-grow m.bitmap, v.bounded, v.stepped);
    stepped = omega (arith, size-grow m.bitmap, v.stepped);
    agree = λ j. get-grow m.bitmap j v.bits ∙ v.agree j;
  }

  -- What `Allocate` promises of its result, from the table `m` to the table `n`: the number was
  -- free, every lower one was taken, and it alone is entered; or nothing is entered, and either no
  -- memory was left or all numbers are taken.
  abbrev pub Allocated : Bool → FdManager raw → ℕ → Fd → FdManager raw → Type 0
  Allocated alloc_ok m desc (fd i) n =
      (i < max_fd)
      × (rb_find m.current_fds i ≡ none)
      × ((j : ℕ) → j < i → has (rb_find m.current_fds j) ≡ true)
      × ((j : ℕ)
          → rb_find n.current_fds j ≡ (if i == j then some desc else rb_find m.current_fds j))
  Allocated alloc_ok m desc (failed e) n =
      (n.current_fds ≡ m.current_fds)
      × (((e ≡ emfile) × ((j : ℕ) → j < max_fd → has (rb_find m.current_fds j) ≡ true))
          ⊎ ((e ≡ enomem) × (alloc_ok ≡ false)))

  pub find-enter :
      (m : FdManager raw) (b : RawBitmap) (i desc j : ℕ)
      → rb_find m.current_fds i ≡ none
      → rb_find (enter raw m b i desc).current_fds j
        ≡ (if i == j then some desc else rb_find m.current_fds j)
  find-enter m b i desc j h = find-insert m.current_fds i desc j ∙ rw h refl

  pub unlock-Valid : (m : FdManager raw) → Valid m → Valid (record m { bitmap_locked = false })
  unlock-Valid m v = record {
    unlocked = refl;
    bits = v.bits;
    bounded = v.bounded;
    stepped = v.stepped;
    agree = v.agree;
  }

  module _ (m : FdManager raw) (desc : ℕ) (v : Valid m) where
    full-has :
        ((j : ℕ) → 0 ≤ j → j < 0 + m.bitmap.size * 8 → get m.bitmap j ≡ true)
        → (j : ℕ) → j < m.bitmap.size * 8
        → has (rb_find m.current_fds j) ≡ true
    full-has all j lt = sym (v.agree j) ∙ all j (omega arith) (omega arith)

    first_free-Allocated :
        (alloc_ok : Bool) (i : ℕ)
        → Found m.bitmap (m.bitmap.size * 8) 0 (some i)
        → Valid (enter raw m m.bitmap i desc)
          × Allocated alloc_ok m desc (fd i) (enter raw m m.bitmap i desc)
    first_free-Allocated alloc_ok i f =
        let free = none-has (rb_find m.current_fds i) (sym (v.agree i) ∙ f.2) in
        (
          enter-Valid m m.bitmap i desc (unlock-Valid m v) (omega (arith, f.1)),
          (
            omega (arith, f.1, v.bounded),
            free,
            λ j lt. sym (v.agree j) ∙ f.3 j (omega arith) lt,
            λ j. find-enter m m.bitmap i desc j free,
          ),
        )

    grow-Allocated :
        (alloc_ok : Bool)
        → ((m.bitmap.size * 8 == max_fd) ≡ false)
        → Found m.bitmap (m.bitmap.size * 8) 0 none
        → Valid (enter raw m (grow m.bitmap) (m.bitmap.size * 8) desc)
          × Allocated alloc_ok m desc
              (fd (m.bitmap.size * 8))
              (enter raw m (grow m.bitmap) (m.bitmap.size * 8) desc)
    grow-Allocated alloc_ok ne f =
        let free =
          none-has (rb_find m.current_fds (m.bitmap.size * 8))
            (sym (v.agree (m.bitmap.size * 8)) ∙ get-past m.bitmap _ (omega arith)) in
        (
          enter-Valid m (grow m.bitmap) (m.bitmap.size * 8) desc (grow-Valid m v ne)
              (omega (arith, size-grow m.bitmap)),
          (
            ground (arith, ne, v.bounded),
            free,
            full-has f,
            λ j. find-enter m (grow m.bitmap) (m.bitmap.size * 8) desc j free,
          ),
        )

  -- In a table in step, `Allocate` gives the lowest number that has no descriptor, below MAX_FD, and
  -- enters the descriptor there and changes no other; it fails with EMFILE only if all MAX_FD
  -- numbers are taken, or with ENOMEM only if no memory was left, and then the tree is as before.
  -- The table stays in step.
  pub allocate_lem :
      (alloc_ok : Bool) (m : FdManager raw) (desc : ℕ)
      → Valid m
      → Valid (allocate raw alloc_ok m desc).1
        × Allocated alloc_ok m desc
            (allocate raw alloc_ok m desc).0
            (allocate raw alloc_ok m desc).1
  unfolding allocate
  allocate_lem alloc_ok m desc v =
      let found = first_free-Found m.bitmap (m.bitmap.size * 8) 0 in
      elim (Option-cases (first_free m.bitmap (m.bitmap.size * 8) 0)) [
        | inl e ↦
            let all = subst (λ o. Found m.bitmap (m.bitmap.size * 8) 0 o) e found in
            elim (Bool-cases (m.bitmap.size * 8 == max_fd)) [
              | inl full ↦
                  rw (e, allocate, full)
                    (
                      unlock-Valid m v,
                      (refl, inl (refl, λ j lt. full-has m desc v all j (ground (arith, full)))),
                    )
              | inr ne ↦ elim (Bool-cases alloc_ok) [
                | inl ok ↦ rw (e, allocate, ne, ok) (grow-Allocated m desc v true ne all)
                | inr out ↦ rw (e, allocate, ne, out) (unlock-Valid m v, (refl, inr (refl, refl)))
              ]
            ]
        | inr (i, e) ↦
            rw (e, allocate)
              (first_free-Allocated m desc v alloc_ok i
                (subst (λ o. Found m.bitmap (m.bitmap.size * 8) 0 o) e found))
      ]

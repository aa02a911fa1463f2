-- ===== src/FileDescriptor/Seeking.antt =====
-- `Seek` in a file, kernel/src/fs/FileDescriptor.cpp.
use frosty_os.Prelude.{
  ◌∙◌, ℕ, ◌+◌, ◌^◌, ◌≤◌, ◌<◌, ◌≡◌, ◌⊎◌, inl, inr, refl, true, false, not, ◌&&◌, ◌||◌, arith, some,
  ltb, ◌==◌, word, add64, Bool-cases, subst,
}
use frosty_os.FileDescriptor.{
  Devices, FileDescriptor, file, FdOffsetStart, from_start, from_end, from_current, ret, minus,
  is_error, einval, lock, unlock,
}
use frosty_os.FileDescriptor.Calls.{
  Result, seek, seek_type, seek_file, refuse, move_to, negative, magnitude,
}

-- What an offset counts from.
abbrev pub base : FdOffsetStart → ℕ → ℕ → ℕ
base from_start old size = 0
base from_end old size = size
base from_current old size = old

-- Whether `n` is where an offset, read as a signed number, leads to from its base, in exact
-- arithmetic.
abbrev pub Leads : FdOffsetStart → ℕ → ℕ → ℕ → ℕ → Type 0
Leads whence old size offset n =
    ((negative offset ≡ true) × (n + magnitude offset ≡ base whence old size))
    ⊎ ((negative offset ≡ false) × (n ≡ base whence old size + offset))

-- A target is within the file.
abbrev pub Within : FdOffsetStart → ℕ → ℕ → ℕ → Type 0
Within whence old size offset = (n : ℕ) × (n ≤ size) × Leads whence old size offset n

module _ (dev : Devices) (w : dev.World) (d : FileDescriptor) (offset : ℕ) where
  -- What `Seek` promises of its result in a file of `size` bytes.
  abbrev pub Sought : FdOffsetStart → ℕ → Result dev → Type 0
  Sought whence size r =
      ((r.code ≡ ret 0)
        × (r.desc.offset ≤ size)
        × Leads whence d.offset size offset r.desc.offset
        × (r.stored ≡ some r.desc.offset))
      ⊎ ((r.code ≡ minus einval) × (r.desc ≡ unlock d) × ¬ Within whence d.offset size offset)

  refused :
      (whence : FdOffsetStart) (size : ℕ)
      → ((n : ℕ) → n ≤ size → ¬ Leads whence d.offset size offset n)
      → Sought whence size (refuse dev einval d w)
  refused whence size h = inr (refl, refl, λ x. h x.0 x.1 x.2)

  moved :
      (whence : FdOffsetStart) (size n : ℕ)
      → n ≤ size
      → Leads whence d.offset size offset n
      → Sought whence size (move_to dev w d n)
  moved whence size n le l = inl (refl, le, l, refl)

  seek_file_lem :
      (whence : FdOffsetStart) (size : ℕ)
      → offset < word
      → size < 2 ^ 63
      → d.offset ≤ size
      → Sought whence size (seek_file dev whence w d offset size)
  unfolding seek_file
  seek_file_lem from_start size ho hs hd = elim (Bool-cases (negative offset || ltb size offset)) [
    | inl e ↦ rw e (refused from_start size (λ n le l. ground (arith, e, l)))
    | inr e ↦
        rw e
          (moved from_start size offset (ground (arith, e)) (inr (ground (arith, e), omega arith)))
  ]
  seek_file_lem from_end size ho hs hd =
      elim (Bool-cases ((not (negative offset) && ltb 0 offset) || ltb size (magnitude offset))) [
        | inl e ↦ rw e (refused from_end size (λ n le l. ground (arith, e, l)))
        | inr e ↦
            rw e (moved from_end size (add64 size offset) (ground (arith, e)) (ground (arith, e)))
      ]
  seek_file_lem from_current size ho hs hd =
      elim (Bool-cases (
        (negative offset && ltb d.offset (magnitude offset))
        || (not (negative offset) && ltb 0 offset && ltb size (add64 d.offset offset)))) [
          | inl e ↦ rw e (refused from_current size (λ n le l. ground (arith, e, l)))
          | inr e ↦ rw e (
              moved from_current size (add64 d.offset offset) (ground (arith, e))
                (ground (arith, e)))
        ]

-- The mutex is given back whatever it was.
seek_file-lock :
    (dev : Devices) (v : dev.World) (d : FileDescriptor) (offset size : ℕ) (whence : FdOffsetStart)
    → seek_file dev whence v d offset size ≡ seek_file dev whence v (lock d) offset size
unfolding seek_file
seek_file-lock dev v d offset size from_start = refl
seek_file-lock dev v d offset size from_end = refl
seek_file-lock dev v d offset size from_current = refl

-- On an open file whose size is known and below 2^63, and whose offset is not past the end, `Seek`
-- with a pointer that is not null either moves the offset to the target, counted from the start, the
-- end or the current offset in exact arithmetic, stores it, and stays within the file; or the target
-- is not within the file, and it fails with EINVAL and leaves the descriptor but for its mutex.
pub seek_lem :
    (dev : Devices) (w : dev.World) (d : FileDescriptor) (offset real : ℕ) (whence : FdOffsetStart)
    → d.is_open ≡ true
    → d.fd_type ≡ file
    → (d.vnode == 0) ≡ false
    → (real == 0) ≡ false
    → offset < word
    → is_error (dev.vnode_get_attr w d.vnode).0 ≡ false
    → (dev.vnode_get_attr w d.vnode).1 < 2 ^ 63
    → d.offset ≤ (dev.vnode_get_attr w d.vnode).1
    → Sought dev w d offset whence
        (dev.vnode_get_attr w d.vnode).1
        (seek dev w d offset whence real)
unfolding seek seek_type
seek_lem dev w d offset real whence h_open ht hv hr ho he hs hd =
    let same : seek_file dev whence (dev.vnode_get_attr w d.vnode).2 d offset
          (dev.vnode_get_attr w d.vnode).1
        ≡ seek dev w d offset whence real =
      seek_file-lock dev (dev.vnode_get_attr w d.vnode).2 d offset (dev.vnode_get_attr w d.vnode).1
        whence
      ∙ simp (hr, h_open, ht, hv, he) refl in
    subst (λ r. Sought dev w d offset whence (dev.vnode_get_attr w d.vnode).1 r) same
      (seek_file_lem dev (dev.vnode_get_attr w d.vnode).2 d offset whence
        (dev.vnode_get_attr w d.vnode).1 ho hs hd)

-- ===== src/FileDescriptor/Sound.antt =====
-- An open descriptor of kernel/src/fs/FileDescriptor.cpp has what its calls dereference.
use frosty_os.Prelude.{
  ℕ, ◌≡◌, refl, Bool, true, false, not, ◌&&◌, ◌||◌, arith, Option, none, some, ◌==◌, Bool-cases,
  inl, inr,
}
use frosty_os.FileDescriptor.{
  Devices, FileDescriptor, FdType, file, terminal, directory, invalid, FdOffsetStart, from_start,
  from_end, from_current, open_fd, open_type, close, fork_fd, lock,
}
use frosty_os.FileDescriptor.Calls.{
  Result, read, read_type, is_directory, write, write_type, write_file, seek, seek_type, seek_file,
  get_dents,
}

-- A file or a directory has a vnode, and the type is valid.
abbrev pub usable : FdType → ℕ → Bool
usable file vnode = not (vnode == 0)
usable directory vnode = not (vnode == 0)
usable terminal vnode = true
usable invalid vnode = false

-- If the descriptor is open, it has a process and is usable.
abbrev pub is_sound : FileDescriptor → Bool
is_sound d = not d.is_open || (not (d.proc == 0) && usable d.fd_type d.vnode)

-- A result that is no use of a null pointer, and whose descriptor is sound and unlocked.
abbrev pub kept : {dev : Devices} → Option (Result dev) → Bool
kept none = false
kept (some r) = is_sound r.desc && not r.desc.mutex_locked

directory-vnode :
    (t : FdType) (vnode : ℕ) → is_directory t ≡ true → usable t vnode ≡ true → (vnode == 0) ≡ false
directory-vnode file vnode e h = ground (arith, e)
directory-vnode terminal vnode e h = ground (arith, e)
directory-vnode directory vnode e h = ground (arith, h)
directory-vnode invalid vnode e h = ground (arith, e)

open_type-kept :
    (t : FdType) (d : FileDescriptor) (flags : ℕ)
    → is_sound d ≡ true
    → (d.proc == 0) ≡ false
    → d.fd_type ≡ t
    → is_sound (open_type t d flags).1 && not (open_type t d flags).1.mutex_locked ≡ true
unfolding open_type
open_type-kept file d flags h e et = rw et (ground (arith, h, e))
open_type-kept terminal d flags h e et = rw et (ground (arith, h, e))
open_type-kept directory d flags h e et = rw et (ground (arith, h, e))
open_type-kept invalid d flags h e et = rw et (ground (arith, h, e))

open_fd-kept :
    (d : FileDescriptor) (flags : ℕ)
    → is_sound d ≡ true
    → is_sound (open_fd d flags).1 && not (open_fd d flags).1.mutex_locked ≡ true
unfolding open_fd
open_fd-kept d flags h = elim (Bool-cases (d.proc == 0)) [
  | inl e ↦ ground (arith, h, e)
  | inr e ↦ ground (arith, e, open_type-kept d.fd_type d flags h e refl)
]

-- `Open`, `Close` and `Fork` to a process that is no null pointer make sound descriptors of sound
-- ones, and give the mutex back.
pub lifecycle_lem :
    (d other : FileDescriptor) (flags new_proc : ℕ)
    → is_sound d ≡ true
    → is_sound other ≡ true
    → (new_proc == 0) ≡ false
    → (is_sound (open_fd d flags).1 && not (open_fd d flags).1.mutex_locked ≡ true)
      × (is_sound (close d) && not (close d).mutex_locked ≡ true)
      × (is_sound (fork_fd d other new_proc).0 && not (fork_fd d other new_proc).0.mutex_locked
          ≡ true)
unfolding open_fd open_type close fork_fd
lifecycle_lem d other flags new_proc hd ho hp =
    (open_fd-kept d flags hd, ground arith, ground (arith, ho, hp))

module _ (dev : Devices) where
  module _ (w : dev.World) (d : FileDescriptor) (h : is_sound d ≡ true) where
    read_type-kept :
        (t : FdType) (buf count : ℕ)
        → (d.proc == 0) ≡ false
        → kept (read_type dev t w d buf count) ≡ true
    unfolding read_type
    read_type-kept file buf count hp = ground (arith, h, hp)
    read_type-kept terminal buf count hp = ground (arith, h, hp)
    read_type-kept directory buf count hp = ground (arith, h, hp)
    read_type-kept invalid buf count hp = ground (arith, h, hp)

    write_type-kept :
        (t : FdType) (buf count : ℕ)
        → (d.proc == 0) ≡ false
        → kept (write_type dev t w d buf count) ≡ true
    unfolding write_type write_file
    write_type-kept file buf count hp = ground (arith, h, hp)
    write_type-kept terminal buf count hp = ground (arith, h, hp)
    write_type-kept directory buf count hp = ground (arith, h, hp)
    write_type-kept invalid buf count hp = ground (arith, h, hp)

    seek_file-kept :
        (v : dev.World) (whence : FdOffsetStart) (offset size : ℕ)
        → kept (some (seek_file dev whence v d offset size)) ≡ true
    unfolding seek_file
    seek_file-kept v from_start offset size = ground (arith, h)
    seek_file-kept v from_end offset size = ground (arith, h)
    seek_file-kept v from_current offset size = ground (arith, h)

    seek_type-kept :
        (t : FdType) (offset : ℕ) (whence : FdOffsetStart)
        → kept (some (seek_type dev t w d offset whence)) ≡ true
    unfolding seek_type
    seek_type-kept file offset whence = ground (
      arith,
      h,
      seek_file-kept (dev.vnode_get_attr w d.vnode).2 whence offset
          (dev.vnode_get_attr w d.vnode).1,
    )
    seek_type-kept terminal offset whence = ground (arith, h)
    seek_type-kept directory offset whence = ground (arith, h)
    seek_type-kept invalid offset whence = ground (arith, h)

    get_dents-kept :
        (buf count real : ℕ)
        → d.mutex_locked ≡ false
        → kept (get_dents dev w d buf count real) ≡ true
    unfolding get_dents
    get_dents-kept buf count real hl = ground (arith, h, hl, directory-vnode d.fd_type d.vnode)

  -- A sound descriptor that is not locked meets no null pointer in `Read`, `Write`, `GetDents` and
  -- `Seek`, and stays sound and unlocked.
  pub calls_lem :
      (w : dev.World) (d : FileDescriptor) (buf count real offset : ℕ) (whence : FdOffsetStart)
      → is_sound d ≡ true
      → d.mutex_locked ≡ false
      → (kept (read dev w d buf count real) ≡ true)
        × (kept (write dev w d buf count real) ≡ true)
        × (kept (get_dents dev w d buf count real) ≡ true)
        × (kept (some (seek dev w d offset whence real)) ≡ true)
  unfolding read write seek
  calls_lem w d buf count real offset whence h hl = (
    ground (arith, h, hl, read_type-kept w (lock d) h d.fd_type buf count),
    ground (arith, h, hl, write_type-kept w (lock d) h d.fd_type buf count),
    get_dents-kept w d h buf count real hl,
    ground (arith, h, hl, seek_type-kept w (lock d) h d.fd_type offset whence),
  )

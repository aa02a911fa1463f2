-- ===== src/FileDescriptor/Calls.antt =====
-- `Read`, `Write`, `Seek` and `GetDents` of kernel/src/fs/FileDescriptor.cpp. What they find in
-- the vnode or terminal is a field of `Devices`.
use frosty_os.Prelude.{
  ℕ, ◌^◌, Bool, true, false, not, ◌&&◌, ◌||◌, Option, none, some, ltb, leb, ◌==◌, if◌then◌else◌,
  add64, sub64,
}
use frosty_os.FileDescriptor.{
  Devices, FileDescriptor, FdType, file, terminal, directory, invalid, FdOffsetStart, from_start,
  from_end, from_current, Code, ret, minus, is_error, lock, unlock, ebadf, enotdir, einval, enosys,
  invalid_stream,
}

abbrev pub is_directory : FdType → Bool
is_directory directory = true
is_directory file = false
is_directory terminal = false
is_directory invalid = false

-- `offset < 0` and `(uint64_t)(-offset)`
abbrev pub negative : ℕ → Bool
negative offset = leb (2 ^ 63) offset

abbrev pub magnitude : ℕ → ℕ
magnitude offset = sub64 0 offset

module _ (dev : Devices) where
  open dev use {World}

  -- What a call leaves: the code, the descriptor, the number stored through the last pointer, if
  -- any is, and the world.
  pub record Result : Type 0 where
    pub code : Code
    pub desc : FileDescriptor
    pub stored : Option ℕ
    pub world : World

  abbrev pub refuse : ℕ → FileDescriptor → World → Result
  refuse e d w = record { code = minus e; desc = unlock d; stored = none; world = w }

  -- The first tests of the calls, before the mutex is taken
  abbrev pub bad_arguments : FileDescriptor → World → Result
  bad_arguments d w = record { code = minus einval; desc = d; stored = none; world = w }

  -- The end of `Read` of a file
  abbrev pub finish_read : FileDescriptor → Code × ℕ × World → Result
  finish_read d r = record {
    code = r.0;
    desc = record d { offset = add64 d.offset r.1; mutex_locked = false };
    stored = some r.1;
    world = r.2;
  }

  -- A call of a terminal always succeeds.
  abbrev pub finish_tty : FileDescriptor → ℕ → World → Result
  finish_tty d count w = record { code = ret 0; desc = unlock d; stored = some count; world = w }

  -- The switch of `Read`; none is the use of a null `m_proc`.
  unfoldable pub read_type : FdType → World → FileDescriptor → ℕ → ℕ → Option Result
  read_type file w d buf count =
      if d.vnode == 0
      then some (refuse ebadf d w)
      else (if d.proc == 0
          then none
          else some
              (finish_read d (dev.vnode_read w d.vnode buf count d.offset (dev.get_cred d.proc))))
  read_type terminal w d buf count =
      if d.tty == 0 || d.tty_stream == invalid_stream
      then some (refuse ebadf d w)
      else some (finish_tty d count (dev.tty_read w d.tty buf count d.tty_stream))
  read_type directory w d buf count = some (refuse ebadf d w)
  read_type invalid w d buf count = some (refuse enosys d w)

  -- `Read`
  unfoldable pub read : World → FileDescriptor → ℕ → ℕ → ℕ → Option Result
  read w d buf count real_count =
      if buf == 0 || count == 0 || real_count == 0
      then some (bad_arguments d w)
      else (if d.is_open
          then read_type d.fd_type w (lock d) buf count
          else some (refuse ebadf (lock d) w))

  -- The end of `Write` to a file: in append mode the offset stays.
  abbrev pub finish_write : FileDescriptor → Code × ℕ × World → Result
  finish_write d r = record {
    code = r.0;
    desc = record d {
      offset = if d.append then d.offset else add64 d.offset r.1;
      mutex_locked = false;
    };
    stored = some r.1;
    world = r.2;
  }

  abbrev pub write_at : World → FileDescriptor → ℕ → ℕ → ℕ → Option Result
  write_at w d buf count offset =
      if d.proc == 0
      then none
      else some (finish_write d (dev.vnode_write w d.vnode buf count offset (dev.get_cred d.proc)))

  -- `Write` to a file, in append mode at the size that the attributes tell
  unfoldable pub write_file : World → FileDescriptor → ℕ → ℕ → Option Result
  write_file w d buf count =
      let attr = dev.vnode_get_attr w d.vnode in
      if d.append
      then (if is_error attr.0
          then some (record { code = attr.0; desc = unlock d; stored = none; world = attr.2 })
          else write_at attr.2 d buf count attr.1)
      else write_at w d buf count d.offset

  -- The switch of `Write`
  unfoldable pub write_type : FdType → World → FileDescriptor → ℕ → ℕ → Option Result
  write_type file w d buf count =
      if d.vnode == 0 then some (refuse ebadf d w) else write_file w d buf count
  write_type terminal w d buf count =
      if d.tty == 0 || d.tty_stream == invalid_stream
      then some (refuse ebadf d w)
      else some (finish_tty d count (dev.tty_write w d.tty buf count d.tty_stream))
  write_type directory w d buf count = some (refuse ebadf d w)
  write_type invalid w d buf count = some (refuse enosys d w)

  -- `Write`
  unfoldable pub write : World → FileDescriptor → ℕ → ℕ → ℕ → Option Result
  write w d buf count real_count =
      if buf == 0 || count == 0 || real_count == 0
      then some (bad_arguments d w)
      else (if d.is_open
          then write_type d.fd_type w (lock d) buf count
          else some (refuse ebadf (lock d) w))

  abbrev pub move_to : World → FileDescriptor → ℕ → Result
  move_to w d n = record {
    code = ret 0;
    desc = record d { offset = n; mutex_locked = false };
    stored = some n;
    world = w;
  }

  -- The inner switch of `Seek`, in a file of `size` bytes
  unfoldable pub seek_file : FdOffsetStart → World → FileDescriptor → ℕ → ℕ → Result
  seek_file from_start w d offset size =
      if negative offset || ltb size offset then refuse einval d w else move_to w d offset
  seek_file from_end w d offset size =
      if (not (negative offset) && ltb 0 offset) || ltb size (magnitude offset)
      then refuse einval d w
      else move_to w d (add64 size offset)
  seek_file from_current w d offset size =
      if (negative offset && ltb d.offset (magnitude offset))
        || (not (negative offset) && ltb 0 offset && ltb size (add64 d.offset offset))
      then refuse einval d w
      else move_to w d (add64 d.offset offset)

  -- The switch of `Seek`
  unfoldable pub seek_type : FdType → World → FileDescriptor → ℕ → FdOffsetStart → Result
  seek_type file w d offset whence =
      let attr = dev.vnode_get_attr w d.vnode in
      if d.vnode == 0
      then refuse ebadf d w
      else (if is_error attr.0
          then record { code = attr.0; desc = unlock d; stored = none; world = attr.2 }
          else seek_file whence attr.2 d offset attr.1)
  seek_type terminal w d offset whence = record {
    code = ret 0;
    desc = unlock d;
    stored = none;
    world = w;
  }
  seek_type directory w d offset whence = refuse ebadf d w
  seek_type invalid w d offset whence = refuse enosys d w

  -- `Seek`
  unfoldable pub seek : World → FileDescriptor → ℕ → FdOffsetStart → ℕ → Result
  seek w d offset whence real_offset =
      if real_offset == 0
      then bad_arguments d w
      else (if d.is_open
          then seek_type d.fd_type w (lock d) offset whence
          else refuse ebadf (lock d) w)

  -- `GetDents`; none is the use of a null vnode.
  unfoldable pub get_dents : World → FileDescriptor → ℕ → ℕ → ℕ → Option Result
  get_dents w d buf count real_count =
      let r = dev.vnode_get_dents w d.vnode buf count d.offset in
      if buf == 0 || count == 0 || real_count == 0
      then some (bad_arguments d w)
      else (if not d.is_open
          then some (refuse ebadf (lock d) w)
          else (if not (is_directory d.fd_type)
              then some (refuse enotdir (lock d) w)
              else (if d.vnode == 0
                  then none
                  else some (record {
                    code = r.0;
                    desc = record d { offset = add64 d.offset r.1; mutex_locked = false };
                    stored = if is_error r.0 then none else some r.1;
                    world = r.2;
                  }))))

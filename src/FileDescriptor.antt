-- ===== src/FileDescriptor.antt =====
-- kernel/src/fs/FileDescriptor.cpp and FileDescriptor.hpp: an open file, terminal or directory of a
-- process. Pointers are addresses, and a null pointer is 0. The vnode and the terminal behind a
-- descriptor are reached through `Devices`: a vnode is an abstract class of kernel/src/fs/VFS.hpp,
-- and its lock is held around each call. An `int64_t` is its 64-bit pattern.
pub mod Calls
pub mod Sound
pub mod Seeking
pub mod Closed
mod Tests
use Prim.Native.Nat.{bit_and}
use frosty_os.Prelude.{
  ℕ, ◌^◌, ◌≡◌, Bool, true, false, not, ◌&&◌, ◌||◌, Option, none, some, ltb, leb, ◌==◌,
  if◌then◌else◌, add64, sub64,
}

abbrev pub ebadf : ℕ
ebadf = 9

abbrev pub enotdir : ℕ
enotdir = 20

abbrev pub einval : ℕ
einval = 22

abbrev pub enosys : ℕ
enosys = 38

-- O_APPEND is 02000, octal.
abbrev pub o_append : ℕ
o_append = 1024

-- An `int` that a call returns: a number, or a number negated.
pub data Code : Type 0 where
  ret : ℕ → Code
  minus : ℕ → Code

-- `rc < 0`
abbrev pub is_error : Code → Bool
is_error (ret n) = false
is_error (minus n) = not (n == 0)

pub data FdType : Type 0 where
  file : FdType
  terminal : FdType
  directory : FdType
  invalid : FdType

pub data FdOffsetStart : Type 0 where
  from_start : FdOffsetStart
  from_end : FdOffsetStart
  from_current : FdOffsetStart

-- The number of TTYStream::INVALID.
abbrev pub invalid_stream : ℕ
invalid_stream = 4

pub record FileDescriptor : Type 0 where
  pub proc : ℕ
  pub fd_type : FdType
  pub offset : ℕ
  pub is_open : Bool
  pub append : Bool
  pub vnode : ℕ
  pub tty : ℕ
  pub tty_stream : ℕ
  pub mutex_locked : Bool

-- What a descriptor calls, over the state `World` of file systems, terminals and user memory: a
-- read or write says how many bytes it moved, GetAttr the size of the file.
pub record Devices : Type 1 where
  pub World : Type 0
  pub get_cred : ℕ → ℕ
  pub vnode_read : World → ℕ → ℕ → ℕ → ℕ → ℕ → Code × ℕ × World
  pub vnode_write : World → ℕ → ℕ → ℕ → ℕ → ℕ → Code × ℕ × World
  pub vnode_get_attr : World → ℕ → Code × ℕ × World
  pub vnode_get_dents : World → ℕ → ℕ → ℕ → ℕ → Code × ℕ × World
  pub tty_read : World → ℕ → ℕ → ℕ → ℕ → World
  pub tty_write : World → ℕ → ℕ → ℕ → ℕ → World

-- The three constructors
abbrev pub new_empty : FileDescriptor
new_empty = record {
  proc = 0;
  fd_type = invalid;
  offset = 0;
  is_open = false;
  append = false;
  vnode = 0;
  tty = 0;
  tty_stream = invalid_stream;
  mutex_locked = false;
}

abbrev pub new_file : ℕ → FdType → ℕ → FileDescriptor
new_file proc type vnode = record new_empty { proc = proc; fd_type = type; vnode = vnode }

abbrev pub new_tty : ℕ → FdType → ℕ → ℕ → FileDescriptor
new_tty proc type tty stream = record new_empty {
  proc = proc;
  fd_type = type;
  tty = tty;
  tty_stream = stream;
}

-- What `m_mutex.Lock()` and `m_mutex.Unlock()` leave
abbrev pub lock : FileDescriptor → FileDescriptor
lock d = record d { mutex_locked = true }

abbrev pub unlock : FileDescriptor → FileDescriptor
unlock d = record d { mutex_locked = false }

-- The end of `Open`
abbrev pub opened : FileDescriptor → Bool → FileDescriptor
opened d append = record d { offset = 0; is_open = true; append = append; mutex_locked = false }

-- The switch of `Open` over the type
unfoldable pub open_type : FdType → FileDescriptor → ℕ → Code × FileDescriptor
open_type file d flags =
    if d.vnode == 0
    then (minus ebadf, unlock d)
    else (ret 0, opened d (not (bit_and flags o_append == 0) || d.append))
open_type terminal d flags =
    if bit_and flags o_append == 0 then (ret 0, opened d d.append) else (minus ebadf, unlock d)
open_type directory d flags =
    if d.vnode == 0 then (minus ebadf, unlock d) else (ret 0, opened d d.append)
open_type invalid d flags = (minus ebadf, unlock d)

-- `Open`
unfoldable pub open_fd : FileDescriptor → ℕ → Code × FileDescriptor
open_fd d flags = if d.proc == 0 then (minus ebadf, unlock d) else open_type d.fd_type d flags

-- `Close`
unfoldable pub close : FileDescriptor → FileDescriptor
close d = record d { offset = 0; is_open = false; append = false; mutex_locked = false }

-- `Fork` of `other` into `d`: `d` and `other` afterwards.
unfoldable pub fork_fd : FileDescriptor → FileDescriptor → ℕ → FileDescriptor × FileDescriptor
fork_fd d other new_proc = (record other { proc = new_proc; mutex_locked = false }, unlock other)

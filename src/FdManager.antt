-- ===== src/FdManager.antt =====
-- kernel/src/fs/FDManager.cpp and FDManager.hpp: the table of open files of a process. A bitmap says
-- which numbers are taken, and a tree has the descriptor of each. A `FileDescriptor*` is its address.
-- `bitmap_locked` is whether `m_bitmapLock` is held; the lock of the tree is taken and given back
-- around each use of it. `new` gives zeroed memory (kernel/lib/src/new.cpp) or a null pointer, which
-- an argument decides.
pub mod Search
pub mod Table
mod Empty
pub mod Uses
pub mod Forked
mod Tests
use frosty_os.Prelude.{
  ℕ, zero, suc, ◌+◌, ◌*◌, ◌/◌, ◌≡◌, Bool, true, false, not, ◌&&◌, List, [], ◌∷◌, ◌++◌, Option, none,
  some, ltb, ◌==◌, if◌then◌else◌, replicate,
}
use frosty_os.Bitmap.{RawBitmap, put, get, set_buffer, set_size}
use frosty_os.Bitmap
use frosty_os.AvlTree.{RawTree}
use frosty_os.AvlTree

abbrev pub initial_fd_table_size : ℕ
initial_fd_table_size = 128

abbrev pub max_fd : ℕ
max_fd = 65536

abbrev pub enomem : ℕ
enomem = 12

abbrev pub emfile : ℕ
emfile = 24

-- An `fd_t`: a number, or a negated error number.
pub data Fd : Type 0 where
  fd : ℕ → Fd
  failed : ℕ → Fd

-- The loop of `Allocate`, with `rounds` left: the first number not taken.
unfoldable pub first_free : RawBitmap → ℕ → ℕ → Option ℕ
first_free b zero i = none
first_free b (suc rounds) i =
    let rest = first_free b rounds (i + 1) in if get b i then rest else some i

-- The bitmap with room for as many numbers again as it began with.
unfoldable pub grow : RawBitmap → RawBitmap
grow b = record {
  buffer = b.buffer ++ replicate (initial_fd_table_size / 8) 0;
  size = b.size + initial_fd_table_size / 8;
}

module _ (raw : RawTree ℕ) where
  pub record FdManager : Type 0 where
    pub current_fds : raw.Tree
    pub bitmap : RawBitmap
    pub bitmap_locked : Bool

  -- The constructor
  abbrev pub new_manager : FdManager
  new_manager = record { current_fds = raw.rb_init; bitmap = Bitmap.empty; bitmap_locked = false }

  -- `Init`
  unfoldable pub init : Bool → FdManager → Bool × FdManager
  init alloc_ok m =
      if alloc_ok
      then (
        true,
        record m {
          bitmap =
              set_size (set_buffer m.bitmap (replicate (initial_fd_table_size / 8) 0))
                (initial_fd_table_size / 8);
          bitmap_locked = false;
        },
      )
      else (false, m)

  -- A number is marked, and its descriptor is entered in the tree.
  abbrev pub enter : FdManager → RawBitmap → ℕ → ℕ → FdManager
  enter m b i desc = record {
    current_fds = AvlTree.insert raw m.current_fds i desc;
    bitmap = put b i true;
    bitmap_locked = false;
  }

  -- `Allocate`
  unfoldable pub allocate : Bool → FdManager → ℕ → Fd × FdManager
  allocate alloc_ok m desc = elim (first_free m.bitmap (m.bitmap.size * 8) 0) [
    | some i ↦ (fd i, enter m m.bitmap i desc)
    | none ↦
        if m.bitmap.size * 8 == max_fd
        then (failed emfile, record m { bitmap_locked = false })
        else (if alloc_ok
            then (fd (m.bitmap.size * 8), enter m (grow m.bitmap) (m.bitmap.size * 8) desc)
            else (failed enomem, record m { bitmap_locked = false }))
  ]

  -- `Free`: whether the number was taken, and the descriptor that it had.
  unfoldable pub free : FdManager → ℕ → Bool × Option ℕ × FdManager
  free m i = elim (AvlTree.find_node raw m.current_fds i) [
    | none ↦ (false, none, m)
    | some desc ↦ (
      true,
      some desc,
      record {
        current_fds = AvlTree.remove_node raw m.current_fds i;
        bitmap = put m.bitmap i false;
        bitmap_locked = false;
      },
    )
  ]

  -- `ReserveFD`
  unfoldable pub reserve_fd : FdManager → ℕ → ℕ → Bool × FdManager
  reserve_fd m i desc =
      if get m.bitmap i
      then (false, record m { bitmap_locked = false })
      else (true, enter m m.bitmap i desc)

  -- `Get`: the descriptor, or a null pointer.
  unfoldable pub get_fd : FdManager → ℕ → ℕ
  get_fd m i = AvlTree.find raw 0 m.current_fds i

  -- `Delete`: the table is emptied; of the descriptors in it the open ones are closed, and all that
  -- are no null pointers are deleted.
  unfoldable pub close_all : (ℕ → Bool) → List (ℕ × ℕ) → List ℕ × List ℕ
  close_all is_open [] = ([], [])
  close_all is_open ((i, desc) ∷ es) =
      let (closed, deleted) = close_all is_open es in
      if desc == 0
      then (closed, deleted)
      else (if is_open desc then (desc ∷ closed, desc ∷ deleted) else (closed, desc ∷ deleted))

  unfoldable pub delete : (ℕ → Bool) → FdManager → (List ℕ × List ℕ) × FdManager
  delete is_open m = (
    close_all is_open (raw.rb_foreach m.current_fds),
    record {
      current_fds = AvlTree.clear raw m.current_fds;
      bitmap = set_size (set_buffer m.bitmap []) 0;
      bitmap_locked = false;
    },
  )

  -- The loop of `Fork` over the entries of the other table: `copy` makes the new descriptor of one,
  -- or fails. The result is whether all succeeded, and the tree so far.
  unfoldable pub fork_entries : (ℕ → Option ℕ) → raw.Tree → List (ℕ × ℕ) → Bool × raw.Tree
  fork_entries copy t [] = (true, t)
  fork_entries copy t ((i, desc) ∷ es) = elim (copy desc) [
    | none ↦ (false, t)
    | some new ↦ fork_entries copy (AvlTree.insert raw t i new) es
  ]

  -- `Fork` of the table `other` into `m`: whether it succeeded, `m`, and `other`. If there is no
  -- memory for the bitmap, the lock of `other` is not given back. The copies that a failed run
  -- deletes are left out.
  unfoldable pub fork : Bool → (ℕ → Option ℕ) → FdManager → FdManager → Bool × FdManager × FdManager
  fork alloc_ok copy m other =
      let entries = fork_entries copy m.current_fds (raw.rb_foreach other.current_fds) in
      if alloc_ok
      then (if entries.0
          then (
            true,
            record { current_fds = entries.1; bitmap = other.bitmap; bitmap_locked = false },
            record other { bitmap_locked = false },
          )
          else (
            false,
            record {
              current_fds = AvlTree.clear raw entries.1;
              bitmap = set_size (set_buffer m.bitmap []) 0;
              bitmap_locked = false;
            },
            record other { bitmap_locked = false },
          ))
      else (false, m, record other { bitmap_locked = true })

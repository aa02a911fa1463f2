-- ===== src/FdManager/Tests.antt =====
-- A table of two descriptors, for the tests of kernel/src/fs/FDManager.cpp.
use frosty_os.Prelude.{ℕ, ◌+◌, ◌*◌, ◌≤◌, ◌<◌, ◌≡◌, refl, true, arith, Option, none, some}
use frosty_os.Bitmap.{get, put, test_bit, set_bit}
use frosty_os.AvlTree.{lookup}
use frosty_os.AvlTree.Assoc.{assoc_tree, add}
use frosty_os.FdManager.{
  fd, FdManager, init, new_manager, allocate, free, get_fd, fork, fork_entries, first_free,
}
use frosty_os.FdManager.Table.{Valid, Allocated, has, allocate_lem}
use frosty_os.FdManager.Uses.{init-Valid, allocate-free}
use frosty_os.FdManager.Forked.{copied, fork_lem}

abbrev start : FdManager assoc_tree
start = (init assoc_tree true (new_manager assoc_tree)).1

abbrev table : FdManager assoc_tree
table = (allocate assoc_tree true start 500).1

abbrev table-Valid : Valid assoc_tree table
table-Valid = (allocate_lem assoc_tree true start 500 (init-Valid assoc_tree)).0

-- The next number is 1.
second : (allocate assoc_tree true table 600).0 ≡ fd 1
unfolding allocate init first_free get put test_bit set_bit
second = refl

next : (allocate assoc_tree true start 500).0 ≡ fd 0
unfolding allocate init first_free get put test_bit set_bit
next = refl

within : 5 < table.bitmap.size * 8
unfolding allocate init first_free get put test_bit set_bit
within = omega arith

start_size : start.bitmap.size * 8 ≤ 200
unfolding init
start_size = omega arith

allocate_lem_example :
    Valid assoc_tree (allocate assoc_tree true table 600).1
    × Allocated assoc_tree true table 600
        (allocate assoc_tree true table 600).0
        (allocate assoc_tree true table 600).1
allocate_lem_example = allocate_lem assoc_tree true table 600 table-Valid

allocate-free_example :
    (get_fd assoc_tree (allocate assoc_tree true start 500).1 0 ≡ 500)
    × ((free assoc_tree (allocate assoc_tree true start 500).1 0).1 ≡ some 500)
    × ((j : ℕ)
        → assoc_tree.rb_find
            (free assoc_tree (allocate assoc_tree true start 500).1 0).2.current_fds
            j
          ≡ assoc_tree.rb_find start.current_fds j)
    × Valid assoc_tree (free assoc_tree (allocate assoc_tree true start 500).1 0).2
    × ((j : ℕ)
        → get (free assoc_tree (allocate assoc_tree true start 500).1 0).2.bitmap j
          ≡ get start.bitmap j)
allocate-free_example = allocate-free assoc_tree true start 500 0 (init-Valid assoc_tree) next

-- A copy lies 1000 further on.
abbrev copy_at : ℕ → Option ℕ
copy_at d = some (d + 1000)

abbrev made : FdManager assoc_tree
made = new_manager assoc_tree

no_entries : (k : ℕ) → assoc_tree.rb_find made.current_fds k ≡ none
unfolding lookup
no_entries k = refl

forked : (fork assoc_tree true copy_at made table).0 ≡ true
unfolding fork fork_entries allocate init first_free get put add test_bit set_bit
forked = refl

fork_lem_example :
    Valid assoc_tree (fork assoc_tree true copy_at made table).1
    × ((fork assoc_tree true copy_at made table).2 ≡ table)
    × ((k : ℕ)
        → assoc_tree.rb_find (fork assoc_tree true copy_at made table).1.current_fds k
          ≡ copied assoc_tree copy_at (assoc_tree.rb_find table.current_fds k))
    × ((k : ℕ)
        → has (assoc_tree.rb_find (fork assoc_tree true copy_at made table).1.current_fds k)
          ≡ has (assoc_tree.rb_find table.current_fds k))
fork_lem_example = fork_lem assoc_tree copy_at made table no_entries table-Valid forked

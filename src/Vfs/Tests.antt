-- ===== src/Vfs/Tests.antt =====
-- Paths of kernel/src/fs/VFS.cpp in a small tree.
use frosty_os.Prelude.{
  ◌≡◌, refl, true, false, none, some, [], ◌∷◌, ◌==◌, if◌then◌else◌, arith, not, ◌||◌,
}
use frosty_os.Vfs.{
  Files, reached, refused, enoent, lookup_path, lookup_loop, step_segment, last_segment, find_child,
  slash_index,
}
use frosty_os.Vfs.Relations.{Resolves}
use frosty_os.Vfs.Paths.{lookup_path-Resolves}

-- The root 1 has the directory 2 named "a", and that the file 3 named "b".
abbrev tree : Files
tree = record {
  root_vfs = 0;
  vfs_root = λ v. 1;
  covered = λ v. none;
  vfs_of = λ n. 0;
  mounted = λ n. none;
  parent = λ n. if n == 3 then some 2 else (if n == 2 then some 1 else none);
  is_dir = λ n. if n == 3 then false else true;
  name = λ n. if n == 3 then b'b' ∷ [] else (if n == 2 then b'a' ∷ [] else []);
  children = λ n. if n == 1 then 2 ∷ [] else (if n == 2 then 3 ∷ [] else []);
}

a_b :
    lookup_path tree 3 (b'/' ∷ b'a' ∷ b'/' ∷ b'b' ∷ []) none
    ≡ reached (record { vfs = 0; vnode = 3 })
unfolding lookup_path lookup_loop step_segment last_segment find_child slash_index
a_b = refl

-- Two slashes in a row: the length of the next segment wraps around to 2⁶⁴ - 1.
two_slashes : lookup_path tree 4 (b'/' ∷ b'a' ∷ b'/' ∷ b'/' ∷ b'b' ∷ []) none ≡ refused enoent
unfolding lookup_path lookup_loop step_segment last_segment find_child slash_index
two_slashes = refl

-- `..` as the last segment is looked up as a name.
last_dots : lookup_path tree 3 (b'/' ∷ b'a' ∷ b'/' ∷ b'.' ∷ b'.' ∷ []) none ≡ refused enoent
unfolding lookup_path lookup_loop step_segment last_segment find_child slash_index
last_dots = refl

-- The directory 2 is the mount point of a file system 1 with the root 4, which has the file 5 named
-- "x"; the root 1 has a file 6 of that name too.
abbrev with_mount : Files
with_mount = record {
  root_vfs = 0;
  vfs_root = λ v. if v == 1 then 4 else 1;
  covered = λ v. if v == 1 then some 2 else none;
  vfs_of = λ n. if (n == 4) || (n == 5) then 1 else 0;
  mounted = λ n. if n == 2 then some 1 else none;
  parent = λ n. if n == 5 then some 4 else (if (n == 2) || (n == 6) then some 1 else none);
  is_dir = λ n. not ((n == 5) || (n == 6));
  name = λ n. if n == 2 then b'm' ∷ [] else b'x' ∷ [];
  children = λ n. if n == 1 then 2 ∷ 6 ∷ [] else (if n == 4 then 5 ∷ [] else []);
}

-- `..` at the root of a mounted file system does not leave it: "/m/../x" is the x in there.
dots_at_mount :
    lookup_path with_mount 3 (b'/' ∷ b'm' ∷ b'/' ∷ b'.' ∷ b'.' ∷ b'/' ∷ b'x' ∷ []) none
    ≡ reached (record { vfs = 1; vnode = 5 })
unfolding lookup_path lookup_loop step_segment last_segment find_child slash_index
dots_at_mount = refl

lookup_path-Resolves_example :
    Resolves with_mount
      (record { vfs = 0; vnode = 1 })
      (b'm' ∷ [])
      ((b'.' ∷ b'.' ∷ []) ∷ (b'x' ∷ []) ∷ [])
      (lookup_path with_mount 3 (b'/' ∷ b'm' ∷ b'/' ∷ b'.' ∷ b'.' ∷ b'/' ∷ b'x' ∷ []) none)
lookup_path-Resolves_example =
    lookup_path-Resolves with_mount 3 (b'm' ∷ []) ((b'.' ∷ b'.' ∷ []) ∷ (b'x' ∷ []) ∷ []) none
      (omega arith, (refl, tt)) ((omega arith, (refl, (refl, tt))), ((omega arith, (refl, tt)), tt))
      (omega arith)

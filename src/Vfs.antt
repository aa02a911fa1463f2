-- ===== src/Vfs.antt =====
-- Paths in kernel/src/fs/VFS.cpp over the vnodes of kernel/src/fs/TempFS/TempFS.cpp. A vnode and a
-- file system are numbers, a path the list of its characters up to the terminating one. The root
-- file system is mounted, and each file system has a root.
mod Relations
mod Resolved
mod Paths
mod Tests
use frosty_os.Prelude.{
  ℕ, zero, suc, ◌+◌, ◌-◌, ◌%◌, ◌^◌, Bool, true, false, ◌&&◌, ◌||◌, Option, none, some, List, [],
  ◌∷◌, ◌==◌, if◌then◌else◌, length, sub64,
}

-- What the fields of the vnodes and of the file systems say.
pub record Files : Type 0 where
  pub root_vfs : ℕ
  pub vfs_root : ℕ → ℕ
  pub covered : ℕ → Option ℕ
  pub vfs_of : ℕ → ℕ
  pub mounted : ℕ → Option ℕ
  pub parent : ℕ → Option ℕ
  pub is_dir : ℕ → Bool
  pub name : ℕ → List ℕ
  pub children : ℕ → List ℕ

-- `currentVFS` and `currentVNode`.
pub record Place : Type 0 where
  pub vfs : ℕ
  pub vnode : ℕ

-- `reached` is ESUCCESS; `refused` has the number of the error; `endless` is a loop out of fuel.
pub data Lookup : Type 0 where
  reached : Place → Lookup
  refused : ℕ → Lookup
  endless : Lookup

infixl 5 ◌>>=◌
abbrev pub ◌>>=◌ : Lookup → (Place → Lookup) → Lookup
reached p >>= f = f p
refused e >>= f = refused e
endless >>= f = endless

abbrev pub enoent : ℕ
enoent = 2

abbrev pub enotdir : ℕ
enotdir = 20

abbrev pub einval : ℕ
einval = 22

-- `memcmp` of two texts of the same length.
abbrev pub is_same : List ℕ → List ℕ → Bool
is_same [] [] = true
is_same [] (y ∷ ys) = false
is_same (x ∷ xs) [] = false
is_same (x ∷ xs) (y ∷ ys) = (x == y) && is_same xs ys

-- The first `n` characters, and what is behind them.
abbrev pub take : ℕ → List ℕ → List ℕ
take zero cs = []
take (suc n) [] = []
take (suc n) (c ∷ cs) = c ∷ take n cs

abbrev pub drop : ℕ → List ℕ → List ℕ
drop zero cs = cs
drop (suc n) [] = []
drop (suc n) (c ∷ cs) = drop n cs

-- The first two characters are dots, and the first is one.
abbrev pub is_dot_dot : List ℕ → Bool
is_dot_dot [] = false
is_dot_dot (c ∷ []) = false
is_dot_dot (c ∷ d ∷ rest) = (c == b'.') && (d == b'.')

abbrev pub is_dot : List ℕ → Bool
is_dot [] = false
is_dot (c ∷ rest) = c == b'.'

module _ (f : Files) where
  -- `TempFSVNode::Lookup`: the first child with a name of `len` characters that is at `path`.
  unfoldable pub find_child : List ℕ → (path : List ℕ) → (len : ℕ) → Option ℕ
  find_child [] path len = none
  find_child (child ∷ rest) path len =
      if (length (f.name child) == len) && is_same (f.name child) (take len path)
      then some child
      else find_child rest path len

  abbrev pub lookup : ℕ → (path : List ℕ) → (len : ℕ) → Option ℕ
  lookup node path len = if len == 0 then none else find_child (f.children node) path len

  -- The root of what is mounted on a vnode stands for it.
  abbrev pub cross : Place → Place
  cross p = elim (f.mounted p.vnode) [
    | none ↦ p
    | some vfs ↦ record { vfs = vfs; vnode = f.vfs_root vfs }
  ]

  -- `..`: the parent, or what the file system covers where it is its root.
  abbrev pub go_up : Place → Lookup
  go_up p = elim (f.parent p.vnode) [
    | some up ↦ reached (record { vfs = p.vfs; vnode = up })
    | none ↦ elim (f.covered p.vfs) [
      | none ↦ refused enoent
      | some up ↦ reached (record { vfs = f.vfs_of up; vnode = up })
    ]
  ]

  -- `Lookup` in a directory; `vfs` is that of the result. The empty name is EINVAL.
  abbrev pub entered : (vfs : ℕ → ℕ) → Place → (path : List ℕ) → (len : ℕ) → Lookup
  entered vfs p path len = if len == 0 then refused einval else elim (lookup p.vnode path len) [
    | none ↦ refused enoent
    | some node ↦ reached (record { vfs = vfs node; vnode = node })
  ]

  abbrev pub in_dir : Place → Lookup → Lookup
  in_dir p go = if f.is_dir p.vnode then go else refused enotdir

  -- A segment of `len` characters that is not the last.
  unfoldable pub step_segment : Place → (path : List ℕ) → (len : ℕ) → Lookup
  step_segment p path len =
      if (len == 2) && is_dot_dot path
      then in_dir p (go_up p)
      else (if (len == 1) && is_dot path
          then reached p
          else in_dir p (entered (λ node. p.vfs) p path len))

  -- The last segment.
  unfoldable pub last_segment : Place → (path : List ℕ) → Lookup
  last_segment p path = in_dir p (entered f.vfs_of p path (length path))

-- `strchr(path, '/')` as an index.
unfoldable pub slash_index : List ℕ → Option ℕ
slash_index [] = none
slash_index (c ∷ cs) =
    if c == b'/' then some 0 else elim (slash_index cs) [ none ↦ none | some n ↦ some (suc n) ]

abbrev pub has_slash : List ℕ → Bool
has_slash [] = false
has_slash (c ∷ cs) = c == b'/'

abbrev pub skip_slash : List ℕ → List ℕ
skip_slash [] = []
skip_slash (c ∷ cs) = if c == b'/' then cs else c ∷ cs

-- The length of a segment, `next - currentPath`: a slash at the front was skipped after `next` was
-- found.
abbrev pub segment_length : (path : List ℕ) → (next : ℕ) → ℕ
segment_length path next = if has_slash path then sub64 next 1 else next

module _ (f : Files) where
  -- A round of the loop of `VFS_LookupPath` behind the slash that it skips: `at` is the path from
  -- there, `next` is where the next slash stands in `path`, and `loop` is what follows.
  abbrev pub lookup_round :
      (loop : Place → List ℕ → Lookup) → Place → (path at : List ℕ) → (next : Option ℕ) → Lookup
  lookup_round loop here path [] next = reached here
  lookup_round loop here path (c ∷ cs) none = last_segment f here (c ∷ cs)
  lookup_round loop here path (c ∷ cs) (some n) =
      step_segment f here (c ∷ cs) (segment_length path n) >>= λ q.
      loop q (skip_slash (drop n path))

  unfoldable pub lookup_loop : (fuel : ℕ) → Place → (path : List ℕ) → (next : Option ℕ) → Lookup
  lookup_loop zero p path next = endless
  lookup_loop (suc fuel) p path next =
      lookup_round (λ q rest. lookup_loop fuel q rest (slash_index rest)) (cross f p) path
        (skip_slash path) next

  -- Where the path starts: `cwd` is `none` for the null pointer.
  abbrev pub start_place : Option ℕ → (path : List ℕ) → Lookup
  start_place cwd [] = reached (record { vfs = f.root_vfs; vnode = f.vfs_root f.root_vfs })
  start_place cwd (c ∷ cs) =
      if c == b'/'
      then reached (record { vfs = f.root_vfs; vnode = f.vfs_root f.root_vfs })
      else elim cwd [
        | none ↦ refused einval
        | some node ↦ reached (cross f (record { vfs = f.vfs_of node; vnode = node }))
      ]

  abbrev pub lookup_from : (fuel : ℕ) → (path : List ℕ) → Place → Lookup
  lookup_from fuel [] p = reached p
  lookup_from fuel (c ∷ cs) p =
      lookup_loop fuel p (c ∷ cs) (slash_index (c ∷ cs)) >>= λ q. reached (cross f q)

  -- `VFS_LookupPath`
  unfoldable pub lookup_path : (fuel : ℕ) → (path : List ℕ) → (cwd : Option ℕ) → Lookup
  lookup_path fuel path cwd = start_place cwd path >>= λ p. lookup_from fuel (skip_slash path) p

-- ===== src/Vfs/Relations.antt =====
-- Where `VFS_LookupPath` of kernel/src/fs/VFS.cpp leads, as relations over the fields of the vnodes and
-- of the file systems.
use frosty_os.Prelude.{ℕ, ◌≡◌, true, false, none, some, List, [], ◌∷◌, All}
use frosty_os.Vfs.{Files, Place, Lookup, reached, refused, enoent, enotdir}

abbrev pub dot : List ℕ
dot = b'.' ∷ []

abbrev pub dot_dot : List ℕ
dot_dot = b'.' ∷ b'.' ∷ []

module _ (f : Files) where
  -- Where a place is once a mount point stands for the root of what is mounted there.
  pub data Settled (p : Place) : Place → Type 0 where
    plain : f.mounted p.vnode ≡ none → Settled p p
    mount_point :
        (vfs : ℕ)
        → f.mounted p.vnode ≡ some vfs
        → Settled p (record { vfs = vfs; vnode = f.vfs_root vfs })

  -- The first vnode of a list with a name.
  pub data First (s : List ℕ) : List ℕ → ℕ → Type 0 where
    at_front : (c : ℕ) (cs : List ℕ) → f.name c ≡ s → First s (c ∷ cs) c
    further : (c d : ℕ) (cs : List ℕ) → ¬ (f.name c ≡ s) → First s cs d → First s (c ∷ cs) d

  abbrev pub NoneNamed : List ℕ → List ℕ → Type 0
  NoneNamed s cs = All (λ c. ¬ (f.name c ≡ s)) cs

  -- A segment in front of others: `.` stays; `..` goes to the parent, and from a vnode without one to
  -- the vnode that its file system covers; a name goes to the first child of that name.
  pub data StepTo (p : Place) (s : List ℕ) : Place → Type 0 where
    stays : s ≡ dot → StepTo p s p
    to_parent :
        (up : ℕ)
        → s ≡ dot_dot
        → f.is_dir p.vnode ≡ true
        → f.parent p.vnode ≡ some up
        → StepTo p s (record { vfs = p.vfs; vnode = up })
    to_covered :
        (up : ℕ)
        → s ≡ dot_dot
        → f.is_dir p.vnode ≡ true
        → f.parent p.vnode ≡ none
        → f.covered p.vfs ≡ some up
        → StepTo p s (record { vfs = f.vfs_of up; vnode = up })
    to_child :
        (child : ℕ)
        → ¬ (s ≡ dot)
        → ¬ (s ≡ dot_dot)
        → f.is_dir p.vnode ≡ true
        → First s (f.children p.vnode) child
        → StepTo p s (record { vfs = p.vfs; vnode = child })

  pub data StepFails (p : Place) (s : List ℕ) : ℕ → Type 0 where
    no_directory : ¬ (s ≡ dot) → f.is_dir p.vnode ≡ false → StepFails p s enotdir
    above_root :
        s ≡ dot_dot
        → f.is_dir p.vnode ≡ true
        → f.parent p.vnode ≡ none
        → f.covered p.vfs ≡ none
        → StepFails p s enoent
    no_child :
        ¬ (s ≡ dot)
        → ¬ (s ≡ dot_dot)
        → f.is_dir p.vnode ≡ true
        → NoneNamed s (f.children p.vnode)
        → StepFails p s enoent

  -- The last segment is always a name.
  pub data LastTo (p : Place) (s : List ℕ) : Place → Type 0 where
    last_child :
        (child : ℕ)
        → f.is_dir p.vnode ≡ true
        → First s (f.children p.vnode) child
        → LastTo p s (record { vfs = f.vfs_of child; vnode = child })

  pub data LastFails (p : Place) (s : List ℕ) : ℕ → Type 0 where
    last_no_directory : f.is_dir p.vnode ≡ false → LastFails p s enotdir
    last_no_child :
        f.is_dir p.vnode ≡ true → NoneNamed s (f.children p.vnode) → LastFails p s enoent

  -- What becomes of the segments one after the other; before each step, and at the end, a mount point
  -- stands for the root mounted there.
  pub data Resolves : Place → List ℕ → List (List ℕ) → Lookup → Type 0 where
    arrives :
        (p q l m : Place) (s : List ℕ)
        → Settled p q
        → LastTo q s l
        → Settled l m
        → Resolves p s [] (reached m)
    ends_in_error :
        (p q : Place) (s : List ℕ) (e : ℕ)
        → Settled p q
        → LastFails q s e
        → Resolves p s [] (refused e)
    goes_on :
        (p q next : Place) (s t : List ℕ) (rest : List (List ℕ)) (r : Lookup)
        → Settled p q
        → StepTo q s next
        → Resolves next t rest r
        → Resolves p s (t ∷ rest) r
    stops :
        (p q : Place) (s t : List ℕ) (rest : List (List ℕ)) (e : ℕ)
        → Settled p q
        → StepFails q s e
        → Resolves p s (t ∷ rest) (refused e)

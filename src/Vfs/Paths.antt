-- ===== src/Vfs/Paths.antt =====
-- `VFS_LookupPath` of kernel/src/fs/VFS.cpp leads where the relations of `Relations` say.
use frosty_os.Prelude.{
  ℕ, ◌<◌, ◌≡◌, ◌⊎◌, refl, sym, ap, ◌∙◌, subst, true, false, Option, none, some, List, [], ◌∷◌,
  length, All, Bool-cases, Option-cases, inl, inr, arith, ==-refl,
}
use frosty_os.Vfs.{
  Files, Place, Lookup, reached, refused, ◌>>=◌, enoent, enotdir, is_same, cross, go_up,
  lookup_path,
}
use frosty_os.Vfs.Relations.{
  dot, dot_dot, Settled, plain, mount_point, First, at_front, further, NoneNamed, StepTo, stays,
  to_parent, to_covered, to_child, StepFails, no_directory, above_root, no_child, LastTo,
  last_child, LastFails, last_no_directory, last_no_child, Resolves, arrives, ends_in_error,
  goes_on, stops,
}
use frosty_os.Vfs.Resolved.{IsSegment, join, find_named, enter_named, go, walk, lookup_path-walk}

is_same-eq : (xs ys : List ℕ) → is_same xs ys ≡ true → xs ≡ ys
is_same-eq [] [] h = refl
is_same-eq [] (y ∷ ys) h = absurd (cc)
is_same-eq (x ∷ xs) [] h = absurd (cc)
is_same-eq (x ∷ xs) (y ∷ ys) h =
    let tails = is_same-eq xs ys (ground (arith, h)) in
    let heads : x ≡ y = ground (arith, h) in ap (λ z. z ∷ xs) heads ∙ ap (λ l. y ∷ l) tails

is_same_refl : (xs : List ℕ) → is_same xs xs ≡ true
is_same_refl [] = refl
is_same_refl (x ∷ xs) = rw (==-refl x) (is_same_refl xs)

is_same-ne : (xs ys : List ℕ) → is_same xs ys ≡ false → ¬ (xs ≡ ys)
is_same-ne xs ys h e =
    let same : is_same xs ys ≡ true = ap (is_same xs) (sym e) ∙ is_same_refl xs in absurd (cc)

dots-not-dot : (s : List ℕ) → s ≡ dot_dot → ¬ (s ≡ dot)
dots-not-dot s e e' =
    let same : is_same dot_dot dot ≡ true =
      ap (is_same dot_dot) (sym e' ∙ e) ∙ is_same_refl dot_dot in
    absurd (cc)

module _ (f : Files) where
  cross-Settled : (p : Place) → Settled f p (cross f p)
  cross-Settled p = elim (Option-cases (f.mounted p.vnode)) [
    | inl e ↦ rw (cross, e) (plain e)
    | inr (vfs, e) ↦ rw (cross, e) (mount_point vfs e)
  ]

  -- The search by name finds the first one, or none has the name.
  abbrev Searched : List ℕ → List ℕ → Type 0
  Searched cs s =
      ((c : ℕ) × (find_named f cs s ≡ some c) × First f s cs c)
      ⊎ ((find_named f cs s ≡ none) × NoneNamed f s cs)

  find_named-lem : (cs s : List ℕ) → Searched cs s
  unfolding find_named
  find_named-lem [] s = inr (refl, tt)
  find_named-lem (c ∷ cs) s = elim (Bool-cases (is_same (f.name c) s)) [
    | inl e ↦ inl (c, rw e refl, at_front c cs (is_same-eq _ _ e))
    | inr e ↦ elim (find_named-lem cs s) [
      | inl (d, found, first) ↦ inl (d, rw e found, further c d cs (is_same-ne _ _ e) first)
      | inr (missing, others) ↦ inr (rw e missing, (is_same-ne _ _ e, others))
    ]
  ]

  -- A lookup ends at a place or with an error, as two relations say.
  abbrev Either : (Place → Type 0) → (ℕ → Type 0) → Lookup → Type 0
  Either To Fails r = ((q : Place) × (r ≡ reached q) × To q) ⊎ ((e : ℕ) × (r ≡ refused e) × Fails e)

  last-Either :
      (p : Place) (s : List ℕ)
      → Either (LastTo f p s) (LastFails f p s) (enter_named f f.vfs_of p s)
  last-Either p s = elim (Bool-cases (f.is_dir p.vnode)) [
    | inl d ↦ elim (find_named-lem (f.children p.vnode) s) [
      | inl (c, found, first) ↦ inl (_, rw (d, found) refl, last_child c d first)
      | inr (missing, others) ↦ inr (enoent, rw (d, missing) refl, last_no_child d others)
    ]
    | inr d ↦ inr (enotdir, rw d refl, last_no_directory d)
  ]

  go-Either : (p : Place) (s : List ℕ) → Either (StepTo f p s) (StepFails f p s) (go f p s)
  go-Either p s = elim (Bool-cases (is_same s dot_dot)) [
    | inl e ↦
        let dots = is_same-eq s dot_dot e in
        elim (Bool-cases (f.is_dir p.vnode)) [
          | inl d ↦ elim (Option-cases (f.parent p.vnode)) [
            | inr (up, h) ↦ inl (_, rw (e, d, go_up, h) refl, to_parent up dots d h)
            | inl h ↦ elim (Option-cases (f.covered p.vfs)) [
              | inr (up, k) ↦ inl (_, rw (e, d, go_up, h, k) refl, to_covered up dots d h k)
              | inl k ↦ inr (enoent, rw (e, d, go_up, h, k) refl, above_root dots d h k)
            ]
          ]
          | inr d ↦ inr (enotdir, rw (e, d) refl, no_directory (dots-not-dot s dots) d)
        ]
    | inr e ↦ elim (Bool-cases (is_same s dot)) [
      | inl here ↦ inl (p, rw (e, here) refl, stays (is_same-eq s dot here))
      | inr away ↦ elim (Bool-cases (f.is_dir p.vnode)) [
        | inl d ↦ elim (find_named-lem (f.children p.vnode) s) [
          | inl (c, found, first) ↦ inl (
            _,
            rw (e, away, d, found) refl,
            to_child c (is_same-ne s dot away) (is_same-ne s dot_dot e) d first,
          )
          | inr (missing, others) ↦ inr (
            enoent,
            rw (e, away, d, missing) refl,
            no_child (is_same-ne s dot away) (is_same-ne s dot_dot e) d others,
          )
        ]
        | inr d ↦ inr (enotdir, rw (e, away, d) refl, no_directory (is_same-ne s dot away) d)
      ]
    ]
  ]

  abbrev settle : Lookup → Lookup
  settle r = r >>= λ p. reached (cross f p)

  walk-Resolves :
      (p : Place) (s : List ℕ) (rest : List (List ℕ))
      → Resolves f p s rest (settle (walk f p s rest))
  unfolding walk
  walk-Resolves p s [] = elim (last-Either (cross f p) s) [
    | inl (l, e, to) ↦
        subst (λ r. Resolves f p s [] (settle r)) (sym e)
          (arrives p (cross f p) l (cross f l) s (cross-Settled p) to (cross-Settled l))
    | inr (n, e, fails) ↦
        subst (λ r. Resolves f p s [] (settle r)) (sym e)
          (ends_in_error p (cross f p) s n (cross-Settled p) fails)
  ]
  walk-Resolves p s (t ∷ rest) = elim (go-Either (cross f p) s) [
    | inl (q, e, to) ↦
        subst (λ r. Resolves f p s (t ∷ rest) (settle (r >>= λ q. walk f q t rest))) (sym e)
          (goes_on p (cross f p) q s t rest _ (cross-Settled p) to (walk-Resolves q t rest))
    | inr (n, e, fails) ↦
        subst (λ r. Resolves f p s (t ∷ rest) (settle (r >>= λ q. walk f q t rest))) (sym e)
          (stops p (cross f p) s t rest n (cross-Settled p) fails)
  ]

-- `VFS_LookupPath` of an absolute path of one segment or more, with one slash in front of each and
-- fuel for each, comes to what the segments resolve to from the root. Before each step, and at the
-- end, a mount point stands for the root mounted there. In front of other segments, `.` stays and
-- `..` goes to the parent, or from a root to the vnode that its file system covers, which before the
-- next step stands for that root again; every other segment, and the last one whatever it is, goes to
-- the first child of that very name. A step fails with ENOTDIR or ENOENT, and then the call does.
pub lookup_path-Resolves :
    (f : Files) (fuel : ℕ) (s : List ℕ) (rest : List (List ℕ)) (cwd : Option ℕ)
    → IsSegment s
    → All IsSegment rest
    → length rest < fuel
    → Resolves f
        (record { vfs = f.root_vfs; vnode = f.vfs_root f.root_vfs })
        s
        rest
        (lookup_path f fuel (b'/' ∷ join s rest) cwd)
lookup_path-Resolves f fuel s rest cwd h hs enough =
    subst (Resolves f (record { vfs = f.root_vfs; vnode = f.vfs_root f.root_vfs }) s rest)
      (sym (lookup_path-walk f fuel s rest cwd h hs enough)) (walk-Resolves f _ s rest)

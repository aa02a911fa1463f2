-- ===== src/Vfs/Resolved.antt =====
-- `VFS_LookupPath` of kernel/src/fs/VFS.cpp on paths with one slash between two segments.
use frosty_os.Prelude.{
  ℕ, zero, suc, ◌<◌, ◌≡◌, refl, sym, ap, ◌∙◌, true, false, ◌&&◌, Option, none, some, List, [], ◌∷◌,
  ◌++◌, ◌==◌, if◌then◌else◌, length, All, append-nil, arith, Bool-cases, inl, inr,
}
use frosty_os.Vfs.{
  Files, Place, Lookup, reached, refused, ◌>>=◌, enoent, is_same, take, drop, find_child, cross,
  go_up, entered, in_dir, is_dot_dot, is_dot, step_segment, last_segment, slash_index, skip_slash,
  segment_length, lookup_loop, lookup_round, lookup_path,
}

-- A segment: some characters, none of them a slash.
abbrev pub IsSegment : List ℕ → Type 0
IsSegment s = (0 < length s) × All (λ c. (c == b'/') ≡ false) s

abbrev pub join : List ℕ → List (List ℕ) → List ℕ
join s [] = s
join s (t ∷ rest) = s ++ (b'/' ∷ join t rest)

module _ (f : Files) where
  -- The first child of that name.
  unfoldable pub find_named : List ℕ → List ℕ → Option ℕ
  find_named [] s = none
  find_named (child ∷ rest) s = if is_same (f.name child) s then some child else find_named rest s

  abbrev pub enter_named : (vfs : ℕ → ℕ) → Place → List ℕ → Lookup
  enter_named vfs p s = in_dir f p (elim (find_named (f.children p.vnode) s) [
    | none ↦ refused enoent
    | some node ↦ reached (record { vfs = vfs node; vnode = node })
  ])

  -- One segment, from a place that is no mount point.
  abbrev pub go : Place → List ℕ → Lookup
  go p s =
      if is_same s (b'.' ∷ b'.' ∷ [])
      then in_dir f p (go_up f p)
      else (if is_same s (b'.' ∷ []) then reached p else enter_named (λ node. p.vfs) p s)

  -- The segments one after the other, with each mount point on the way crossed; the last one is a
  -- name.
  unfoldable pub walk : Place → List ℕ → List (List ℕ) → Lookup
  walk p s [] = enter_named f.vfs_of (cross f p) s
  walk p s (t ∷ rest) = go (cross f p) s >>= λ q. walk q t rest

take-append : (s rest : List ℕ) → take (length s) (s ++ rest) ≡ s
take-append [] rest = refl
take-append (c ∷ s) rest = ap (λ l. c ∷ l) (take-append s rest)

drop-append : (s rest : List ℕ) → drop (length s) (s ++ rest) ≡ rest
drop-append [] rest = refl
drop-append (c ∷ s) rest = drop-append s rest

is_same-length : (xs ys : List ℕ) → is_same xs ys ≡ true → length xs ≡ length ys
is_same-length [] [] h = refl
is_same-length [] (y ∷ ys) h = absurd (cc)
is_same-length (x ∷ xs) [] h = absurd (cc)
is_same-length (x ∷ xs) (y ∷ ys) h = ap suc (is_same-length xs ys (ground (arith, h)))

-- The test of the lengths adds nothing.
same_length_lem : (xs ys : List ℕ) → ((length xs == length ys) && is_same xs ys) ≡ is_same xs ys
same_length_lem xs ys = elim (Bool-cases (is_same xs ys)) [
  | inl e ↦ ground (arith, e, is_same-length xs ys e)
  | inr e ↦ ground (arith, e)
]

skip_slash-none : (c : ℕ) (cs : List ℕ) → (c == b'/') ≡ false → skip_slash (c ∷ cs) ≡ c ∷ cs
skip_slash-none c cs h = rw h refl

segment_length-none :
    (c : ℕ) (cs : List ℕ) (n : ℕ) → (c == b'/') ≡ false → segment_length (c ∷ cs) n ≡ n
segment_length-none c cs n h = rw h refl

slash_index-none : (s : List ℕ) → All (λ c. (c == b'/') ≡ false) s → slash_index s ≡ none
unfolding slash_index
slash_index-none [] h = refl
slash_index-none (c ∷ s) h = rw h.0 (rw (slash_index-none s h.1) refl)

slash_index-append :
    (s rest : List ℕ)
    → All (λ c. (c == b'/') ≡ false) s
    → slash_index (s ++ (b'/' ∷ rest)) ≡ some (length s)
unfolding slash_index
slash_index-append [] rest h = refl
slash_index-append (c ∷ s) rest h = rw h.0 (rw (slash_index-append s rest h.1) refl)

dot_dot_lem :
    (s rest : List ℕ) → ((length s == 2) && is_dot_dot (s ++ rest)) ≡ is_same s (b'.' ∷ b'.' ∷ [])
dot_dot_lem [] rest = refl
dot_dot_lem (c ∷ []) rest = ground arith
dot_dot_lem (c ∷ d ∷ []) rest = ground arith
dot_dot_lem (c ∷ d ∷ e ∷ s) rest = ground arith

dot_lem : (s rest : List ℕ) → ((length s == 1) && is_dot (s ++ rest)) ≡ is_same s (b'.' ∷ [])
dot_lem [] rest = refl
dot_lem (c ∷ []) rest = ground arith
dot_lem (c ∷ d ∷ s) rest = ground arith

module _ (f : Files) where
  find_child-named :
      (children s rest : List ℕ)
      → find_child f children (s ++ rest) (length s) ≡ find_named f children s
  unfolding find_child find_named
  find_child-named [] s rest = refl
  find_child-named (child ∷ others) s rest = rw (take-append s rest) (
      rw (same_length_lem (f.name child) s) (
        ap (λ o. if is_same (f.name child) s then some child else o)
          (find_child-named others s rest)))

  entered-named :
      (vfs : ℕ → ℕ) (p : Place) (s rest : List ℕ)
      → 0 < length s
      → in_dir f p (entered f vfs p (s ++ rest) (length s)) ≡ enter_named f vfs p s
  entered-named vfs p s rest some_name =
      let real : (length s == 0) ≡ false = ground (arith, some_name) in
      rw real (rw (find_child-named (f.children p.vnode) s rest) refl)

  step_segment-go :
      (p : Place) (s rest : List ℕ)
      → 0 < length s
      → step_segment f p (s ++ rest) (length s) ≡ go f p s
  unfolding step_segment
  step_segment-go p s rest some_name =
      rw (dot_dot_lem s rest)
        (rw (dot_lem s rest) (rw (entered-named (λ node. p.vfs) p s rest some_name) refl))

  last_segment-named :
      (p : Place) (s : List ℕ) → 0 < length s → last_segment f p s ≡ enter_named f f.vfs_of p s
  unfolding last_segment
  last_segment-named p s some_name =
      let whole = append-nil s in
      ap (λ l. in_dir f p (entered f f.vfs_of p l (length s))) (sym whole)
      ∙ entered-named f.vfs_of p s [] some_name

  abbrev loop : ℕ → Place → List ℕ → Lookup
  loop fuel q rest = lookup_loop f fuel q rest (slash_index rest)

  lookup_loop-walk :
      (fuel : ℕ) (p : Place) (s : List ℕ) (rest : List (List ℕ))
      → IsSegment s
      → All IsSegment rest
      → length rest < fuel
      → lookup_loop f fuel p (join s rest) (slash_index (join s rest)) ≡ walk f p s rest
  unfolding lookup_loop walk
  lookup_loop-walk zero p s rest h hs enough = absurd (omega (arith, enough))
  lookup_loop-walk (suc fuel) p [] rest h hs enough = absurd (omega (arith, h.0))
  lookup_loop-walk (suc fuel) p (c ∷ cs) [] h hs enough =
      ap (λ next. lookup_round f (loop fuel) (cross f p) (c ∷ cs) (skip_slash (c ∷ cs)) next)
        (slash_index-none (c ∷ cs) h.1)
      ∙ ap (λ at. lookup_round f (loop fuel) (cross f p) (c ∷ cs) at none)
          (skip_slash-none c cs h.1.0)
      ∙ last_segment-named (cross f p) (c ∷ cs) h.0
  lookup_loop-walk (suc fuel) p (c ∷ cs) (t ∷ rest) h hs enough =
      let path = (c ∷ cs) ++ (b'/' ∷ join t rest) in
      let n = length (c ∷ cs) in
      ap (λ next. lookup_round f (loop fuel) (cross f p) path (skip_slash path) next)
        (slash_index-append (c ∷ cs) (join t rest) h.1)
      ∙ ap (λ at. lookup_round f (loop fuel) (cross f p) path at (some n))
          (skip_slash-none c (cs ++ (b'/' ∷ join t rest)) h.1.0)
      ∙ ap
          (λ len.
            step_segment f (cross f p) path len >>= λ q. loop fuel q (skip_slash (drop n path)))
          (segment_length-none c (cs ++ (b'/' ∷ join t rest)) n h.1.0)
      ∙ ap (λ r. r >>= λ q. loop fuel q (skip_slash (drop n path)))
          (step_segment-go (cross f p) (c ∷ cs) (b'/' ∷ join t rest) h.0)
      ∙ ap (λ l. go f (cross f p) (c ∷ cs) >>= λ q. loop fuel q (skip_slash l))
          (drop-append (c ∷ cs) (b'/' ∷ join t rest))
      ∙ (λ i. go f (cross f p) (c ∷ cs) >>= λ q.
          lookup_loop-walk fuel q t rest hs.0 hs.1 (omega (arith, enough)) i)

-- `VFS_LookupPath` of an absolute path of one segment or more, with one slash in front of each and
-- fuel for each, resolves the segments one after the other from the root: a mount point on the way
-- and at the end stands for the root mounted there, `.` and `..` go as in `step_segment` wherever they
-- are not the last segment, and every other segment enters the first child of that very name, or is
-- refused.
pub lookup_path-walk :
    (f : Files) (fuel : ℕ) (s : List ℕ) (rest : List (List ℕ)) (cwd : Option ℕ)
    → IsSegment s
    → All IsSegment rest
    → length rest < fuel
    → lookup_path f fuel (b'/' ∷ join s rest) cwd ≡ (
        walk f (record { vfs = f.root_vfs; vnode = f.vfs_root f.root_vfs }) s rest >>= λ p.
        reached (cross f p))
unfolding lookup_path
lookup_path-walk f fuel [] rest cwd h hs enough = absurd (omega (arith, h.0))
lookup_path-walk f fuel (c ∷ cs) [] cwd h hs enough =
    ap (λ r. r >>= λ p. reached (cross f p)) (lookup_loop-walk f fuel _ (c ∷ cs) [] h hs enough)
lookup_path-walk f fuel (c ∷ cs) (t ∷ rest) cwd h hs enough =
    ap (λ r. r >>= λ p. reached (cross f p))
      (lookup_loop-walk f fuel _ (c ∷ cs) (t ∷ rest) h hs enough)

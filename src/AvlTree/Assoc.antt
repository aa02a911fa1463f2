-- ===== src/AvlTree/Assoc.antt =====
-- The interface can be met: a tree as the list of its entries.
use frosty_os.Prelude.{
  ℕ, ◌≡◌, refl, Bool, true, false, List, [], ◌∷◌, Option, none, some, arith, ltb, leb, ◌==◌, ==_iff,
  ==-refl, sym, ap, subst, if◌then◌else◌, Bool-cases, inl, inr,
}
use frosty_os.AvlTree.{RawTree, RawOrder, IsLeast, IsGreatest, lookup}

-- The choice between two keys, of which a test says which comes first
abbrev first_of : (ℕ → ℕ → Bool) → ℕ → Option ℕ → ℕ
first_of before j none = j
first_of before j (some i) = if before i j then i else j

first_of-yes :
    (before : ℕ → ℕ → Bool) (i k : ℕ) → before k i ≡ true → first_of before i (some k) ≡ k
first_of-yes before i k e = rw e refl

first_of-no :
    (before : ℕ → ℕ → Bool) (i k : ℕ) → before k i ≡ false → first_of before i (some k) ≡ i
first_of-no before i k e = rw e refl

accepted-other :
    (accepts : ℕ → Bool) (i j : ℕ) → accepts i ≡ false → accepts j ≡ true → (i == j) ≡ false
accepted-other accepts i j no_i yes_j = elim (Bool-cases (i == j)) [
  | inl e ↦ cc (ap accepts ((==_iff i j).0 e), no_i, yes_j)
  | inr e ↦ e
]

module _ {V : Type 0} where
  -- A new key goes to the end, and a key that is there stays.
  unfoldable pub add : List (ℕ × V) → ℕ → V → List (ℕ × V)
  add [] k v = (k, v) ∷ []
  add ((j, w) ∷ es) k v = if j == k then (j, w) ∷ es else (j, w) ∷ add es k v

  unfoldable pub drop_key : List (ℕ × V) → ℕ → List (ℕ × V)
  drop_key [] k = []
  drop_key ((j, w) ∷ es) k = if j == k then drop_key es k else (j, w) ∷ drop_key es k

  unfoldable pub update : List (ℕ × V) → ℕ → V → List (ℕ × V)
  update [] k v = []
  update ((j, w) ∷ es) k v = if j == k then (j, v) ∷ update es k v else (j, w) ∷ update es k v

  pub lookup-nil : (k : ℕ) → lookup {V = V} k [] ≡ none
  unfolding lookup
  lookup-nil k = refl

  pub lookup-add :
      (es : List (ℕ × V)) (k : ℕ) (v : V) (j : ℕ)
      → lookup j (add es k v)
        ≡ (if k == j then (elim (lookup k es) [ none ↦ some v | some w ↦ some w ]) else lookup j es)
  unfolding lookup add
  lookup-add [] k v j = ground arith
  lookup-add ((i, w) ∷ es) k v j = ground (arith, lookup-add es k v j)

  pub lookup-drop_key :
      (es : List (ℕ × V)) (k j : ℕ)
      → lookup j (drop_key es k) ≡ (if k == j then none else lookup j es)
  unfolding lookup drop_key
  lookup-drop_key [] k j = ground arith
  lookup-drop_key ((i, w) ∷ es) k j = ground (arith, lookup-drop_key es k j)

  pub lookup-update :
      (es : List (ℕ × V)) (k : ℕ) (v : V) (j : ℕ)
      → lookup j (update es k v)
        ≡ (if k == j then (elim (lookup k es) [ none ↦ none | some w ↦ some v ]) else lookup j es)
  unfolding lookup update
  lookup-update [] k v j = ground arith
  lookup-update ((i, w) ∷ es) k v j = ground (arith, lookup-update es k v j)

  -- The first key, in the order that a test gives, of those that another accepts
  unfoldable pub best : (ℕ → ℕ → Bool) → (ℕ → Bool) → List (ℕ × V) → Option ℕ
  best before accepts [] = none
  best before accepts ((j, v) ∷ es) =
      if accepts j
      then some (first_of before j (best before accepts es))
      else best before accepts es

  module _ (accepts : ℕ → Bool) (i : ℕ) (w : V) (es : List (ℕ × V)) where
    skip-IsLeast :
        (o : Option ℕ)
        → accepts i ≡ false
        → IsLeast (λ j. lookup j es) accepts o
        → IsLeast (λ j. lookup j ((i, w) ∷ es)) accepts o
    unfolding lookup
    skip-IsLeast none no_i h = λ j p. rw (accepted-other accepts i j no_i p) (h j p)
    skip-IsLeast (some k) no_i h = (
      h.0,
      rw (accepted-other accepts i k no_i h.0) h.1,
      λ j p l. rw (accepted-other accepts i j no_i p) (h.2 j p l),
    )

    take-IsLeast :
        (o : Option ℕ)
        → accepts i ≡ true
        → IsLeast (λ j. lookup j es) accepts o
        → IsLeast (λ j. lookup j ((i, w) ∷ es)) accepts (some (first_of ltb i o))
    unfolding lookup
    take-IsLeast none yes_i h = (yes_i, rw (==-refl i) refl, λ j p l. ground (arith, h j p))
    take-IsLeast (some k) yes_i h =
        let first = IsLeast (λ j. lookup j ((i, w) ∷ es)) accepts in
        elim (Bool-cases (ltb k i)) [
          | inl e ↦
              subst (λ m. first (some m)) (sym (first_of-yes ltb i k e))
                (h.0, ground (arith, h.1), λ j p l. ground (arith, h.2 j p))
          | inr e ↦
              subst (λ m. first (some m)) (sym (first_of-no ltb i k e))
                (yes_i, rw (==-refl i) refl, λ j p l. ground (arith, h.2 j p))
        ]

    skip-IsGreatest :
        (o : Option ℕ)
        → accepts i ≡ false
        → IsGreatest (λ j. lookup j es) accepts o
        → IsGreatest (λ j. lookup j ((i, w) ∷ es)) accepts o
    unfolding lookup
    skip-IsGreatest none no_i h = λ j p. rw (accepted-other accepts i j no_i p) (h j p)
    skip-IsGreatest (some k) no_i h = (
      h.0,
      rw (accepted-other accepts i k no_i h.0) h.1,
      λ j p l. rw (accepted-other accepts i j no_i p) (h.2 j p l),
    )

    take-IsGreatest :
        (o : Option ℕ)
        → accepts i ≡ true
        → IsGreatest (λ j. lookup j es) accepts o
        → IsGreatest (λ j. lookup j ((i, w) ∷ es)) accepts (some (first_of (λ a b. ltb b a) i o))
    unfolding lookup
    take-IsGreatest none yes_i h = (yes_i, rw (==-refl i) refl, λ j p l. ground (arith, h j p))
    take-IsGreatest (some k) yes_i h =
        let first = IsGreatest (λ j. lookup j ((i, w) ∷ es)) accepts in
        elim (Bool-cases (ltb i k)) [
          | inl e ↦
              subst (λ m. first (some m)) (sym (first_of-yes (λ a b. ltb b a) i k e))
                (h.0, ground (arith, h.1), λ j p l. ground (arith, h.2 j p))
          | inr e ↦
              subst (λ m. first (some m)) (sym (first_of-no (λ a b. ltb b a) i k e))
                (yes_i, rw (==-refl i) refl, λ j p l. ground (arith, h.2 j p))
        ]

  abbrev pub least : (ℕ → Bool) → List (ℕ × V) → Option ℕ
  least = best ltb

  abbrev pub greatest : (ℕ → Bool) → List (ℕ × V) → Option ℕ
  greatest = best (λ a b. ltb b a)

  pub least-IsLeast :
      (accepts : ℕ → Bool) (es : List (ℕ × V))
      → IsLeast (λ j. lookup j es) accepts (least accepts es)
  unfolding best lookup
  least-IsLeast accepts [] = λ j p. refl
  least-IsLeast accepts ((i, w) ∷ es) =
      let rest = least-IsLeast accepts es in
      elim (Bool-cases (accepts i)) [
        | inl e ↦ rw (e, IsLeast) (take-IsLeast accepts i w es (least accepts es) e rest)
        | inr e ↦ rw (e, IsLeast) (skip-IsLeast accepts i w es (least accepts es) e rest)
      ]

  pub greatest-IsGreatest :
      (accepts : ℕ → Bool) (es : List (ℕ × V))
      → IsGreatest (λ j. lookup j es) accepts (greatest accepts es)
  unfolding best lookup
  greatest-IsGreatest accepts [] = λ j p. refl
  greatest-IsGreatest accepts ((i, w) ∷ es) =
      let rest = greatest-IsGreatest accepts es in
      elim (Bool-cases (accepts i)) [
        | inl e ↦ rw (e, IsGreatest) (take-IsGreatest accepts i w es (greatest accepts es) e rest)
        | inr e ↦ rw (e, IsGreatest) (skip-IsGreatest accepts i w es (greatest accepts es) e rest)
      ]

-- The list as a tree, and its order
abbrev pub list_tree : (V : Type 0) → RawTree V
list_tree V = record {
  Tree = List (ℕ × V);
  rb_init = [];
  rb_insert = add;
  rb_remove = drop_key;
  rb_find = λ t k. lookup k t;
  set_value = update;
  rb_foreach = λ t. t;
  find-init = lookup-nil;
  find-insert = lookup-add;
  find-remove = lookup-drop_key;
  find-set_value = lookup-update;
  lookup-foreach = λ t k. refl;
}

abbrev pub list_order : (V : Type 0) → RawOrder (list_tree V)
list_order V = record {
  rb_nfind = λ t k. least (λ j. leb k j) t;
  rb_max = greatest (λ j. true);
  rb_prev = λ t k. greatest (λ j. ltb j k) t;
  rb_next = λ t k. least (λ j. ltb k j) t;
  nfind-IsLeast = λ t k. least-IsLeast (λ j. leb k j) t;
  max-IsGreatest = greatest-IsGreatest (λ j. true);
  prev-IsGreatest = λ t k. greatest-IsGreatest (λ j. ltb j k) t;
  next-IsLeast = λ t k. least-IsLeast (λ j. ltb k j) t;
}

abbrev pub assoc_tree : RawTree ℕ
assoc_tree = list_tree ℕ

-- ===== src/LinkedList/Delete.antt =====
-- `deleteNode` of kernel/lib/src/DataStructures/LinkedList.cpp against a list of words.
use frosty_os.Prelude.{
  ℕ, ◌≡◌, refl, sym, ap, ◌∙◌, subst, true, false, List, [], ◌∷◌, ◌++◌, map, length, done, ◌==◌,
  arith, Bool-cases, inl, inr, All, ==_iff,
}
use frosty_os.ThreadList.{Links}
use frosty_os.ThreadList as Threads
use frosty_os.ThreadList.Chain.{Chain, Chain-agree, Apart, Apart-head, head_or, last_or, ==-flip}
use frosty_os.ThreadList.Remove.{Chain-unlink, unlinked, previous_at, Apart-drop}
use frosty_os.VmRegions.Pool as Pool
use frosty_os.LinkedList.{Heap, set_previous, delete_first, delete_later, delete_node, seek}
use frosty_os.LinkedList.Search.{links, IsList, contents, first_with, seek-first_with}

-- No node has the word.
abbrev pub Lacks : Heap → ℕ → List ℕ → Type 0
Lacks h key xs = All (λ x. ((h x).value == key) ≡ false) xs

-- The links after `delete_later` are those of a list of threads after a removal, but for the node.
delete_later-unlinked :
    (h : Heap) (t a : ℕ)
    → (a == t) ≡ false
    → ((h t).next == t) ≡ false
    → links (delete_later h t) a ≡ unlinked (links h) t (h t).previous (h t).next a
unfolding delete_later
delete_later-unlinked h t a away loop = ground (arith, away, loop)

delete_later-value : (h : Heap) (t a : ℕ) → (delete_later h t a).value ≡ (h a).value
unfolding delete_later
delete_later-value h t a = ground arith

-- The store of `deleteNode` to the third node writes what is there already.
cleared-next : (h : Heap) (y a : ℕ) → (set_previous h y 0 a).next ≡ (h a).next
cleared-next h y a = ground arith

stored-again :
    (h : Heap) (y z a : ℕ)
    → (h z).previous ≡ y
    → (y == z) ≡ false
    → links (set_previous (set_previous h y 0) z y) a ≡ links (set_previous h y 0) a
stored-again h y z a back apart = elim (Bool-cases (a == z)) [
  | inl e ↦
      let same : a ≡ z = (==_iff a z).0 e in
      let not_y : (a == y) ≡ false = ground (arith, same, apart) in
      rw (e, not_y)
        (λ i. record {
          previous = (sym back ∙ ap (λ x. (h x).previous) (sym same)) i;
          next = (h a).next;
          in_list = true;
        })
  | inr e ↦ rw e refl
]

cleared-links :
    (h : Heap) (y a : ℕ) → links (set_previous h y 0) a ≡ Threads.set_previous (links h) y 0 a
cleared-links h y a = elim (Bool-cases (a == y)) [ inl e ↦ rw e refl | inr e ↦ rw e refl ]

delete_first-value : (h : Heap) (t a : ℕ) → ((delete_first h t).0 a).value ≡ (h a).value
unfolding delete_first
delete_first-value h t a = ground arith

delete_first-unlinked :
    (h : Heap) (t y a : ℕ)
    → (h t).next ≡ y
    → (a == t) ≡ false
    → (((h y).next == 0) ≡ false → (h (h y).next).previous ≡ y)
    → (y == (h y).next) ≡ false
    → links (delete_first h t).0 a ≡ unlinked (links h) t 0 y a
unfolding delete_first
delete_first-unlinked h t y a at away back apart = elim (Bool-cases (y == 0)) [
  | inl e ↦ rw (at, e, away) refl
  | inr e ↦ elim (Bool-cases ((h y).next == 0)) [
    | inl f ↦ rw (at, e, away, cleared-next h y y, f) (cleared-links h y a)
    | inr f ↦
        rw (at, e, away, cleared-next h y y, f)
          (stored-again h y (h y).next a (back f) apart ∙ cleared-links h y a)
  ]
]

-- What the chain says of a node in the middle
null-Apart : (m : ℕ → Links) (p : ℕ) (xs : List ℕ) → Chain m p xs → Apart 0 xs
null-Apart m p [] c = tt
null-Apart m p (x ∷ xs) c = (==-flip x 0 c.2, null-Apart m x xs c.4)

flip-All : (t : ℕ) (xs : List ℕ) → Apart t xs → All (λ z. (z == t) ≡ false) xs
flip-All t [] a = tt
flip-All t (x ∷ xs) a = (==-flip t x a.0, flip-All t xs a.1)

middle :
    (m : ℕ → Links) (p t : ℕ) (before after : List ℕ)
    → Chain m p (before ++ t ∷ after)
    → All (λ z. (z == t) ≡ false) (before ++ after)
      × ((t == 0) ≡ false)
      × ((head_or 0 after == t) ≡ false)
middle m p t [] after c =
    (flip-All t after c.3, c.2, ==-flip t (head_or 0 after) (Apart-head t 0 after c.2 c.3))
middle m p t (x ∷ xs) after c =
    let rest = middle m x t xs after c.4 in
    (((Apart-drop x t xs after c.3).0, rest.0), rest.1, rest.2)

-- Words that stay make the same contents.
contents-same :
    (g h : Heap) (xs : List ℕ)
    → ((a : ℕ) → (g a).value ≡ (h a).value)
    → contents g xs ≡ contents h xs
contents-same g h xs v = λ i. map (λ x. v x i) xs

contents-delete_node :
    (h : Heap) (key t : ℕ) (before after : List ℕ)
    → Lacks h key before
    → ((h t).value == key) ≡ true
    → Pool.delete_node (contents h (before ++ t ∷ after)) key ≡ contents h (before ++ after)
unfolding Pool.delete_node
contents-delete_node h key t [] after lacks at = rw at refl
contents-delete_node h key t (x ∷ xs) after lacks at =
    rw (lacks.0) (ap (λ l. (h x).value ∷ l) (contents-delete_node h key t xs after lacks.1 at))

first_with-middle :
    (h : Heap) (key t : ℕ) (before after : List ℕ)
    → Lacks h key before
    → ((h t).value == key) ≡ true
    → first_with h key (before ++ t ∷ after) ≡ t
unfolding first_with
first_with-middle h key t [] after lacks at = rw at refl
first_with-middle h key t (x ∷ xs) after lacks at =
    rw (lacks.0) (first_with-middle h key t xs after lacks.1 at)

agree-All :
    (f g : ℕ → Links) (t : ℕ) (xs : List ℕ)
    → ((a : ℕ) → (a == t) ≡ false → f a ≡ g a)
    → All (λ z. (z == t) ≡ false) xs
    → All (λ z. f z ≡ g z) xs
agree-All f g t [] h a = tt
agree-All f g t (x ∷ xs) h a = (h x a.0, agree-All f g t xs h a.1)

delete_later-IsList :
    (h : Heap) (t : ℕ) (before after : List ℕ)
    → IsList h (before ++ t ∷ after)
    → IsList (delete_later h t) (before ++ after)
delete_later-IsList h t before after c =
    let at = previous_at (links h) 0 t before after c in
    let mid = middle (links h) 0 t before after c in
    let loop : ((h t).next == t) ≡ false = rw (at.1) mid.2 in
    let cut = unlinked (links h) t (h t).previous (h t).next in
    let whole : Chain cut 0 (before ++ after) =
      subst (λ p. Chain (unlinked (links h) t p (h t).next) 0 (before ++ after)) (sym at.0)
        (subst (λ n. Chain (unlinked (links h) t (last_or 0 before) n) 0 (before ++ after))
          (sym at.1)
          (Chain-unlink (links h) 0 t before after (null-Apart (links h) 0 (before ++ t ∷ after) c)
            c)) in
    Chain-agree cut (links (delete_later h t)) 0 (before ++ after)
      (agree-All (links (delete_later h t)) cut t (before ++ after)
        (λ a away. delete_later-unlinked h t a away loop) mid.0)
      whole

delete_first-head : (h : Heap) (t : ℕ) → (delete_first h t).1 ≡ (h t).next
unfolding delete_first
delete_first-head h t = refl

delete_first-links :
    (h : Heap) (t a : ℕ) (after : List ℕ)
    → IsList h (t ∷ after)
    → (a == t) ≡ false
    → links (delete_first h t).0 a ≡ unlinked (links h) t 0 (head_or 0 after) a
unfolding delete_first
delete_first-links h t a [] c away = rw (c.1, away) refl
delete_first-links h t a (y ∷ []) c away =
    delete_first-unlinked h t y a c.1 away (λ e. cc (ap (λ n. n == 0) c.4.1, e)) (rw (c.4.1) c.4.2)
delete_first-links h t a (y ∷ z ∷ zs) c away =
    delete_first-unlinked h t y a c.1 away (λ e. rw (c.4.1) c.4.4.0) (rw (c.4.1) c.4.3.0)

delete_first-IsList :
    (h : Heap) (t : ℕ) (after : List ℕ) → IsList h (t ∷ after) → IsList (delete_first h t).0 after
delete_first-IsList h t after c =
    let cut = unlinked (links h) t 0 (head_or 0 after) in
    Chain-agree cut (links (delete_first h t).0) 0 after
      (agree-All (links (delete_first h t).0) cut t after
        (λ a away. delete_first-links h t a after c away) (flip-All t after c.3))
      (Chain-unlink (links h) 0 t [] after (null-Apart (links h) 0 (t ∷ after) c) c)

-- `deleteNode` of a word that a list of nodes has, with one unit of fuel for each node, ends, takes the
-- first node with the word out, leaves the others in order, and deletes the first such word from the
-- list of words.
pub delete_node_lem :
    (h : Heap) (key t : ℕ) (before after : List ℕ)
    → IsList h (before ++ t ∷ after)
    → Lacks h key before
    → ((h t).value == key) ≡ true
    → (g : Heap) × (delete_node h
          (length (before ++ t ∷ after))
          (head_or 0 (before ++ t ∷ after))
          key
        ≡ done (g, head_or 0 (before ++ after)))
      × IsList g (before ++ after)
      × (contents g (before ++ after) ≡ Pool.delete_node (contents h (before ++ t ∷ after)) key)
unfolding delete_node
delete_node_lem h key t [] after c lacks at = (
  (delete_first h t).0,
  rw (c.2, at) (ap (λ n. done ((delete_first h t).0, n)) (delete_first-head h t ∙ c.1)),
  delete_first-IsList h t after c,
  contents-same (delete_first h t).0 h after (delete_first-value h t)
      ∙ sym (contents-delete_node h key t [] after lacks at),
)
delete_node_lem h key t (x ∷ xs) after c lacks at =
    let mid = middle (links h) 0 t (x ∷ xs) after c in
    let found : seek h (length (x ∷ xs ++ t ∷ after)) x key ≡ done t =
      seek-first_with h (length (x ∷ xs ++ t ∷ after)) 0 x key (xs ++ t ∷ after) (omega arith) c
      ∙ ap (λ n. done n) (first_with-middle h key t (x ∷ xs) after lacks at) in
    (
      delete_later h t,
      rw (c.2, lacks.0, found, mid.1) refl,
      delete_later-IsList h t (x ∷ xs) after c,
      contents-same (delete_later h t) h (x ∷ xs ++ after) (delete_later-value h t)
          ∙ sym (contents-delete_node h key t (x ∷ xs) after lacks at),
    )

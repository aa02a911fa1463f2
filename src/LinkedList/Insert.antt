-- ===== src/LinkedList/Insert.antt =====
-- `insertNode` of kernel/lib/src/DataStructures/LinkedList.cpp against a list of words.
use frosty_os.Prelude.{
  ℕ, ◌≡◌, refl, sym, ap, ◌∙◌, subst, false, List, [], ◌∷◌, ◌++◌, length, done, ◌==◌, if◌then◌else◌,
  arith, ==-refl,
}
use frosty_os.ThreadList.Chain.{Chain, Apart, Apart-last, head_or, last_or, ==-flip}
use frosty_os.ThreadList.Push.{Chain-push, pushed}
use frosty_os.VmRegions.Pool as Pool
use frosty_os.LinkedList.{Heap, new_node, link_last, insert_node}
use frosty_os.LinkedList.Search.{links, IsList, contents, find_last-last_or}

-- The links after `link_last` are those of a list of threads after a push.
link_last-pushed :
    (h : Heap) (last fresh v a : ℕ)
    → (fresh == last) ≡ false
    → links (link_last h last fresh v) a ≡ pushed (links h) last fresh a
unfolding link_last
link_last-pushed h last fresh v a away = ground (arith, away)

link_last-value :
    (h : Heap) (last fresh v a : ℕ)
    → (fresh == last) ≡ false
    → (link_last h last fresh v a).value ≡ (if a == fresh then v else (h a).value)
unfolding link_last
link_last-value h last fresh v a away = ground (arith, away)

pub contents-append :
    (h : Heap) (xs ys : List ℕ) → contents h (xs ++ ys) ≡ contents h xs ++ contents h ys
contents-append h [] ys = refl
contents-append h (x ∷ xs) ys = ap (λ l. (h x).value ∷ l) (contents-append h xs ys)

-- Nodes apart from the new one keep their words.
link_last-contents :
    (h : Heap) (last fresh v : ℕ) (xs : List ℕ)
    → (fresh == last) ≡ false
    → Apart fresh xs
    → contents (link_last h last fresh v) xs ≡ contents h xs
link_last-contents h last fresh v [] away a = refl
link_last-contents h last fresh v (x ∷ xs) away a =
    let same : (link_last h last fresh v x).value ≡ (h x).value =
      link_last-value h last fresh v x away ∙ rw (==-flip fresh x a.0) refl in
    let rest = link_last-contents h last fresh v xs away a.1 in λ i. same i ∷ rest i

link_last-IsList :
    (h : Heap) (x fresh v : ℕ) (xs : List ℕ)
    → (fresh == 0) ≡ false
    → Apart fresh (x ∷ xs)
    → IsList h (x ∷ xs)
    → IsList (link_last h (last_or x xs) fresh v) (x ∷ xs ++ fresh ∷ [])
link_last-IsList h x fresh v xs live a c =
    let away = Apart-last fresh x xs a.0 a.1 in
    subst (λ m. Chain m 0 (x ∷ xs ++ fresh ∷ []))
      (sym (λ i a. link_last-pushed h (last_or x xs) fresh v a away i))
      (Chain-push (links h) 0 x fresh xs live a c)

-- `insertNode` of a word into a list of nodes, with a new node that is none of them and no null
-- pointer, and with one unit of fuel for each node, ends, and leaves the nodes in order with the new
-- one behind them and the word behind the other words.
pub insert_node_lem :
    (h : Heap) (v fresh : ℕ) (xs : List ℕ)
    → IsList h xs
    → Apart fresh xs
    → (fresh == 0) ≡ false
    → (g : Heap) × (insert_node h (length xs) (head_or 0 xs) v fresh
        ≡ done (g, head_or 0 (xs ++ fresh ∷ [])))
      × IsList g (xs ++ fresh ∷ [])
      × (contents g (xs ++ fresh ∷ []) ≡ Pool.insert_node (contents h xs) v)
unfolding insert_node
insert_node_lem h v fresh [] c a live = (
  new_node h fresh v,
  refl,
  (rw (==-refl fresh) refl, rw (==-refl fresh) refl, live, tt, tt),
  rw (==-refl fresh) refl,
)
insert_node_lem h v fresh (x ∷ xs) c a live =
    let away = Apart-last fresh x xs a.0 a.1 in
    let last = find_last-last_or h (length (x ∷ xs)) 0 x xs (omega arith) c in
    let g = link_last h (last_or x xs) fresh v in
    let word : (g fresh).value ≡ v =
      link_last-value h (last_or x xs) fresh v fresh away ∙ rw (==-refl fresh) refl in
    (
      g,
      rw (c.2, last) refl,
      link_last-IsList h x fresh v xs live a c,
      contents-append g (x ∷ xs) (fresh ∷ [])
          ∙ (λ i. link_last-contents h (last_or x xs) fresh v (x ∷ xs) away a i ++ word i ∷ []),
    )

-- ===== src/ThreadList/Remove.antt =====
-- `remove` of kernel/src/Scheduling/ThreadList.cpp takes one thread out of the list.
use frosty_os.Prelude.{
  ℕ, ◌≡◌, refl, sym, Bool, true, false, not, ◌&&◌, ◌||◌, List, [], ◌∷◌, ◌++◌, append-nil,
  length-append, arith, ◌==◌, if◌then◌else◌, All, done, ap, subst, ◌∙◌,
}
use frosty_os.ThreadList.{
  Links, ThreadList, put_links, set_next, set_previous, apart, removable, unlink, remove,
}
use frosty_os.ThreadList.Chain.{
  head_or, last_or, Apart, Chain, Represents, Chain-agree, Apart-head, ==-flip,
}

-- The links after `t` between `p` and `n` is taken out.
abbrev pub unlinked : (ℕ → Links) → ℕ → ℕ → ℕ → ℕ → Links
unlinked m t p n =
    let before = if p == 0 then m else set_next m p n in
    put_links (if n == 0 then before else set_previous before n p) t apart

unlinked-other :
    (m : ℕ → Links) (t p n z : ℕ)
    → (z == t) ≡ false
    → (z == p) ≡ false
    → (z == n) ≡ false
    → unlinked m t p n z ≡ m z
unlinked-other m t p n z ht hp hn = ground (arith, ht, hp, hn)

unlinked-agree :
    (m : ℕ → Links) (t p n : ℕ) (zs : List ℕ)
    → Apart t zs
    → Apart p zs
    → Apart n zs
    → All (λ z. unlinked m t p n z ≡ m z) zs
unlinked-agree m t p n [] ht hp hn = tt
unlinked-agree m t p n (z ∷ zs) ht hp hn = (
  unlinked-other m t p n z (==-flip t z ht.0) (==-flip p z hp.0) (==-flip n z hn.0),
  unlinked-agree m t p n zs ht.1 hp.1 hn.1,
)

unlinked-next :
    (m : ℕ → Links) (t p n : ℕ)
    → (n == t) ≡ false
    → (n == p) ≡ false
    → (n == 0) ≡ false
    → unlinked m t p n n ≡ record (m n) { previous = p }
unlinked-next m t p n ht hp hn = ground (arith, ht, hp, hn)

unlinked-previous :
    (m : ℕ → Links) (t p n : ℕ)
    → (p == t) ≡ false
    → (p == n) ≡ false
    → (p == 0) ≡ false
    → unlinked m t p n p ≡ record (m p) { next = n }
unlinked-previous m t p n ht hn hp = ground (arith, ht, hp, hn)

pub Apart-drop :
    (a t : ℕ) (xs ys : List ℕ) → Apart a (xs ++ t ∷ ys) → (a == t) ≡ false × Apart a (xs ++ ys)
Apart-drop a t [] ys h = (h.0, h.1)
Apart-drop a t (x ∷ xs) ys h = let rest = Apart-drop a t xs ys h.1 in (rest.0, (h.0, rest.1))

apart_last : (x z t : ℕ) (xs ys : List ℕ) → Apart x (z ∷ xs ++ t ∷ ys) → (x == last_or z xs) ≡ false
apart_last x z t [] ys h = h.0
apart_last x z t (w ∷ xs) ys h = apart_last x w t xs ys h.1

apart_head :
    (x t : ℕ) (xs ys : List ℕ)
    → (x == 0) ≡ false
    → Apart x (xs ++ t ∷ ys)
    → (x == head_or 0 ys) ≡ false
apart_head x t [] ys h d = Apart-head x 0 ys h d.1
apart_head x t (z ∷ xs) ys h d = apart_head x t xs ys h d.1

pub Chain-unlink :
    (m : ℕ → Links) (q t : ℕ) (xs ys : List ℕ)
    → Apart q (xs ++ t ∷ ys)
    → Chain m q (xs ++ t ∷ ys)
    → Chain (unlinked m t (last_or q xs) (head_or 0 ys)) q (xs ++ ys)
Chain-unlink m q t [] [] d c = tt
Chain-unlink m q t [] (y ∷ ys) d c =
    let e = unlinked-next m t q y (==-flip t y c.3.0) (==-flip q y d.1.0) c.4.2 in
    (
      ap (λ l. l.previous) e,
      ap (λ l. l.next) e ∙ c.4.1,
      c.4.2,
      c.4.3,
      Chain-agree m (unlinked m t q y) y ys (unlinked-agree m t q y ys c.3.1 d.1.1 c.4.3) c.4.4,
    )
Chain-unlink m q t (x ∷ []) ys d c =
    let away = Apart-drop x t [] ys c.3 in
    let e = unlinked-previous m t x (head_or 0 ys) away.0 (Apart-head x 0 ys c.2 away.1) c.2 in
    (
      ap (λ l. l.previous) e ∙ c.0,
      ap (λ l. l.next) e,
      c.2,
      away.1,
      Chain-unlink m x t [] ys c.3 c.4,
    )
Chain-unlink m q t (x ∷ z ∷ xs) ys d c =
    let away = Apart-drop x t (z ∷ xs) ys c.3 in
    let e =
      unlinked-other m t (last_or z xs) (head_or 0 ys) x away.0 (apart_last x z t xs ys c.3)
        (apart_head x t (z ∷ xs) ys c.2 c.3) in
    (
      ap (λ l. l.previous) e ∙ c.0,
      ap (λ l. l.next) e ∙ c.1,
      c.2,
      away.1,
      Chain-unlink m x t (z ∷ xs) ys c.3 c.4,
    )

-- What `t` itself, and the threads next to it, point to.
pub previous_at :
    (m : ℕ → Links) (q t : ℕ) (xs ys : List ℕ)
    → Chain m q (xs ++ t ∷ ys)
    → ((m t).previous ≡ last_or q xs) × ((m t).next ≡ head_or 0 ys)
previous_at m q t [] ys c = (c.0, c.1)
previous_at m q t (x ∷ xs) ys c = previous_at m x t xs ys c.4

pub next_before :
    (m : ℕ → Links) (q x t : ℕ) (xs ys : List ℕ)
    → Chain m q (x ∷ xs ++ t ∷ ys)
    → ((last_or x xs == 0) ≡ false) × ((m (last_or x xs)).next ≡ t)
next_before m q x t [] ys c = (c.2, c.1)
next_before m q x t (z ∷ xs) ys c = next_before m x z t xs ys c.4

pub previous_after :
    (m : ℕ → Links) (q t y : ℕ) (xs ys : List ℕ)
    → Chain m q (xs ++ t ∷ y ∷ ys)
    → ((y == 0) ≡ false) × ((m y).previous ≡ t)
previous_after m q t y [] ys c = (c.4.2, c.4.0)
previous_after m q t y (x ∷ xs) ys c = previous_after m x t y xs ys c.4

last_or-middle : (d t : ℕ) (xs ys : List ℕ) → last_or d (xs ++ t ∷ ys) ≡ last_or t ys
last_or-middle d t [] ys = refl
last_or-middle d t (x ∷ xs) ys = last_or-middle x t xs ys

module _ (l : ThreadList) (t : ℕ) where
  abbrev left_holds : Bool
  left_holds =
      (not ((l.threads t).previous == 0) || l.head == t)
      && ((l.threads t).previous == 0 || (l.threads (l.threads t).previous).next == t)

  abbrev right_holds : Bool
  right_holds =
      (not ((l.threads t).next == 0) || l.tail == t)
      && ((l.threads t).next == 0 || (l.threads (l.threads t).next).previous == t)

  removable-sides : left_holds ≡ true → right_holds ≡ true → removable l t ≡ true
  unfolding removable
  removable-sides a b = ground (arith, a, b)

  left-holds : (xs ys : List ℕ) → Represents l (xs ++ t ∷ ys) → left_holds ≡ true
  left-holds [] ys r = ground (arith, r.chain.0, r.first)
  left-holds (x ∷ xs) ys r =
      let e = (previous_at l.threads 0 t (x ∷ xs) ys r.chain).0 in
      let b = next_before l.threads 0 x t xs ys r.chain in
      ground (
        arith,
        subst (λ p. (l.threads p).next ≡ t) (sym e) b.1,
        subst (λ p. (p == 0) ≡ false) (sym e) b.0,
      )

  right-holds : (xs ys : List ℕ) → Represents l (xs ++ t ∷ ys) → right_holds ≡ true
  right-holds xs [] r =
      ground (arith, (previous_at l.threads 0 t xs [] r.chain).1, r.last ∙ last_or-middle 0 t xs [])
  right-holds xs (y ∷ ys) r =
      let e = (previous_at l.threads 0 t xs (y ∷ ys) r.chain).1 in
      let b = previous_after l.threads 0 t y xs ys r.chain in
      ground (
        arith,
        subst (λ p. (l.threads p).previous ≡ t) (sym e) b.1,
        subst (λ p. (p == 0) ≡ false) (sym e) b.0,
      )

  head-unlink :
      (xs ys : List ℕ)
      → Represents l (xs ++ t ∷ ys)
      → (if last_or 0 xs == 0 then head_or 0 ys else l.head) ≡ head_or 0 (xs ++ ys)
  head-unlink [] ys r = refl
  head-unlink (x ∷ xs) ys r = rw ((next_before l.threads 0 x t xs ys r.chain).0) (r.first)

  tail-unlink :
      (xs ys : List ℕ)
      → Represents l (xs ++ t ∷ ys)
      → (if head_or 0 ys == 0 then last_or 0 xs else l.tail) ≡ last_or 0 (xs ++ ys)
  tail-unlink xs [] r = ap (last_or 0) (sym (append-nil xs))
  tail-unlink xs (y ∷ ys) r =
      rw ((previous_after l.threads 0 t y xs ys r.chain).0)
        (r.last ∙ last_or-middle 0 t xs (y ∷ ys) ∙ sym (last_or-middle 0 y xs ys))

  null-apart : (p : ℕ) (xs : List ℕ) → Chain l.threads p xs → Apart 0 xs
  null-apart p [] c = tt
  null-apart p (x ∷ xs) c = (==-flip x 0 c.2, null-apart x xs c.4)

  unlink-Represents :
      (xs ys : List ℕ) → Represents l (xs ++ t ∷ ys) → Represents (unlink l t) (xs ++ ys)
  unfolding unlink
  unlink-Represents xs ys r =
      let e = previous_at l.threads 0 t xs ys r.chain in
      record {
        chain =
            subst (λ p. Chain (unlinked l.threads t p (l.threads t).next) 0 (xs ++ ys)) (sym e.0)
              (subst (λ n. Chain (unlinked l.threads t (last_or 0 xs) n) 0 (xs ++ ys)) (sym e.1)
                (Chain-unlink l.threads 0 t xs ys (null-apart 0 (xs ++ t ∷ ys) r.chain) r.chain));
        first =
            subst (λ p. (if p == 0 then (l.threads t).next else l.head) ≡ head_or 0 (xs ++ ys))
              (sym e.0)
              (subst (λ n. (if last_or 0 xs == 0 then n else l.head) ≡ head_or 0 (xs ++ ys))
                (sym e.1) (head-unlink xs ys r));
        last =
            subst (λ n. (if n == 0 then (l.threads t).previous else l.tail) ≡ last_or 0 (xs ++ ys))
              (sym e.1)
              (subst (λ p. (if head_or 0 ys == 0 then p else l.tail) ≡ last_or 0 (xs ++ ys))
                (sym e.0) (tail-unlink xs ys r));
        counted =
            omega (arith, r.counted, r.bounded, length-append xs (t ∷ ys), length-append xs ys);
        bounded = omega (arith, r.bounded, length-append xs (t ∷ ys), length-append xs ys);
      }

  not-null : (p : ℕ) (xs ys : List ℕ) → Chain l.threads p (xs ++ t ∷ ys) → (t == 0) ≡ false
  not-null p [] ys c = c.2
  not-null p (x ∷ xs) ys c = not-null x xs ys c.4

  remove-eq : (t == 0) ≡ false → removable l t ≡ true → remove l t ≡ done (unlink l t)
  unfolding remove
  remove-eq h k = simp (h, k) refl

-- On a list that represents threads, `remove` of one of them, wherever it stands, passes its assertion
-- and leaves the others in their order.
pub remove_lem :
    (l : ThreadList) (t : ℕ) (xs ys : List ℕ)
    → Represents l (xs ++ t ∷ ys)
    → (k : ThreadList) × (remove l t ≡ done k) × Represents k (xs ++ ys)
remove_lem l t xs ys r = (
  unlink l t,
  remove-eq l t (not-null l t 0 xs ys r.chain)
      (removable-sides l t (left-holds l t xs ys r) (right-holds l t xs ys r)),
  unlink-Represents l t xs ys r,
)

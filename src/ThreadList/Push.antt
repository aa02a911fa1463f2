-- ===== src/ThreadList/Push.antt =====
-- `pushBack` and `popFront` of kernel/src/Scheduling/ThreadList.cpp against a queue.
use frosty_os.Prelude.{
  ℕ, ◌+◌, ◌<◌, ◌≡◌, refl, sym, Bool, true, false, List, [], ◌∷◌, ◌++◌, length, length-append, word,
  arith, ◌==◌, if◌then◌else◌, All, done, ==-refl, ap, subst, ◌∙◌, All-append,
}
use frosty_os.ThreadList.{
  Links, ThreadList, put_links, set_next, set_previous, apart, push_first, push_last, push_back,
  pop_front, take_front,
}
use frosty_os.ThreadList.Chain.{
  head_or, last_or, Apart, Chain, Represents, Chain-agree, Apart-last, ==-flip,
}

-- The links after a thread is put behind `e`.
abbrev pub pushed : (ℕ → Links) → ℕ → ℕ → ℕ → Links
pushed m e t = put_links (set_next m e t) t (record { previous = e; next = 0; in_list = true })

pushed-other :
    (m : ℕ → Links) (e t x : ℕ) → (x == t) ≡ false → (x == e) ≡ false → pushed m e t x ≡ m x
pushed-other m e t x h k = rw (h, k) refl

pushed-last :
    (m : ℕ → Links) (e t : ℕ) → (e == t) ≡ false → pushed m e t e ≡ record (m e) { next = t }
pushed-last m e t h = rw (h, ==-refl e) refl

pushed-new :
    (m : ℕ → Links) (e t : ℕ) → pushed m e t t ≡ record { previous = e; next = 0; in_list = true }
pushed-new m e t = rw (==-refl t) refl

pub Chain-push :
    (m : ℕ → Links) (p x t : ℕ) (xs : List ℕ)
    → (t == 0) ≡ false
    → Apart t (x ∷ xs)
    → Chain m p (x ∷ xs)
    → Chain (pushed m (last_or x xs) t) p (x ∷ xs ++ t ∷ [])
Chain-push m p x t [] ht a c =
    let e = pushed-last m x t (==-flip t x a.0) in
    let n = pushed-new m x t in
    (
      ap (λ l. l.previous) e ∙ c.0,
      ap (λ l. l.next) e,
      c.2,
      (==-flip t x a.0, tt),
      (ap (λ l. l.previous) n, ap (λ l. l.next) n, ht, tt, tt),
    )
Chain-push m p x t (y ∷ ys) ht a c =
    let e = pushed-other m (last_or y ys) t x (==-flip t x a.0) (Apart-last x y ys c.3.0 c.3.1) in
    (
      ap (λ l. l.previous) e ∙ c.0,
      ap (λ l. l.next) e ∙ c.1,
      c.2,
      All-append (λ z. (x == z) ≡ false) (y ∷ ys) (t ∷ []) c.3 (==-flip t x a.0, tt),
      Chain-push m x y t ys ht a.1 c.4,
    )

pub last_or-append : (d : ℕ) (xs : List ℕ) (t : ℕ) → last_or d (xs ++ t ∷ []) ≡ t
last_or-append d [] t = refl
last_or-append d (x ∷ xs) t = last_or-append x xs t

new_links :
    (m : ℕ → Links) (t : ℕ)
    → put_links m t (record { previous = 0; next = 0; in_list = true }) t
      ≡ record { previous = 0; next = 0; in_list = true }
new_links m t = rw (==-refl t) refl

-- A thread that meets the assertion goes to the end that the head decides.
push_back-eq :
    (l : ThreadList) (t : ℕ) (empty : Bool)
    → (t == 0) ≡ false
    → ((l.threads t).previous == 0) ≡ true
    → ((l.threads t).next == 0) ≡ true
    → (t == l.head) ≡ false
    → (t == l.tail) ≡ false
    → (l.head == 0) ≡ empty
    → push_back l t ≡ (if empty then done (push_first l t) else done (push_last l t))
unfolding push_back
push_back-eq l t empty ht hp hn eh et e = simp (ht, hp, hn, eh, et, e) refl

-- `pushBack` of a thread that is no null pointer, is not in the list, and has no links, onto a list
-- whose count does not wrap, succeeds and puts it behind the others, which keep their order.
pub push_back_lem :
    (l : ThreadList) (t : ℕ) (xs : List ℕ)
    → Represents l xs
    → (t == 0) ≡ false
    → Apart t xs
    → ((l.threads t).previous == 0) ≡ true
    → ((l.threads t).next == 0) ≡ true
    → length xs + 2 < word
    → (k : ThreadList) × (push_back l t ≡ done k) × Represents k (xs ++ t ∷ [])
unfolding push_first push_last
push_back_lem l t [] r ht a hp hn hb = (
  push_first l t,
  push_back-eq l t true ht hp hn (subst (λ h. (t == h) ≡ false) (sym r.first) ht)
      (subst (λ h. (t == h) ≡ false) (sym r.last) ht) (rw (r.first) refl),
  record {
    chain = (
      ap (λ l. l.previous) (new_links l.threads t),
      ap (λ l. l.next) (new_links l.threads t),
      ht,
      tt,
      tt,
    );
    first = refl;
    last = refl;
    counted = omega (arith, r.counted);
    bounded = omega arith;
  },
)
push_back_lem l t (x ∷ xs) r ht a hp hn hb = (
  push_last l t,
  push_back-eq l t false ht hp hn (subst (λ h. (t == h) ≡ false) (sym r.first) (a.0))
      (subst (λ h. (t == h) ≡ false) (sym r.last) (Apart-last t x xs a.0 a.1))
      (subst (λ h. (h == 0) ≡ false) (sym r.first) (r.chain.2)),
  record {
    chain =
        subst (λ e. Chain (pushed l.threads e t) 0 (x ∷ xs ++ t ∷ [])) (sym r.last)
          (Chain-push l.threads 0 x t xs ht a r.chain);
    first = r.first;
    last = sym (last_or-append x xs t);
    counted = omega (arith, r.counted, length-append xs (t ∷ []), r.bounded);
    bounded = omega (arith, length-append xs (t ∷ []));
  },
)

-- All but the front.
abbrev pub drop_first : List ℕ → List ℕ
drop_first [] = []
drop_first (x ∷ xs) = xs

-- The links after the front is taken off.
abbrev popped : (ℕ → Links) → ℕ → ℕ → ℕ → Links
popped m x y = put_links (if y == 0 then m else set_previous m y 0) x apart

popped-other :
    (m : ℕ → Links) (x y z : ℕ) → (z == x) ≡ false → (z == y) ≡ false → popped m x y z ≡ m z
popped-other m x y z h k = ground (arith, h, k)

popped-agree :
    (m : ℕ → Links) (x y : ℕ) (zs : List ℕ)
    → Apart x zs
    → Apart y zs
    → All (λ z. popped m x y z ≡ m z) zs
popped-agree m x y [] a b = tt
popped-agree m x y (z ∷ zs) a b =
    (popped-other m x y z (==-flip x z a.0) (==-flip y z b.0), popped-agree m x y zs a.1 b.1)

popped-second :
    (m : ℕ → Links) (x y : ℕ)
    → (y == x) ≡ false
    → (y == 0) ≡ false
    → popped m x y y ≡ record (m y) { previous = 0 }
popped-second m x y h k = rw (h, k, ==-refl y) refl

Chain-pop :
    (m : ℕ → Links) (x : ℕ) (xs : List ℕ)
    → Chain m 0 (x ∷ xs)
    → Chain (popped m x (head_or 0 xs)) 0 xs
Chain-pop m x [] c = tt
Chain-pop m x (y ∷ ys) c =
    let e = popped-second m x y (==-flip x y c.3.0) c.4.2 in
    (
      ap (λ l. l.previous) e,
      ap (λ l. l.next) e ∙ c.4.1,
      c.4.2,
      c.4.3,
      Chain-agree m (popped m x y) y ys (popped-agree m x y ys c.3.1 c.4.3) c.4.4,
    )

-- The tail after the front is taken off.
tail-pop :
    (x tail : ℕ) (xs : List ℕ)
    → tail ≡ last_or x xs
    → (m : ℕ → Links) → Chain m 0 (x ∷ xs)
    → (if head_or 0 xs == 0 then 0 else tail) ≡ last_or 0 xs
tail-pop x tail [] h m c = refl
tail-pop x tail (y ∷ ys) h m c = rw (c.4.2) h

take_front-Represents :
    (l : ThreadList) (x : ℕ) (xs : List ℕ) → Represents l (x ∷ xs) → Represents (take_front l) xs
unfolding take_front
take_front-Represents l x xs r =
    let next_eq : (l.threads l.head).next ≡ head_or 0 xs =
      subst (λ h. (l.threads h).next ≡ head_or 0 xs) (sym r.first) (r.chain.1) in
    record {
      chain =
          subst (λ h. Chain (popped l.threads h (l.threads h).next) 0 xs) (sym r.first)
            (subst (λ n. Chain (popped l.threads x n) 0 xs) (sym (r.chain.1))
              (Chain-pop l.threads x xs r.chain));
      first = next_eq;
      last =
          subst (λ n. (if n == 0 then 0 else l.tail) ≡ last_or 0 xs) (sym next_eq)
            (tail-pop x l.tail xs r.last l.threads r.chain);
      counted = omega (arith, r.counted, r.bounded);
      bounded = omega (arith, r.bounded);
    }

pop_front-none : (l : ThreadList) → (l.head == 0) ≡ true → pop_front l ≡ (0, l)
unfolding pop_front
pop_front-none l h = simp h refl

pop_front-some : (l : ThreadList) → (l.head == 0) ≡ false → pop_front l ≡ (l.head, take_front l)
unfolding pop_front
pop_front-some l h = simp h refl

-- On a list that represents threads, `popFront` gives a null pointer if there is none, and else the
-- front, and leaves the others in their order.
pub pop_front_lem :
    (l : ThreadList) (xs : List ℕ)
    → Represents l xs
    → ((pop_front l).0 ≡ head_or 0 xs) × Represents (pop_front l).1 (drop_first xs)
pop_front_lem l [] r = rw (pop_front-none l (rw (r.first) refl)) (refl, r)
pop_front_lem l (x ∷ xs) r =
    rw (pop_front-some l (subst (λ h. (h == 0) ≡ false) (sym r.first) (r.chain.2)))
      (r.first, take_front-Represents l x xs r)

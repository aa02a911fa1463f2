-- ===== src/Scheduler/SeenTo.antt =====
-- What a tick makes of the sleeping threads, where each that wakes can be queued
-- (`TimerTick` of kernel/src/Scheduling/Scheduler.cpp).
use frosty_os.Prelude.{
  none, some, ℕ, ◌-◌, ◌≡◌, refl, sym, ap, ◌∙◌, Bool, false, not, ◌&&◌, List, [], ◌∷◌, ◌++◌,
  append_assoc, append-nil, ◌==◌, if◌then◌else◌, arith, Bool-cases, inl, inr, ==-refl, ==_iff,
}
use frosty_os.Scheduler.{Thread, put, appended, is_in}
use frosty_os.Scheduler.Timer.{Sleepers, wakes, woken_up, slept_on}

abbrev pub keep_if : (ℕ → Bool) → List ℕ → List ℕ
keep_if p [] = []
keep_if p (x ∷ xs) = if p x then x ∷ keep_if p xs else keep_if p xs

-- No thread stands in the list twice.
abbrev pub Distinct : List ℕ → Type 0
Distinct [] = Unit
Distinct (x ∷ xs) = (is_in x xs ≡ false) × Distinct xs

keep_if-same :
    (p q : ℕ → Bool) (x : ℕ) (xs : List ℕ)
    → is_in x xs ≡ false
    → ((y : ℕ) → (y == x) ≡ false → p y ≡ q y)
    → keep_if p xs ≡ keep_if q xs
keep_if-same p q x [] out h = refl
keep_if-same p q x (y ∷ ys) out h = elim (Bool-cases (y == x)) [
  | inl e ↦ absurd (ground (arith, e, out))
  | inr e ↦
      let rest = keep_if-same p q x ys (ground (arith, e, out)) h in
      let same = h y e in ground (arith, rest, same)
]

-- The nice level of a thread whose process has one
abbrev pub level : Thread → ℕ
level info = elim (info.parent_nice) [ none ↦ 0 | some nice ↦ nice ]

-- The threads of a list that wake, and wake into level `j`; and those that sleep on.
abbrev pub woken : (ms : ℕ) → (ℕ → Thread) → ℕ → ℕ → Bool
woken ms info j thread = wakes ms (info thread) && (level (info thread) == j)

abbrev pub asleep : (ms : ℕ) → (ℕ → Thread) → ℕ → Bool
asleep ms info thread = not (wakes ms (info thread))

abbrev pub slept : (ms : ℕ) → Thread → Thread
slept ms info = record (info) { sleep_remaining_time = info.sleep_remaining_time - ms }

-- What a tick of `ms` milliseconds does to the sleeping threads `list`.
pub record Ticked (ms : ℕ) (list : List ℕ) (s after : Sleepers) : Type 0 where
  pub kept : after.still ≡ s.still ++ keep_if (asleep ms s.info) list
  pub queued : (j : ℕ) → after.threads j ≡ s.threads j ++ keep_if (woken ms s.info j) list
  pub left : (t : ℕ) → after.info t ≡ (if is_in t list then slept ms (s.info t) else s.info t)

-- What a tick makes of the sleeping threads where each can be queued
unfoldable pub seen_to : (ms : ℕ) → ℕ → Sleepers → Sleepers
seen_to ms thread s =
    if wakes ms (s.info thread)
    then woken_up (level (s.info thread)) (appended thread (s.threads (level (s.info thread))))
        thread s
    else slept_on ms thread s

unfoldable pub all_seen_to : (ms : ℕ) → List ℕ → Sleepers → Sleepers
all_seen_to ms [] s = s
all_seen_to ms (thread ∷ rest) s = all_seen_to ms rest (seen_to ms thread s)

put_push :
    (f : ℕ → List ℕ) (n j t : ℕ)
    → put f n (appended t (f n)) j ≡ (if n == j then appended t (f j) else f j)
put_push f n j t = elim (Bool-cases (j == n)) [
  | inl e ↦ let same : j ≡ n = (==_iff j n).0 e in rw e (rw (sym same) (rw (==-refl j) refl))
  | inr e ↦ rw e (let other : (n == j) ≡ false = ground (arith, e) in rw other refl)
]

module _ (ms thread : ℕ) (s : Sleepers) where
  pub seen_to-info :
      (t : ℕ)
      → (seen_to ms thread s).info t ≡ (if t == thread then slept ms (s.info t) else s.info t)
  unfolding seen_to
  seen_to-info t = elim (Bool-cases (wakes ms (s.info thread))) [
    | inl e ↦ rw e (elim (Bool-cases (t == thread)) [
      | inl same ↦
          let now : t ≡ thread = (==_iff t thread).0 same in
          let gone : 0 ≡ (s.info t).sleep_remaining_time - ms =
            ground (arith, e, now, ap s.info now) in
          rw same (rw (sym now) (ap (λ z. record (s.info t) { sleep_remaining_time = z }) gone))
      | inr other ↦ rw other refl
    ])
    | inr e ↦ rw e (elim (Bool-cases (t == thread)) [
      | inl same ↦ rw same (rw (sym ((==_iff t thread).0 same)) refl)
      | inr other ↦ rw other refl
    ])
  ]

  seen_to-still : (seen_to ms thread s).still ≡ s.still ++ keep_if (asleep ms s.info) (thread ∷ [])
  unfolding seen_to
  seen_to-still = elim (Bool-cases (wakes ms (s.info thread))) [
    | inl e ↦ rw e (sym (append-nil s.still))
    | inr e ↦ rw e refl
  ]

  pub seen_to-threads :
      (j : ℕ)
      → (seen_to ms thread s).threads j ≡ s.threads j ++ keep_if (woken ms s.info j) (thread ∷ [])
  unfolding seen_to
  seen_to-threads j = elim (Bool-cases (wakes ms (s.info thread))) [
    | inl e ↦ rw e (
        put_push s.threads (level (s.info thread)) j thread
        ∙ elim (Bool-cases (level (s.info thread) == j)) [
          | inl same ↦ rw same refl
          | inr other ↦ rw other (sym (append-nil (s.threads j)))
        ])
    | inr e ↦ rw e (sym (append-nil (s.threads j)))
  ]

keep_if-cons :
    (p : ℕ → Bool) (x : ℕ) (xs : List ℕ) → keep_if p (x ∷ []) ++ keep_if p xs ≡ keep_if p (x ∷ xs)
keep_if-cons p x xs = elim (Bool-cases (p x)) [ inl e ↦ rw e refl | inr e ↦ rw e refl ]

joined :
    (p : ℕ → Bool) (x : ℕ) (xs a b c rest : List ℕ)
    → b ≡ a ++ keep_if p (x ∷ [])
    → c ≡ b ++ rest
    → rest ≡ keep_if p xs
    → c ≡ a ++ keep_if p (x ∷ xs)
joined p x xs a b c rest hb hc same =
    hc
    ∙ ap (λ l. l ++ rest) hb
    ∙ append_assoc a (keep_if p (x ∷ [])) rest
    ∙ ap (λ r. a ++ (keep_if p (x ∷ []) ++ r)) same
    ∙ ap (λ l. a ++ l) (keep_if-cons p x xs)

pub all_seen_to-Ticked :
    (ms : ℕ) (list : List ℕ) (s : Sleepers)
    → Distinct list
    → Ticked ms list s (all_seen_to ms list s)
unfolding all_seen_to
all_seen_to-Ticked ms [] s h = record {
  kept = sym (append-nil s.still);
  queued = λ j. sym (append-nil (s.threads j));
  left = λ t. refl;
}
all_seen_to-Ticked ms (x ∷ xs) s (out, h) =
    let next = seen_to ms x s in
    let ih = all_seen_to-Ticked ms xs next h in
    let same : (y : ℕ) → (y == x) ≡ false → next.info y ≡ s.info y =
      λ y ne. seen_to-info ms x s y ∙ rw ne refl in
    record {
      kept =
          joined (asleep ms s.info) x xs s.still next.still _ _ (seen_to-still ms x s) ih.kept
            (keep_if-same _ _ x xs out (λ y ne. ap (λ i. not (wakes ms i)) (same y ne)));
      queued = λ j.
          joined (woken ms s.info j) x xs (s.threads j) (next.threads j) _ _
            (seen_to-threads ms x s j) (ih.queued j)
            (keep_if-same _ _ x xs out
              (λ y ne. ap (λ i. wakes ms i && (level i == j)) (same y ne)));
      left = λ t. elim (Bool-cases (t == x)) [
        | inl e ↦
            let now : t ≡ x = (==_iff t x).0 e in
            let absent : is_in t xs ≡ false = rw now out in
            ih.left t ∙ rw (absent, e) (seen_to-info ms x s t ∙ rw e refl)
        | inr e ↦ ih.left t ∙ rw (e, same t e) refl
      ];
    }

-- ===== src/Clib/Compared.antt =====
-- `strcpy` and `strcmp` of kernel/lib/src/string.c on the characters of the strings.
use frosty_os.Prelude.{
  ℕ, zero, suc, ◌+◌, ◌≤◌, ◌<◌, ◌≡◌, ◌≢◌, ◌⊎◌, ◌↔◌, inl, inr, refl, sym, ap, ◌∙◌, true, false, List,
  [], ◌∷◌, ◌==◌, done, length, arith, Bool-cases, ==_iff, ==-refl, ==-ne,
}
use frosty_os.Clib.{Bytes}
use frosty_os.Clib.Strings.{
  Holds, strcpy_loop, strcpy, put_byte, Sign, less, same, more, is_more, sign_of, strcmp,
}

-- The strings are equal exactly where `same` comes out.
abbrev pub Decides : List ℕ → List ℕ → Sign → Type 0
Decides xs ys r = (r ≡ same) ↔ (xs ≡ ys)

sign_of-ne : (a b : ℕ) → sign_of a b ≢ same
sign_of-ne a b h = elim (Bool-cases (is_more a b)) [
  | inl e ↦ let k : more ≡ same = rw e at h in absurd (cc)
  | inr e ↦ let k : less ≡ same = rw e at h in absurd (cc)
]

abbrev tail : List ℕ → List ℕ
tail [] = []
tail (x ∷ xs) = xs

abbrev head_or : ℕ → List ℕ → ℕ
head_or d [] = d
head_or d (x ∷ xs) = x

-- The first bytes differ.
module _ (mem : Bytes) (fuel p q : ℕ) (xs ys : List ℕ) where
  strcmp-differ :
      (mem p == mem q) ≡ false
      → xs ≢ ys
      → (r : Sign) × (strcmp mem (suc fuel) p q ≡ done r) × Decides xs ys r
  unfolding strcmp
  strcmp-differ e ne = (
    sign_of (mem p) (mem q),
    rw e refl,
    (λ h. absurd (sign_of-ne (mem p) (mem q) h), λ h. absurd (ne h)),
  )

strcmp_lem :
    (mem : Bytes) (fuel p q : ℕ) (xs ys : List ℕ)
    → Holds mem p xs
    → Holds mem q ys
    → length xs < fuel
    → (r : Sign) × (strcmp mem fuel p q ≡ done r) × Decides xs ys r
unfolding strcmp
strcmp_lem mem zero p q xs ys hx hy enough = absurd (omega (arith, enough))
strcmp_lem mem (suc fuel) p q [] [] hx hy enough =
    let equal : (mem p == mem q) ≡ true = ground (arith, hx, hy) in
    let ends : (mem p == 0) ≡ true = ground (arith, hx) in
    (same, rw equal (rw ends refl), (λ h. refl, λ h. refl))
strcmp_lem mem (suc fuel) p q [] (y ∷ ys) hx hy enough =
    strcmp-differ mem fuel p q [] (y ∷ ys) (ground (arith, hx, hy.0, hy.1)) (λ h. absurd (cc))
strcmp_lem mem (suc fuel) p q (x ∷ xs) [] hx hy enough =
    strcmp-differ mem fuel p q (x ∷ xs) [] (ground (arith, hx.0, hx.1, hy)) (λ h. absurd (cc))
strcmp_lem mem (suc fuel) p q (x ∷ xs) (y ∷ ys) hx hy enough = elim (Bool-cases (mem p == mem q)) [
  | inl e ↦
      let here : x ≡ y = sym hx.0 ∙ (==_iff (mem p) (mem q)).0 e ∙ hy.0 in
      let goes : (mem p == 0) ≡ false = ground (arith, hx.0, hx.1) in
      let (r, run, decides) =
        strcmp_lem mem fuel (p + 1) (q + 1) xs ys hx.2 hy.2 (omega (arith, enough)) in
      (r, rw e (rw goes run), (λ h. λ i. here i ∷ decides.0 h i, λ h. decides.1 (ap tail h)))
  | inr e ↦
      strcmp-differ mem fuel p q (x ∷ xs) (y ∷ ys) e
        (λ h. let k = ap (head_or 0) h in absurd (ground (arith, hx.0, hy.0, k, e)))
]

Holds-same :
    (m mem : Bytes) (p : ℕ) (cs : List ℕ)
    → ((a : ℕ) → p ≤ a → a ≤ p + length cs → m a ≡ mem a)
    → Holds mem p cs
    → Holds m p cs
Holds-same m mem p [] h holds = h p (omega arith) (omega arith) ∙ holds
Holds-same m mem p (c ∷ cs) h holds = (
  h p (omega arith) (omega arith) ∙ holds.0,
  holds.1,
  Holds-same m mem (p + 1) cs (λ a low high. h a (omega (arith, low)) (omega (arith, high)))
      holds.2,
)

-- The string and its copy lie apart.
abbrev pub Apart : (dst src : ℕ) → List ℕ → Type 0
Apart dst src cs = (dst + length cs < src) ⊎ (src + length cs < dst)

-- What is copied: the string, and nothing else changes.
pub record Copied (dst : ℕ) (cs : List ℕ) (mem after : Bytes) : Type 0 where
  pub copy : Holds after dst cs
  pub rest : (a : ℕ) → (a < dst) ⊎ (dst + length cs < a) → after a ≡ mem a

put_byte-ne : (dst c : ℕ) (mem : Bytes) (a : ℕ) → a ≢ dst → put_byte dst c mem a ≡ mem a
put_byte-ne dst c mem a ne = rw (==-ne a dst ne) refl

put_byte_self : (dst c : ℕ) (mem : Bytes) → put_byte dst c mem dst ≡ c
put_byte_self dst c mem = rw (==-refl dst) refl

apart-ne : (dst src : ℕ) (cs : List ℕ) → Apart dst src cs → src ≢ dst
apart-ne dst src cs (inl lt) e = absurd (omega (arith, lt, e))
apart-ne dst src cs (inr lt) e = absurd (omega (arith, lt, e))

strcpy_loop-Copied :
    (fuel dst src : ℕ) (cs : List ℕ) (mem : Bytes)
    → Holds mem src cs
    → length cs < fuel
    → Apart dst src cs
    → (after : Bytes) × (strcpy_loop fuel dst src mem ≡ done after) × Copied dst cs mem after
unfolding strcpy_loop
strcpy_loop-Copied zero dst src cs mem h enough apart = absurd (omega (arith, enough))
strcpy_loop-Copied (suc fuel) dst src [] mem h enough apart =
    let kept = put_byte-ne dst (mem src) mem src (apart-ne dst src [] apart) in
    let ends : (put_byte dst (mem src) mem src == 0) ≡ true = ground (arith, kept, h) in
    (
      put_byte dst (mem src) mem,
      rw ends refl,
      record {
        copy = put_byte_self dst (mem src) mem ∙ h;
        rest = λ a out. put_byte-ne dst (mem src) mem a (λ e. absurd (ground (arith, out, e)));
      },
    )
strcpy_loop-Copied (suc fuel) dst src (c ∷ cs) mem h enough apart =
    let next = put_byte dst (mem src) mem in
    let kept = put_byte-ne dst (mem src) mem src (apart-ne dst src (c ∷ cs) apart) in
    let goes : (put_byte dst (mem src) mem src == 0) ≡ false = ground (arith, kept, h.0, h.1) in
    let (after, run, copied) =
      strcpy_loop-Copied fuel (dst + 1) (src + 1) cs next
        (Holds-same next mem (src + 1) cs
          (λ a low high.
            put_byte-ne dst (mem src) mem a (λ e. absurd (ground (arith, apart, low, high, e))))
          h.2)
        (omega (arith, enough)) (ground (arith, apart)) in
    (
      after,
      rw goes run,
      record {
        copy = (
          copied.rest dst (inl (omega arith)) ∙ put_byte_self dst (mem src) mem ∙ h.0,
          h.1,
          copied.copy,
        );
        rest = λ a out.
            copied.rest a (ground (arith, out))
            ∙ put_byte-ne dst (mem src) mem a (λ e. absurd (ground (arith, out, e)));
      },
    )

-- `strcpy` of a string to a place that lies apart from it, neither address the null pointer, and
-- with fuel for its characters: it ends, the string stands at both places, no byte but those of
-- the copy changes, and `strcmp` of the copy and a third string `ys` that lies apart from the copy
-- ends and finds them the same exactly when `ys` is the string that was copied.
pub strcpy-strcmp :
    (fuel dst src other : ℕ) (cs ys : List ℕ) (mem : Bytes)
    → Holds mem src cs
    → Holds mem other ys
    → length cs < fuel
    → Apart dst src cs
    → (dst + length cs < other) ⊎ (other + length ys < dst)
    → (dst == 0) ≡ false
    → (src == 0) ≡ false
    → (after : Bytes) × (strcpy fuel dst src mem ≡ done after)
      × Copied dst cs mem after
      × Holds after src cs
      × ((r : Sign) × (strcmp after fuel dst other ≡ done r) × Decides cs ys r)
strcpy-strcmp fuel dst src other cs ys mem h hy enough apart away dst_real src_real =
    let (after, run, copied) = strcpy_loop-Copied fuel dst src cs mem h enough apart in
    let source =
      Holds-same after mem src cs (λ a low high. copied.rest a (ground (arith, apart, low, high)))
        h in
    let third =
      Holds-same after mem other ys (λ a low high. copied.rest a (ground (arith, away, low, high)))
        hy in
    (
      after,
      rw dst_real (rw src_real run),
      copied,
      source,
      strcmp_lem after fuel dst other cs ys copied.copy third enough,
    )

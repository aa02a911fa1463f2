-- ===== src/Scheduler/Digits.antt =====
-- The run counts of some levels in a row, read as the digits of a number to base 3.
use frosty_os.Prelude.{
  ℕ, zero, suc, ◌+◌, ◌*◌, ◌^◌, ◌≤◌, ◌<◌, ◌≡◌, ap, arith, ◌==◌, Bool-cases, inl, inr,
}

pub value : (ℕ → ℕ) → (i n : ℕ) → ℕ
value counts i zero = 0
value counts i (suc n) = counts i * 3 ^ n + value counts (suc i) n

times-le : (c x : ℕ) → c ≤ 2 → c * x ≤ 2 * x
times-le zero x h = omega arith
times-le (suc zero) x h = omega arith
times-le (suc (suc zero)) x h = omega arith
times-le (suc (suc (suc c))) x h = absurd (omega arith)

abbrev pub Digits : (ℕ → ℕ) → Type 0
Digits counts = (j : ℕ) → counts j ≤ 2

pub value-lt : (counts : ℕ → ℕ) (i n : ℕ) → Digits counts → value counts i n < 3 ^ n
unfolding value
value-lt counts i zero h = omega arith
value-lt counts i (suc n) h =
    omega (arith, value-lt counts (suc i) n h, times-le (counts i) (3 ^ n) (h i))

-- A digit that goes up outweighs what the digits behind it do.
pub value-grows :
    (c d : ℕ → ℕ) (level i n : ℕ)
    → Digits c
    → i ≤ level
    → level < i + n
    → ((j : ℕ) → i ≤ j → j < level → d j ≡ c j)
    → d level ≡ suc (c level)
    → value c i n < value d i n
unfolding value
value-grows c d level i zero hc le lt same up = absurd (omega arith)
value-grows c d level i (suc n) hc le lt same up = elim (Bool-cases (i == level)) [
  | inl e ↦
      let here : i ≡ level = ground (arith, e) in
      let bound = value-lt c (suc i) n hc in
      let more : d i ≡ suc (c i) = rw here up in
      let product : d i * 3 ^ n ≡ c i * 3 ^ n + 3 ^ n = rw more (omega arith) in
      omega (arith, bound, product)
  | inr e ↦
      let behind : suc i ≤ level = ground (arith, e, le) in
      let keeps = same i (omega arith) behind in
      let rest =
        value-grows c d level (suc i) n hc behind (omega arith)
          (λ j low high. same j (omega arith) high) up in
      omega (arith, rest, ap (λ x. x * 3 ^ n) keeps)
]

-- ===== src/Prelude/Results.antt =====
-- What a kernel routine with assertions and pointer loops can come to.

-- `assert_failed` is a failed `assert`, which panics, or a fault such as an access through a null
-- pointer; `diverged` means that the fuel of a loop ran
-- out.
pub data Outcome {ℓ} (A : Type ℓ) : Type ℓ where
  done : A → Outcome A
  assert_failed : Outcome A
  diverged : Outcome A

infixl 5 ◌>>=◌
abbrev pub ◌>>=◌ {ℓ κ} : {A : Type ℓ} {B : Type κ} → Outcome A → (A → Outcome B) → Outcome B
done a >>= f = f a
assert_failed >>= f = assert_failed
diverged >>= f = diverged

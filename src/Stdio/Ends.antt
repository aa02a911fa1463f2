-- ===== src/Stdio/Ends.antt =====
-- Outcomes that are no end of the fuel, for kernel/lib/src/stdio.cpp.
use frosty_os.Prelude.{
  ◌≡◌, Bool, true, false, Outcome, done, assert_failed, diverged, ◌>>=◌, if◌then◌else◌,
}

-- The outcome is no end of the fuel, and a result has the property.
abbrev pub Ensures {ℓ} : {A : Type ℓ} → (A → Type 0) → Outcome A → Type 0
Ensures P (done a) = P a
Ensures P assert_failed = Unit
Ensures P diverged = true ≡ false

pub Ensures-bind {ℓ κ} :
    {A : Type ℓ} {B : Type κ} (P : A → Type 0) (Q : B → Type 0) (o : Outcome A) (f : A → Outcome B)
    → Ensures P o
    → ((a : A) → P a → Ensures Q (f a))
    → Ensures Q (o >>= f)
Ensures-bind P Q (done a) f h k = k a h
Ensures-bind P Q assert_failed f h k = tt
Ensures-bind P Q diverged f h k = absurd (cc)

pub Ensures-if {ℓ} :
    {A : Type ℓ} (P : A → Type 0) (b : Bool) (x y : Outcome A)
    → Ensures P x
    → Ensures P y
    → Ensures P (if b then x else y)
Ensures-if P true x y hx hy = hx
Ensures-if P false x y hx hy = hy

-- The second branch may use what holds there.
pub Ensures-else {ℓ} :
    {A : Type ℓ} {R : Type 0} (P : A → Type 0) (b : Bool) (x y : Outcome A)
    → (if b then Unit {0} else R)
    → Ensures P x
    → (R → Ensures P y)
    → Ensures P (if b then x else y)
Ensures-else P true x y r hx hy = hx
Ensures-else P false x y r hx hy = hy r

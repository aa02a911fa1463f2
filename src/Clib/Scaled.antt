-- ===== src/Clib/Scaled.antt =====
-- The value that kernel/lib/src/stdlib.c gives for a string of decimal digits.
use frosty_os.Prelude.{
  ℕ, ◌+◌, ◌-◌, ◌*◌, ◌%◌, ◌≤◌, ◌≡◌, ◌∙◌, refl, ap, false, List, [], ◌∷◌, ◌==◌, arith, All, word,
}
use frosty_os.Clib.Numbers.{add_char, digits_from, negated, atol, strtoul}

-- The number that the digits write in front of which `value` was read.
pub decimal : (value : ℕ) → List ℕ → ℕ
decimal value [] = value
decimal value (c ∷ cs) = decimal (10 * value + (c - 48)) cs

abbrev pub IsDigit : ℕ → Type 0
IsDigit c = (48 ≤ c) × (c ≤ 57)

add_char-scaled :
    (v c : ℕ) → IsDigit c → add_char 64 (10 * v % word) c ≡ 10 * (10 * v + (c - 48)) % word
add_char-scaled v c h = omega (arith, h.0, h.1)

digits_from-scaled :
    (v : ℕ) (cs : List ℕ)
    → All IsDigit cs
    → digits_from 64 (10 * v % word) cs ≡ 10 * decimal v cs % word
unfolding digits_from decimal
digits_from-scaled v [] h = refl
digits_from-scaled v (c ∷ cs) h =
    ap (λ x. digits_from 64 x cs) (add_char-scaled v c h.0)
    ∙ digits_from-scaled (10 * v + (c - 48)) cs h.1

-- For a string of decimal digits `strtoul` and `atol` give ten times the number that it writes, and
-- `atol` with a minus in front the negative of that, all on 64 bits.
pub atol_lem :
    (c : ℕ) (cs : List ℕ)
    → All IsDigit (c ∷ cs)
    → (strtoul (c ∷ cs) ≡ 10 * decimal 0 (c ∷ cs) % word)
      × (atol (c ∷ cs) ≡ 10 * decimal 0 (c ∷ cs) % word)
      × (atol (45 ∷ c ∷ cs) ≡ negated 64 (10 * decimal 0 (c ∷ cs) % word))
atol_lem c cs h =
    let value = digits_from-scaled 0 (c ∷ cs) h in
    let unsigned : (c == 45) ≡ false = ground (arith, h.0) in
    (value, rw unsigned value, ap (negated 64) value)

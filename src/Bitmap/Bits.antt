-- ===== src/Bitmap/Bits.antt =====
-- The bit operations of Bitmap.cpp on one byte, checked over all bytes and bit positions.
use frosty_os.Prelude.{
  ℕ, zero, suc, ◌<◌, ◌≡◌, refl, Bool, true, false, ◌&&◌, arith, ltb, ◌==◌, if◌then◌else◌,
  Bool-cases, inl, inr,
}
use frosty_os.Bitmap.{set_bit, clear_bit, test_bit}

-- Whether a test accepts the numbers below `top`.
scan : (ℕ → Bool) → ℕ → Bool
scan test zero = true
scan test (suc top) = if test top then scan test top else false

scan-at : (test : ℕ → Bool) (top : ℕ) → scan test top ≡ true → {i : ℕ} → i < top → test i ≡ true
unfolding scan
scan-at test zero accepted {i} below = absurd (omega (arith, below))
scan-at test (suc top) accepted {i} below = elim (Bool-cases (test top)) [
  | inl e ↦ elim (Bool-cases (i == top)) [
    | inl last ↦ ground (arith, e, last)
    | inr other ↦ scan-at test top (ground (arith, accepted, e)) (ground (arith, other, below))
  ]
  | inr e ↦ ground (arith, accepted, e)
]

-- Equality of two truth values.
abbrev same : Bool → Bool → Bool
same true b = b
same false true = false
same false false = true

same-eq : (a b : Bool) → same a b ≡ true → a ≡ b
same-eq a b h = ground arith

-- What both writes do to a byte, at one byte and two bit positions.
byte_laws : ℕ → ℕ → ℕ → Bool
byte_laws x k j =
    ltb (set_bit x k) 256
    && ltb (clear_bit x k) 256
    && same (test_bit (set_bit x k) j) (if k == j then true else test_bit x j)
    && same (test_bit (clear_bit x k) j) (if k == j then false else test_bit x j)

byte_table : scan (λ x. scan (λ k. scan (byte_laws x k) 8) 8) 256 ≡ true
unfolding scan byte_laws set_bit clear_bit test_bit
byte_table = refl

byte_laws_hold : (x k j : ℕ) → x < 256 → k < 8 → j < 8 → byte_laws x k j ≡ true
byte_laws_hold x k j hx hk hj =
    scan-at (byte_laws x k) 8
      (scan-at (λ k. scan (byte_laws x k) 8) 8
        (scan-at (λ x. scan (λ k. scan (byte_laws x k) 8) 8) 256 byte_table hx) hk)
      hj

module _ (x k j : ℕ) (hx : x < 256) (hk : k < 8) (hj : j < 8) where
  pub byte_facts :
      (set_bit x k < 256)
      × (clear_bit x k < 256)
      × (test_bit (set_bit x k) j ≡ (if k == j then true else test_bit x j))
      × (test_bit (clear_bit x k) j ≡ (if k == j then false else test_bit x j))
  unfolding byte_laws
  byte_facts = ground (arith, byte_laws_hold x k j hx hk hj)

zero_table : scan (λ k. same (test_bit 0 k) false) 8 ≡ true
unfolding scan test_bit
zero_table = refl

pub test_bit-zero : (k : ℕ) → k < 8 → test_bit 0 k ≡ false
test_bit-zero k h =
    same-eq (test_bit 0 k) false (scan-at (λ k. same (test_bit 0 k) false) 8 zero_table h)

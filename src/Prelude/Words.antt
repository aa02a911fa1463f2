-- ===== src/Prelude/Words.antt =====
-- 64-bit unsigned arithmetic, with the wrap-around of `uint64_t`.
use Prim.Native.Nat.{ℕ, ◌+◌, ◌-◌, ◌*◌, ◌%◌, ◌^◌}

abbrev pub word : ℕ
word = 2 ^ 64

abbrev pub add64 : ℕ → ℕ → ℕ
add64 a b = (a + b) % word

abbrev pub sub64 : ℕ → ℕ → ℕ
sub64 a b = (a + word - b % word) % word

abbrev pub mul64 : ℕ → ℕ → ℕ
mul64 a b = (a * b) % word

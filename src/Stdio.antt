-- ===== src/Stdio.antt =====
-- The formatted output of kernel/lib/src/stdio.cpp: what its functions print, as the list of the
-- characters handed to `internal_fputc` or `snputc` in order. `int64_t` and `int` values that can
-- be negative are integers or, where they are printed, 64-bit words.
pub mod Number
pub mod Modes
pub mod Spec
pub mod Format
pub mod Buffer
mod Ends
mod Reading
mod Printed
mod Bounded
mod RoundTrip
mod Tests
use frosty_os.Prelude.{
  ℕ, ◌+◌, ◌-◌, ◌%◌, ◌^◌, Bool, true, false, List, [], ◌∷◌, ◌++◌, leb, ltb, if◌then◌else◌,
}

-- An `int`: `negsuc n` is `-(n + 1)`.
pub data ℤ : Type 0 where
  pos : ℕ → ℤ
  negsuc : ℕ → ℤ

-- The rounds of `for (int i = 0; i < n; i++)`.
abbrev pub to_nat : ℤ → ℕ
to_nat (pos n) = n
to_nat (negsuc n) = 0

-- The 32-bit word of an `int`, and the `int` of the low 32 bits of a word. Overflow of an `int` is
-- undefined in C; here it wraps, as the machine code does.
abbrev pub int_word : ℤ → ℕ
int_word (pos n) = n % 2 ^ 32
int_word (negsuc n) = 2 ^ 32 - 1 - n % 2 ^ 32

abbrev pub as_unsigned : ℕ → ℕ
as_unsigned arg = arg % 2 ^ 32

abbrev pub as_signed : ℕ → ℤ
as_signed arg =
    if ltb (as_unsigned arg) (2 ^ 31)
    then pos (as_unsigned arg)
    else negsuc (2 ^ 32 - as_unsigned arg - 1)

-- `z -= n`.
abbrev pub sub : ℤ → ℕ → ℤ
sub z n = as_signed (int_word z + 2 ^ 32 - n % 2 ^ 32)

-- `z > n`.
abbrev pub is_above : ℤ → ℕ → Bool
is_above z n = ltb n (to_nat z)

-- `z != 0`.
abbrev pub is_nonzero : ℤ → Bool
is_nonzero (pos n) = ltb 0 n
is_nonzero (negsuc n) = true

-- The macro `max`.
abbrev pub max : ℤ → ℤ → ℤ
max (pos m) (pos n) = pos (if ltb n m then m else n)
max (pos m) (negsuc n) = pos m
max (negsuc m) (pos n) = pos n
max (negsuc m) (negsuc n) = negsuc (if ltb m n then m else n)

-- ===== src/Clib/Numbers.antt =====
-- kernel/lib/src/stdlib.c, on the characters of a string. A `long` is its 64-bit word and an `int`
-- its 32-bit word; `rand` is left out.
use frosty_os.Prelude.{ℕ, ◌+◌, ◌-◌, ◌*◌, ◌%◌, ◌^◌, List, [], ◌∷◌, ◌==◌, if◌then◌else◌}

-- `value += c - '0'; value *= 10` on words of `w` bits.
abbrev pub add_char : (w value c : ℕ) → ℕ
add_char w value c = (value + c + 2 ^ w - 48) % 2 ^ w * 10 % 2 ^ w

unfoldable pub digits_from : (w value : ℕ) → List ℕ → ℕ
digits_from w value [] = value
digits_from w value (c ∷ cs) = digits_from w (add_char w value c) cs

-- `value *= -1`.
abbrev pub negated : (w value : ℕ) → ℕ
negated w value = (2 ^ w - value) % 2 ^ w

abbrev pub to_integer : (w : ℕ) → List ℕ → ℕ
to_integer w [] = 0
to_integer w (c ∷ cs) = if c == 45 then negated w (digits_from w 0 cs) else digits_from w 0 (c ∷ cs)

abbrev pub atoi : List ℕ → ℕ
atoi str = to_integer 32 str

abbrev pub atol : List ℕ → ℕ
atol str = to_integer 64 str

abbrev pub strtol : List ℕ → ℕ
strtol str = atol str

abbrev pub strtoul : List ℕ → ℕ
strtoul str = digits_from 64 0 str

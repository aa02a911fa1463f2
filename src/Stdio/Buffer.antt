-- ===== src/Stdio/Buffer.antt =====
-- `snputc` of kernel/lib/src/stdio.cpp, and the text of `vsnprintf` through it.
use frosty_os.Prelude.{
  ℕ, ◌-◌, ◌^◌, Bool, List, [], ◌∷◌, ◌==◌, ltb, if◌then◌else◌, add64, sub64, Outcome, done, ◌>>=◌,
}
use frosty_os.Stdio.{ℤ}
use frosty_os.Stdio.Number.{Style, print_uint, print_int}
use frosty_os.Stdio.Modes.{Printer}
use frosty_os.Stdio.Format.{vfprintf}

-- The memory of the buffer by index, and `current_size`.
pub record Writer : Type 0 where
  pub s : ℕ → ℕ
  pub current_size : ℕ

-- `snputc`
abbrev pub snputc : (max_size : ℕ) → ℕ → Writer → Writer
snputc max_size c w =
    if ltb w.current_size max_size
    then record {
      s = λ j. if j == w.current_size then c else w.s j;
      current_size = add64 w.current_size 1;
    }
    else w

-- The characters of a text in order.
unfoldable pub snputs : (max_size : ℕ) → List ℕ → Writer → Writer
snputs max_size [] w = w
snputs max_size (c ∷ cs) w = snputs max_size cs (snputc max_size c w)

-- What `vsnprintf` writes of the text that it formats: `n--`, the characters, and the terminating
-- character with the limit `SIZE_MAX`.
unfoldable pub write_text : (n : ℕ) → List ℕ → (ℕ → ℕ) → Writer
write_text n text s =
    snputc (2 ^ 64 - 1) 0 (snputs (sub64 n 1) text (record { s = s; current_size = 0 }))

-- `snprintf_uint` and `snprintf_int`.
abbrev pub snprintf_uint :
    (max_size : ℕ) → Style → (min_length min_digits : ℤ) → (num : ℕ) → Writer → Writer
snprintf_uint max_size s min_length min_digits num w =
    snputs max_size (print_uint s min_length min_digits num) w

abbrev pub snprintf_int :
    (max_size : ℕ)
    → Style
    → (force_sign pad_sign : Bool) → (min_length min_digits : ℤ) → (num : ℕ) → Writer
    → Writer
snprintf_int max_size s force_sign pad_sign min_length min_digits num w =
    snputs max_size (print_int s force_sign pad_sign min_length min_digits num) w

-- The text that was formatted, with the count that is returned, and the buffer.
pub record Formatted : Type 0 where
  pub printer : Printer
  pub writer : Writer

-- `vsnprintf`, whose loop is that of `vfprintf` with `snputc` for `internal_fputc`; its arguments do
-- not lie in the buffer, so that each character can be written when the text is complete.
unfoldable pub vsnprintf :
    (ℕ → List ℕ) → (n : ℕ) → (format args : List ℕ) → (ℕ → ℕ) → Outcome Formatted
vsnprintf string_at n format args s = vfprintf string_at format args >>= λ p.
    done (record { printer = p; writer = write_text n p.out s })

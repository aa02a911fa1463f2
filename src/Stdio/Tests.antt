-- ===== src/Stdio/Tests.antt =====
-- Formats of kernel/lib/src/stdio.cpp on concrete arguments.
use frosty_os.Prelude.{
  some, ℕ, ◌-◌, ◌%◌, ◌^◌, ◌≡◌, refl, true, false, List, [], ◌∷◌, ◌++◌, length, arith, Outcome,
}
use frosty_os.Stdio.{pos, negsuc}
use frosty_os.Stdio.Number.{Style, print_uint, print_int, digits, pad_left}
use frosty_os.Stdio.Modes.{Printer, add_digit}
use frosty_os.Stdio.Format.{vfprintf}
use frosty_os.Stdio.Buffer.{vsnprintf, write_text, snputs}
use frosty_os.Stdio.Reading.{read}
use frosty_os.Stdio.Ends.{Ensures}
use frosty_os.Stdio.RoundTrip.{hex, spec_radix, spec_upper, vfprintf-read}
use frosty_os.Stdio.Bounded.{Kept, vsnprintf_lem}

abbrev no_strings : ℕ → List ℕ
no_strings address = []

abbrev decimal_style : Style
decimal_style = record {
  radix = 10;
  padding_type = false;
  padding_orientation = false;
  uppercase = false;
}

-- A precision puts its zeros in front of the spaces of the width: `%6.3u` of 12.
zeros_before_spaces :
    print_uint decimal_style (pos 6) (pos 3) 12 ≡ b'0' ∷ b' ' ∷ b' ' ∷ b' ' ∷ b'1' ∷ b'2' ∷ []
unfolding print_uint digits pad_left
zeros_before_spaces = refl

-- With no width the precision is one: `%.3u` of 12.
precision_alone : print_uint decimal_style (pos 3) (pos 3) 12 ≡ b'0' ∷ b'1' ∷ b'2' ∷ []
unfolding print_uint digits pad_left
precision_alone = refl

-- The sign stands in front of the spaces: `%5d` of -12.
sign_before_spaces :
    print_int decimal_style false false (pos 5) (negsuc 0) (2 ^ 64 - 12)
    ≡ b'-' ∷ b' ' ∷ b' ' ∷ b'1' ∷ b'2' ∷ []
unfolding print_int print_uint digits pad_left
sign_before_spaces = refl

-- The flags `-` and `0` together fill up with zeros behind the number: `%-05u` of 12.
zeros_behind :
    print_uint
      (record decimal_style { padding_type = true; padding_orientation = true })
      (pos 5)
      (negsuc 0)
      12
    ≡ b'1' ∷ b'2' ∷ b'0' ∷ b'0' ∷ b'0' ∷ []
unfolding print_uint digits
zeros_behind = refl

-- The size 0 becomes 2⁶⁴ - 1, so that the text is written all the same.
size_zero : (write_text 0 (b'A' ∷ []) (λ j. 9)).s 0 ≡ b'A'
unfolding write_text snputs
size_zero = refl

-- Digits of a width past 2^31 wrap to a negative width.
wide : add_digit (pos 214748364) b'8' ≡ negsuc (2 ^ 31 - 1)
wide = refl

abbrev a_format : List ℕ
a_format = b'a' ∷ b'%' ∷ b'-' ∷ b'5' ∷ b'd' ∷ []

vfprintf-read_example :
    (text : List ℕ) × (p : Printer) × (vfprintf no_strings
        ((b'a' ∷ []) ++ (b'%' ∷ b'x' ∷ (b'z' ∷ [])))
        (255 ∷ 3 ∷ [])
      ≡ Outcome.done p)
    × (p.out ≡ (b'a' ∷ []) ++ (text ++ (b'z' ∷ [])))
    × (p.symbols_printed ≡ length p.out % 2 ^ 32)
    × (p.stores ≡ [])
    × (p.args ≡ 3 ∷ [])
    × (read (spec_radix hex) (spec_upper hex) text ≡ some (255 % 2 ^ 32))
vfprintf-read_example =
    vfprintf-read no_strings hex (b'a' ∷ []) (b'z' ∷ []) 255 (3 ∷ []) (refl, tt) (refl, tt)

vsnprintf_lem_example :
    Ensures (λ r. Kept 4 (λ j. 9) r) (vsnprintf no_strings 4 a_format (7 ∷ []) (λ j. 9))
vsnprintf_lem_example =
    vsnprintf_lem no_strings 4 a_format (7 ∷ []) (λ j. 9) (omega arith) (omega arith)
      (refl, (refl, (refl, (refl, (refl, tt)))))

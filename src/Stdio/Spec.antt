-- ===== src/Stdio/Spec.antt =====
-- The mode of `vfprintf` of kernel/lib/src/stdio.cpp that prints a conversion. `string_at` gives the
-- characters in front of the terminating one at an address.
use frosty_os.Prelude.{
  ℕ, zero, suc, ◌%◌, ◌^◌, Bool, true, false, ◌||◌, List, [], ◌∷◌, ◌++◌, ◌==◌, if◌then◌else◌, length,
  replicate, Outcome, done, assert_failed, ◌>>=◌,
}
use frosty_os.Stdio.{as_unsigned, ℤ, pos, to_nat, sub, is_above, max}
use frosty_os.Stdio.Number.{Style, print_uint, print_int}
use frosty_os.Stdio.Modes.{
  Conversion, Printer, PrintfLength, Step, emit, fresh, l_char, l_ldoub, l_long, l_normal, l_short,
  next, normal, sign_extended, va_arg,
}

-- A conversion of a number.
abbrev pub integer : (radix : ℕ) → (sign upper : Bool) → Conversion → Conversion
integer radix sign upper conv = record (conv) {
  radix = radix;
  number = true;
  sign = sign;
  upper = upper;
  floating = false;
}

abbrev pub float : (radix : ℕ) → (upper : Bool) → Conversion → Conversion
float radix upper conv = record (conv) {
  radix = radix;
  number = true;
  sign = true;
  upper = upper;
  floating = true;
}

-- What the specifier `c` sets; the others set nothing.
abbrev pub specified : ℕ → Conversion → Conversion
specified c conv =
    if (c == b'd') || (c == b'i')
    then integer 10 true conv.upper conv
    else (if c == b'u'
        then integer 10 false conv.upper conv
        else (if c == b'o'
            then integer 8 false conv.upper conv
            else (if c == b'p'
                then integer 16 false false (record (conv) { len = l_long })
                else (if c == b'x'
                    then integer 16 false false conv
                    else (if c == b'X'
                        then integer 16 false true conv
                        else (if (c == b'f') || ((c == b'e') || (c == b'g'))
                            then float 10 false conv
                            else (if (c == b'F') || ((c == b'E') || (c == b'G'))
                                then float 10 true conv
                                else (if c == b'a'
                                    then float 16 false conv
                                    else (if c == b'A' then float 16 true conv else conv)))))))))

abbrev pub take : ℕ → List ℕ → List ℕ
take zero cs = []
take (suc n) [] = []
take (suc n) (c ∷ cs) = c ∷ take n cs

-- The characters of a string that `%s` prints.
abbrev pub string_text : ℤ → List ℕ → List ℕ
string_text precision str = if is_above precision 0 then take (to_nat precision) str else str

-- `%s`: the characters, counted off the width, and spaces for what is left of it.
abbrev pub print_string : List ℕ → Printer → Outcome Printer
print_string str p =
    let text = string_text p.conv.precision str in
    let width = sub p.conv.width (length text) in
    done (record (emit (text ++ replicate (to_nat width) 32) p) {
      conv = record (p.conv) { width = width };
    })

abbrev pub store_count : ℕ → Printer → Outcome Printer
store_count address p = done (record (p) {
  stores =
      p.stores ++ (record { address = address; len = p.conv.len; count = p.symbols_printed } ∷ []);
})

-- `%c`: the `int` becomes a `char`.
abbrev pub print_char : ℕ → Printer → Outcome Printer
print_char arg p = done (emit ((arg % 2 ^ 8) ∷ []) p)

module _ (string_at : ℕ → List ℕ) where
  abbrev pub print_string_at : ℕ → Printer → Outcome Printer
  print_string_at arg p = print_string (string_at arg) p

  -- The specifiers that print at once or read an argument that is no number.
  abbrev pub print_spec : ℕ → Printer → Outcome Printer
  print_spec c p =
      if c == b'c'
      then va_arg p print_char
      else (if c == b's'
          then va_arg p print_string_at
          else (if c == b'n'
              then va_arg p store_count
              else (if c == b'%' then done (emit (b'%' ∷ []) p) else done p)))

-- `width -= n`, and 0 where that is negative.
abbrev pub narrower : ℕ → Conversion → Conversion
narrower n conv = record (conv) { width = pos (to_nat (sub conv.width n)) }

-- The prefix of the flag `#`.
abbrev pub print_prefix : Printer → Printer
print_prefix p =
    if p.conv.flags_extra
    then (if p.conv.radix == 16
        then record (emit (48 ∷ (if p.conv.upper then 88 else 120) ∷ []) p) {
          conv = narrower 2 p.conv;
        }
        else (if p.conv.radix == 8
            then record (emit (48 ∷ []) p) { conv = narrower 1 p.conv }
            else p))
    else p

abbrev pub style_of : Conversion → Style
style_of conv = record {
  radix = conv.radix;
  padding_type = conv.zero_pad;
  padding_orientation = conv.left_justify;
  uppercase = conv.upper;
}

-- Whether `va_arg` reads an `int` for this length.
abbrev pub is_int : PrintfLength → Bool
is_int l_char = true
is_int l_short = true
is_int l_normal = true
is_int l_ldoub = true
is_int other = false

abbrev pub number_out : Conversion → ℕ → List ℕ
number_out conv arg =
    let min_length = max conv.width conv.precision in
    if conv.sign
    then print_int (style_of conv) conv.force_sign conv.add_blank min_length conv.precision
        (if is_int conv.len then sign_extended arg else arg)
    else print_uint (style_of conv) min_length conv.precision
        (if is_int conv.len then as_unsigned arg else arg)

abbrev pub print_arg : ℕ → Printer → Outcome Printer
print_arg arg p = done (emit (number_out p.conv arg) p)

-- The number, for which `assert(false)` stands where it is a floating one.
abbrev pub print_number : Printer → Outcome Printer
print_number p =
    if p.conv.number
    then (if p.conv.floating then assert_failed else va_arg p print_arg)
    else done p

-- The end of a conversion.
abbrev pub finished : Printer → Outcome Step
finished p = next (record (p) { mode = normal; conv = fresh })

module _ (string_at : ℕ → List ℕ) where
  unfoldable pub step_spec : ℕ → Printer → Outcome Step
  step_spec c p =
      print_spec string_at c (record (p) { conv = specified c p.conv })
      >>= (λ q. print_number (print_prefix q))
      >>= finished

-- ===== src/Stdio/Number.antt =====
-- `fprintf_uint` and `fprintf_int` of kernel/lib/src/stdio.cpp, and their copies `snprintf_uint` and
-- `snprintf_int`, which differ in the function that takes a character. Each character that is
-- printed adds one to `chars_printed`, so the count that is returned is the length of the text.
use frosty_os.Prelude.{
  ℕ, zero, suc, ◌+◌, ◌-◌, ◌%◌, ◌/◌, ◌^◌, Bool, ◌||◌, List, [], ◌∷◌, ◌++◌, ◌==◌, ltb, leb,
  if◌then◌else◌, length, replicate, sub64,
}
use frosty_os.Stdio.{ℤ, to_nat, sub, is_above, is_nonzero}

-- `g_HexCharsLOWER` and `g_HexCharsUPPER`.
abbrev pub digit_char : (uppercase : Bool) → ℕ → ℕ
digit_char uppercase d =
    if ltb d 10 then 48 + d else (if uppercase then 65 + (d - 10) else 97 + (d - 10))

-- The flags that both functions take.
pub record Style : Type 0 where
  pub radix : ℕ
  pub padding_type : Bool
  pub padding_orientation : Bool
  pub uppercase : Bool

module _ (radix : ℕ) (uppercase : Bool) where
  -- The `do` loop: the digits in the order of `buffer`, the lowest first. `fuel` bounds the digits;
  -- `buffer` holds 64.
  unfoldable pub digits : (fuel num : ℕ) → List ℕ
  digits zero num = []
  digits (suc fuel) num =
      let rest = digits fuel (num / radix) in
      digit_char uppercase (num % radix) ∷ (if num / radix == 0 then [] else rest)

-- `for (pos--; pos >= 0; pos--)`: the buffer from its end.
abbrev pub reversed : List ℕ → List ℕ
reversed [] = []
reversed (c ∷ cs) = reversed cs ++ (c ∷ [])

abbrev pub number_text : Style → ℕ → List ℕ
number_text s num = reversed (digits s.radix s.uppercase 64 num)

-- The character that fills up to `min_length`.
abbrev pub pad_char : Bool → ℕ
pad_char padding_type = if padding_type then 48 else 32

-- The loop before the number: `n` rounds, `min_digits` counted down where it prints a zero.
unfoldable pub pad_left : (padding_type : Bool) → (n : ℕ) → ℤ → List ℕ
pad_left padding_type zero min_digits = []
pad_left padding_type (suc n) min_digits =
    let is_zero = padding_type || is_above min_digits 0 in
    (if is_zero then 48 else 32)
    ∷ pad_left padding_type n (if is_zero then sub min_digits 1 else min_digits)

-- The branch `num == 0`.
abbrev pub zero_text : Style → (min_length min_digits : ℤ) → List ℕ
zero_text s min_length min_digits =
    if is_above min_length 1
    then (if s.padding_orientation
        then (let zeros = to_nat min_digits in
            let last = if is_nonzero min_digits then 1 else 0 in
            replicate (zeros + last) 48
            ++ replicate (to_nat (sub min_length (zeros + last))) (pad_char s.padding_type))
        else (if is_nonzero min_digits
            then pad_left s.padding_type (to_nat (sub min_length 1)) (sub min_digits 1) ++ (48 ∷ [])
            else pad_left s.padding_type (to_nat min_length) min_digits))
    else (if is_nonzero min_digits then 48 ∷ [] else [])

-- The rest, with the number's own characters `text`.
abbrev pub padded_text : Style → (min_length min_digits : ℤ) → List ℕ → List ℕ
padded_text s min_length min_digits text =
    let n = length text in
    if is_above min_length n
    then (if s.padding_orientation
        then (let zeros = to_nat (sub min_digits n) in
            replicate zeros 48
            ++ (text
                ++ replicate (to_nat (sub (sub min_length n) zeros)) (pad_char s.padding_type)))
        else pad_left s.padding_type (to_nat (sub min_length n)) (sub min_digits n) ++ text)
    else text

-- `fprintf_uint`
unfoldable pub print_uint : Style → (min_length min_digits : ℤ) → (num : ℕ) → List ℕ
print_uint s min_length min_digits num =
    if num == 0
    then zero_text s min_length min_digits
    else padded_text s min_length min_digits (number_text s num)

-- `num < 0` for the word of an `int64_t`.
abbrev pub is_negative : ℕ → Bool
is_negative num = leb (2 ^ 63) num

-- The character of the sign, if one is printed: `-`, `+` or a space.
abbrev pub sign_text : (force_sign pad_sign : Bool) → (num : ℕ) → List ℕ
sign_text force_sign pad_sign num =
    if is_negative num
    then 45 ∷ []
    else (if force_sign then 43 ∷ [] else (if pad_sign then 32 ∷ [] else []))

-- `num *= -1` where the number is negative.
abbrev pub magnitude : ℕ → ℕ
magnitude num = if is_negative num then sub64 0 num else num

-- `fprintf_int`
unfoldable pub print_int :
    Style → (force_sign pad_sign : Bool) → (min_length min_digits : ℤ) → (num : ℕ) → List ℕ
print_int s force_sign pad_sign min_length min_digits num =
    let sign = sign_text force_sign pad_sign num in
    sign ++ print_uint s (sub min_length (length sign)) min_digits (magnitude num)

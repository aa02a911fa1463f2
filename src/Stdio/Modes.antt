-- ===== src/Stdio/Modes.antt =====
-- The state of `vfprintf` of kernel/lib/src/stdio.cpp and the modes that read a conversion. The text
-- goes out as a list; `va_list` is the list of the 64-bit argument slots. Reading past the
-- arguments is undefined in C and is `assert_failed` here. `use_shortest` and `scientific` are set
-- and not read, and left out.
use frosty_os.Prelude.{
  ℕ, ◌+◌, ◌-◌, ◌*◌, ◌%◌, ◌^◌, Bool, true, false, ◌&&◌, List, [], ◌∷◌, ◌++◌, ◌==◌, ltb, leb,
  if◌then◌else◌, length, Outcome, done, assert_failed,
}
use frosty_os.Stdio.{ℤ, pos, negsuc, int_word, as_unsigned, as_signed}

-- `PRINTF_MODES` and `PRINTF_LENGTH`.
pub data PrintfMode : Type 0 where
  normal : PrintfMode
  flags : PrintfMode
  width_mode : PrintfMode
  prec : PrintfMode
  len_mode : PrintfMode
  spec : PrintfMode

pub data PrintfLength : Type 0 where
  l_char : PrintfLength
  l_short : PrintfLength
  l_normal : PrintfLength
  l_long : PrintfLength
  l_long_long : PrintfLength
  l_intmax : PrintfLength
  l_sizet : PrintfLength
  l_ptrdifft : PrintfLength
  l_ldoub : PrintfLength

-- What is read of one conversion.
pub record Conversion : Type 0 where
  pub radix : ℕ
  pub len : PrintfLength
  pub sign : Bool
  pub left_justify : Bool
  pub force_sign : Bool
  pub add_blank : Bool
  pub flags_extra : Bool
  pub zero_pad : Bool
  pub number : Bool
  pub upper : Bool
  pub floating : Bool
  pub width : ℤ
  pub precision : ℤ

abbrev pub fresh : Conversion
fresh = record {
  radix = 10;
  len = l_normal;
  sign = false;
  left_justify = false;
  force_sign = false;
  add_blank = false;
  flags_extra = false;
  zero_pad = false;
  number = false;
  upper = false;
  floating = false;
  width = pos 0;
  precision = negsuc 0;
}

-- A store of `%n`: the count as it is at that point, at an address, in the width of `len`. What the
-- address hits is not known here, so that the stores are kept in their order.
pub record Store : Type 0 where
  pub address : ℕ
  pub len : PrintfLength
  pub count : ℕ

-- The locals of `vfprintf`; `out` is the text so far, `symbols_printed` the word of the `int` that counts
-- it, and `stores` what `%n` wrote.
pub record Printer : Type 0 where
  pub mode : PrintfMode
  pub conv : Conversion
  pub args : List ℕ
  pub out : List ℕ
  pub symbols_printed : ℕ
  pub stores : List Store

-- `gotoNextChar`, with the state.
pub record Step : Type 0 where
  pub goto_next_char : Bool
  pub printer : Printer

abbrev pub next : Printer → Outcome Step
next p = done (record { goto_next_char = true; printer = p })

-- The same character in another mode.
abbrev pub again : PrintfMode → Printer → Outcome Step
again mode p = done (record { goto_next_char = false; printer = record (p) { mode = mode } })

abbrev pub set_conv : Conversion → Printer → Outcome Step
set_conv conv p = next (record (p) { conv = conv })

abbrev pub emit : List ℕ → Printer → Printer
emit text p = record (p) {
  out = p.out ++ text;
  symbols_printed = (p.symbols_printed + length text) % 2 ^ 32;
}

-- `va_arg`: what follows reads the slot.
abbrev pub va_arg : {A : Type 0} → Printer → (ℕ → Printer → Outcome A) → Outcome A
va_arg p f = elim (p.args) [ [] ↦ assert_failed | arg ∷ rest ↦ f arg (record (p) { args = rest }) ]

-- A slot read as a `signed int`, as the word of an `int64_t`.
abbrev pub sign_extended : ℕ → ℕ
sign_extended arg =
    if ltb (as_unsigned arg) (2 ^ 31) then as_unsigned arg else as_unsigned arg + (2 ^ 64 - 2 ^ 32)

abbrev pub is_digit : ℕ → Bool
is_digit c = leb b'0' c && leb c b'9'

-- `width *= 10; width += c - '0'`.
abbrev pub add_digit : ℤ → ℕ → ℤ
add_digit z c = as_signed (10 * int_word z + (c - 48))

unfoldable pub step_normal : ℕ → Printer → Outcome Step
step_normal c p = if c == b'%' then next (record (p) { mode = flags }) else next (emit (c ∷ []) p)

unfoldable pub step_flags : ℕ → Printer → Outcome Step
step_flags c p =
    if c == b'-'
    then set_conv (record (p.conv) { left_justify = true }) p
    else (if c == b'+'
        then set_conv (record (p.conv) { force_sign = true }) p
        else (if c == b' '
            then set_conv (record (p.conv) { add_blank = true }) p
            else (if c == b'#'
                then set_conv (record (p.conv) { flags_extra = true }) p
                else (if c == b'0'
                    then set_conv (record (p.conv) { zero_pad = true }) p
                    else again width_mode p))))

-- `*`: the width, or the precision, is an argument.
abbrev pub read_width : ℕ → Printer → Outcome Step
read_width arg q =
    next (record (q) { mode = len_mode; conv = record (q.conv) { width = as_signed arg } })

abbrev pub read_precision : ℕ → Printer → Outcome Step
read_precision arg q =
    next (record (q) { mode = len_mode; conv = record (q.conv) { precision = as_signed arg } })

unfoldable pub step_width : ℕ → Printer → Outcome Step
step_width c p =
    if c == b'*'
    then va_arg p read_width
    else (if is_digit c
        then set_conv (record (p.conv) { width = add_digit p.conv.width c }) p
        else again len_mode p)

unfoldable pub step_prec : ℕ → Printer → Outcome Step
step_prec c p =
    if c == b'*'
    then va_arg p read_precision
    else (if is_digit c
        then set_conv (record (p.conv) { precision = add_digit p.conv.precision c }) p
        else again len_mode p)

abbrev pub set_len : PrintfLength → Printer → Outcome Step
set_len len p = set_conv (record (p.conv) { len = len }) p

-- `h` and `l`, a second time.
abbrev pub shorter : PrintfLength → PrintfLength
shorter l_short = l_char
shorter other = l_short

abbrev pub longer : PrintfLength → PrintfLength
longer l_long = l_long_long
longer other = l_long

-- `precision == -1`.
abbrev pub is_unset : ℤ → Bool
is_unset (pos n) = false
is_unset (negsuc n) = n == 0

unfoldable pub step_len : ℕ → Printer → Outcome Step
step_len c p =
    if c == b'.'
    then (if is_unset p.conv.precision
        then next (record (p) { mode = prec; conv = record (p.conv) { precision = pos 0 } })
        else assert_failed)
    else (if c == b'h'
        then set_len (shorter p.conv.len) p
        else (if c == b'l'
            then set_len (longer p.conv.len) p
            else (if c == b'j'
                then set_len l_intmax p
                else (if c == b'z'
                    then set_len l_sizet p
                    else (if c == b't'
                        then set_len l_ptrdifft p
                        else (if c == b'L' then set_len l_ldoub p else again spec p))))))

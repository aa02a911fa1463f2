-- ===== src/Stdio/RoundTrip.antt =====
-- A number in the middle of a text, printed by `vfprintf` of kernel/lib/src/stdio.cpp.
use frosty_os.Prelude.{
  some, ℕ, ◌+◌, ◌%◌, ◌^◌, ◌≡◌, inl, inr, refl, sym, ap, ◌∙◌, Bool, true, false, List, [], ◌∷◌, ◌++◌,
  append_assoc, append-nil, ◌==◌, length, length-append, arith, All, done, assert_failed, diverged,
  ◌>>=◌,
}
use frosty_os.Stdio.{as_unsigned, pos, negsuc}
use frosty_os.Stdio.Number.{print_uint}
use frosty_os.Stdio.Modes.{normal, Printer, fresh, step_normal, step_flags, step_width, step_len}
use frosty_os.Stdio.Spec.{step_spec, style_of, specified}
use frosty_os.Stdio.Format.{run_format, step_char, vfprintf}
use frosty_os.Stdio.Reading.{read, print_uint_lem}

-- The specifiers of unsigned numbers.
pub data UnsignedSpec : Type 0 where
  decimal : UnsignedSpec
  octal : UnsignedSpec
  hex : UnsignedSpec
  upper_hex : UnsignedSpec

abbrev pub spec_char : UnsignedSpec → ℕ
spec_char decimal = b'u'
spec_char octal = b'o'
spec_char hex = b'x'
spec_char upper_hex = b'X'

abbrev pub spec_radix : UnsignedSpec → ℕ
spec_radix decimal = 10
spec_radix octal = 8
spec_radix hex = 16
spec_radix upper_hex = 16

abbrev pub spec_upper : UnsignedSpec → Bool
spec_upper upper_hex = true
spec_upper other = false

-- A text with no `%`.
abbrev pub Plain : List ℕ → Type 0
Plain text = All (λ c. (c == b'%') ≡ false) text

-- Between two conversions.
abbrev pub ready : (args out : List ℕ) → Printer
ready args out = record {
  mode = normal;
  conv = fresh;
  args = args;
  out = out;
  symbols_printed = length out % 2 ^ 32;
  stores = [];
}

-- The count goes up with the text.
counted_on :
    (out text : List ℕ)
    → (length out % 2 ^ 32 + length text) % 2 ^ 32 ≡ length (out ++ text) % 2 ^ 32
counted_on out text = omega (arith, length-append out text)

-- The state after `text` went out
abbrev after_text : (args out text : List ℕ) → Printer
after_text args out text = record (ready args (out ++ text)) {
  symbols_printed = (length out % 2 ^ 32 + length text) % 2 ^ 32;
}

after_text-ready : (args out text : List ℕ) → after_text args out text ≡ ready args (out ++ text)
after_text-ready args out text =
    ap (λ n. record (ready args (out ++ text)) { symbols_printed = n }) (counted_on out text)

module _ (string_at : ℕ → List ℕ) where
  run_format-append :
      (xs ys : List ℕ) (p : Printer)
      → run_format string_at (xs ++ ys) p ≡ (run_format string_at xs p >>= run_format string_at ys)
  unfolding run_format
  run_format-append [] ys p = refl
  run_format-append (c ∷ xs) ys p =
      elim (step_char string_at 4 c p)
        as (λ o.
          (o >>= λ q. run_format string_at (xs ++ ys) q)
          ≡ ((o >>= λ q. run_format string_at xs q) >>= run_format string_at ys)) [
            | done q ↦ run_format-append xs ys q
            | assert_failed ↦ refl
            | diverged ↦ refl
          ]

  run_format-Plain :
      (text args out : List ℕ)
      → Plain text
      → run_format string_at text (ready args out) ≡ done (ready args (out ++ text))
  unfolding run_format step_char step_normal
  run_format-Plain [] args out h = ap (λ o. done (ready args o)) (sym (append-nil out))
  run_format-Plain (c ∷ text) args out (plain, h) = rw plain (
      ap (run_format string_at text) (after_text-ready args out (c ∷ []))
      ∙ run_format-Plain text args (out ++ (c ∷ [])) h
      ∙ ap (λ o. done (ready args o)) (append_assoc out (c ∷ []) text))

  abbrev spec_text : UnsignedSpec → ℕ → List ℕ
  spec_text u arg =
      print_uint (style_of (specified (spec_char u) fresh)) (pos 0) (negsuc 0) (as_unsigned arg)

  converted :
      (u : UnsignedSpec) (arg : ℕ) (args out : List ℕ)
      → run_format string_at (b'%' ∷ spec_char u ∷ []) (ready (arg ∷ args) out)
        ≡ done (after_text args out (spec_text u arg))
  unfolding run_format step_char step_normal step_flags step_width step_len step_spec
  converted decimal arg args out = refl
  converted octal arg args out = refl
  converted hex arg args out = refl
  converted upper_hex arg args out = refl

  run_format-spec :
      (u : UnsignedSpec) (arg : ℕ) (args out : List ℕ)
      → run_format string_at (b'%' ∷ spec_char u ∷ []) (ready (arg ∷ args) out)
        ≡ done (ready args (out ++ spec_text u arg))
  run_format-spec u arg args out =
      converted u arg args out ∙ ap done (after_text-ready args out (spec_text u arg))

  spec_text-read :
      (u : UnsignedSpec) (arg : ℕ)
      → read (spec_radix u) (spec_upper u) (spec_text u arg) ≡ some (as_unsigned arg)
  spec_text-read decimal arg = print_uint_lem _ _ (inr (inl refl)) (omega arith)
  spec_text-read octal arg = print_uint_lem _ _ (inl refl) (omega arith)
  spec_text-read hex arg = print_uint_lem _ _ (inr (inr refl)) (omega arith)
  spec_text-read upper_hex arg = print_uint_lem _ _ (inr (inr refl)) (omega arith)

-- A format of two texts with no `%` and `%u`, `%o`, `%x` or `%X` between them: `vfprintf` prints the
-- first text, then the numeral of the argument's low 32 bits in the specifier's base and case, which
-- has digits only and no zero in front of another digit, then the second text; it returns the length
-- of it all modulo 2^32, makes no store and leaves the other arguments.
pub vfprintf-read :
    (string_at : ℕ → List ℕ) (u : UnsignedSpec) (before after : List ℕ) (arg : ℕ) (args : List ℕ)
    → Plain before
    → Plain after
    → (text : List ℕ) × (p : Printer) × (vfprintf string_at
          (before ++ (b'%' ∷ spec_char u ∷ after))
          (arg ∷ args)
        ≡ done p)
      × (p.out ≡ before ++ (text ++ after))
      × (p.symbols_printed ≡ length p.out % 2 ^ 32)
      × (p.stores ≡ [])
      × (p.args ≡ args)
      × (read (spec_radix u) (spec_upper u) text ≡ some (arg % 2 ^ 32))
unfolding vfprintf
vfprintf-read string_at u before after arg args plain_before plain_after =
    let text = spec_text string_at u arg in
    (
      text,
      ready args ((before ++ text) ++ after),
      run_format-append string_at before (b'%' ∷ spec_char u ∷ after) (ready (arg ∷ args) [])
          ∙ ap (λ o. o >>= run_format string_at (b'%' ∷ spec_char u ∷ after))
              (run_format-Plain string_at before (arg ∷ args) [] plain_before)
          ∙ run_format-append string_at (b'%' ∷ spec_char u ∷ []) after (ready (arg ∷ args) before)
          ∙ ap (λ o. o >>= run_format string_at after) (run_format-spec string_at u arg args before)
          ∙ run_format-Plain string_at after args (before ++ text) plain_after,
      append_assoc before text after,
      refl,
      refl,
      refl,
      spec_text-read string_at u arg,
    )

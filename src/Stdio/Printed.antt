-- ===== src/Stdio/Printed.antt =====
-- The loop of `vfprintf` of kernel/lib/src/stdio.cpp ends, and counts what it prints.
use frosty_os.Prelude.{
  ℕ, zero, suc, ◌%◌, ◌^◌, ◌≤◌, ◌<◌, ◌≡◌, refl, Bool, true, false, List, [], ◌∷◌, ◌++◌, ◌==◌,
  if◌then◌else◌, length, length-append, arith, Outcome, All, Bool-cases, inl, inr, done,
  assert_failed, replicate,
}
use frosty_os.Stdio.{to_nat, sub}
use frosty_os.Stdio.Ends.{Ensures, Ensures-bind, Ensures-if, Ensures-else}
use frosty_os.Stdio.Modes.{
  PrintfMode, normal, flags, width_mode, prec, len_mode, spec, Printer, Store, Step, emit, va_arg,
  step_normal, step_flags, step_width, step_prec, step_len, is_digit, is_unset, read_width,
  read_precision,
}
use frosty_os.Stdio.Spec.{
  step_spec, print_spec, print_number, print_prefix, finished, specified, store_count, string_text,
  number_out, print_arg, print_char, print_string_at, narrower,
}
use frosty_os.Stdio.Format.{step, step_char, run_format, vfprintf}

-- No store was made, where the format is known to have no character `n`.
abbrev pub Quiet : (no_n : Bool) → List Store → Type 0
Quiet true stores = stores ≡ []
Quiet false stores = Unit

abbrev pub NotN : (no_n : Bool) → ℕ → Type 0
NotN true c = (c == b'n') ≡ false
NotN false c = Unit

-- `symbols_printed` is the number of the characters that went out, as a 32-bit word.
abbrev pub Counted : (no_n : Bool) → Printer → Type 0
Counted no_n p = (p.symbols_printed ≡ length p.out % 2 ^ 32) × Quiet no_n p.stores

stored :
    (no_n : Bool) (c : ℕ) (stores : List Store)
    → NotN no_n c
    → (c == b'n') ≡ true
    → Quiet no_n stores
stored true c stores n e = absurd (ground (arith, n, e))
stored false c stores n e = tt

-- How many rounds a mode takes for one character at most.
abbrev rounds : PrintfMode → ℕ
rounds normal = 1
rounds spec = 1
rounds len_mode = 2
rounds prec = 3
rounds width_mode = 3
rounds flags = 4

rounds-bounds : (m : PrintfMode) → (0 < rounds m) × (rounds m ≤ 4)
rounds-bounds normal = omega arith
rounds-bounds flags = omega arith
rounds-bounds width_mode = omega arith
rounds-bounds prec = omega arith
rounds-bounds len_mode = omega arith
rounds-bounds spec = omega arith

module _ (no_n : Bool) where
  abbrev Out : Printer → Type 0
  Out p = Counted no_n p

  -- A step goes to the next character, or to a mode that is nearer to the end.
  abbrev Progress : PrintfMode → Step → Type 0
  Progress m s =
      Out s.printer × (if s.goto_next_char then Unit {0} else rounds s.printer.mode < rounds m)

  emit-Counted : (text : List ℕ) (p : Printer) → Out p → Out (emit text p)
  emit-Counted text p h = (omega (arith, h.0, length-append p.out text), h.1)

  va_arg-Ensures :
      {A : Type 0} (P : A → Type 0) (p : Printer) (f : ℕ → Printer → Outcome A)
      → Out p
      → ((arg : ℕ) (q : Printer) → Out q → Ensures P (f arg q))
      → Ensures P (va_arg p f)
  va_arg-Ensures P p f h k =
      elim (p.args)
        as (λ l.
          Ensures P
            (elim l [ [] ↦ assert_failed | arg ∷ rest ↦ f arg (record (p) { args = rest }) ])) [
              | [] ↦ tt
              | arg ∷ rest ↦ k arg (record (p) { args = rest }) h
            ]

  normal-Progress : (c : ℕ) (p : Printer) → Out p → Ensures (Progress normal) (step_normal c p)
  unfolding step_normal
  normal-Progress c p h =
      Ensures-if (Progress normal) (c == b'%') _ _ (h, tt) (emit-Counted (c ∷ []) p h, tt)

  flags-Progress : (c : ℕ) (p : Printer) → Out p → Ensures (Progress flags) (step_flags c p)
  unfolding step_flags
  flags-Progress c p h =
      let P = Progress flags in
      Ensures-if P (c == b'-') _ _ (h, tt)
        (Ensures-if P (c == b'+') _ _ (h, tt)
          (Ensures-if P (c == b' ') _ _ (h, tt)
            (Ensures-if P (c == b'#') _ _ (h, tt)
              (Ensures-if P (c == b'0') _ _ (h, tt) (h, omega arith)))))

  width-Progress : (c : ℕ) (p : Printer) → Out p → Ensures (Progress width_mode) (step_width c p)
  unfolding step_width
  width-Progress c p h =
      let P = Progress width_mode in
      Ensures-if P (c == b'*') _ _
        (va_arg-Ensures P p read_width h (λ arg q counted. (counted, tt)))
        (Ensures-if P (is_digit c) _ _ (h, tt) (h, omega arith))

  prec-Progress : (c : ℕ) (p : Printer) → Out p → Ensures (Progress prec) (step_prec c p)
  unfolding step_prec
  prec-Progress c p h =
      let P = Progress prec in
      Ensures-if P (c == b'*') _ _
        (va_arg-Ensures P p read_precision h (λ arg q counted. (counted, tt)))
        (Ensures-if P (is_digit c) _ _ (h, tt) (h, omega arith))

  len-Progress : (c : ℕ) (p : Printer) → Out p → Ensures (Progress len_mode) (step_len c p)
  unfolding step_len
  len-Progress c p h =
      let P = Progress len_mode in
      Ensures-if P (c == b'.') _ _ (Ensures-if P (is_unset p.conv.precision) _ _ (h, tt) tt) (
        Ensures-if P (c == b'h') _ _ (h, tt)
          (Ensures-if P (c == b'l') _ _ (h, tt)
            (Ensures-if P (c == b'j') _ _ (h, tt)
              (Ensures-if P (c == b'z') _ _ (h, tt)
                (Ensures-if P (c == b't') _ _ (h, tt)
                  (Ensures-if P (c == b'L') _ _ (h, tt) (h, omega arith)))))))

  Counted-if : (b : Bool) (x y : Printer) → Out x → Out y → Out (if b then x else y)
  Counted-if true x y hx hy = hx
  Counted-if false x y hx hy = hy

  print_prefix-Counted : (p : Printer) → Out p → Out (print_prefix p)
  print_prefix-Counted p h =
      Counted-if p.conv.flags_extra _ p
        (Counted-if (p.conv.radix == 16)
          (record (emit (48 ∷ (if p.conv.upper then 88 else 120) ∷ []) p) {
            conv = narrower 2 p.conv;
          })
          _ (emit-Counted (48 ∷ (if p.conv.upper then 88 else 120) ∷ []) p h)
          (Counted-if (p.conv.radix == 8) (record (emit (48 ∷ []) p) { conv = narrower 1 p.conv }) p
            (emit-Counted (48 ∷ []) p h) h))
        h

  print_number-Counted : (p : Printer) → Out p → Ensures Out (print_number p)
  print_number-Counted p h =
      let read = va_arg p print_arg in
      Ensures-if Out p.conv.number (if p.conv.floating then assert_failed else read) (done p)
        (Ensures-if Out p.conv.floating assert_failed read tt (
          va_arg-Ensures Out p print_arg h
            (λ arg q counted. emit-Counted (number_out q.conv arg) q counted)))
        h

  module _ (string_at : ℕ → List ℕ) where
    string_out : Printer → ℕ → List ℕ
    string_out p arg =
        let text = string_text p.conv.precision (string_at arg) in
        text ++ replicate (to_nat (sub p.conv.width (length text))) 32

    store-Counted :
        (c : ℕ) (p : Printer) (x : Outcome Printer)
        → NotN no_n c
        → Out p
        → Ensures Out x
        → Ensures Out (if c == b'n' then va_arg p store_count else x)
    store-Counted c p x n h hx = elim (Bool-cases (c == b'n')) [
      | inl e ↦
          rw e
            (va_arg-Ensures Out p store_count h (λ arg q counted. (counted.0, stored no_n c _ n e)))
      | inr e ↦ rw e hx
    ]

    print_spec-Counted :
        (c : ℕ) (p : Printer) → NotN no_n c → Out p → Ensures Out (print_spec string_at c p)
    unfolding string_out
    print_spec-Counted c p n h =
        let percent = if c == b'%' then done (emit (b'%' ∷ []) p) else done p in
        let count = if c == b'n' then va_arg p store_count else percent in
        let string = if c == b's' then va_arg p (print_string_at string_at) else count in
        Ensures-if Out (c == b'c') (va_arg p print_char) string
          (va_arg-Ensures Out p print_char h
            (λ arg q counted. emit-Counted ((arg % 2 ^ 8) ∷ []) q counted))
          (Ensures-if Out (c == b's') (va_arg p (print_string_at string_at)) count
            (va_arg-Ensures Out p (print_string_at string_at) h
              (λ arg q counted. emit-Counted (string_out q arg) q counted))
            (store-Counted c p percent n h (
              Ensures-if Out (c == b'%') (done (emit (b'%' ∷ []) p)) (done p)
                (emit-Counted (b'%' ∷ []) p h) h)))

    spec-Progress :
        (c : ℕ) (p : Printer)
        → NotN no_n c
        → Out p
        → Ensures (Progress spec) (step_spec string_at c p)
    unfolding step_spec
    spec-Progress c p n h =
        Ensures-bind Out (Progress spec) _ finished
          (Ensures-bind Out Out _ (λ q. print_number (print_prefix q))
            (print_spec-Counted c (record (p) { conv = specified c p.conv }) n h)
            (λ q counted. print_number-Counted (print_prefix q) (print_prefix-Counted q counted)))
          (λ q counted. (counted, tt))

    step-Progress :
        (m : PrintfMode) (c : ℕ) (p : Printer)
        → NotN no_n c
        → Out p
        → Ensures (Progress m) (step string_at m c p)
    step-Progress normal c p n h = normal-Progress c p h
    step-Progress flags c p n h = flags-Progress c p h
    step-Progress width_mode c p n h = width-Progress c p h
    step-Progress prec c p n h = prec-Progress c p h
    step-Progress len_mode c p n h = len-Progress c p h
    step-Progress spec c p n h = spec-Progress c p n h

    step_char-Counted :
        (fuel c : ℕ) (p : Printer)
        → rounds p.mode ≤ fuel
        → NotN no_n c
        → Out p
        → Ensures Out (step_char string_at fuel c p)
    unfolding step_char
    step_char-Counted zero c p enough n h = absurd (omega (arith, enough, (rounds-bounds p.mode).0))
    step_char-Counted (suc fuel) c p enough n h =
        Ensures-bind (Progress p.mode) Out (step string_at p.mode c p) _
          (step-Progress p.mode c p n h)
          (λ s made.
            Ensures-else Out s.goto_next_char (done s.printer)
              (step_char string_at fuel c s.printer) made.1 made.0
              (λ lt. step_char-Counted fuel c s.printer (omega (arith, enough, lt)) n made.0))

    run_format-Counted :
        (format : List ℕ) (p : Printer)
        → All (NotN no_n) format
        → Out p
        → Ensures Out (run_format string_at format p)
    unfolding run_format
    run_format-Counted [] p n h = h
    run_format-Counted (c ∷ cs) p (n, ns) h =
        Ensures-bind Out Out _ _ (step_char-Counted 4 c p (rounds-bounds p.mode).1 n h)
          (λ q counted. run_format-Counted cs q ns counted)

-- For every format, arguments and strings, `vfprintf` ends: four rounds are enough for a character,
-- since each round takes the next one or goes to a mode nearer to the end. Unless an assertion
-- fails or the arguments run out, it returns the number of the characters that it printed modulo
-- 2^32; if the format has no character `n`, it makes no store.
pub vfprintf_lem :
    (no_n : Bool) (string_at : ℕ → List ℕ) (format args : List ℕ)
    → All (NotN no_n) format
    → Ensures (Counted no_n) (vfprintf string_at format args)
unfolding vfprintf
vfprintf_lem no_n string_at format args h =
    run_format-Counted no_n string_at format _ h (refl, none_stored no_n)
  where
    none_stored : (no_n : Bool) → Quiet no_n []
    none_stored true = refl
    none_stored false = tt

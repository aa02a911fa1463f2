-- ===== src/Stdio/Reading.antt =====
-- The numbers that kernel/lib/src/stdio.cpp prints, read again.
use frosty_os.Prelude.{
  ℕ, zero, suc, ◌+◌, ◌-◌, ◌*◌, ◌%◌, ◌/◌, ◌^◌, ◌<◌, ◌≡◌, ◌⊎◌, inl, inr, refl, sym, ap, ◌∙◌, Bool,
  true, false, not, ◌&&◌, Option, none, some, List, [], ◌∷◌, ◌++◌, ◌==◌, ltb, leb, if◌then◌else◌,
  arith, Bool-cases, word, length,
}
use frosty_os.Stdio.{pos, negsuc}
use frosty_os.Stdio.Number.{digit_char, Style, digits, reversed, number_text, print_uint}

-- The radices of the specifiers.
abbrev pub IsRadix : ℕ → Type 0
IsRadix r = (r ≡ 8) ⊎ (r ≡ 10) ⊎ (r ≡ 16)

-- The digit that a character stands for: `0` to `9`, then `A` to `F` or `a` to `f`.
abbrev pub digit_value : (uppercase : Bool) → ℕ → ℕ
digit_value uppercase c =
    if leb 48 c && ltb c 58
    then c - 48
    else (if uppercase
        then (if leb 65 c && ltb c 71 then c - 55 else 16)
        else (if leb 97 c && ltb c 103 then c - 87 else 16))

abbrev pub is_nil : List ℕ → Bool
is_nil [] = true
is_nil (c ∷ cs) = false

module _ (radix : ℕ) (uppercase : Bool) where
  -- The value of a text of digits in front of which `acc` was read; none for any other character.
  pub read_on : (acc : ℕ) → List ℕ → Option ℕ
  read_on acc [] = some acc
  read_on acc (c ∷ cs) =
      let d = digit_value uppercase c in
      let rest = read_on (acc * radix + d) cs in if ltb d radix then rest else none

  -- A numeral: at least one character, digits only, and no zero in front of another digit.
  pub read : List ℕ → Option ℕ
  read [] = none
  read (c ∷ cs) = if (c == 48) && not (is_nil cs) then none else read_on 0 (c ∷ cs)

  read_on-append :
      (xs ys : List ℕ) (acc v : ℕ) → read_on acc xs ≡ some v → read_on acc (xs ++ ys) ≡ read_on v ys
  unfolding read_on
  read_on-append [] ys acc v e = ground (arith, e)
  read_on-append (x ∷ xs) ys acc v e =
      ground (arith, e, read_on-append xs ys (acc * radix + digit_value uppercase x) v)

  read_on-digit_char :
      (acc d : ℕ)
      → IsRadix radix
      → d < radix
      → read_on acc (digit_char uppercase d ∷ []) ≡ some (acc * radix + d)
  unfolding read_on
  read_on-digit_char acc d (inl e) h = ground (arith, e, h)
  read_on-digit_char acc d (inr (inl e)) h = ground (arith, e, h)
  read_on-digit_char acc d (inr (inr e)) h = ground (arith, e, h)

divide_lem :
    (r f num : ℕ)
    → IsRadix r
    → num < 2 ^ suc f
    → (num / r < 2 ^ f) × ((num / r) * r + num % r ≡ num) × (num % r < r)
divide_lem r f num (inl e) h = rw e (omega arith, omega arith, omega arith)
divide_lem r f num (inr (inl e)) h = rw e (omega arith, omega arith, omega arith)
divide_lem r f num (inr (inr e)) h = rw e (omega arith, omega arith, omega arith)

-- A text that begins with no zero and reads as the number.
abbrev Reads : (radix : ℕ) → (uppercase : Bool) → ℕ → List ℕ → Type 0
Reads radix uppercase num text =
    (c : ℕ) × (cs : List ℕ) × (text ≡ c ∷ cs)
    × ((c == 48) ≡ false)
    × (read_on radix uppercase 0 text ≡ some num)

module _ (r : ℕ) (uppercase : Bool) (hr : IsRadix r) where
  last_digit :
      (num : ℕ) (rest : List ℕ)
      → (num / r) * r + num % r ≡ num
      → num % r < r
      → Reads r uppercase (num / r) rest
      → Reads r uppercase num (rest ++ digit_char uppercase (num % r) ∷ [])
  last_digit num rest whole below (c, cs, starts, no_zero, reads) = (
    c,
    cs ++ digit_char uppercase (num % r) ∷ [],
    rw starts refl,
    no_zero,
    read_on-append r uppercase rest (digit_char uppercase (num % r) ∷ []) 0 (num / r) reads
        ∙ read_on-digit_char r uppercase (num / r) (num % r) hr below
        ∙ ap some whole,
  )

  digits-Reads :
      (f num : ℕ)
      → num < 2 ^ f
      → (num == 0) ≡ false
      → Reads r uppercase num (reversed (digits r uppercase f num))
  unfolding digits
  digits-Reads zero num h nz = absurd (ground (arith, h, nz))
  digits-Reads (suc f) num h nz =
      let facts = divide_lem r f num hr h in
      elim (Bool-cases (num / r == 0)) [
        | inl e ↦
            let one : 0 * r + num % r ≡ num = ground (arith, e, facts.1) in
            rw e (
              digit_char uppercase (num % r),
              [],
              refl,
              ground (arith, nz, one),
              read_on-digit_char r uppercase 0 (num % r) hr facts.2 ∙ ap some one,
            )
        | inr e ↦ rw e (
            last_digit num (reversed (digits r uppercase f (num / r))) facts.1 facts.2
              (digits-Reads f (num / r) facts.0 e))
      ]

  Reads-read :
      (num : ℕ) (text : List ℕ) → Reads r uppercase num text → read r uppercase text ≡ some num
  unfolding read
  Reads-read num text (c, cs, starts, no_zero, reads) =
      rw starts (rw no_zero (ap (read_on r uppercase 0) (sym starts) ∙ reads))

zero_numeral : (r : ℕ) (uppercase : Bool) → IsRadix r → read r uppercase (48 ∷ []) ≡ some 0
unfolding read
zero_numeral r uppercase hr =
    read_on-digit_char r uppercase 0 0 hr (radix_pos r hr) ∙ ap some nothing
  where
    nothing : 0 * r + 0 ≡ 0
    nothing = omega arith

    radix_pos : (r : ℕ) → IsRadix r → 0 < r
    radix_pos r (inl e) = omega (arith, e)
    radix_pos r (inr (inl e)) = omega (arith, e)
    radix_pos r (inr (inr e)) = omega (arith, e)

-- In base 8, 10 or 16, with no width and no precision, the text of a 64-bit number is the numeral of
-- the number.
pub print_uint_lem :
    (s : Style) (num : ℕ)
    → IsRadix s.radix
    → num < word
    → read s.radix s.uppercase (print_uint s (pos 0) (negsuc 0) num) ≡ some num
unfolding print_uint
print_uint_lem s num hr h = elim (Bool-cases (num == 0)) [
  | inl e ↦ rw e (zero_numeral s.radix s.uppercase hr ∙ ground (arith, e))
  | inr e ↦
      rw (e, no_width (number_text s num))
        (Reads-read s.radix s.uppercase hr num (number_text s num)
          (digits-Reads s.radix s.uppercase hr 64 num h e))
]
  where
    no_width : (text : List ℕ) → ltb (length text) 0 ≡ false
    no_width text = ground arith

-- ===== src/Stdio/Bounded.antt =====
-- What `vsnprintf` of kernel/lib/src/stdio.cpp leaves in the buffer.
use frosty_os.Prelude.{
  ℕ, zero, suc, ◌+◌, ◌-◌, ◌%◌, All, ◌^◌, ◌≤◌, ◌<◌, ◌≡◌, refl, ap, ◌∙◌, true, false, List, [], ◌∷◌,
  ◌==◌, ltb, if◌then◌else◌, length, get_or, arith, Bool-cases, ltb→lt, ==-refl, inl, inr, word,
  sub64, add64,
}
use frosty_os.Stdio.Buffer.{Writer, snputc, snputs, write_text, Formatted, vsnprintf}
use frosty_os.Stdio.Format.{vfprintf}
use frosty_os.Stdio.Printed.{vfprintf_lem}
use frosty_os.Stdio.Ends.{Ensures, Ensures-bind}

-- The characters of a text of which `k` fit.
abbrev pub fitting : (max_size : ℕ) → List ℕ → ℕ
fitting max_size text = if ltb max_size (length text) then max_size else length text

-- After a text was written from index `n` on: it went on to the limit and no further, and no other
-- index changed.
pub record Written (max_size n : ℕ) (text : List ℕ) (s : ℕ → ℕ) (w : Writer) : Type 0 where
  pub size : w.current_size ≡ n + fitting (max_size - n) text
  pub inside : (j : ℕ) → j < fitting (max_size - n) text → w.s (n + j) ≡ get_or text j 0
  pub before : (j : ℕ) → j < n → w.s j ≡ s j
  pub behind : (j : ℕ) → n + fitting (max_size - n) text ≤ j → w.s j ≡ s j

abbrev with_char : (ℕ → ℕ) → ℕ → ℕ → ℕ → ℕ
with_char s n c = λ j. if j == n then c else s j

Written-cons :
    (max_size n c : ℕ) (cs : List ℕ) (s : ℕ → ℕ) (w : Writer)
    → n < max_size
    → Written max_size (suc n) cs (with_char s n c) w
    → Written max_size n (c ∷ cs) s w
Written-cons max_size n c cs s w lt h = record {
  size = ground (arith, h.size, lt);
  inside = λ j. inside_here j;
  before = λ j below. ground (arith, h.before j (omega arith), below);
  behind = λ j above. ground (arith, h.behind j (ground (arith, above, lt)), above, lt);
}
  where
    inside_here : (j : ℕ) → j < fitting (max_size - n) (c ∷ cs) → w.s (n + j) ≡ get_or (c ∷ cs) j 0
    inside_here zero below =
        let here : n + 0 ≡ n = omega arith in
        ap w.s here ∙ h.before n (omega arith) ∙ rw (==-refl n) refl
    inside_here (suc j) below =
        let shift : n + suc j ≡ suc n + j = omega arith in
        ap w.s shift ∙ h.inside j (ground (arith, below, lt))

module _ (max_size : ℕ) (small : max_size < word) where
  snputs-full :
      (text : List ℕ) (w : Writer) → max_size ≤ w.current_size → snputs max_size text w ≡ w
  unfolding snputs
  snputs-full [] w full = refl
  snputs-full (c ∷ cs) w full =
      let shut : ltb w.current_size max_size ≡ false = ground (arith, full) in
      rw shut (snputs-full cs w full)

  snputs-Written :
      (text : List ℕ) (s : ℕ → ℕ) (n : ℕ)
      → n ≤ max_size
      → Written max_size n text s (snputs max_size text (record { s = s; current_size = n }))
  unfolding snputs
  snputs-Written [] s n le = record {
    size = ground arith;
    inside = λ j h. absurd (ground (arith, h));
    before = λ j h. refl;
    behind = λ j h. refl;
  }
  snputs-Written (c ∷ cs) s n le = elim (Bool-cases (ltb n max_size)) [
    | inl e ↦
        let step : add64 n 1 ≡ suc n = ground (arith, e, small) in
        rw e (
          rw step (
            Written-cons max_size n c cs s _ (ltb→lt n max_size e)
              (snputs-Written cs (with_char s n c) (suc n) (ltb→lt n max_size e))))
    | inr e ↦
        let full : max_size - n ≡ 0 = ground (arith, e) in
        rw e (
          rw (snputs-full cs (record { s = s; current_size = n }) (ground (arith, e))) (record {
            size = ground (arith, full);
            inside = λ j h. absurd (ground (arith, h, full));
            before = λ j h. refl;
            behind = λ j h. refl;
          }))
  ]

-- The terminating character behind the text.
module _ (n : ℕ) (text : List ℕ) (s : ℕ → ℕ) (w : Writer) (h : Written (n - 1) 0 text s w) where
  abbrev k : ℕ
  k = fitting (n - 1) text

  ended-Written :
      0 < n
      → n < word
      → let v = snputc (2 ^ 64 - 1) 0 w in
        (k < n)
        × ((j : ℕ) → j < k → v.s j ≡ get_or text j 0)
        × (v.s k ≡ 0)
        × ((j : ℕ) → k < j → v.s j ≡ s j)
  ended-Written some_room below =
      let size : w.current_size ≡ k = ground (arith, h.size) in
      let room : ltb w.current_size (2 ^ 64 - 1) ≡ true = ground (arith, size, some_room, below) in
      rw room (
        ground (arith, some_room),
        λ j inside. ground (arith, h.inside j (ground (arith, inside)), size, inside),
        ground (arith, size),
        λ j outside. ground (arith, h.behind j (ground (arith, outside)), size, outside),
      )

write_text_lem :
    (n : ℕ) (text : List ℕ) (s : ℕ → ℕ)
    → 0 < n
    → n < word
    → let k = fitting (n - 1) text in
      let w = write_text n text s in
      (k < n)
      × ((j : ℕ) → j < k → w.s j ≡ get_or text j 0)
      × (w.s k ≡ 0)
      × ((j : ℕ) → k < j → w.s j ≡ s j)
unfolding write_text
write_text_lem n text s some_room below =
    let limit : sub64 n 1 ≡ n - 1 = ground (arith, some_room, below) in
    rw limit (
      ended-Written n text s _
        (snputs-Written (n - 1) (omega (arith, below)) text s 0 (omega arith)) some_room below)

-- What a call with a buffer of `n` bytes leaves.
pub record Kept (n : ℕ) (s : ℕ → ℕ) (r : Formatted) : Type 0 where
  pub counted : r.printer.symbols_printed ≡ length r.printer.out % 2 ^ 32
  pub quiet : r.printer.stores ≡ []
  pub room : fitting (n - 1) r.printer.out < n
  pub text : (j : ℕ) → j < fitting (n - 1) r.printer.out → r.writer.s j ≡ get_or r.printer.out j 0
  pub ended : r.writer.s (fitting (n - 1) r.printer.out) ≡ 0
  pub behind : (j : ℕ) → fitting (n - 1) r.printer.out < j → r.writer.s j ≡ s j

-- `vsnprintf` of a format with no character `n`, and so no `%n`, into a buffer of `n` bytes, `n` not 0
-- and below 2⁶⁴, ends. Unless an assertion fails or the arguments run out, it returns the length of
-- the whole formatted text modulo 2^32; the text's first `n - 1` characters stand in the buffer, or
-- all of them if they are fewer, with the terminating character behind them, and no byte behind that
-- one changes, so none from `n` on; no other store is made.
pub vsnprintf_lem :
    (string_at : ℕ → List ℕ) (n : ℕ) (format args : List ℕ) (s : ℕ → ℕ)
    → 0 < n
    → n < word
    → All (λ c. (c == b'n') ≡ false) format
    → Ensures (λ r. Kept n s r) (vsnprintf string_at n format args s)
unfolding vsnprintf
vsnprintf_lem string_at n format args s some_room below no_n =
    Ensures-bind _ (λ r. Kept n s r) (vfprintf string_at format args) _
      (vfprintf_lem true string_at format args no_n)
      (λ p counted.
        let (room, text, ended, behind) = write_text_lem n p.out s some_room below in
        record {
          counted = counted.0;
          quiet = counted.1;
          room = room;
          text = text;
          ended = ended;
          behind = behind;
        })

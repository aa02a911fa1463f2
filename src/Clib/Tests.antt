-- ===== src/Clib/Tests.antt =====
-- kernel/lib/src/util.c, string.c and stdlib.c on concrete strings.
use frosty_os.Prelude.{
  ◌*◌, ◌%◌, ◌≡◌, ◌/◌, ◌==◌, inr, refl, [], ◌∷◌, if◌then◌else◌, arith, done, word,
}
use frosty_os.Clib.{Bytes}
use frosty_os.Clib.Memory.{memmove, fast_memmove}
use frosty_os.Clib.Strings.{Holds, Sign, strcpy, strcmp, strncmp, strchr, strchr_loop}
use frosty_os.Clib.Numbers.{atol, strtoul, negated, atoi, digits_from}
use frosty_os.Clib.Moved.{moved, memmove_lem}
use frosty_os.Clib.Compared.{Copied, Decides, strcpy-strcmp}
use frosty_os.Clib.Scaled.{decimal, atol_lem}

-- "ab" at 8 and "a" at 16, zeros elsewhere.
abbrev mem : Bytes
mem = λ a. if a == 8 then b'a' else (if a == 9 then b'b' else (if a == 16 then b'a' else 0))

memmove_lem_example :
    (memmove 9 8 2 mem 10 ≡ moved 9 8 2 mem 10)
    × (fast_memmove 9 8 2 mem 10 ≡ moved 9 8 (2 / 8 * 8) mem 10)
memmove_lem_example = memmove_lem 9 8 2 mem 10

strcpy-strcmp_example :
    (after : Bytes) × (strcpy 3 32 8 mem ≡ done after)
    × Copied 32 (b'a' ∷ b'b' ∷ []) mem after
    × Holds after 8 (b'a' ∷ b'b' ∷ [])
    × ((r : Sign) × (strcmp after 3 32 16 ≡ done r) × Decides (b'a' ∷ b'b' ∷ []) (b'a' ∷ []) r)
strcpy-strcmp_example =
    strcpy-strcmp 3 32 8 16 (b'a' ∷ b'b' ∷ []) (b'a' ∷ []) mem (refl, refl, (refl, refl, refl))
      (refl, refl, refl) (omega arith) (inr (omega arith)) (inr (omega arith)) refl refl

-- "12" is read as 120.
atol_lem_example :
    (strtoul (b'1' ∷ b'2' ∷ []) ≡ 10 * decimal 0 (b'1' ∷ b'2' ∷ []) % word)
    × (atol (b'1' ∷ b'2' ∷ []) ≡ 10 * decimal 0 (b'1' ∷ b'2' ∷ []) % word)
    × (atol (45 ∷ b'1' ∷ b'2' ∷ []) ≡ negated 64 (10 * decimal 0 (b'1' ∷ b'2' ∷ []) % word))
atol_lem_example = atol_lem b'1' (b'2' ∷ []) (omega arith)

twelve : atoi (b'1' ∷ b'2' ∷ []) ≡ 120
unfolding digits_from
twelve = refl

-- Two equal strings with other bytes behind them are not the same to `strncmp`: "b" at 9, and "b"
-- at 33 with a byte behind its end.
abbrev behind : Bytes
behind = λ a. if a == 33 then b'b' else (if a == 35 then b'c' else mem a)

not_stopped : strncmp behind 3 9 33 ≡ Sign.less
unfolding strncmp
not_stopped = refl

-- The terminating character is not found.
no_end : strchr mem 4 8 0 ≡ done 0
unfolding strchr_loop
no_end = refl

-- ===== src/Clib/Strings.antt =====
-- kernel/lib/src/string.c. A string is the address of its first byte and ends at a zero byte; a
-- `while` loop has fuel and is `diverged` where that runs out. Where the source counts an index up,
-- the addresses go up. `strerror` is a table of texts and left out.
use frosty_os.Prelude.{
  ℕ, zero, suc, ◌+◌, ◌%◌, ◌≡◌, Bool, false, not, ◌&&◌, ◌||◌, List, [], ◌∷◌, ◌==◌, ltb,
  if◌then◌else◌, Outcome, done, diverged,
}
use frosty_os.Clib.{Bytes}

-- The string at `p` is `cs`.
abbrev pub Holds : Bytes → (p : ℕ) → List ℕ → Type 0
Holds mem p [] = mem p ≡ 0
Holds mem p (c ∷ cs) = (mem p ≡ c) × ((c == 0) ≡ false) × Holds mem (p + 1) cs

module _ (mem : Bytes) where
  unfoldable pub strlen_from : (fuel str len : ℕ) → Outcome ℕ
  strlen_from zero str len = diverged
  strlen_from (suc fuel) str len =
      let rest = strlen_from fuel str (len + 1) in if mem (str + len) == 0 then done len else rest

  abbrev pub strlen : (fuel str : ℕ) → Outcome ℕ
  strlen fuel str = strlen_from fuel str 0

  unfoldable pub strnlen_from : (fuel str maxlen len : ℕ) → Outcome ℕ
  strnlen_from zero str maxlen len = diverged
  strnlen_from (suc fuel) str maxlen len =
      let rest = strnlen_from fuel str maxlen (len + 1) in
      if not (mem (str + len) == 0) && ltb len maxlen then rest else done len

  abbrev pub strnlen : (fuel str maxlen : ℕ) → Outcome ℕ
  strnlen fuel str maxlen = strnlen_from fuel str maxlen 0

-- `dst[i] = src[i]`.
abbrev pub put_byte : ℕ → ℕ → Bytes → Bytes
put_byte dst c mem = λ a. if a == dst then c else mem a

-- The loop of `strcpy`, which copies the terminating byte too.
unfoldable pub strcpy_loop : (fuel dst src : ℕ) → Bytes → Outcome Bytes
strcpy_loop zero dst src mem = diverged
strcpy_loop (suc fuel) dst src mem =
    let after = put_byte dst (mem src) mem in
    let rest = strcpy_loop fuel (dst + 1) (src + 1) after in
    if after src == 0 then done after else rest

abbrev pub strcpy : (fuel dst src : ℕ) → Bytes → Outcome Bytes
strcpy fuel dst src mem =
    if (dst == 0) || (src == 0) then done mem else strcpy_loop fuel dst src mem

unfoldable pub strncpy_loop : (n dst src : ℕ) → Bytes → Bytes
strncpy_loop zero dst src mem = mem
strncpy_loop (suc n) dst src mem =
    let after = put_byte dst (mem src) mem in
    let rest = strncpy_loop n (dst + 1) (src + 1) after in if after src == 0 then after else rest

abbrev pub strncpy : (dst src n : ℕ) → Bytes → Bytes
strncpy dst src n mem = if (dst == 0) || (src == 0) then mem else strncpy_loop n dst src mem

-- -1, 0 and 1.
pub data Sign : Type 0 where
  less : Sign
  same : Sign
  more : Sign

-- `a > b` on `char`, which is signed.
abbrev pub is_more : ℕ → ℕ → Bool
is_more a b = ltb ((b + 128) % 256) ((a + 128) % 256)

abbrev pub sign_of : ℕ → ℕ → Sign
sign_of a b = if is_more a b then more else less

module _ (mem : Bytes) where
  unfoldable pub strcmp : (fuel str1 str2 : ℕ) → Outcome Sign
  strcmp zero str1 str2 = diverged
  strcmp (suc fuel) str1 str2 =
      let rest = strcmp fuel (str1 + 1) (str2 + 1) in
      if not (mem str1 == mem str2)
      then done (sign_of (mem str1) (mem str2))
      else (if mem str1 == 0 then done same else rest)

  -- The loop does not look for the terminating byte.
  unfoldable pub strncmp : (n str1 str2 : ℕ) → Sign
  strncmp zero str1 str2 = same
  strncmp (suc n) str1 str2 =
      let rest = strncmp n (str1 + 1) (str2 + 1) in
      if not (mem str1 == mem str2) then sign_of (mem str1) (mem str2) else rest

  -- The null pointer, 0, where there is no such character.
  unfoldable pub strchr_loop : (fuel str character : ℕ) → Outcome ℕ
  strchr_loop zero str character = diverged
  strchr_loop (suc fuel) str character =
      let rest = strchr_loop fuel (str + 1) character in
      if mem str == 0 then done 0 else (if mem str == character % 256 then done str else rest)

  abbrev pub strchr : (fuel str character : ℕ) → Outcome ℕ
  strchr fuel str character = if str == 0 then done str else strchr_loop fuel str character

  -- `last` is the last place found, 0 for none.
  unfoldable pub strrchr_loop : (fuel str character last : ℕ) → Outcome ℕ
  strrchr_loop zero str character last = diverged
  strrchr_loop (suc fuel) str character last =
      let found = if mem str == character % 256 then str else last in
      let rest = strrchr_loop fuel (str + 1) character found in
      if mem str == 0 then done last else rest

  abbrev pub strrchr : (fuel str character : ℕ) → Outcome ℕ
  strrchr fuel str character = if str == 0 then done 0 else strrchr_loop fuel str character 0

  -- `memcmp` of kernel/lib/src/util.c, on unsigned bytes.
  unfoldable pub memcmp : (s1 s2 n : ℕ) → Sign
  memcmp s1 s2 zero = same
  memcmp s1 s2 (suc n) =
      let rest = memcmp (s1 + 1) (s2 + 1) n in
      if not (mem s1 == mem s2) then (if ltb (mem s2) (mem s1) then more else less) else rest

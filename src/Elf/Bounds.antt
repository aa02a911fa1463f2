-- ===== src/Elf/Bounds.antt =====
-- Where the stack of a new process lies, kernel/src/Exec/ELF.cpp.
use frosty_os.Prelude.{
  ℕ, ◌+◌, ◌-◌, ◌*◌, ◌/◌, ◌%◌, ◌^◌, ◌≤◌, ◌<◌, ◌≡◌, refl, ◌∙◌, Bool, true, false, List, [], ◌∷◌, ◌++◌,
  some, length, length-set, set, All, All-append, arith, ◌==◌, add64,
}
use frosty_os.Elf.{
  Write, word_at, text_at, data_size, Layout, layout, copy_words, copy_strings, set_execfn, writes,
  prepare_elf_stack,
}

-- A write lies between two addresses.
abbrev pub Within : ℕ → ℕ → Write → Type 0
Within lo hi (word_at p v) = (lo ≤ p) × (p + 8 ≤ hi)
Within lo hi (text_at p s) = (lo ≤ p) × (p + length s + 1 ≤ hi)

copy_words-Within :
    (lo hi p : ℕ) (ws : List ℕ)
    → lo ≤ p
    → p + length ws * 8 ≤ hi
    → hi < 2 ^ 64
    → All (Within lo hi) (copy_words p ws)
unfolding copy_words
copy_words-Within lo hi p [] a b c = tt
copy_words-Within lo hi p (w ∷ ws) a b c =
    let step : add64 p 8 ≡ p + 8 = omega (arith, b, c) in
    (
      (a, omega (arith, b)),
      rw step (copy_words-Within lo hi (p + 8) ws (omega (arith, a)) (omega (arith, b)) c),
    )

copy_strings-Within :
    (lo hi array p : ℕ) (ss : List (List ℕ))
    → lo ≤ array
    → array + length ss * 8 ≤ hi
    → lo ≤ p
    → p + data_size ss ≤ hi
    → hi < 2 ^ 64
    → All (Within lo hi) (copy_strings array p ss)
unfolding copy_strings data_size
copy_strings-Within lo hi array p [] a b c d e = tt
copy_strings-Within lo hi array p (s ∷ ss) a b c d e =
    let step : add64 array 8 ≡ array + 8 = omega (arith, b, e) in
    let next : add64 p (length s + 1) ≡ p + (length s + 1) = omega (arith, d, e) in
    (
      (c, omega (arith, d)),
      (
        (a, omega (arith, b)),
        rw (step, next)
            (copy_strings-Within lo hi (array + 8) (p + (length s + 1)) ss (omega (arith, a))
              (omega (arith, b)) (omega (arith, c)) (omega (arith, d)) e),
      ),
    )

-- The addresses without wrap-around
abbrev pub Fits : ℕ → List (List ℕ) → List (List ℕ) → List ℕ → Type 0
Fits stack_top argv env path =
    data_size argv + data_size env + length path + (length argv + length env) * 8 + 256 ≤ stack_top

module _ (stack_top : ℕ) (argv env : List (List ℕ)) (path : List ℕ)
    (fits : Fits stack_top argv env path) (in_word : stack_top < 2 ^ 64) where
  abbrev l : Layout
  l = layout stack_top argv env path

  layout-order :
      (l.arg_data + data_size argv + 8 ≡ stack_top)
      × (l.env_data + data_size env ≡ l.arg_data)
      × (l.path_data + (length path + 1) ≡ l.env_data)
      × (l.auxv + 128 ≤ l.path_data)
      × (l.env_start + (length env + 1) * 8 ≡ l.auxv)
      × (l.arg_start + (length argv + 1) * 8 ≡ l.env_start)
      × (l.argc_point + 8 ≡ l.arg_start)
      × (l.argc_point % 16 ≡ 0)
  unfolding layout
  layout-order = (
    omega (arith, fits, in_word),
    omega (arith, fits, in_word),
    omega (arith, fits, in_word),
    ground (arith, fits, in_word),
    ground (arith, fits, in_word),
    ground (arith, fits, in_word),
    ground (arith, fits, in_word),
    ground (arith, fits, in_word),
  )

  writes-Within :
      (auxv : List ℕ)
      → length auxv ≡ 16
      → All (Within l.argc_point (stack_top - 8)) (writes l auxv argv env path)
  unfolding writes
  writes-Within auxv sixteen =
      let (arg_data, env_data, path_data, aux, env_start, arg_start, point, aligned) =
        layout-order in
      let lo = l.argc_point in
      let hi = stack_top - 8 in
      let small : hi < 2 ^ 64 = omega (arith, in_word) in
      let inside = Within lo hi in
      let words = set_execfn auxv l.path_data in
      let count : length words ≡ 16 =
        length-set (set auxv 8 31) 9 l.path_data ∙ length-set auxv 8 31 ∙ sixteen in
      let ends =
        word_at (add64 l.arg_start (length argv * 8)) 0
        ∷ word_at (add64 l.env_start (length env * 8)) 0
        ∷ word_at l.argc_point (length argv)
        ∷ [] in
      (
        (omega arith, omega arith),
        All-append inside (copy_words l.auxv words)
            (copy_strings l.arg_start l.arg_data argv
              ++ (copy_strings l.env_start l.env_data env ++ ends))
            (copy_words-Within lo hi l.auxv words (omega arith) (omega (arith, count)) small)
            (All-append inside (copy_strings l.arg_start l.arg_data argv)
              (copy_strings l.env_start l.env_data env ++ ends)
              (copy_strings-Within lo hi l.arg_start l.arg_data argv (omega arith) (omega arith)
                (omega arith) (omega arith) small)
              (All-append inside (copy_strings l.env_start l.env_data env) ends
                (copy_strings-Within lo hi l.env_start l.env_data env (omega arith) (omega arith)
                  (omega arith) (omega arith) small)
                (
                  (omega arith, omega arith),
                  ((omega arith, omega arith), ((omega arith, omega arith), tt)),
                ))),
      )

-- With room for all of it below a stack top that is no null pointer, with sixteen words of auxiliary
-- values, and where the pages can be mapped, `PrepareELFStack` gives an address that is a multiple of
-- 16, and all it writes lies between that address and the buffer below the stack top.
pub prepare_elf_stack_lem :
    (stack_top : ℕ) (auxv : List ℕ) (argv env : List (List ℕ)) (path : List ℕ)
    (map_pages : ℕ → ℕ → Bool)
    → Fits stack_top argv env path
    → stack_top < 2 ^ 64
    → length auxv ≡ 16
    → ((p n : ℕ) → map_pages p n ≡ true)
    → (point : ℕ) × (ws : List Write) × (prepare_elf_stack stack_top
          (some auxv)
          (some argv)
          (some env)
          (some path)
          (some map_pages)
        ≡ some (point, ws))
      × (point % 16 ≡ 0)
      × All (Within point (stack_top - 8)) ws
unfolding prepare_elf_stack
prepare_elf_stack_lem stack_top auxv argv env path map_pages fits in_word sixteen maps =
    let l = layout stack_top argv env path in
    let live : (stack_top == 0) ≡ false = ground (arith, fits) in
    (
      l.argc_point,
      writes l auxv argv env path,
      rw (live, maps (l.base / 4096 * 4096) (add64 l.size 4095 / 4096)) refl,
      (layout-order stack_top argv env path fits in_word).7,
      writes-Within stack_top argv env path fits in_word auxv sixteen,
    )

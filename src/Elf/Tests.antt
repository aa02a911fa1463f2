-- ===== src/Elf/Tests.antt =====
-- Runs for kernel/src/Exec/ELF.cpp.
use frosty_os.Prelude.{
  ℕ, ◌-◌, ◌*◌, ◌/◌, ◌%◌, ◌≡◌, refl, true, List, [], ◌∷◌, some, All, arith, ltb, replicate,
}
use frosty_os.Elf.{Write, data_size, layout, prepare_elf_stack}
use frosty_os.Elf.Bounds.{Within, prepare_elf_stack_lem}

-- One argument of two characters, an empty environment, and a path of three characters, below a stack
-- top of 1 MiB
abbrev one_argument : List (List ℕ)
one_argument = (97 ∷ 98 ∷ []) ∷ []

abbrev short_path : List ℕ
short_path = 47 ∷ 97 ∷ 98 ∷ []

prepare_elf_stack_lem_example :
    (point : ℕ) × (ws : List Write) × (prepare_elf_stack 1048576
        (some (replicate 16 0))
        (some one_argument)
        (some [])
        (some short_path)
        (some (λ p n. true))
      ≡ some (point, ws))
    × (point % 16 ≡ 0)
    × All (Within point (1048576 - 8)) ws
unfolding data_size
prepare_elf_stack_lem_example =
    prepare_elf_stack_lem 1048576 (replicate 16 0) one_argument [] short_path (λ p n. true)
      (omega arith) (omega arith) refl (λ p n. refl)

-- A path of 3929 characters: the argument count lies below the pages that are mapped.
abbrev long_path : List ℕ
long_path = replicate 3929 97

below_mapped :
    ltb
      (layout 1048576 [] [] long_path).argc_point
      ((layout 1048576 [] [] long_path).base / 4096 * 4096)
    ≡ true
unfolding layout data_size
below_mapped = refl

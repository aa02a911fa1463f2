-- ===== src/Elf.antt =====
-- kernel/src/Exec/ELF.cpp: the stack that a new process starts with. Strings are lists of characters
-- without the null character at the end, and a null pointer is none. What the routine writes is a list
-- of writes, in their order.
pub mod Bounds
mod Tests
use frosty_os.Prelude.{
  ℕ, ◌+◌, ◌-◌, ◌*◌, ◌/◌, ◌%◌, ◌^◌, Bool, true, false, List, [], ◌∷◌, ◌++◌, Option, none, some,
  length, set, ◌==◌, if◌then◌else◌, add64, sub64, mul64,
}

-- STACK_TOP_BUFFER, and the size of `auxv64list_t`, which has eight entries of two words
abbrev pub stack_top_buffer : ℕ
stack_top_buffer = 8

abbrev pub auxv_size : ℕ
auxv_size = 128

abbrev pub at_execfn : ℕ
at_execfn = 31

-- A write of a word, and a copy of a string with its null character
pub data Write : Type 0 where
  word_at : ℕ → ℕ → Write
  text_at : ℕ → List ℕ → Write

-- The bytes of some strings, with the null characters
unfoldable pub data_size : List (List ℕ) → ℕ
data_size [] = 0
data_size (s ∷ ss) = length s + 1 + data_size ss

-- The padding that an odd number of words needs
abbrev pub padding : ℕ → ℕ → ℕ
padding argc envc = if (argc + envc + 3) % 2 == 0 then 0 else 8

-- The addresses that `PrepareELFStack` computes
pub record Layout : Type 0 where
  pub size : ℕ
  pub base : ℕ
  pub arg_data : ℕ
  pub env_data : ℕ
  pub path_data : ℕ
  pub auxv : ℕ
  pub env_start : ℕ
  pub arg_start : ℕ
  pub argc_point : ℕ

unfoldable pub layout : ℕ → List (List ℕ) → List (List ℕ) → List ℕ → Layout
layout stack_top argv env path =
    let argc = length argv in
    let envc = length env in
    let align = padding argc envc in
    let path_size = length path + 1 in
    let size =
      (data_size argv
        + data_size env
        + path_size
        + (argc + envc) * 8
        + 8
        + auxv_size
        + align
        + stack_top_buffer)
      % 2 ^ 64 in
    let top = sub64 stack_top stack_top_buffer in
    let arg_data = sub64 top (data_size argv) in
    let env_data = sub64 arg_data (data_size env) in
    let path_data = sub64 env_data path_size in
    let auxv = sub64 (sub64 path_data auxv_size / 16 * 16) align in
    let env_start = sub64 auxv ((envc + 1) * 8) in
    let arg_start = sub64 env_start ((argc + 1) * 8) in
    record {
      size = size;
      base = sub64 stack_top size;
      arg_data = arg_data;
      env_data = env_data;
      path_data = path_data;
      auxv = auxv;
      env_start = env_start;
      arg_start = arg_start;
      argc_point = sub64 arg_start 8;
    }

-- `memcpy` of words
unfoldable pub copy_words : ℕ → List ℕ → List Write
copy_words p [] = []
copy_words p (w ∷ ws) = word_at p w ∷ copy_words (add64 p 8) ws

-- The loop that copies strings, and their addresses to an array
unfoldable pub copy_strings : ℕ → ℕ → List (List ℕ) → List Write
copy_strings array p [] = []
copy_strings array p (s ∷ ss) =
    text_at p s ∷ word_at array p ∷ copy_strings (add64 array 8) (add64 p (length s + 1)) ss

-- The list of auxiliary values, with the entry for the path
abbrev pub set_execfn : List ℕ → ℕ → List ℕ
set_execfn auxv path_data = set (set auxv 8 at_execfn) 9 path_data

unfoldable pub writes : Layout → List ℕ → List (List ℕ) → List (List ℕ) → List ℕ → List Write
writes l auxv argv env path =
    let ends =
      word_at (add64 l.arg_start (length argv * 8)) 0
      ∷ word_at (add64 l.env_start (length env * 8)) 0
      ∷ word_at l.argc_point (length argv)
      ∷ [] in
    let strings =
      copy_strings l.arg_start l.arg_data argv
      ++ (copy_strings l.env_start l.env_data env ++ ends) in
    text_at l.path_data path ∷ (copy_words l.auxv (set_execfn auxv l.path_data) ++ strings)

-- `PrepareELFStack`, or none where it gives a null pointer. `map_pages` is MapPages of the memory
-- manager, at an address for a number of pages.
abbrev pub prepared :
    (ℕ → ℕ → Bool)
    → Layout
    → List ℕ
    → List (List ℕ)
    → List (List ℕ)
    → List ℕ
    → Option (ℕ × List Write)
prepared map_pages l auxv argv env path =
    if map_pages (l.base / 4096 * 4096) (add64 l.size 4095 / 4096)
    then some (l.argc_point, writes l auxv argv env path)
    else none

unfoldable pub prepare_elf_stack :
    ℕ
    → Option (List ℕ)
    → Option (List (List ℕ))
    → Option (List (List ℕ))
    → Option (List ℕ)
    → Option (ℕ → ℕ → Bool)
    → Option (ℕ × List Write)
prepare_elf_stack stack_top (some auxv) (some argv) (some env) (some path) (some map_pages) =
    if stack_top == 0
    then none
    else prepared map_pages (layout stack_top argv env path) auxv argv env path
prepare_elf_stack stack_top auxv argv env path vmm = none

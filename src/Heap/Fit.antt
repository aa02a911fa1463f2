-- ===== src/Heap/Fit.antt =====
-- `HeapAllocator::Allocate` of kernel/src/Memory/Heap.cpp hands out the first free block that fits.
use frosty_os.Prelude.{ℕ, ◌≡◌, Bool, true, false, List, ◌∷◌, ◌++◌, leb, ◌&&◌, All}
use frosty_os.Heap.{Headers, HeapSection}
use frosty_os.Heap.Take.{blocks_left}

-- Whether a block is free and large enough
abbrev pub fits : Headers → ℕ → ℕ → Bool
fits h size b = (h b).free && leb size (h b).size

-- The first free block of a list that fits
pub record FirstFit (h : Headers) (size : ℕ) (bs before after : List ℕ) (block : ℕ) : Type 0 where
  pub split : bs ≡ before ++ block ∷ after
  pub earlier : All (λ b. fits h size b ≡ false) before
  pub found : fits h size block ≡ true

-- No section has a free block that fits.
abbrev pub NoneFits : Headers → ℕ → List HeapSection → Type 0
NoneFits h size ss = All (λ s. All (λ b. fits h size b ≡ false) s.blocks) ss

-- The first section that has one, and what becomes of its list
pub record Served (h : Headers) (size : ℕ) (ss ss' : List HeapSection) (block : ℕ) : Type 0 where
  pub earlier : List HeapSection
  pub section : HeapSection
  pub later : List HeapSection
  pub before : List ℕ
  pub after : List ℕ
  pub sections : ss ≡ earlier ++ section ∷ later
  pub none_earlier : NoneFits h size earlier
  pub fit : FirstFit h size section.blocks before after block
  pub left :
      ss' ≡ earlier ++ record section { blocks = blocks_left h size before block after } ∷ later

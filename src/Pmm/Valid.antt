-- ===== src/Pmm/Valid.antt =====
-- The representation invariant of the physical memory manager.
use frosty_os.Prelude.{
  ℕ, ◌+◌, ◌*◌, ◌<◌, ◌≤◌, ◌≡◌, List, [], ◌∷◌, ◌++◌, length, word, arith, add64, mul64, All, ◌==◌,
  if◌then◌else◌,
}
use frosty_os.Pmm.Region.{Region, end_of, total, Sorted}
use frosty_os.Pmm.Region.Order.{Sorted-mono, base_above}
use frosty_os.Pmm.Seg.{Seg, last_of}
use frosty_os.Pmm.{Memory, Pmm, page_size}

-- The free list of `p` describes the regions `rs`: they are linked from the start to `nullptr`, the
-- end pointer is the last node, and the nodes are counted.
pub record Linked (p : Pmm) (rs : List Region) : Type 0 where
  pub chain : Seg p.mem p.free_list_start rs 0
  pub last : p.free_list_end ≡ last_of 0 rs
  pub nodes : p.free_list_node_count ≡ length rs

-- The page counters are right as well, and the regions are in order and above address 0.
pub record Valid (p : Pmm) (rs : List Region) : Type 0 where
  pub linked : Linked p rs
  pub open linked use *
  pub sorted : Sorted 1 rs
  pub free : p.free_page_count ≡ total rs
  pub sum : p.total_page_count ≡ p.free_page_count + p.used_page_count
  pub bounded : p.total_page_count < word

-- The pointer arithmetic of the code does not wrap inside the address space.
pub pages_after : (a n : ℕ) → a + n * 4096 < word → add64 a (mul64 page_size n) ≡ a + n * 4096
pages_after a n h = omega arith

pub end_address : (r : Region) → end_of r < word → add64 r.base (mul64 r.pages page_size) ≡ end_of r
end_address r h = omega arith

pub last_of-ge : (prev lo : ℕ) (rs : List Region) → lo ≤ prev → Sorted lo rs → lo ≤ last_of prev rs
last_of-ge prev lo [] h s = h
last_of-ge prev lo (r ∷ rs) h s =
    last_of-ge r.base lo rs s.0 (Sorted-mono {lo = end_of r} rs (omega arith) s.3)

-- The end pointer after the node at `b` has been merged into, or replaced by, the node at `c`.
pub last_moved :
    (b c lo : ℕ) (rs : List Region)
    → b < lo
    → Sorted lo rs
    → (if last_of b rs == b then c else last_of b rs) ≡ last_of c rs
last_moved b c lo [] h s = ground arith
last_moved b c lo (r ∷ rs) h s =
    ground (arith, last_of-ge r.base lo rs s.0 (Sorted-mono {lo = end_of r} rs (omega arith) s.3))

module _ (mem mem' : Memory) where
  -- Memory that differs at most at `a` and below agrees at the regions above `a`.
  pub agree_above :
      (a lo : ℕ) (rs : List Region)
      → ((x : ℕ) → a < x → mem' x ≡ mem x)
      → a < lo
      → Sorted lo rs
      → All (λ r. mem' r.base ≡ mem r.base) rs
  agree_above a lo [] same h s = tt
  agree_above a lo (r ∷ rs) same h s =
      (same r.base (omega arith), agree_above a (end_of r) rs same (omega arith) s.3)

  -- Memory that differs at most from `r` on agrees at the regions before `r`.
  pub agree_below :
      (lo : ℕ) (xs : List Region) (r : Region) (ys : List Region)
      → ((x : ℕ) → x < r.base → mem' x ≡ mem x)
      → Sorted lo (xs ++ r ∷ ys)
      → All (λ s. mem' s.base ≡ mem s.base) xs
  agree_below lo [] r ys same s = tt
  agree_below lo (x ∷ xs) r ys same s = (
    same x.base (omega (arith, base_above (end_of x) xs r ys s.3)),
    agree_below (end_of x) xs r ys same s.3,
  )

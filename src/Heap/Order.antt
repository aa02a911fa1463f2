-- ===== src/Heap/Order.antt =====
-- The list of free blocks of a section stays in order when `HeapAllocator::Free` of
-- kernel/src/Memory/Heap.cpp puts a block back, merged with what it touches.
use frosty_os.Prelude.{
  ℕ, ◌+◌, ◌^◌, ◌≡◌, ◌≤◌, ◌<◌, refl, sym, ap, subst, false, List, [], ◌∷◌, ◌++◌, add64, arith, ◌==◌,
  ==-refl,
}
use frosty_os.Heap.{Headers, HeapBlock, size63, set_header, block_header}
use frosty_os.Heap.Give.{block_end, last_block, absorb}

-- Where a block ends, in exact arithmetic
abbrev pub end_of : Headers → ℕ → ℕ
end_of h b = b + 16 + (h b).size

-- From `lo` to `hi` the blocks follow one another without overlap.
abbrev pub Ordered : Headers → ℕ → List ℕ → ℕ → Type 0
Ordered h lo [] hi = lo ≤ hi
Ordered h lo (b ∷ bs) hi = (lo ≤ b) × Ordered h (end_of h b) bs hi

-- The bytes of the blocks, with their headers
abbrev pub bytes : Headers → List ℕ → ℕ
bytes h [] = 0
bytes h (b ∷ bs) = 16 + (h b).size + bytes h bs

pub Ordered-le : (h : Headers) (lo hi : ℕ) (bs : List ℕ) → Ordered h lo bs hi → lo ≤ hi
Ordered-le h lo hi [] o = o
Ordered-le h lo hi (b ∷ bs) o = omega (arith, o.0, Ordered-le h (end_of h b) hi bs o.1)

-- A change of one header below the blocks is not seen.
Ordered-set :
    (h : Headers) (at : ℕ) (v : HeapBlock) (lo hi : ℕ) (bs : List ℕ)
    → at < lo
    → Ordered h lo bs hi
    → Ordered (set_header h at v) lo bs hi × (bytes (set_header h at v) bs ≡ bytes h bs)
unfolding set_header
Ordered-set h at v lo hi [] lt o = (o, refl)
Ordered-set h at v lo hi (b ∷ bs) lt o =
    let other : (b == at) ≡ false = ground (arith, o.0) in
    let rest = Ordered-set h at v (end_of h b) hi bs (omega (arith, o.0)) o.1 in
    rw (set_header, other) ((o.0, rest.0), ap (λ n. 16 + (h b).size + n) rest.1)

last_block-le :
    (h : Headers) (lo hi b : ℕ) (bs ys : List ℕ)
    → Ordered h lo (b ∷ bs ++ ys) hi
    → lo ≤ last_block b bs
last_block-le h lo hi b [] ys o = o.0
last_block-le h lo hi b (c ∷ bs) ys o =
    omega (arith, o.0, last_block-le h (end_of h b) hi c bs ys o.1)

module _ (h : Headers) (c : ℕ) where
  -- The last block of a list takes in the one that begins where it ends.
  pub absorb-Ordered :
      (lo hi b : ℕ) (bs ys : List ℕ)
      → hi < 2 ^ 64
      → hi ≤ lo + 2 ^ 63
      → block_end h (last_block b bs) ≡ c
      → Ordered h lo (b ∷ bs ++ c ∷ ys) hi
      → Ordered (absorb h (last_block b bs) c) lo (b ∷ bs ++ ys) hi
        × (bytes (absorb h (last_block b bs) c) (b ∷ bs ++ ys) ≡ bytes h (b ∷ bs ++ c ∷ ys))
  unfolding absorb set_header
  absorb-Ordered lo hi b [] ys lt fit e o =
      let end_c = Ordered-le h (end_of h c) hi ys o.1.1 in
      let size' : size63 (add64 (h b).size (add64 block_header (h c).size))
          ≡ (h b).size + 16 + (h c).size =
        omega (arith, end_c, fit, o.0, o.1.0) in
      let grown : (absorb h b c b).size ≡ (h b).size + 16 + (h c).size =
        rw (absorb, ==-refl b) size' in
      let same : end_of (absorb h b c) b ≡ end_of h c = omega (arith, grown, e, end_c, o.1.0) in
      let rest =
        Ordered-set h b
          (record (h b) { size = size63 (add64 (h b).size (add64 block_header (h c).size)) })
          (end_of h c) hi ys (omega (arith, o.1.0)) o.1.1 in
      (
        (o.0, subst (λ m. Ordered (absorb h b c) m ys hi) (sym same) rest.0),
        omega (arith, rest.1, grown),
      )
  absorb-Ordered lo hi b (d ∷ bs) ys lt fit e o =
      let below = last_block-le h (end_of h b) hi d bs (c ∷ ys) o.1 in
      let other : (b == last_block d bs) ≡ false = ground (arith, below) in
      let rest = absorb-Ordered (end_of h b) hi d bs ys lt (omega (arith, fit, o.0)) e o.1 in
      rw (absorb, other) ((o.0, rest.0), ap (λ n. 16 + (h b).size + n) rest.1)

-- ===== src/Heap/Insert.antt =====
-- Where `HeapAllocator::Free` of kernel/src/Memory/Heap.cpp puts a block, and what it merges there.
use frosty_os.Prelude.{
  ℕ, ◌+◌, ◌^◌, ◌≡◌, ◌≤◌, ◌<◌, ◌⊎◌, refl, sym, ◌∙◌, subst, true, false, List, [], ◌∷◌, ◌++◌,
  append_assoc, append-nil, Bool-cases, inl, inr, arith, ltb, leb, ◌==◌, if◌then◌else◌, ◌&&◌,
  ==_iff,
}
use frosty_os.Heap.{Headers, HeapAllocator}
use frosty_os.Heap.Give.{
  block_end, last_block, find_place, absorb, count_merge, merge_previous, merge_current,
  insert_block,
}
use frosty_os.Heap.Order.{end_of, Ordered, bytes, Ordered-le, absorb-Ordered}

-- The search stops where the block belongs.
find_place-split :
    (h : Headers) (block previous lo hi : ℕ) (before after : List ℕ)
    → hi < 2 ^ 64
    → (previous == 0 ≡ true) ⊎ (end_of h previous ≤ lo)
    → Ordered h lo (before ++ block ∷ after) hi
    → find_place h block previous (before ++ after) ≡ (before, after)
unfolding find_place
find_place-split h block previous lo hi [] [] lt p o = refl
find_place-split h block previous lo hi [] (c ∷ cs) lt p o =
    let end = Ordered-le h (end_of h c) hi cs o.1.1 in
    let here : (ltb block c && (if previous == 0 then true else leb (block_end h previous) block))
        ≡ true =
      ground (arith, o.0, o.1.0, p, end) in
    rw (find_place, here) refl
find_place-split h block previous lo hi (b ∷ bs) after lt p o =
    let above = before-lt h (end_of h b) hi bs block after o.1 in
    let past : ltb block b ≡ false = ground (arith, above) in
    rw
      (
        find_place,
        past,
        find_place-split h block b (end_of h b) hi bs after lt (inr (omega arith)) o.1,
      )
      refl
  where
    before-lt :
        (h : Headers) (lo hi : ℕ) (bs : List ℕ) (block : ℕ) (after : List ℕ)
        → Ordered h lo (bs ++ block ∷ after) hi
        → lo ≤ block
    before-lt h lo hi [] block after o = o.0
    before-lt h lo hi (x ∷ xs) block after o =
        omega (arith, o.0, before-lt h (end_of h x) hi xs block after o.1)

-- The two ways that each merge can go
module _ (a : HeapAllocator) (block : ℕ) where
  merged_current :
      (c : ℕ) (rest : List ℕ)
      → (block_end a.headers block == c) ≡ true
      → merge_current a block c rest
        ≡ (record (count_merge a) { headers = absorb a.headers block c }, rest)
  unfolding merge_current
  merged_current c rest e = rw (merge_current, e) refl

  linked_current :
      (c : ℕ) (rest : List ℕ)
      → (block_end a.headers block == c) ≡ false
      → merge_current a block c rest ≡ (a, c ∷ rest)
  unfolding merge_current
  linked_current c rest e = rw (merge_current, e) refl

  merged_previous :
      (before : List ℕ)
      → (block_end a.headers (last_block 0 before) == block) ≡ true
      → merge_previous a block before ≡ (
        record (count_merge a) { headers = absorb a.headers (last_block 0 before) block },
        last_block 0 before,
        before,
      )
  unfolding merge_previous
  merged_previous before e = rw (merge_previous, e) refl

  linked_previous :
      (before : List ℕ)
      → (block_end a.headers (last_block 0 before) == block) ≡ false
      → merge_previous a block before ≡ (a, block, before ++ block ∷ [])
  unfolding merge_previous
  linked_previous before e = rw (merge_previous, e) refl

last_block-end : (b : ℕ) (bs : List ℕ) (block : ℕ) → last_block b (bs ++ block ∷ []) ≡ block
last_block-end b [] block = refl
last_block-end b (x ∷ xs) block = last_block-end x xs block

bytes-middle :
    (h : Headers) (b : ℕ) (xs ys : List ℕ)
    → bytes h (xs ++ b ∷ ys) ≡ 16 + (h b).size + bytes h (xs ++ ys)
bytes-middle h b [] ys = refl
bytes-middle h b (x ∷ xs) ys = omega (arith, bytes-middle h b xs ys)

-- In order up to `hi`, and as many bytes as before
abbrev pub Same : HeapAllocator → ℕ → ℕ → List ℕ → ℕ → Type 0
Same a lo hi bs n = Ordered a.headers lo bs hi × (bytes a.headers bs ≡ n)

module _ (lo hi : ℕ) (lt : hi < 2 ^ 64) (fit : hi ≤ lo + 2 ^ 63) where
  -- After the merge with the block after
  abbrev Linked : ℕ → List ℕ → ℕ → HeapAllocator × List ℕ → Type 0
  Linked b bs n r = Same r.0 lo hi (b ∷ bs ++ r.1) n

  current-Same :
      (a : HeapAllocator) (b : ℕ) (bs : List ℕ) (c : ℕ) (rest : List ℕ)
      → Ordered a.headers lo (b ∷ bs ++ c ∷ rest) hi
      → Linked b bs
          (bytes a.headers (b ∷ bs ++ c ∷ rest))
          (merge_current a (last_block b bs) c rest)
  current-Same a b bs c rest o = elim (Bool-cases (block_end a.headers (last_block b bs) == c)) [
    | inl e ↦
        subst (Linked b bs (bytes a.headers (b ∷ bs ++ c ∷ rest)))
          (sym (merged_current a (last_block b bs) c rest e))
          (absorb-Ordered a.headers c lo hi b bs rest lt fit ((==_iff _ _).0 e) o)
    | inr e ↦
        subst (Linked b bs (bytes a.headers (b ∷ bs ++ c ∷ rest)))
          (sym (linked_current a (last_block b bs) c rest e)) (o, refl)
  ]

  -- After the merge with the block before: the list so far ends with the block that goes on.
  abbrev Ends : HeapAllocator → ℕ → List ℕ → List ℕ → HeapAllocator × ℕ × List ℕ → Type 0
  Ends a n before after r =
      (b : ℕ) × (bs : List ℕ) × (r.2 ≡ b ∷ bs)
      × (r.1 ≡ last_block b bs)
      × Same r.0 lo hi (b ∷ bs ++ after) n

  previous-Ends :
      (a : HeapAllocator) (block b : ℕ) (bs after : List ℕ)
      → Ordered a.headers lo (b ∷ bs ++ block ∷ after) hi
      → Ends a
          (bytes a.headers (b ∷ bs ++ block ∷ after))
          (b ∷ bs)
          after
          (merge_previous a block (b ∷ bs))
  previous-Ends a block b bs after o =
      elim (Bool-cases (block_end a.headers (last_block b bs) == block)) [
        | inl e ↦
            subst (Ends a (bytes a.headers (b ∷ bs ++ block ∷ after)) (b ∷ bs) after)
              (sym (merged_previous a block (b ∷ bs) e))
              (
                b,
                bs,
                refl,
                refl,
                absorb-Ordered a.headers block lo hi b bs after lt fit ((==_iff _ _).0 e) o,
              )
        | inr e ↦
            subst (Ends a (bytes a.headers (b ∷ bs ++ block ∷ after)) (b ∷ bs) after)
              (sym (linked_previous a block (b ∷ bs) e))
              (
                b,
                bs ++ block ∷ [],
                refl,
                sym (last_block-end b bs block),
                subst (λ l. Same a lo hi (b ∷ l) (bytes a.headers (b ∷ bs ++ block ∷ after)))
                    (sym (append_assoc bs (block ∷ []) after)) (o, refl),
              )
      ]

  abbrev Inserted : ℕ → HeapAllocator × List ℕ → Type 0
  Inserted n r = Same r.0 lo hi r.1 n

  insert_block-Same :
      (a : HeapAllocator) (block : ℕ) (before after : List ℕ)
      → Ordered a.headers lo (before ++ block ∷ after) hi
      → Inserted (bytes a.headers (before ++ block ∷ after)) (insert_block a block before after)
  unfolding insert_block
  insert_block-Same a block [] [] o = (o, refl)
  insert_block-Same a block [] (c ∷ rest) o = current-Same a block [] c rest o
  insert_block-Same a block (b ∷ bs) [] o =
      let (d, ds, list, last, same) = previous-Ends a block b bs [] o in
      subst
        (λ l.
          Same (merge_previous a block (b ∷ bs)).0 lo hi l (bytes a.headers (b ∷ bs ++ block ∷ [])))
        (append-nil (d ∷ ds) ∙ sym list) same
  insert_block-Same a block (b ∷ bs) (c ∷ rest) o =
      let (d, ds, list, last, same) = previous-Ends a block b bs (c ∷ rest) o in
      let r = merge_previous a block (b ∷ bs) in
      let m = current-Same r.0 d ds c rest same.0 in
      subst
        (λ l.
          Same (merge_current r.0 r.1 c rest).0 lo hi (l ++ (merge_current r.0 r.1 c rest).1)
            (bytes a.headers (b ∷ bs ++ block ∷ c ∷ rest)))
        (sym list)
        (subst
          (λ p.
            Linked d ds (bytes a.headers (b ∷ bs ++ block ∷ c ∷ rest)) (merge_current r.0 p c rest))
          (sym last) (m.0, m.1 ∙ same.1))

-- Where the free blocks of a section with the block that is put back among them lie in order between
-- two addresses below 2^64 that are at most 2^63 bytes apart, the search of `Free` finds its place,
-- and the insertion there, with the merges on either side, leaves a list that lies in order within
-- the same bounds and that covers exactly as many bytes more as the block has with its header.
pub insert_lem :
    (a : HeapAllocator) (block lo hi : ℕ) (before after : List ℕ)
    → hi < 2 ^ 64
    → hi ≤ lo + 2 ^ 63
    → Ordered a.headers lo (before ++ block ∷ after) hi
    → let place = find_place a.headers block 0 (before ++ after) in
      let r = insert_block a block place.0 place.1 in
      Ordered r.0.headers lo r.1 hi
      × (bytes r.0.headers r.1 ≡ 16 + (a.headers block).size + bytes a.headers (before ++ after))
insert_lem a block lo hi before after lt fit o =
    let at = find_place-split a.headers block 0 lo hi before after lt (inl refl) o in
    subst
      (λ p.
        Inserted lo hi lt fit (16 + (a.headers block).size + bytes a.headers (before ++ after))
          (insert_block a block p.0 p.1))
      (sym at)
      (
        (insert_block-Same lo hi lt fit a block before after o).0,
        (insert_block-Same lo hi lt fit a block before after o).1
            ∙ bytes-middle a.headers block before after,
      )

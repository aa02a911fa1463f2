-- ===== src/VmRegions/Marks.antt =====
-- What `SplitAPTNode` and the marking of a region do to the tree of all regions,
-- kernel/src/Memory/VMRegionAllocator.cpp.
use frosty_os.Prelude.{
  ℕ, ◌≡◌, ◌≤◌, ◌<◌, ◌+◌, ◌-◌, ◌*◌, ◌^◌, Option, none, some, ◌==◌, ◌&&◌, if◌then◌else◌, refl, ap,
  arith, ◌∙◌, Bool-cases, inl, inr, ==-refl, false, ltb, add64, sub64, ltb→lt, ltb_false→le,
}
use frosty_os.VmRegions.{Trees, RegionData, size62, page_bytes}
use frosty_os.VmRegions.Nodes.{in_tree, node_value, inserted, split_node}
use frosty_os.VmRegions.Take.{mark_used, mark_split}

-- The map of regions after a region `d` at `s` is cut to its first pages
abbrev pub cut_map : (ℕ → Option RegionData) → ℕ → RegionData → ℕ → ℕ → Option RegionData
cut_map find s d pages q =
    if s == q
    then some (record d { size = pages })
    else if s + pages * 4096 == q
    then some (record d { size = d.size - pages })
    else find q

-- The map after the first pages of a free region `d` at `s` are taken
abbrev pub taken_map : (ℕ → Option RegionData) → ℕ → RegionData → ℕ → ℕ → Option RegionData
taken_map find s d pages q =
    if s == q
    then some (record d { size = pages; is_free = false })
    else if ltb pages d.size && (s + pages * 4096 == q)
    then some (record d { size = d.size - pages })
    else find q

module _ (trees : Trees) where
  open trees use {regions}
  open regions use {Tree, rb_find, find-insert, find-set_value}

  module _ (t : Tree) (s : ℕ) (d : RegionData) (pages : ℕ) (at : rb_find t s ≡ some d)
      (some_pages : 1 ≤ pages) (few : pages < d.size) (in_word : s + d.size * 4096 ≤ 2 ^ 64)
      (gap : rb_find t (s + pages * 4096) ≡ none) where
    upper_key : add64 s (page_bytes pages) ≡ s + pages * 4096
    upper_key = omega (arith, few, in_word)

    lower_size : size62 pages ≡ pages
    lower_size = omega (arith, few, in_word)

    upper_size : size62 (sub64 d.size pages) ≡ d.size - pages
    upper_size = omega (arith, few, in_word)

    -- The three results, with the sizes and the key computed
    split_node-parts : split_node regions t (in_tree s) pages ≡ (
      regions.rb_insert
          (regions.set_value t s (record d { size = pages }))
          (s + pages * 4096)
          (record d { size = d.size - pages }),
      in_tree s,
      in_tree (s + pages * 4096),
    )
    unfolding split_node
    split_node-parts =
        let after = find-set_value t s (record d { size = pages }) (s + pages * 4096) in
        let gone : rb_find (regions.set_value t s (record d { size = pages })) (s + pages * 4096)
            ≡ none =
          ground (arith, after, gap, some_pages) in
        rw (at, lower_size, upper_size, upper_key, split_node, node_value)
          (rw (gone, inserted) refl)

    pub split_node-find :
        (q : ℕ)
        → rb_find (split_node regions t (in_tree s) pages).0 q ≡ cut_map (rb_find t) s d pages q
    split_node-find q =
        let after = find-set_value t s (record d { size = pages }) in
        let upper =
          find-insert (regions.set_value t s (record d { size = pages })) (s + pages * 4096)
            (record d { size = d.size - pages }) q in
        rw (split_node-parts)
          (ground (arith, upper, after q, after (s + pages * 4096), at, gap, some_pages))

  find-mark_split :
      (t : Tree) (s : ℕ) (d : RegionData)
      → rb_find t s ≡ some d
      → (q : ℕ)
      → rb_find (mark_split trees (t, in_tree s)) q
        ≡ (if s == q then some (record d { is_free = false }) else rb_find t q)
  find-mark_split t s d at q =
      rw (at, mark_split, node_value)
        (ground (arith, find-set_value t s (record d { is_free = false }) q, at))

  same_size :
      (d : RegionData) (pages : ℕ)
      → d.size ≡ pages
      → record d { is_free = false } ≡ record d { size = pages; is_free = false }
  same_size d pages e = ap (λ n. record d { size = n; is_free = false }) e

  pub find-mark_used :
      (t : Tree) (s : ℕ) (d : RegionData) (pages : ℕ)
      → rb_find t s ≡ some d
      → 1 ≤ pages
      → pages ≤ d.size
      → s + d.size * 4096 ≤ 2 ^ 64
      → (pages < d.size → rb_find t (s + pages * 4096) ≡ none)
      → (q : ℕ)
      → rb_find (mark_used trees t (in_tree s) pages) q ≡ taken_map (rb_find t) s d pages q
  unfolding mark_used
  find-mark_used t s d pages at some_pages few in_word gap q =
      elim (Bool-cases (ltb pages d.size)) [
        | inl l ↦
            let less = ltb→lt pages d.size l in
            let parts = split_node-parts t s d pages at some_pages less in_word (gap less) in
            let cut = split_node-find t s d pages at some_pages less in_word (gap less) in
            let split = split_node regions t (in_tree s) pages in
            let at_cut : rb_find split.0 s ≡ some (record d { size = pages }) =
              cut s ∙ rw (==-refl s) refl in
            rw (at, l, mark_used, node_value, ap (λ r. r.1) parts)
              (ground
                (arith, cut q, find-mark_split split.0 s (record d { size = pages }) at_cut q))
        | inr l ↦
            let eq : d.size ≡ pages = omega (arith, few, ltb_false→le pages d.size l) in
            rw (at, l, mark_used, node_value)
              (find-set_value t s (record d { is_free = false }) q
                ∙ rw at (ap (λ r. if s == q then some r else rb_find t q) (same_size d pages eq)))
      ]

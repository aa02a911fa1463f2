-- ===== src/Pmm/Booted.antt =====
-- `PMM::Init` makes a valid state of an orderly memory map.
use frosty_os.Prelude.{
  ℕ, ◌+◌, ◌-◌, ◌/◌, ◌≤◌, ◌<◌, ◌≡◌, refl, ◌⊎◌, inl, inr, List, [], ◌∷◌, ◌++◌, append_assoc,
  append-nil, arith, length-append, word, sub64, ltb, ◌==◌, ◌∙◌, subst, sym, true, false, All,
  if◌then◌else◌, Bool-cases, ==_iff,
}
use frosty_os.Pmm.Region.{Region, total, Sorted}
use frosty_os.Pmm.Region.Order.{total-lt, length-le-total, Sorted-at, Sorted-tail}
use frosty_os.Pmm.Seg.{last_of-append, Seg-split, Seg-append}
use frosty_os.Pmm.Valid.{Linked, Valid}
use frosty_os.Pmm.Free.Link.{Seg-below}
use frosty_os.Pmm.Allocate.Carve.{snoc-cases}
use frosty_os.Pmm.{Memory, Pmm, page_size, to_hhdm}
use frosty_os.Pmm.Boot.{
  initial, MemoryMapEntry, memory_map_entry_usable, add_entry, first_node, later_node, init_entry,
  init_entries, init,
}

-- The region in front of the others, as the memory map has it.
abbrev region_at : ℕ → ℕ → ℕ → Region
region_at hhdm base len = record { base = to_hhdm hhdm base; pages = len / 4096 }

-- The regions that the usable entries stand for: the page at address 0 is left out, and so is an
-- entry that has no other.
unfoldable pub regions : ℕ → List MemoryMapEntry → List Region
regions hhdm [] = []
regions hhdm (e ∷ es) =
    if e.kind == memory_map_entry_usable
    then (if e.base == 0
        then (if ltb e.len 8192
            then regions hhdm es
            else region_at hhdm page_size (e.len - 4096) ∷ regions hhdm es)
        else region_at hhdm e.base e.len ∷ regions hhdm es)
    else regions hhdm es

-- Usable entries have a page at least.
abbrev pub HasPage : MemoryMapEntry → Type 0
HasPage e = (e.kind ≡ memory_map_entry_usable → 4096 ≤ e.len) × (e.len < word)

-- The state within the loop.
record Booting (p : Pmm) (rs : List Region) : Type 0 where
  linked : Linked p rs
  free : p.free_page_count ≡ total rs
  sum : p.total_page_count ≡ total rs

total-append : (xs ys : List Region) → total (xs ++ ys) ≡ total xs + total ys
unfolding total
total-append [] ys = omega arith
total-append (x ∷ xs) ys = omega (arith, total-append xs ys)

module _ (p : Pmm) (r : Region) where
  first_node-Linked :
      Sorted 1 (r ∷ []) → Linked p [] → Linked (first_node p r.base r.pages) (r ∷ [])
  unfolding first_node
  first_node-Linked s linked = record {
    chain = (refl, ground arith, ground arith);
    last = refl;
    nodes = omega (arith, linked.nodes);
  }

  later_node-Linked :
      (xs : List Region) (v : Region)
      → Sorted 1 (xs ++ v ∷ r ∷ [])
      → Linked p (xs ++ v ∷ [])
      → Linked (later_node p r.base r.pages) (xs ++ v ∷ r ∷ [])
  unfolding later_node
  later_node-Linked xs v s linked =
      let at = Sorted-at 1 xs v (r ∷ []) s in
      let seg = Seg-split p.mem p.free_list_start 0 xs v [] linked.chain in
      let end : p.free_list_end ≡ v.base = linked.last ∙ last_of-append 0 xs v [] in
      let q = later_node p r.base r.pages in
      record {
        chain =
            Seg-append q.mem q.free_list_start v.base 0 xs (v ∷ r ∷ [])
              (Seg-below p.mem q.mem 1 p.free_list_start v.base xs v (r ∷ [])
                (λ x h. ground (arith, end, at.3.0)) s seg.0)
              (
                refl,
                ground (arith, end, seg.1.1),
                (ground (arith, end), ground (arith, end), ground (arith, end)),
              );
        last = sym (last_of-append 0 xs v (r ∷ []));
        nodes = omega (
          arith,
          linked.nodes,
          length-append xs (v ∷ []),
          length-append xs (v ∷ r ∷ []),
          length-le-total 1 (xs ++ v ∷ r ∷ []) s,
          total-lt 1 (xs ++ v ∷ r ∷ []) (omega arith) s,
        );
      }

-- An entry adds its region at the end of the list.
add_entry-Linked :
    (hhdm base len : ℕ) (p : Pmm) (xs : List Region)
    → Sorted 1 (xs ++ region_at hhdm base len ∷ [])
    → Linked p xs
    → Linked (add_entry hhdm p base len) (xs ++ region_at hhdm base len ∷ [])
unfolding add_entry
add_entry-Linked hhdm base len p xs = elim (snoc-cases xs) [
  | inl e ↦ subst Goal (sym e) (λ s linked.
      let test : (p.free_list_end == 0) ≡ true = ground (arith, linked.last) in
      rw test (first_node-Linked p r s linked))
  | inr (zs, v, e) ↦ subst Goal (sym e) (λ s linked.
      let s' = rw append_assoc at s in
      let test : (p.free_list_end == 0) ≡ false =
        ground (arith, linked.last, last_of-append 0 zs v [], Sorted-at 1 zs v (r ∷ []) s') in
      rw (test, append_assoc) (later_node-Linked p r zs v s' linked))
]
  where
    r : Region
    r = region_at hhdm base len

    Goal : List Region → Type 0
    Goal xs =
        Sorted 1 (xs ++ r ∷ []) → Linked p xs → Linked (add_entry hhdm p base len) (xs ++ r ∷ [])

add_entry-Booting :
    (hhdm base len : ℕ) (p : Pmm) (xs : List Region)
    → Sorted 1 (xs ++ region_at hhdm base len ∷ [])
    → Booting p xs
    → Booting (add_entry hhdm p base len) (xs ++ region_at hhdm base len ∷ [])
unfolding add_entry first_node later_node total
add_entry-Booting hhdm base len p xs s b =
    let r = region_at hhdm base len in
    let bound = total-lt 1 (xs ++ r ∷ []) (omega arith) s in
    let new = add_entry-Linked hhdm base len p xs s b.linked in
    record {
      linked = new;
      free = ground (arith, bound, b.free, total-append xs (r ∷ []));
      sum = ground (arith, bound, b.sum, total-append xs (r ∷ []));
    }

-- An entry with a region in front of the other regions, or without one.
record Entered (hhdm : ℕ) (e : MemoryMapEntry) (es : List MemoryMapEntry) : Type 0 where
  base : ℕ
  len : ℕ
  shown : regions hhdm (e ∷ es) ≡ region_at hhdm base len ∷ regions hhdm es
  added : (p : Pmm) → init_entry hhdm p e ≡ add_entry hhdm p base len

init_entry-cases :
    (hhdm : ℕ) (e : MemoryMapEntry) (es : List MemoryMapEntry)
    → HasPage e
    → ((regions hhdm (e ∷ es) ≡ regions hhdm es) × ((p : Pmm) → init_entry hhdm p e ≡ p))
      ⊎ Entered hhdm e es
unfolding regions init_entry
init_entry-cases hhdm e es h = elim (Bool-cases (e.kind == memory_map_entry_usable)) [
  | inr other ↦ inl (rw other, λ p. rw other)
  | inl usable ↦ elim (Bool-cases (e.base == 0)) [
    | inr elsewhere ↦ inr (record {
      base = e.base;
      len = e.len;
      shown = rw (usable, elsewhere);
      added = λ p. rw (usable, elsewhere);
    })
    | inl low ↦
        let room : 4096 ≤ e.len = h.0 ((==_iff _ _).0 usable) in
        elim (Bool-cases (ltb e.len 8192)) [
          | inl single ↦ inl (rw (usable, low, single), λ p. ground arith)
          | inr more ↦ inr (record {
            base = page_size;
            len = e.len - 4096;
            shown = rw (usable, low, more);
            added = λ p.
                let rest : sub64 e.len page_size ≡ e.len - 4096 = omega (arith, h.1) in
                let long : ltb (e.len - 4096) page_size ≡ false = ground arith in
                rw (usable, low, rest, long);
          })
        ]
  ]
]

regions-nil : (hhdm : ℕ) → regions hhdm [] ≡ []
unfolding regions
regions-nil hhdm = refl

append_cons :
    (xs : List Region) (r : Region) (ys : List Region) → (xs ++ r ∷ []) ++ ys ≡ xs ++ r ∷ ys
append_cons xs r ys = append_assoc xs (r ∷ []) ys

Sorted-prefix :
    (lo : ℕ) (xs : List Region) (r : Region) (ys : List Region)
    → Sorted lo (xs ++ r ∷ ys)
    → Sorted lo (xs ++ r ∷ [])
Sorted-prefix lo xs r ys s =
    let at = Sorted-at lo xs r ys s in
    Sorted-tail lo xs r ys (r ∷ []) s (omega arith, at.1, at.2, tt)

empty_boot : (mem : Memory) → Booting (initial mem) []
unfolding total
empty_boot mem = record {
  linked = record { chain = refl; last = refl; nodes = refl };
  free = refl;
  sum = refl;
}

init_entries-Booting :
    (hhdm : ℕ) (es : List MemoryMapEntry) (p : Pmm) (xs : List Region)
    → All HasPage es
    → Sorted 1 (xs ++ regions hhdm es)
    → Booting p xs
    → Booting (init_entries hhdm p es) (xs ++ regions hhdm es)
unfolding init_entries
init_entries-Booting hhdm [] p xs h s b = rw (regions-nil hhdm, append-nil) b
init_entries-Booting hhdm (e ∷ es) p xs h s b = elim (init_entry-cases hhdm e es h.0) [
  | inl (same, kept) ↦ rw (same, kept p) (init_entries-Booting hhdm es p xs h.1 (rw same at s) b)
  | inr n ↦
      let r = region_at hhdm n.base n.len in
      let s' : Sorted 1 (xs ++ r ∷ regions hhdm es) = rw n.shown at s in
      rw (n.shown, n.added p, ← append_cons xs r (regions hhdm es))
        (init_entries-Booting hhdm es (add_entry hhdm p n.base n.len) (xs ++ r ∷ []) h.1
          (rw append_assoc s')
          (add_entry-Booting hhdm n.base n.len p xs (Sorted-prefix 1 xs r (regions hhdm es) s') b))
]

-- After `Init` over an orderly memory map the state is valid, its free list is the usable regions,
-- and no page is in use.
pub init_lem :
    (hhdm : ℕ) (mem : Memory) (es : List MemoryMapEntry)
    → All HasPage es
    → Sorted 1 (regions hhdm es)
    → Valid (init hhdm (initial mem) es) (regions hhdm es)
      × ((init hhdm (initial mem) es).used_page_count ≡ 0)
unfolding init
init_lem hhdm mem es h s =
    let b = init_entries-Booting hhdm es (initial mem) [] h s (empty_boot mem) in
    (
      record {
        linked = record { chain = b.linked.chain; last = b.linked.last; nodes = b.linked.nodes };
        sorted = s;
        free = b.free;
        sum = omega (arith, b.free, b.sum);
        bounded = omega (arith, b.sum, total-lt 1 (regions hhdm es) (omega arith) s);
      },
      refl,
    )

-- ===== src/Pmm/Verified.antt =====
-- `PMM::Verify` accepts every valid state.
use frosty_os.Prelude.{
  ℕ, zero, suc, ◌+◌, ◌≤◌, ◌<◌, ◌≡◌, refl, ◌⊎◌, inl, inr, List, [], ◌∷◌, arith, length, word, done,
  add64, mul64, ◌∙◌,
}
use frosty_os.Pmm.Region.{Region, end_of, total, Sorted}
use frosty_os.Pmm.Region.Order.{total-lt}
use frosty_os.Pmm.Seg.{Seg, last_of}
use frosty_os.Pmm.Valid.{Valid}
use frosty_os.Pmm.{Memory, Pmm, page_size}
use frosty_os.Pmm.Check.{verify_loop, verify}

-- The node before, if there is one, ends at `lo` at the latest.
abbrev pub Before : Memory → ℕ → ℕ → Type 0
Before mem prev lo = (prev ≡ 0) ⊎ (add64 prev (mul64 (mem prev).page_count page_size) ≤ lo)

-- One round of the loop at a node.
verify_loop-step :
    (mem : Memory) (lo rounds prev cur pages : ℕ) (r : Region)
    → 1 ≤ lo
    → Before mem prev lo
    → lo ≤ r.base
    → (cur ≡ r.base) × ((mem r.base).page_count ≡ r.pages)
    → verify_loop mem (suc rounds) cur prev pages
      ≡ verify_loop mem rounds (mem r.base).next r.base (add64 pages r.pages)
unfolding verify_loop
verify_loop-step mem lo rounds prev cur pages r k b l h = ground arith

-- The loop passes a segment in order, adding up its pages, and goes on at its end.
pub verify_loop-walk :
    (mem : Memory) (lo rounds more prev cur next pages sum : ℕ) (rs : List Region)
    → 1 ≤ lo
    → Before mem prev lo
    → Sorted lo rs
    → Seg mem cur rs next
    → rounds ≡ length rs + more
    → sum ≡ pages + total rs
    → sum < word
    → verify_loop mem rounds cur prev pages ≡ verify_loop mem more next (last_of prev rs) sum
unfolding total
verify_loop-walk mem lo rounds more prev cur next pages sum [] k b s h er es w =
    let e : rounds ≡ more = omega arith in let d : pages ≡ sum = omega arith in rw (e, h, d)
verify_loop-walk mem lo zero more prev cur next pages sum (r ∷ rs) k b s h er es w =
    absurd (omega arith)
verify_loop-walk mem lo (suc rounds) more prev cur next pages sum (r ∷ rs) k b s h er es w =
    verify_loop-step mem lo rounds prev cur pages r k b s.0 (h.0, h.1)
    ∙ verify_loop-walk mem (end_of r) rounds more r.base (mem r.base).next next
        (add64 pages r.pages) sum rs (omega arith) (inr (omega (arith, h.1, s.2))) s.3 h.2
        (omega arith) (omega arith) w

-- A valid state passes every assertion of `Verify`.
pub verify_lem : (p : Pmm) (rs : List Region) → Valid p rs → verify p ≡ done tt
unfolding verify verify_loop
verify_lem p rs v =
    let walk =
      verify_loop-walk p.mem 1 p.free_list_node_count 0 0 p.free_list_start 0 0 (total rs) rs
        (omega arith) (inl refl) v.sorted v.chain (omega (arith, v.nodes)) (omega arith)
        (omega (arith, total-lt 1 rs (omega arith) v.sorted)) in
    rw walk (ground (arith, v.free, v.last, v.sum, v.bounded))

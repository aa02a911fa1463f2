-- ===== src/LinkedList/Rear.antt =====
-- `RearInsertLinkedList` of kernel/lib/include/DataStructures/LinkedList.hpp, which has a pointer to
-- the last node.
use frosty_os.Prelude.{
  ℕ, zero, suc, ◌-◌, Bool, List, [], ◌∷◌, Outcome, done, diverged, ◌>>=◌, ◌==◌, if◌then◌else◌, leb,
  add64, sub64,
}
use frosty_os.LinkedList.{
  Heap, set_next, set_previous, new_node, link_last, find_node, delete_node, delete_at,
}
use frosty_os.LinkedList.Simple.{node_at, place_of, link_behind, index_from}

pub record RearInsertLinkedList : Type 0 where
  pub heap : Heap
  pub count : ℕ
  pub start : ℕ
  pub end : ℕ

-- `insert`, with a new node at `fresh`
unfoldable pub insert : RearInsertLinkedList → ℕ → ℕ → RearInsertLinkedList
insert l object fresh =
    if l.count == 0
    then record {
      heap = new_node l.heap fresh object;
      count = add64 l.count 1;
      start = fresh;
      end = fresh;
    }
    else record l {
      heap = link_last l.heap l.end fresh object;
      count = add64 l.count 1;
      end = fresh;
    }

-- The new node behind a node, which may be the last
abbrev pub insert_behind : RearInsertLinkedList → ℕ → ℕ → ℕ → RearInsertLinkedList
insert_behind l t object fresh = record l {
  heap = link_behind l.heap t fresh object;
  count = add64 l.count 1;
  end = if (l.heap t).next == 0 then fresh else l.end;
}

-- `insertAt`
unfoldable pub insert_at : RearInsertLinkedList → ℕ → ℕ → ℕ → RearInsertLinkedList
insert_at l index object fresh =
    let t = place_of l.heap index 0 l.start in
    if leb l.count index
    then l
    else if t == 0
    then record {
      heap = new_node l.heap fresh object;
      count = add64 l.count 1;
      start = fresh;
      end = fresh;
    }
    else insert_behind l t object fresh

-- `insertAfter`
unfoldable pub insert_after : RearInsertLinkedList → ℕ → ℕ → ℕ → ℕ → Outcome RearInsertLinkedList
insert_after l fuel object new fresh = find_node l.heap fuel l.start object >>= λ t.
    done (if t == 0 then l else insert_behind l t new fresh)

-- `get` and `getIndex`
unfoldable pub get : RearInsertLinkedList → ℕ → ℕ
get l index =
    let t = node_at l.heap index l.start in
    if leb l.count index then 0 else if t == 0 then 0 else (l.heap t).value

abbrev pub get_index : RearInsertLinkedList → ℕ → ℕ
get_index l object = index_from l.heap l.count 0 l.start object

-- `remove` of an object, and of an index: the pointer to the last node stays as it is.
unfoldable pub remove : RearInsertLinkedList → ℕ → ℕ → Outcome RearInsertLinkedList
remove l fuel object = delete_node l.heap fuel l.start object >>= λ r.
    done (record l { heap = r.0; count = sub64 l.count 1; start = r.1 })

abbrev pub remove_index : RearInsertLinkedList → ℕ → ℕ → Outcome RearInsertLinkedList
remove_index l fuel index = remove l fuel (get l index)

-- `Enumerate` and `EnumerateReverse`: the objects from a node on, whatever `func` gives; and those up
-- to the first that `func` does not accept, with their indices.
unfoldable pub visit_all : Heap → ℕ → ℕ → List ℕ
visit_all h zero t = []
visit_all h (suc n) t = (h t).value ∷ visit_all h n (h t).next

unfoldable pub visit_all_reverse : Heap → ℕ → ℕ → List ℕ
visit_all_reverse h zero t = []
visit_all_reverse h (suc n) t = (h t).value ∷ visit_all_reverse h n (h t).previous

unfoldable pub visit_from : Heap → ℕ → ℕ → ℕ → (ℕ → ℕ → Bool) → List ℕ
visit_from h zero i t func = []
visit_from h (suc n) i t func =
    let rest = visit_from h n (suc i) (h t).next func in
    (h t).value ∷ (if func (h t).value i then rest else [])

-- The node that the first loop of `Enumerate` reaches, which reads on past the end
unfoldable pub skip : Heap → ℕ → ℕ → ℕ
skip h zero t = t
skip h (suc i) t = skip h i (h t).next

unfoldable pub enumerate_from : RearInsertLinkedList → (ℕ → ℕ → Bool) → ℕ → List ℕ
enumerate_from l func first =
    if leb l.count first
    then []
    else visit_from l.heap (l.count - first) first (skip l.heap first l.start) func

-- `IteratorDecision`
pub data IteratorDecision : Type 0 where
  continue : IteratorDecision
  break : IteratorDecision
  delete : IteratorDecision
  delete_break : IteratorDecision

-- The node that `EnumerateDelete` takes out
unfoldable pub cut : RearInsertLinkedList → ℕ → RearInsertLinkedList
cut l t =
    let d = l.heap t in
    let after = if d.next == 0 then l.heap else set_previous l.heap d.next d.previous in
    record {
      heap = if d.previous == 0 then after else set_next after d.previous d.next;
      count = sub64 l.count 1;
      start = if d.previous == 0 then d.next else l.start;
      end = if d.next == 0 then d.previous else l.end;
    }

-- The loop of `EnumerateDelete`
unfoldable pub enumerate_delete_from :
    RearInsertLinkedList → ℕ → ℕ → ℕ → (ℕ → ℕ → IteratorDecision) → Outcome RearInsertLinkedList
enumerate_delete_from l zero index t func = if t == 0 then done l else diverged
enumerate_delete_from l (suc fuel) index t func =
    let rest : RearInsertLinkedList → Outcome RearInsertLinkedList =
      λ k. enumerate_delete_from k fuel (suc index) (l.heap t).next func in
    if t == 0 then done l else (elim (func (l.heap t).value index) [
      | continue ↦ rest l
      | break ↦ done l
      | delete ↦ rest (cut l t)
      | delete_break ↦ done (cut l t)
    ])

abbrev pub enumerate_delete :
    RearInsertLinkedList → ℕ → (ℕ → ℕ → IteratorDecision) → ℕ → Outcome RearInsertLinkedList
enumerate_delete l fuel func first =
    enumerate_delete_from l fuel first (skip l.heap first l.start) func

-- `clear`
unfoldable pub clear_from : Heap → ℕ → ℕ → Heap × ℕ
clear_from h zero start = (h, start)
clear_from h (suc n) start = let r = delete_at h start start in clear_from r.0 n r.1

unfoldable pub clear : RearInsertLinkedList → RearInsertLinkedList
clear l =
    let r = clear_from l.heap l.count l.start in
    record { heap = r.0; count = 0; start = r.1; end = 0 }

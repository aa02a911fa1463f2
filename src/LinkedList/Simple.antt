-- ===== src/LinkedList/Simple.antt =====
-- `SimpleLinkedList` of kernel/lib/include/DataStructures/LinkedList.hpp over the routines of
-- LinkedList.cpp. An object is its address, which is the word in its node. `LockableLinkedList` calls
-- the same routines.
use frosty_os.Prelude.{
  ℕ, zero, suc, ◌-◌, ◌^◌, Bool, List, [], ◌∷◌, Outcome, done, diverged, assert_failed, ◌>>=◌, ◌==◌,
  if◌then◌else◌, ltb, leb, add64, sub64,
}
use frosty_os.LinkedList.{
  Heap, set_next, set_previous, new_node, find_last, insert_node, find_node, delete_node,
}

-- The fields of `SimpleLinkedList`, and the heap
pub record SimpleLinkedList : Type 0 where
  pub heap : Heap
  pub count : ℕ
  pub start : ℕ

-- `insert`, with a new node at `fresh`
unfoldable pub insert : SimpleLinkedList → ℕ → ℕ → ℕ → Outcome SimpleLinkedList
insert l fuel object fresh = insert_node l.heap fuel l.start object fresh >>= λ r.
    done (record { heap = r.0; count = add64 l.count 1; start = r.1 })

-- The node a number of steps behind another, or a null pointer
unfoldable pub node_at : Heap → ℕ → ℕ → ℕ
node_at h zero t = t
node_at h (suc i) t = let rest = node_at h i (h t).next in if t == 0 then 0 else rest

-- `get`
unfoldable pub get : SimpleLinkedList → ℕ → ℕ
get l index =
    let t = node_at l.heap index l.start in
    if leb l.count index then 0 else if t == 0 then 0 else (l.heap t).value

-- The loop of `insertAt`: past the end it stays at the last node.
unfoldable pub place_of : Heap → ℕ → ℕ → ℕ → ℕ
place_of h zero previous t = t
place_of h (suc i) previous t =
    let rest = place_of h i t (h t).next in if t == 0 then previous else rest

-- The new node between a node and the one behind it
unfoldable pub link_behind : Heap → ℕ → ℕ → ℕ → Heap
link_behind h t fresh object =
    let made = new_node h fresh object in
    let linked =
      if (made t).next == 0
      then made
      else set_next (set_previous made (made t).next fresh) fresh (made t).next in
    set_previous (set_next linked t fresh) fresh t

-- `insertAt`
abbrev pub insert_front : SimpleLinkedList → ℕ → ℕ → SimpleLinkedList
insert_front l object fresh =
    let made = set_next (new_node l.heap fresh object) fresh l.start in
    record {
      heap = if l.start == 0 then made else set_previous made l.start fresh;
      count = add64 l.count 1;
      start = fresh;
    }

unfoldable pub insert_at : SimpleLinkedList → ℕ → ℕ → ℕ → SimpleLinkedList
insert_at l index object fresh =
    let t = place_of l.heap index 0 l.start in
    if leb l.count index
    then l
    else if index == 0
    then insert_front l object fresh
    else if t == 0
    then record { heap = new_node l.heap fresh object; count = add64 l.count 1; start = fresh }
    else record l { heap = link_behind l.heap t fresh object; count = add64 l.count 1 }

-- `getNext`
unfoldable pub get_next : SimpleLinkedList → ℕ → ℕ → Outcome ℕ
get_next l fuel object = find_node l.heap fuel l.start object >>= λ t.
    done (if t == 0 then 0 else if (l.heap t).next == 0 then 0 else (l.heap (l.heap t).next).value)

-- `getIndex`, from the index `i` on
unfoldable pub index_from : Heap → ℕ → ℕ → ℕ → ℕ → ℕ
index_from h zero i t object = 2 ^ 64 - 1
index_from h (suc n) i t object =
    let rest = index_from h n (suc i) (h t).next object in
    if t == 0 then 2 ^ 64 - 1 else if (h t).value == object then i else rest

abbrev pub get_index : SimpleLinkedList → ℕ → ℕ
get_index l object = index_from l.heap l.count 0 l.start object

-- `remove` of an object, and of an index
unfoldable pub remove : SimpleLinkedList → ℕ → ℕ → Outcome SimpleLinkedList
remove l fuel object = delete_node l.heap fuel l.start object >>= λ r.
    done (record { heap = r.0; count = sub64 l.count 1; start = r.1 })

abbrev pub remove_index : SimpleLinkedList → ℕ → ℕ → Outcome SimpleLinkedList
remove_index l fuel index = remove l fuel (get l index)

-- `rotateLeft`
abbrev pub rotate_left_at : SimpleLinkedList → ℕ → SimpleLinkedList
rotate_left_at l end =
    let joined = set_previous (set_next l.heap end l.start) l.start end in
    let start = (joined l.start).next in
    let front = set_previous joined start 0 in
    record l { heap = set_next front (front end).next 0; start = start }

unfoldable pub rotate_left : SimpleLinkedList → ℕ → Outcome SimpleLinkedList
rotate_left l fuel =
    if ltb l.count 2
    then done l
    else if l.start == 0
    then assert_failed
    else find_last l.heap fuel l.start >>= λ end. done (rotate_left_at l end)

-- `rotateRight`
abbrev pub rotate_right_at : SimpleLinkedList → ℕ → SimpleLinkedList
rotate_right_at l end = record l {
  heap = set_previous (set_next (set_previous l.heap l.start end) end l.start) end 0;
  start = end;
}

unfoldable pub rotate_right : SimpleLinkedList → ℕ → Outcome SimpleLinkedList
rotate_right l fuel =
    if ltb l.count 2
    then done l
    else if l.start == 0
    then assert_failed
    else find_last l.heap fuel l.start >>= λ end. done (rotate_right_at l end)

-- `getHead`
abbrev pub get_head : SimpleLinkedList → ℕ
get_head l = if l.start == 0 then 0 else (l.heap l.start).value

-- `Enumerate`: the objects that `func` is called with, up to the first that it does not accept
unfoldable pub visit : Heap → ℕ → ℕ → (ℕ → Bool) → List ℕ
visit h zero t func = []
visit h (suc n) t func =
    let rest = visit h n (h t).next func in (h t).value ∷ (if func (h t).value then rest else [])

abbrev pub enumerate : SimpleLinkedList → (ℕ → Bool) → List ℕ
enumerate l func = visit l.heap l.count l.start func

-- The loop of the destructor, whose bound goes down with the count: `i` is the number of turns.
unfoldable pub destroy_from : SimpleLinkedList → ℕ → ℕ → Outcome SimpleLinkedList
destroy_from l zero i = if ltb i l.count then diverged else done l
destroy_from l (suc fuel) i =
    let rest : SimpleLinkedList → Outcome SimpleLinkedList = λ k. destroy_from k fuel (suc i) in
    if ltb i l.count then remove_index l l.count 0 >>= rest else done l

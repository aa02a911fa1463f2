-- ===== src/LinkedList.antt =====
-- kernel/lib/src/DataStructures/LinkedList.cpp: doubly linked lists of words. A pointer to a node is
-- its address, a null pointer is 0, and the heap gives the node at each address. Where a routine takes
-- a new node, its address is an argument; the allocators and the node pool are not part of this. Loops
-- run on fuel, one for each node.
pub mod Insert
pub mod Search
pub mod Delete
pub mod Simple
pub mod Rear
mod Tests
use frosty_os.Prelude.{
  ℕ, zero, suc, ◌+◌, ◌≡◌, Bool, true, false, Outcome, done, diverged, ◌>>=◌, ◌==◌, if◌then◌else◌,
}

-- `Node`
pub record Node : Type 0 where
  pub previous : ℕ
  pub value : ℕ
  pub next : ℕ

abbrev pub Heap : Type 0
Heap = ℕ → Node

abbrev pub put_node : Heap → ℕ → Node → Heap
put_node h t n a = if a == t then n else h a

abbrev pub set_next : Heap → ℕ → ℕ → Heap
set_next h t v a = if a == t then record (h a) { next = v } else h a

abbrev pub set_previous : Heap → ℕ → ℕ → Heap
set_previous h t v a = if a == t then record (h a) { previous = v } else h a

-- The node that `newNode` makes at an address
abbrev pub new_node : Heap → ℕ → ℕ → Heap
new_node h fresh v = put_node h fresh (record { previous = 0; value = v; next = 0 })

-- The loop of `length`, from a node on
unfoldable pub length_from : Heap → ℕ → ℕ → Outcome ℕ
length_from h zero current = diverged
length_from h (suc fuel) current =
    let rest = length_from h fuel (h current).next in
    if (h current).next == 0 then done 1 else rest >>= λ n. done (1 + n)

-- `length`
unfoldable pub length_of : Heap → ℕ → ℕ → Outcome ℕ
length_of h fuel head = if head == 0 then done 0 else length_from h fuel head

-- The loop of `insertNode` to the last node
unfoldable pub find_last : Heap → ℕ → ℕ → Outcome ℕ
find_last h zero current = diverged
find_last h (suc fuel) current =
    let rest = find_last h fuel (h current).next in
    if (h current).next == 0 then done current else rest

-- The new node behind the last one
unfoldable pub link_last : Heap → ℕ → ℕ → ℕ → Heap
link_last h last fresh v = set_previous (set_next (new_node h fresh v) last fresh) fresh last

-- `insertNode`, with a new node at `fresh`: the heap and the head.
unfoldable pub insert_node : Heap → ℕ → ℕ → ℕ → ℕ → Outcome (Heap × ℕ)
insert_node h fuel head v fresh =
    if head == 0
    then done (new_node h fresh v, fresh)
    else find_last h fuel head >>= λ last. done (link_last h last fresh v, head)

-- `findNode`: the node, or a null pointer.
unfoldable pub find_node : Heap → ℕ → ℕ → ℕ → Outcome ℕ
find_node h zero current v = if current == 0 then done 0 else diverged
find_node h (suc fuel) current v =
    let rest = find_node h fuel (h current).next v in
    if current == 0 then done 0 else if (h current).value == v then done current else rest

-- `deleteNode` of the first node: the heap and the new head.
unfoldable pub delete_first : Heap → ℕ → Heap × ℕ
delete_first h t =
    let head = (h t).next in
    let cleared = set_previous h head 0 in
    let linked =
      if (cleared head).next == 0 then cleared else set_previous cleared (cleared head).next head in
    (if head == 0 then h else linked, head)

-- The loop of `deleteNode`: the node with the key, or a null pointer where it returns.
unfoldable pub seek : Heap → ℕ → ℕ → ℕ → Outcome ℕ
seek h zero current key = diverged
seek h (suc fuel) current key =
    let rest = seek h fuel (h current).next key in
    if (h current).value == key
    then done current
    else if (h current).next == 0
    then done 0
    else rest

-- The node is taken out between its neighbours.
unfoldable pub delete_later : Heap → ℕ → Heap
delete_later h t =
    let after = if (h t).next == 0 then h else set_previous h (h t).next (h t).previous in
    if (after t).previous == 0 then after else set_next after (after t).previous (after t).next

-- `deleteNode` by key
unfoldable pub delete_node : Heap → ℕ → ℕ → ℕ → Outcome (Heap × ℕ)
delete_node h fuel head key =
    if head == 0
    then done (h, 0)
    else if (h head).value == key
    then done (delete_first h head)
    else seek h fuel head key >>= λ t. done (if t == 0 then (h, head) else (delete_later h t, head))

-- `deleteNode` of a given node
unfoldable pub delete_at : Heap → ℕ → ℕ → Heap × ℕ
delete_at h head t =
    if t == 0
    then (h, head)
    else if head == 0
    then (h, head)
    else (delete_later h t, if head == t then (delete_later h t t).next else head)

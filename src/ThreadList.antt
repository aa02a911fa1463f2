-- ===== src/ThreadList.antt =====
-- kernel/src/Scheduling/ThreadList.cpp and ThreadList.hpp: a doubly linked list of threads, whose
-- links lie in the threads. A pointer to a thread is its address, and a null pointer is 0; `threads`
-- gives the links of the thread at each address, with the flag that it is in a list of this kind:
-- ThreadList and ProcThreadList differ only in which links and which flag of a thread they use.
pub mod Chain
pub mod Push
pub mod Remove
pub mod Walk
pub mod Visit
mod Tests
use frosty_os.Prelude.{
  ℕ, zero, suc, ◌≡◌, Bool, true, false, not, ◌&&◌, ◌||◌, Outcome, done, assert_failed, add64, sub64,
  ◌==◌, if◌then◌else◌,
}

pub record Links : Type 0 where
  pub previous : ℕ
  pub next : ℕ
  pub in_list : Bool

pub record ThreadList : Type 0 where
  pub threads : ℕ → Links
  pub head : ℕ
  pub tail : ℕ
  pub count : ℕ

-- The constructor
abbrev pub new_list : (ℕ → Links) → ThreadList
new_list threads = record { threads = threads; head = 0; tail = 0; count = 0 }

abbrev pub put_links : (ℕ → Links) → ℕ → Links → ℕ → Links
put_links threads t v a = if a == t then v else threads a

abbrev pub set_next : (ℕ → Links) → ℕ → ℕ → ℕ → Links
set_next threads t v a = if a == t then record (threads a) { next = v } else threads a

abbrev pub set_previous : (ℕ → Links) → ℕ → ℕ → ℕ → Links
set_previous threads t v a = if a == t then record (threads a) { previous = v } else threads a

-- The links of a thread that is in no list.
abbrev pub apart : Links
apart = record { previous = 0; next = 0; in_list = false }

-- The two ends of `pushBack`
unfoldable pub push_first : ThreadList → ℕ → ThreadList
push_first l t = record {
  threads = put_links l.threads t (record { previous = 0; next = 0; in_list = true });
  head = t;
  tail = t;
  count = add64 l.count 1;
}

unfoldable pub push_last : ThreadList → ℕ → ThreadList
push_last l t = record {
  threads =
      put_links (set_next l.threads l.tail t) t
        (record { previous = l.tail; next = 0; in_list = true });
  head = l.head;
  tail = t;
  count = add64 l.count 1;
}

-- `pushBack`
unfoldable pub push_back : ThreadList → ℕ → Outcome ThreadList
push_back l t =
    if t == 0
      || not ((l.threads t).previous == 0)
      || not ((l.threads t).next == 0)
      || t == l.head
      || t == l.tail
    then assert_failed
    else (if l.head == 0 then done (push_first l t) else done (push_last l t))

-- `popFront` of a list with a front
unfoldable pub take_front : ThreadList → ThreadList
take_front l =
    let new_head = (l.threads l.head).next in
    record {
      threads =
          put_links (if new_head == 0 then l.threads else set_previous l.threads new_head 0) l.head
            apart;
      head = new_head;
      tail = if new_head == 0 then 0 else l.tail;
      count = sub64 l.count 1;
    }

-- `popFront`: the thread, or a null pointer, and the list.
unfoldable pub pop_front : ThreadList → ℕ × ThreadList
pop_front l = if l.head == 0 then (0, l) else (l.head, take_front l)

-- The assertion of `remove`: the neighbours point to the thread.
unfoldable pub removable : ThreadList → ℕ → Bool
removable l t =
    let d = l.threads t in
    (not (d.previous == 0) || l.head == t)
    && (not (d.next == 0) || l.tail == t)
    && (d.previous == 0 || (l.threads d.previous).next == t)
    && (d.next == 0 || (l.threads d.next).previous == t)

-- `remove` after its assertion
unfoldable pub unlink : ThreadList → ℕ → ThreadList
unlink l t =
    let d = l.threads t in
    let before = if d.previous == 0 then l.threads else set_next l.threads d.previous d.next in
    let after = if d.next == 0 then before else set_previous before d.next d.previous in
    record {
      threads = put_links after t apart;
      head = if d.previous == 0 then d.next else l.head;
      tail = if d.next == 0 then d.previous else l.tail;
      count = sub64 l.count 1;
    }

-- `remove`
unfoldable pub remove : ThreadList → ℕ → Outcome ThreadList
remove l t = if t == 0 then done l else (if removable l t then done (unlink l t) else assert_failed)

-- ===== src/Queue.antt =====
-- list.c, queue.c and their headers: doubly linked rings, and the queue that keeps its entries in
-- one. A node is its address; `queue_front` returns the node where `QUEUE_FRONT` subtracts the
-- offset of the field. The size is an `int` that stays far below its bound.
pub mod Fifo
mod Tests
use amaterasu.Base.{
  ℕ, zero, suc, ◌+◌, ◌-◌, Bool, true, false, ◌&&◌, Option, none, some, ◌==◌, if◌then◌else◌, update,
}

-- The `prev` and `next` fields of the nodes in memory.
pub record Links : Type 0 where
  pub prev : ℕ → ℕ
  pub next : ℕ → ℕ

-- `LIST_INIT`
pub list_init : (node : ℕ) → Links → Links
list_init node s = record { prev = update s.prev node node; next = update s.next node node }

-- `LIST_IS_EMPTY`
pub list_is_empty : (node : ℕ) → Links → Bool
list_is_empty node s = (s.prev node == node) && (s.next node == node)

-- `ListAdd`
pub list_add : (added prev : ℕ) → Links → Links
list_add added prev s =
    let next = s.next prev in
    let s1 = record s { next = update s.next prev added } in
    let s2 = record s1 { prev = update s1.prev added prev } in
    let s3 = record s2 { prev = update s2.prev next added } in
    record s3 { next = update s3.next added next }

-- `ListDelete`
pub list_delete : (deleted : ℕ) → Links → Links
list_delete deleted s =
    let prev = s.prev deleted in
    let next = s.next deleted in
    let s1 = record s { next = update s.next prev next } in
    record s1 { prev = update s1.prev next prev }

-- `struct Queue`, its guard by address, with the memory that its entries stand in.
pub record Queue : Type 0 where
  pub guard : ℕ
  pub size : ℕ
  pub links : Links

-- `QUEUE_INIT`
pub queue_init : Queue → Queue
queue_init q = record q { size = 0; links = list_init q.guard q.links }

-- `QueuePush`
pub queue_push : (pushed : ℕ) → Queue → Queue
queue_push pushed q = record q {
  size = q.size + 1;
  links = list_add pushed (q.links.prev q.guard) q.links;
}

-- `QueuePop`
pub queue_pop : Queue → Queue
queue_pop q =
    if q.size == 0
    then q
    else record q { size = q.size - 1; links = list_delete (q.links.next q.guard) q.links }

-- `QUEUE_FRONT`: a node, or null.
pub queue_front : Queue → Option ℕ
queue_front q = if q.size == 0 then none else some (q.links.next q.guard)

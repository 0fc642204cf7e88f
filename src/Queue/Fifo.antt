-- ===== src/Queue/Fifo.antt =====
-- The queue of queue.c against a list of its entries, first in, first out.
use amaterasu.Base.{
  ℕ, ◌+◌, ◌≡◌, refl, ◌∙◌, true, false, Option, none, some, List, [], ◌∷◌, ◌++◌, ◌==◌, ◌||◌, length,
  arith,
}
use amaterasu.Base.Chain.{elem, Distinct, apart}
use amaterasu.Queue.{
  Links, Queue, list_init, list_add, list_delete, queue_init, queue_push, queue_pop, queue_front,
}

-- The nodes `xs` stand between `from` and `to`, linked both ways.
abbrev pub Linked : Links → (from to : ℕ) → List ℕ → Type 0
Linked s from to [] = (s.next from ≡ to) × (s.prev to ≡ from)
Linked s from to (x ∷ xs) = (s.next from ≡ x) × (s.prev x ≡ from) × Linked s x to xs

-- The queue holds the entries `xs`, the first at its front.
pub record IsQueue (q : Queue) (xs : List ℕ) : Type 0 where
  pub ring : Linked q.links q.guard q.guard xs
  pub distinct : Distinct (q.guard ∷ xs)
  pub counts : q.size ≡ length xs

abbrev last : ℕ → List ℕ → ℕ
last a [] = a
last a (x ∷ xs) = last x xs

linked_prev :
    (s : Links) (from to : ℕ) (xs : List ℕ)
    → Linked s from to xs
    → (s.prev to ≡ last from xs) × (s.next (last from xs) ≡ to)
linked_prev s from to [] r = (r.1, r.0)
linked_prev s from to (x ∷ xs) r = linked_prev s x to xs r.2

last-elem : (a : ℕ) (xs : List ℕ) → elem (last a xs) (a ∷ xs) ≡ true
last-elem a [] = ground arith
last-elem a (x ∷ xs) = ground (arith, last-elem x xs)

-- Adding a node behind the last one.
add_last :
    (s : Links) (from to x : ℕ) (xs : List ℕ)
    → Linked s from to xs
    → Distinct (from ∷ xs)
    → elem to xs ≡ false
    → elem x (from ∷ xs) ≡ false
    → (x == to) ≡ false
    → Linked (list_add x (last from xs) s) from to (xs ++ x ∷ [])
unfolding list_add
add_last s from to x [] r d no_to new ne = ground arith
add_last s from to x (y ∷ ys) r d no_to new ne = (
  ground (arith, last-elem y ys, apart (last y ys) from (last y ys) (y ∷ ys) d.0),
  ground (arith, (linked_prev s y to ys r.2).1),
  add_last s y to x ys r.2 d.1 (ground arith) (ground arith) ne,
)

-- Only the links between these nodes matter.
pub linked_frame :
    (s s' : Links) (from to : ℕ) (xs : List ℕ)
    → ((q : ℕ) → elem q (from ∷ xs) ≡ true → s'.next q ≡ s.next q)
    → ((q : ℕ) → elem q (to ∷ xs) ≡ true → s'.prev q ≡ s.prev q)
    → Linked s from to xs
    → Linked s' from to xs
linked_frame s s' from to [] nx pv r = (nx from (ground arith) ∙ r.0, pv to (ground arith) ∙ r.1)
linked_frame s s' from to (x ∷ xs) nx pv r = (
  nx from (ground arith) ∙ r.0,
  pv x (ground arith) ∙ r.1,
  linked_frame s s' x to xs (λ q m. nx q (ground arith)) (λ q m. pv q (ground arith)) r.2,
)

-- Adding a node behind the guard.
pub add_first :
    (s : Links) (g x : ℕ) (xs : List ℕ)
    → Linked s g g xs
    → Distinct (g ∷ xs)
    → elem x (g ∷ xs) ≡ false
    → Linked (list_add x g s) g g (x ∷ xs)
unfolding list_add
add_first s g x [] r d new = ground arith
add_first s g x (y ∷ ys) r d new = (
  ground arith,
  ground arith,
  (
    ground arith,
    ground arith,
    linked_frame s (list_add x g s) y g ys
        (λ q m. ground (arith, apart q g q (y ∷ ys), apart q x q (y ∷ ys)))
        (λ q m. ground (arith, apart q x q (g ∷ y ∷ ys), apart q y q ys)) r.2,
  ),
)

-- Deleting the first node.
delete_first :
    (s : Links) (g x : ℕ) (xs : List ℕ)
    → Linked s g g (x ∷ xs)
    → Distinct (g ∷ x ∷ xs)
    → Linked (list_delete x s) g g xs
unfolding list_delete
delete_first s g x [] r d = ground arith
delete_first s g x (y ∷ ys) r d = (
  ground arith,
  ground arith,
  linked_frame s (list_delete x s) y g ys (λ q m. ground (arith, apart q g q (y ∷ ys)))
      (λ q m. ground (arith, apart q y q ys)) r.2.2,
)

append_one : (xs : List ℕ) (x q : ℕ) → elem q (xs ++ x ∷ []) ≡ (elem q xs || (q == x))
append_one [] x q = ground arith
append_one (y ∷ ys) x q = ground (arith, append_one ys x q)

append-Distinct : (xs : List ℕ) (x : ℕ) → Distinct xs → elem x xs ≡ false → Distinct (xs ++ x ∷ [])
append-Distinct [] x d new = ground arith
append-Distinct (y ∷ ys) x d new =
    (ground (arith, append_one ys x y), append-Distinct ys x d.1 (ground arith))

pub length-append_one : (xs : List ℕ) (x : ℕ) → length (xs ++ x ∷ []) ≡ length xs + 1
length-append_one [] x = ground arith
length-append_one (y ∷ ys) x = ground (arith, length-append_one ys x)

-- `QUEUE_INIT` makes an empty queue.
pub queue_init-IsQueue : (q : Queue) → IsQueue (queue_init q) []
unfolding queue_init list_init
queue_init-IsQueue q = record {
  ring = ground arith;
  distinct = ground arith;
  counts = ground arith;
}

push-guard : (x : ℕ) (q : Queue) → (queue_push x q).guard ≡ q.guard
unfolding queue_push
push-guard x q = refl

-- `QueuePush` of an entry that is not the guard and not yet in the queue makes a queue that holds the
-- same entries in their order and this one behind them.
pub queue_push-IsQueue :
    (x : ℕ) (q : Queue) (xs : List ℕ)
    → IsQueue q xs
    → elem x (q.guard ∷ xs) ≡ false
    → IsQueue (queue_push x q) (xs ++ x ∷ [])
unfolding queue_push
queue_push-IsQueue x q xs v new = record {
  ring =
      rw (linked_prev q.links q.guard q.guard xs v.ring).0
        (add_last q.links q.guard q.guard x xs v.ring v.distinct v.distinct.0 new (ground arith));
  distinct = append-Distinct (q.guard ∷ xs) x v.distinct new;
  counts = ground (arith, v.counts, length-append_one xs x);
}

-- The first entry of a list, and the others.
abbrev pub front_of : List ℕ → Option ℕ
front_of [] = none
front_of (x ∷ xs) = some x

abbrev pub rest_of : List ℕ → List ℕ
rest_of [] = []
rest_of (x ∷ xs) = xs

-- `QUEUE_FRONT` returns the first entry, and null for the empty queue.
pub queue_front_lem : (q : Queue) (xs : List ℕ) → IsQueue q xs → queue_front q ≡ front_of xs
unfolding queue_front
queue_front_lem q [] v = ground (arith, v.counts)
queue_front_lem q (x ∷ xs) v = ground (arith, v.counts, v.ring)

-- `QueuePop` of a queue that holds some entries leaves a queue that holds all but the first, and leaves
-- the empty queue empty.
pub queue_pop-IsQueue :
    (q : Queue) (xs : List ℕ) → IsQueue q xs → IsQueue (queue_pop q) (rest_of xs)
unfolding queue_pop
queue_pop-IsQueue q [] v = let e : (q.size == 0) ≡ true = ground (arith, v.counts) in rw e v
queue_pop-IsQueue q (x ∷ xs) v =
    let e : (q.size == 0) ≡ false = ground (arith, v.counts) in
    rw (e, v.ring.0)
      (record {
        ring = delete_first q.links q.guard x xs v.ring v.distinct;
        distinct = ground (arith, v.distinct);
        counts = ground (arith, v.counts);
      })

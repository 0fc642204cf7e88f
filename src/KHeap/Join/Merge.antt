-- ===== src/KHeap/Join/Merge.antt =====
-- `kfree` of a block that is joined with its free buddies.
use native.Mathlib.Nat.{one-le-pow, mul-div_cancel}
use amaterasu.Base.{
  ℕ, zero, suc, ◌+◌, ◌-◌, ◌*◌, ◌/◌, ◌^◌, ◌≤◌, ◌<◌, ◌≡◌, ◌≢◌, ◌⊎◌, ◌↔◌, inl, inr, refl, ap, true,
  false, ◌==◌, ltb, leb, arith, Bool-cases, eq_of_ne,
}
use amaterasu.Base.Chain.{elem}
use amaterasu.PhysicalMemory.FreeLists.{FreeBlocks}
use amaterasu.PhysicalMemory.Blocks.{IsFree, IsAligned, Within}
use amaterasu.PhysicalMemory.Returned.{returned, returned-IsFree, returned_old, returned_new}
use amaterasu.KHeap.{Heap, add_to_k_heap_order, join_up, kfree, k_heap_max_order}
use amaterasu.KHeap.Malloc.{IsHeap}
use amaterasu.KHeap.Free.{InUse, added-IsHeap}
use amaterasu.KHeap.Join.{
  base, buddy_of, halves_lem, lower_lem, add-is_allocated, Mates, join_once, Round, next_free,
  next_heap, next-IsFree, next-Round,
}

-- The block that contains `i` is free at an order at which the joining stops: it is the whole page, or
-- its buddy is in use. The free blocks are those that `P` describes.
pub record Merged {ℓ} (order i : ℕ) (h0 h' : Heap) (P : ℕ → Type ℓ) : Type ℓ where
  pub free' : FreeBlocks
  pub heap : IsHeap h' free'
  pub order' : ℕ
  pub grown : (order ≤ order') × (order' ≤ k_heap_max_order)
  pub listed : elem (base order' i) (free' order') ≡ true
  pub stopped : (order' ≡ k_heap_max_order) ⊎ ((h0.blocks (buddy_of order' i)).is_allocated ≢ 0)
  pub pages : (q : ℕ) → P q ↔ IsFree free' q

-- No part of a block's buddy lies in the block.
buddy_far : (i k : ℕ) → i < 16 → k < 4 → Within k (base k i) (buddy_of k i) → ⊥
buddy_far i k lt lt' w = omega (arith, halves_lem i k lt lt', one-le-pow k 2)

widen :
    (k i : ℕ) (h0 h' : Heap) (free free1 : FreeBlocks)
    → Merged (k + 1) i h0 h' (IsFree free1)
    → ((q : ℕ) → IsFree free q ↔ IsFree free1 q)
    → Merged k i h0 h' (IsFree free)
widen k i h0 h' free free1 r same = record {
  free' = r.free';
  heap = r.heap;
  order' = r.order';
  grown = omega (arith, r.grown);
  listed = r.listed;
  stopped = r.stopped;
  pages = λ q. (λ f. (r.pages q).0 ((same q).0 f), λ f. (same q).1 ((r.pages q).1 f));
}

stays :
    (k i : ℕ) (h0 : Heap) (free0 : FreeBlocks) (h : Heap) (free : FreeBlocks)
    → Round k i h0 free0 h free
    → k ≤ 4
    → (k ≡ 4) ⊎ ((h0.blocks (buddy_of k i)).is_allocated ≢ 0)
    → Merged k i h0 h (IsFree free)
stays k i h0 free0 h free r le why = record {
  free' = free;
  heap = r.heap;
  order' = k;
  grown = omega arith;
  listed = rw r.first (ground arith);
  stopped = why;
  pages = λ q. (λ f. f, λ f. f);
}

-- The joining loop, at the block of order `k` that contains `i`.
join_up_lem :
    (rounds k i : ℕ) (h0 : Heap) (free0 : FreeBlocks) (h : Heap) (free : FreeBlocks)
    → k + rounds ≡ 4
    → i < 16
    → Mates k i h0 free0
    → Round k i h0 free0 h free
    → Merged k i h0 (join_up rounds k (base k i) h) (IsFree free)
unfolding join_up join_once next_heap
join_up_lem zero k i h0 free0 h free e lt mates r =
    stays k i h0 free0 h free r (omega arith) (inl (omega arith))
join_up_lem (suc rounds) k i h0 free0 h free e lt mates r =
    let lt' : k < 4 = omega arith in
    let mark = r.marks (buddy_of k i) (buddy_far i k lt lt') in
    elim (Bool-cases ((h.blocks (buddy_of k i)).is_allocated == 0)) [
      | inr used ↦ rw used (stays k i h0 free0 h free r (omega arith) (inr (λ e'. ground arith)))
      | inl unused ↦
          rw (unused, lower_lem i k lt lt')
            (let (rest, first) = mates k (omega arith) lt' (ground arith) in
              widen k i h0
                (join_up rounds (k + 1) (base (k + 1) i)
                  (join_once k (base k i) (buddy_of k i) (base (k + 1) i) h))
                free (next_free k i h0 free0 h free r lt lt' rest first)
                (join_up_lem rounds (k + 1) i h0 free0
                  (next_heap k i h0 free0 h free r lt lt' rest first)
                  (next_free k i h0 free0 h free r lt lt' rest first) (omega arith) lt
                  (λ o le lt. mates o (omega arith) lt)
                  (next-Round k i h0 free0 h free r lt lt' rest first))
                (next-IsFree k i h0 free0 h free r lt lt' rest first))
    ]

base_self : (k i : ℕ) → IsAligned k i → base k i ≡ i
base_self k i (c, e) =
    rw e (ap (λ (t : ℕ). t * 2 ^ k) (mul-div_cancel c (one-le-pow k 2 (omega arith))))

kfree-run :
    (order p : ℕ) (h : Heap) (free : FreeBlocks)
    → InUse order p h free
    → kfree (h.start + 256 * p) h
      ≡ join_up (k_heap_max_order - order) order p (add_to_k_heap_order order p h)
unfolding kfree
kfree-run order p h free u =
    let lo : ltb (h.start + 256 * p) h.start ≡ false = ground arith in
    let lt : p < 16 = omega (arith, u.inside, one-le-pow order 2) in
    let hi : leb (h.start + 4096) (h.start + 256 * p) ≡ false = ground arith in
    let id : (h.start + 256 * p - h.start) / 256 ≡ p = omega arith in
    rw (lo, hi, id, u.marked.0, u.marked.1) refl

start-Round :
    (order p : ℕ) (h : Heap) (free : FreeBlocks)
    → IsHeap h free
    → InUse order p h free
    → base order p ≡ p
    → Round order p h free (add_to_k_heap_order order p h) (returned order p free)
unfolding returned
start-Round order p h free v u self = record {
  heap = added-IsHeap order p h free v u;
  first = ground arith;
  above = λ o gt. ground arith;
  marks = λ x far.
      add-is_allocated order p x h
        (eq_of_ne x p (λ e. far (omega (arith, self, one-le-pow order 2))));
}

-- `kfree` of a block in use, where every buddy above it that is not in use is the first block of its
-- list: the block is joined with its buddies up to one that is in use or up to the whole page. The heap
-- stays well formed, and its free blocks are those from before and the block's.
pub kfree-Merged :
    (order p : ℕ) (h : Heap) (free : FreeBlocks)
    → IsHeap h free
    → InUse order p h free
    → Mates order p h free
    → Merged order p h (kfree (h.start + 256 * p) h) (λ q. IsFree free q ⊎ Within order p q)
kfree-Merged order p h free v u mates =
    let lt : p < 16 = omega (arith, u.inside, one-le-pow order 2) in
    let self = base_self order p u.aligned in
    rw (kfree-run order p h free u) (
      let r : Merged order p h
          (join_up (k_heap_max_order - order) order p (add_to_k_heap_order order p h))
          (IsFree (returned order p free)) =
        rw self at (
          join_up_lem (k_heap_max_order - order) order p h free (add_to_k_heap_order order p h)
            (returned order p free) (omega (arith, u.small)) lt mates
            (start-Round order p h free v u self)) in
      record {
        free' = r.free';
        heap = r.heap;
        order' = r.order';
        grown = r.grown;
        listed = r.listed;
        stopped = r.stopped;
        pages = λ q.
            (λ f. (r.pages q).0 (to q f), λ f. returned-IsFree order p free q ((r.pages q).1 f));
      })
  where
    to : (q : ℕ) → IsFree free q ⊎ Within order p q → IsFree (returned order p free) q
    to q (inl old) = returned_old order p free q old
    to q (inr new) = returned_new order p free q new

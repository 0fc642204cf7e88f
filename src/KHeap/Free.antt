-- ===== src/KHeap/Free.antt =====
-- `kfree` of a block whose buddy is allocated.
use native.Mathlib.Decide.{ℕ_discrete}
use native.Mathlib.Nat.{one-le-pow}
use amaterasu.Base.{
  ℕ, zero, suc, ◌+◌, ◌-◌, ◌*◌, ◌/◌, ◌^◌, ◌≤◌, ◌<◌, ◌≡◌, refl, ◌∙◌, true, false, inl, inr, ◌⊎◌, not,
  ◌∷◌, ◌==◌, ltb, leb, bit_xor, update, arith,
}
use amaterasu.Base.Table.{all_below, all_below-true}
use amaterasu.PhysicalMemory.FreeLists.{FreeBlocks}
use amaterasu.PhysicalMemory.Blocks.{IsFree, Within, IsAligned}
use amaterasu.PhysicalMemory.Returned.{returned, not_listed, returned-IsApart, returned-IsFree}
use amaterasu.KHeap.{Heap, add_to_k_heap_order, join_up, kfree, k_heap_max_order}
use amaterasu.KHeap.Lists.{add-Holds}
use amaterasu.KHeap.Malloc.{IsHeap}

-- The block of order `order` at index `p` is in use: marked so, aligned, inside the page, and no part
-- of it is free.
pub record InUse (order p : ℕ) (h : Heap) (free : FreeBlocks) : Type 0 where
  pub marked : ((h.blocks p).order ≡ order) × ((h.blocks p).is_allocated ≡ 1)
  pub small : order ≤ k_heap_max_order
  pub aligned : IsAligned order p
  pub inside : p + 2 ^ order ≤ 16
  pub apart : (q : ℕ) → Within order p q → ¬ IsFree free q

module _ (order p : ℕ) (h : Heap) (free : FreeBlocks) (v : IsHeap h free)
    (u : InUse order p h free) where
  pub added-IsHeap : IsHeap (add_to_k_heap_order order p h) (returned order p free)
  unfolding returned
  added-IsHeap = record {
    holds = add-Holds order p h free v.holds (not_listed order p free u.apart);
    apart = returned-IsApart order p free u.apart u.aligned v.apart;
    inside = λ q f. elim (returned-IsFree order p free q f) [
      | inl old ↦ v.inside q old
      | inr new ↦ omega (arith, u.inside)
    ];
  }

-- No block is its own buddy.
buddies_differ : all_below 16 (λ p. all_below 4 (λ o. not (bit_xor p (2 ^ o) == p))) ≡ true
unfolding all_below
buddies_differ = refl

buddy_ne : (order p : ℕ) → p < 16 → order < 4 → (bit_xor p (2 ^ order) == p) ≡ false
buddy_ne order p hp ho =
    let row =
      all_below-true 16 (λ p. all_below 4 (λ o. not (bit_xor p (2 ^ o) == p))) p buddies_differ
        hp in
    let cell = all_below-true 4 (λ o. not (bit_xor p (2 ^ o) == p)) order row ho in ground arith

-- A buddy in use stops the joining loop at once.
join_up-stays :
    (rounds order p : ℕ) (h : Heap)
    → (rounds ≡ 0) ⊎ ((h.blocks (bit_xor p (2 ^ order))).is_allocated ≡ 1)
    → join_up rounds order p h ≡ h
unfolding join_up
join_up-stays zero order p h stop = refl
join_up-stays (suc rounds) order p h (inl e) = absurd (omega arith)
join_up-stays (suc rounds) order p h (inr e) = rw e

add-is_allocated :
    (order p q : ℕ) (h : Heap)
    → (q == p) ≡ false
    → ((add_to_k_heap_order order p h).blocks q).is_allocated ≡ (h.blocks q).is_allocated
unfolding add_to_k_heap_order
add-is_allocated order p q h ne = rw ne

stops :
    (order p : ℕ) (h : Heap) (free : FreeBlocks)
    → InUse order p h free
    → (order ≡ 4) ⊎ ((h.blocks (bit_xor p (2 ^ order))).is_allocated ≡ 1)
    → (k_heap_max_order - order ≡ 0)
      ⊎ (((add_to_k_heap_order order p h).blocks (bit_xor p (2 ^ order))).is_allocated ≡ 1)
stops order p h free u (inl e) = inl (omega arith)
stops order p h free u (inr e) = elim (ℕ_discrete order 4) [
  | yes e4 ↦ inl (omega arith)
  | no ne ↦
      let lt : order < 4 = omega (arith, u.small, ne) in
      let ne' = buddy_ne order p (omega (arith, u.inside, one-le-pow order 2)) lt in
      inr (add-is_allocated order p (bit_xor p (2 ^ order)) h ne' ∙ e)
]

-- Freeing a block in use whose buddy is in use too only puts it back into its list.
kfree-run :
    (order p : ℕ) (h : Heap) (free : FreeBlocks)
    → InUse order p h free
    → (order ≡ 4) ⊎ ((h.blocks (bit_xor p (2 ^ order))).is_allocated ≡ 1)
    → kfree (h.start + 256 * p) h ≡ add_to_k_heap_order order p h
unfolding kfree
kfree-run order p h free u stop =
    let lo : ltb (h.start + 256 * p) h.start ≡ false = ground arith in
    let lt : p < 16 = omega (arith, u.inside, one-le-pow order 2) in
    let hi : leb (h.start + 4096) (h.start + 256 * p) ≡ false = ground arith in
    let id : (h.start + 256 * p - h.start) / 256 ≡ p = omega arith in
    rw (lo, hi, id, u.marked.0, u.marked.1)
      (join_up-stays (k_heap_max_order - order) order p (add_to_k_heap_order order p h)
        (stops order p h free u stop))

-- `kfree` of a block in use whose buddy is in use too, or that is the whole page, makes the block free
-- and leaves every other block as it was: the heap's free blocks are those from before and this one.
pub kfree_lem :
    (order p : ℕ) (h : Heap) (free : FreeBlocks)
    → IsHeap h free
    → InUse order p h free
    → (order ≡ 4) ⊎ ((h.blocks (bit_xor p (2 ^ order))).is_allocated ≡ 1)
    → IsHeap (kfree (h.start + 256 * p) h) (update free order (p ∷ free order))
unfolding returned
kfree_lem order p h free v u stop =
    rw (kfree-run order p h free u stop) (added-IsHeap order p h free v u)

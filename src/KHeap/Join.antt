-- ===== src/KHeap/Join.antt =====
-- One round of the joining loop of `kfree`.
pub mod Merge
use native.Mathlib.Decide.{ℕ_discrete}
use native.Mathlib.Nat.{one-le-pow, mul-div_cancel}
use amaterasu.Base.{
  ℕ, zero, suc, ◌+◌, ◌-◌, ◌*◌, ◌/◌, ◌^◌, ◌≤◌, ◌<◌, ◌≡◌, ◌≢◌, ◌⊎◌, ◌↔◌, inl, inr, refl, sym, ap, ◌∙◌,
  Bool, true, false, ◌&&◌, ◌||◌, Option, some, List, ◌∷◌, ◌==◌, ltb, leb, if◌then◌else◌, bit_xor,
  update, arith, Bool-cases, eq_of_ne, eq_self,
}
use amaterasu.Base.Table.{all_below, all_below-true}
use amaterasu.Base.Chain.{elem, erase}
use amaterasu.PhysicalMemory.FreeLists.{FreeBlocks}
use amaterasu.PhysicalMemory.Blocks.{IsFree, IsAligned, Within}
use amaterasu.PhysicalMemory.Returned.{returned, returned-IsFree, returned_old, returned_new}
use amaterasu.PhysicalMemory.Joined.{
  Halves, joined, parted, joined-IsApart, joined-IsFree, IsFree-joined, low_new, double,
}
use amaterasu.KHeap.{
  Heap, add_to_k_heap_order, delete_from_k_heap_order, join_up, kfree, k_heap_max_order,
}
use amaterasu.KHeap.Lists.{Holds, Line, nexts, add-Holds, delete_first-Holds}
use amaterasu.KHeap.Malloc.{IsHeap}
use amaterasu.KHeap.Free.{InUse, added-IsHeap}

-- The first block of the block of order `k` in which block `i` lies, and its buddy.
abbrev pub base : (k i : ℕ) → ℕ
base k i = i / 2 ^ k * 2 ^ k

abbrev pub buddy_of : (k i : ℕ) → ℕ
buddy_of k i = bit_xor (base k i) (2 ^ k)

abbrev in_halves : (i k : ℕ) → Bool
in_halves i k =
    ((buddy_of k i == base k i + 2 ^ k) && (base (k + 1) i == base k i))
    || ((base k i == buddy_of k i + 2 ^ k) && (base (k + 1) i == buddy_of k i))

in_halves_table : all_below 16 (λ i. all_below 4 (in_halves i)) ≡ true
unfolding all_below
in_halves_table = refl

pub halves_lem : (i k : ℕ) → i < 16 → k < 4 → Halves k (base k i) (buddy_of k i) (base (k + 1) i)
halves_lem i k lt lt' =
    let row = all_below-true 16 (λ i. all_below 4 (in_halves i)) i in_halves_table lt in
    let cell = all_below-true 4 (in_halves i) k row lt' in ground arith

-- The lower of the two begins the joined block.
pub lower_lem :
    (i k : ℕ)
    → i < 16
    → k < 4
    → (if ltb (base k i) (buddy_of k i) then base k i else buddy_of k i) ≡ base (k + 1) i
lower_lem i k lt lt' = ground (arith, halves_lem i k lt lt', one-le-pow k 2)

delete-is_allocated :
    (order id q : ℕ) (h : Heap)
    → (q == id) ≡ false
    → ((delete_from_k_heap_order order id h).blocks q).is_allocated ≡ (h.blocks q).is_allocated
unfolding delete_from_k_heap_order
delete-is_allocated order id q h ne = ground arith

pub add-is_allocated :
    (order id q : ℕ) (h : Heap)
    → (q == id) ≡ false
    → ((add_to_k_heap_order order id h).blocks q).is_allocated ≡ (h.blocks q).is_allocated
unfolding add_to_k_heap_order
add-is_allocated order id q h ne = rw ne

-- From order `order` on, every buddy that is not in use is the first block of its list.
abbrev pub Mates : (order i : ℕ) → Heap → FreeBlocks → Type 0
Mates order i h free =
    (k : ℕ)
    → order ≤ k
    → k < k_heap_max_order
    → (h.blocks (buddy_of k i)).is_allocated ≡ 0
    → (rest : List ℕ) × (free k ≡ buddy_of k i ∷ rest)

-- The body of the joining loop.
pub join_once : (order id buddy low : ℕ) → Heap → Heap
join_once order id buddy low h =
    add_to_k_heap_order (order + 1) low
      (delete_from_k_heap_order order buddy (delete_from_k_heap_order order id h))

-- In front of a round: the block that contains `i` is the first of its list, the lists of its order and
-- above hold otherwise what they held in the heap `h0`, and so do the marks outside the block.
pub record Round (k i : ℕ) (h0 : Heap) (free0 : FreeBlocks) (h : Heap) (free : FreeBlocks)
    : Type 0 where
  pub heap : IsHeap h free
  pub first : free k ≡ base k i ∷ free0 k
  pub above : (o : ℕ) → k < o → free o ≡ free0 o
  pub marks :
      (x : ℕ) → (Within k (base k i) x → ⊥) → (h.blocks x).is_allocated ≡ (h0.blocks x).is_allocated

module _ (k i : ℕ) (h0 : Heap) (free0 : FreeBlocks) (h : Heap) (free : FreeBlocks)
    (r : Round k i h0 free0 h free) (lt : i < 16) (lt' : k < 4) (rest : List ℕ)
    (e : free0 k ≡ buddy_of k i ∷ rest) where
  both : free k ≡ base k i ∷ buddy_of k i ∷ rest
  both = r.first ∙ rw e refl

  h1 : Heap
  h1 = delete_from_k_heap_order k (base k i) h

  free1 : FreeBlocks
  free1 = update free k (erase (base k i) (free k))

  h1-Holds : Holds h1 free1
  unfolding h1 free1
  h1-Holds =
      let line : Line (nexts h) (h.heads k) (base k i ∷ buddy_of k i ∷ rest) =
        rw both at (r.heap.holds.line k) in
      delete_first-Holds k (base k i) h free r.heap.holds line.0

  free1-at : free1 k ≡ buddy_of k i ∷ rest
  unfolding free1
  free1-at =
      rw both (ground (arith, halves_lem i k lt lt', one-le-pow k 2, eq_self k, eq_self (base k i)))

  h2 : Heap
  unfolding h1
  h2 = delete_from_k_heap_order k (buddy_of k i) h1

  free2 : FreeBlocks
  free2 = parted k (base k i) (buddy_of k i) free

  h2-Holds : Holds h2 free2
  unfolding h2 free2 free1
  h2-Holds =
      let line : Line (nexts h1) (h1.heads k) (buddy_of k i ∷ rest) =
        rw free1-at at (h1-Holds.line k) in
      delete_first-Holds k (buddy_of k i) h1 free1 h1-Holds line.0

  m : elem (base k i) (free k) ≡ true
  m = rw both (ground arith)

  m' : elem (buddy_of k i) (free k) ≡ true
  m' = rw both (ground arith)

  pub next_free : FreeBlocks
  next_free = joined k (base k i) (buddy_of k i) (base (k + 1) i) free

  pub next_heap : Heap
  next_heap = join_once k (base k i) (buddy_of k i) (base (k + 1) i) h

  aligned : IsAligned (k + 1) (base (k + 1) i)
  aligned = (i / 2 ^ (k + 1), refl)

  pub next-IsFree : (q : ℕ) → IsFree free q ↔ IsFree next_free q
  unfolding next_free
  next-IsFree q =
      let d = r.heap.holds.distinct k in
      let hs = halves_lem i k lt lt' in
      (
        IsFree-joined k (base k i) (buddy_of k i) (base (k + 1) i) free r.heap.apart d m m' hs
            aligned q,
        joined-IsFree k (base k i) (buddy_of k i) (base (k + 1) i) free r.heap.apart d m m' hs
            aligned q,
      )

  next_marks :
      (x : ℕ)
      → (Within (k + 1) (base (k + 1) i) x → ⊥)
      → (next_heap.blocks x).is_allocated ≡ (h0.blocks x).is_allocated
  unfolding next_heap join_once h2 h1
  next_marks x far =
      let hs = halves_lem i k lt lt' in
      let ne_base =
        eq_of_ne x (base k i) (λ e. far (omega (arith, hs, double k, one-le-pow k 2))) in
      let ne_buddy =
        eq_of_ne x (buddy_of k i) (λ e. far (omega (arith, hs, double k, one-le-pow k 2))) in
      let ne_low =
        eq_of_ne x (base (k + 1) i) (λ e. far (omega (arith, double k, one-le-pow k 2))) in
      add-is_allocated (k + 1) (base (k + 1) i) x h2 ne_low
      ∙ delete-is_allocated k (buddy_of k i) x h1 ne_buddy
      ∙ delete-is_allocated k (base k i) x h ne_base
      ∙ r.marks x (λ w. far (omega (arith, hs, double k)))

  pub next-Round : Round (k + 1) i h0 free0 next_heap next_free
  unfolding next_free next_heap join_once h2 free2 h1
  next-Round =
      let d = r.heap.holds.distinct k in
      let hs = halves_lem i k lt lt' in
      let low = base (k + 1) i in
      record {
        heap = record {
          holds =
              add-Holds (k + 1) low h2 free2 h2-Holds
                (low_new k (base k i) (buddy_of k i) low free r.heap.apart d m m' hs aligned);
          apart =
              joined-IsApart k (base k i) (buddy_of k i) low free r.heap.apart d m m' hs aligned;
          inside = λ q f. r.heap.inside q ((next-IsFree q).1 f);
        };
        first = ground (arith, r.above (k + 1), eq_self (k + 1));
        above = λ o gt. ground (arith, r.above o);
        marks = next_marks;
      }

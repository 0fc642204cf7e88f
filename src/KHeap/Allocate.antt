-- ===== src/KHeap/Allocate.antt =====
-- `kmalloc` from its search on: what it returns, and which block it gives out.
use native.Mathlib.Decide.{ℕ_discrete, dec_lt}
use native.Mathlib.Nat.{pow-suc, one-le-pow}
use native.Mathlib.Numerals.{add-one}
use amaterasu.Base.{
  ℕ, zero, suc, ◌+◌, ◌-◌, ◌*◌, ◌%◌, ◌^◌, ◌≤◌, ◌<◌, ◌≡◌, ◌↔◌, ◌⊎◌, inl, inr, refl, ◌∙◌, false,
  Option, none, some, List, [], ◌∷◌, ltb, arith, eq_of_ne, Option-cases,
}
use amaterasu.Util.{u64, pow}
use amaterasu.Util.Power.{log2_total, pow_two}
use amaterasu.PhysicalMemory.FreeLists.{FreeBlocks}
use amaterasu.PhysicalMemory.Blocks.{IsFree}
use amaterasu.KHeap.{
  Heap, add_to_k_heap_order, split_block, delete_from_k_heap_order, split_down, allocate_from,
  requested_order, requested_block_number, kmalloc, k_heap_block_size, k_heap_max_order,
  k_heap_heap_size,
}
use amaterasu.KHeap.Lists.{Line, nexts}
use amaterasu.KHeap.Malloc.{IsHeap, split_down_lem}
use amaterasu.KHeap.Take.{Granted, taken_block, taken-Granted, take_block_lem}

no_head : (xs : List ℕ) (nx : ℕ → Option ℕ) (ptr : Option ℕ) → Line nx ptr xs → ptr ≡ none → xs ≡ []
no_head [] nx ptr c e = refl
no_head (x ∷ xs) nx ptr c e = cc

-- What `kmalloc` may return at an order: 0 with the heap as it was and no free block of the orders
-- that it looked at, or the address of a block that it gives out.
abbrev pub Refused : (order above rounds : ℕ) → Heap → FreeBlocks → Option (ℕ × Heap) → Type 0
Refused order above rounds h free r =
    (r ≡ some (0, h)) × ((o : ℕ) → order + above ≤ o → o < order + above + rounds → free o ≡ [])

abbrev pub Served : (order : ℕ) → Heap → FreeBlocks → Option (ℕ × Heap) → Type 0
Served order h free r =
    (p : ℕ) × (h' : Heap) × (r ≡ some (h.start + k_heap_block_size * p, h'))
    × Granted order free p h'

-- The free blocks that a grant is relative to may be described by any lists of the same blocks.
Granted-same :
    {order p : ℕ} {free free1 : FreeBlocks} {h' : Heap}
    → ((q : ℕ) → IsFree free q ↔ IsFree free1 q)
    → Granted order free1 p h'
    → Granted order free p h'
Granted-same same g = record {
  free' = g.free';
  heap = g.heap;
  aligned = g.aligned;
  marked = g.marked;
  was_free = λ q w. let (inside, was, isnt) = g.was_free q w in (inside, (same q).1 was, isnt);
  others =
      λ q far. (λ f. (g.others q far).0 ((same q).0 f), λ f. (same q).1 ((g.others q far).1 f));
}

split_block-start : (lower front : ℕ) (h : Heap) → (split_block lower front h).start ≡ h.start
unfolding split_block add_to_k_heap_order delete_from_k_heap_order
split_block-start lower front h = refl

split_down-start :
    (rounds requested : ℕ) (h h' : Heap)
    → split_down rounds requested h ≡ some h'
    → h'.start ≡ h.start
unfolding split_down
split_down-start zero requested h h' run = ground arith
split_down-start (suc rounds) requested h h' run =
    elim (Option-cases (h.heads (requested + suc rounds))) [
      | inl e ↦ let bad : none ≡ some h' = rw (e, split_down) at run in ground arith
      | inr (front, e) ↦
          split_down-start rounds requested (split_block (requested + rounds) front h) h'
            (rw (e, split_down) at run)
          ∙ split_block-start (requested + rounds) front h
    ]

allocate_found :
    (rounds order above front : ℕ) (h : Heap) (free : FreeBlocks)
    → IsHeap h free
    → h.heads (order + above) ≡ some front
    → Served order h free (allocate_from (suc rounds) order above h)
unfolding allocate_from
allocate_found rounds order above front h free v e =
    let (h1, p, run, split) = split_down_lem above order front h free v e in
    (
      p,
      taken_block order p split.heap split.head,
      rw (e, allocate_from)
          (rw run (
            rw (← split_down-start above order h h1 run)
              (take_block_lem order p split.heap split.head))),
      Granted-same split.same (taken-Granted order p split.heap split.head),
    )

allocate_next :
    (rounds order above : ℕ) (h : Heap)
    → h.heads (order + above) ≡ none
    → allocate_from (suc rounds) order above h ≡ allocate_from rounds order (above + 1) h
unfolding allocate_from
allocate_next rounds order above h e = rw (e, allocate_from)

allocate_none : (order above : ℕ) (h : Heap) → allocate_from 0 order above h ≡ some (0, h)
unfolding allocate_from
allocate_none order above h = refl

pub allocate_from_lem :
    (rounds order above : ℕ) (h : Heap) (free : FreeBlocks)
    → IsHeap h free
    → Refused order above rounds h free (allocate_from rounds order above h)
      ⊎ Served order h free (allocate_from rounds order above h)
allocate_from_lem zero order above h free v =
    inl (allocate_none order above h, λ o lo hi. absurd (omega arith))
allocate_from_lem (suc rounds) order above h free v =
    elim (Option-cases (h.heads (order + above))) [
      | inr (front, e) ↦ inr (allocate_found rounds order above front h free v e)
      | inl e ↦
          rw (allocate_next rounds order above h e)
            (elim (allocate_from_lem rounds order (above + 1) h free v) [
              | inr served ↦ inr served
              | inl (run, none_free) ↦ inl (
                run,
                λ o lo hi. elim (ℕ_discrete o (order + above)) [
                  | yes here ↦ rw here (
                      no_head (free (order + above)) (nexts h) (h.heads (order + above))
                        (v.holds.line (order + above)) e)
                  | no past ↦ none_free o (omega arith) (omega arith)
                ],
              )
            ])
    ]

least_exact : (k blocks : ℕ) → 2 ^ k ≡ blocks → (k ≡ 0) ⊎ (2 ^ (k - 1) < blocks)
least_exact zero blocks e = inl refl
least_exact (suc k) blocks e =
    let e' : suc k - 1 ≡ k = omega arith in inr (rw e' (omega (arith, pow-suc 2 k, one-le-pow k 2)))

-- The least order whose blocks hold that many sixteenths.
requested_order_lem :
    (blocks : ℕ)
    → 0 < blocks
    → blocks < u64
    → (order : ℕ) × (requested_order blocks ≡ some order)
      × (blocks ≤ 2 ^ order)
      × ((order ≡ 0) ⊎ (2 ^ (order - 1) < blocks))
unfolding requested_order
requested_order_lem blocks pos h =
    let (k, run, lt, lo, hi) = log2_total blocks pos h in
    let run' : pow 2 k ≡ some (2 ^ k) = pow_two k (omega arith) (omega arith) in
    elim (dec_lt (2 ^ k) blocks) [
      | yes above ↦ (
        k + 1,
        rw (run, requested_order) (rw run' (ground arith)),
        rw add-one (omega arith),
        inr (let e : k + 1 - 1 ≡ k = omega arith in rw e above),
      )
      | no exact ↦ (
        k,
        rw (run, requested_order) (rw run' (ground arith)),
        omega arith,
        least_exact k blocks (omega arith),
      )
    ]

-- `requested_block_number size` sixteenths of the page are what `size` bytes take.
block_number_lem :
    (size : ℕ)
    → 0 < size
    → (0 < requested_block_number size)
      × (requested_block_number size * 256 < size + 256)
      × (size ≤ requested_block_number size * 256)
block_number_lem size pos = elim (ℕ_discrete (size % 256) 0) [
  | yes e ↦ rw e (omega arith, omega arith, omega arith)
  | no ne ↦ rw (eq_of_ne (size % 256) 0 ne) (omega arith, omega arith, omega arith)
]

small : (size : ℕ) → size ≤ 4096 → ltb k_heap_heap_size size ≡ false
small size h = ground arith

-- A request of 1 to 4096 bytes: `kmalloc` asks for the least order whose blocks hold that many bytes.
-- It returns 0 and changes nothing if no block of that order or above is free; otherwise it returns
-- the address of an aligned block of that order inside the heap's page, marked as allocated with its
-- order, whose bytes were free, and everything else is as free as it was.
pub kmalloc_lem :
    (size : ℕ) (h : Heap) (free : FreeBlocks)
    → 0 < size
    → size ≤ 4096
    → IsHeap h free
    → (order : ℕ) × (size ≤ 2 ^ order * 256)
      × ((order ≡ 0) ⊎ (2 ^ (order - 1) * 256 < size))
      × (((kmalloc size h ≡ some (0, h))
            × ((o : ℕ) → order ≤ o → o ≤ k_heap_max_order → free o ≡ []))
          ⊎ Served order h free (kmalloc size h))
unfolding kmalloc
kmalloc_lem size h free pos le v =
    let (some_blocks, tight, enough) = block_number_lem size pos in
    let (order, run, holds, least) =
      requested_order_lem (requested_block_number size) some_blocks (omega arith) in
    (
      order,
      omega arith,
      elim least [ inl e ↦ inl e | inr lt ↦ inr (omega arith) ],
      rw (small size le) (
          rw (run, kmalloc)
            (elim (allocate_from_lem (k_heap_max_order + 1 - order) order 0 h free v) [
              | inl (out, none_free) ↦ inl (out, λ o lo hi. none_free o (omega arith) (omega arith))
              | inr served ↦ inr served
            ])),
    )

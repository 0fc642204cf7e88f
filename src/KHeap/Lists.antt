-- ===== src/KHeap/Lists.antt =====
-- The lists of free blocks of the kernel heap, along the `next` links.
use native.Mathlib.Decide.{ℕ_discrete}
use amaterasu.Base.{
  ℕ, ◌<◌, ◌≡◌, refl, ◌∙◌, true, false, Option, none, some, List, [], ◌∷◌, ◌==◌, if◌then◌else◌,
  update, arith, eq_self, eq_of_ne,
}
use amaterasu.Base.Chain.{elem, erase, Distinct, elem-erase, erase-Distinct, apart}
use amaterasu.PhysicalMemory.FreeLists.{FreeBlocks}
use amaterasu.PhysicalMemory.Blocks.{elem-erase-Distinct}
use amaterasu.KHeap.{Heap, add_to_k_heap_order, delete_from_k_heap_order}

-- From `ptr` the `next` links lead through `xs` to null.
abbrev pub Line : (nx : ℕ → Option ℕ) (ptr : Option ℕ) → List ℕ → Type 0
Line nx ptr [] = ptr ≡ none
Line nx ptr (x ∷ xs) = (ptr ≡ some x) × Line nx (nx x) xs

pub Line-frame :
    (xs : List ℕ) (nx nx' : ℕ → Option ℕ) (ptr : Option ℕ)
    → ((q : ℕ) → elem q xs ≡ true → nx' q ≡ nx q)
    → Line nx ptr xs
    → Line nx' ptr xs
Line-frame [] nx nx' ptr same c = c
Line-frame (x ∷ xs) nx nx' ptr same c =
    let here : nx' x ≡ nx x = same x (ground arith) in
    (c.0, rw here (Line-frame xs nx nx' (nx x) (λ q m. same q (ground arith)) c.1))

abbrev pub nexts : Heap → ℕ → Option ℕ
nexts h q = (h.blocks q).next

-- The heap's lists are those blocks, each marked with its order; every block knows its index, and no
-- block has a link back.
pub record Holds (h : Heap) (free : FreeBlocks) : Type 0 where
  pub line : (o : ℕ) → Line (nexts h) (h.heads o) (free o)
  pub distinct : (o : ℕ) → Distinct (free o)
  pub tagged : (o x : ℕ) → elem x (free o) ≡ true → (h.blocks x).order ≡ o
  pub ids : (x : ℕ) → x < 16 → (h.blocks x).id ≡ x
  pub no_back : (x : ℕ) → (h.blocks x).prev ≡ none

first_elem :
    (xs : List ℕ) (nx : ℕ → Option ℕ) (ptr : Option ℕ) (p : ℕ)
    → Line nx ptr xs
    → ptr ≡ some p
    → (elem p xs ≡ true) × Line nx (nx p) (erase p xs)
first_elem [] nx ptr p c e = cc
first_elem (x ∷ xs) nx ptr p c e =
    let same : x ≡ p = ground arith in rw (← same) (ground arith, rw (eq_self x) c.1)

pub head_elem :
    {h : Heap} {free : FreeBlocks}
    → Holds h free
    → (o front : ℕ) → h.heads o ≡ some front
    → elem front (free o) ≡ true
head_elem {h} {free} v o front e = (first_elem (free o) (nexts h) (h.heads o) front (v.line o) e).0

-- A block that is in no list is put in front of the list of its order.
pub add-Holds :
    (order id : ℕ) (h : Heap) (free : FreeBlocks)
    → Holds h free
    → ((o : ℕ) → elem id (free o) ≡ false)
    → Holds (add_to_k_heap_order order id h) (update free order (id ∷ free order))
unfolding add_to_k_heap_order
add-Holds order id h free v new = record {
  line = λ o. elim (ℕ_discrete o order) [
    | yes e ↦
        let first : nexts (add_to_k_heap_order order id h) id ≡ h.heads order = ground arith in
        rw (e, eq_self order)
          (
            refl,
            rw first (
                Line-frame (free order) (nexts h) (nexts (add_to_k_heap_order order id h))
                  (h.heads order) (λ q m. ground (arith, apart q id q (free order) (new order) m))
                  (v.line order)),
          )
    | no ne ↦ rw (eq_of_ne o order ne) (
        Line-frame (free o) (nexts h) (nexts (add_to_k_heap_order order id h)) (h.heads o)
          (λ q m. ground (arith, apart q id q (free o) (new o) m)) (v.line o))
  ];
  distinct = λ o. ground (arith, new order, v.distinct order, v.distinct o);
  tagged = λ o x m. ground (arith, new o, v.tagged o x);
  ids = λ x lt. ground (arith, v.ids x lt);
  no_back = λ x. ground (arith, v.no_back x);
}

not_erased : (p q : ℕ) (xs : List ℕ) → Distinct xs → elem q (erase p xs) ≡ true → (q == p) ≡ false
not_erased p q xs d m = ground (arith, elem-erase-Distinct q p xs d)

-- What `DeleteFromkHeapOrder` does to a block's fields, and to the list heads, where no block has a link
-- back: the list begins behind the block, whatever stood before it.
pub delete_heads :
    (order id : ℕ) (h : Heap)
    → (h.blocks id).prev ≡ none
    → (delete_from_k_heap_order order id h).heads ≡ update h.heads order (nexts h id)
unfolding delete_from_k_heap_order
delete_heads order id h e = rw e

pub delete_block :
    (order id : ℕ) (h : Heap) (q : ℕ)
    → (h.blocks id).prev ≡ none
    → let b = (delete_from_k_heap_order order id h).blocks q in
      (b.next ≡ (if q == id then none else nexts h q))
      × (b.order ≡ (if q == id then 0 else (h.blocks q).order))
      × (b.id ≡ (h.blocks q).id)
      × ((h.blocks q).prev ≡ none → b.prev ≡ none)
unfolding delete_from_k_heap_order
delete_block order id h q e = rw e (ground arith)

-- Deleting the first block of a list takes it out of the list.
pub delete_first-Holds :
    (order front : ℕ) (h : Heap) (free : FreeBlocks)
    → Holds h free
    → h.heads order ≡ some front
    → Holds (delete_from_k_heap_order order front h) (update free order (erase front (free order)))
delete_first-Holds order front h free v e =
    let (m, rest) = first_elem (free order) (nexts h) (h.heads order) front (v.line order) e in
    let field = λ (q : ℕ). delete_block order front h q (v.no_back front) in
    record {
      line = λ o. rw (delete_heads order front h (v.no_back front)) (elim (ℕ_discrete o order) [
        | yes eo ↦
            rw (eo, eq_self order)
              (Line-frame (erase front (free order)) (nexts h)
                (nexts (delete_from_k_heap_order order front h)) (nexts h front)
                (λ q m'.
                  ground (arith, field q, not_erased front q (free order) (v.distinct order) m'))
                rest)
        | no ne ↦ rw (eq_of_ne o order ne) (
            Line-frame (free o) (nexts h) (nexts (delete_from_k_heap_order order front h))
              (h.heads o) (λ q m'. ground (arith, field q, v.tagged o q m', v.tagged order front m))
              (v.line o))
      ]);
      distinct =
          λ o. ground (arith, erase-Distinct front (free order) (v.distinct order), v.distinct o);
      tagged = λ o x m'. tagged_after o x m' m;
      ids = λ x lt. (field x).2 ∙ v.ids x lt;
      no_back = λ x. (field x).3 (v.no_back x);
    }
  where
    tagged_after :
        (o x : ℕ)
        → elem x (update free order (erase front (free order)) o) ≡ true
        → elem front (free order) ≡ true
        → ((delete_from_k_heap_order order front h).blocks x).order ≡ o
    tagged_after o x m' m = ground (
      arith,
      (delete_block order front h x (v.no_back front)).1,
      elem-erase x front (free order),
      not_erased front x (free order) (v.distinct order),
      v.tagged o x,
      v.tagged order front m,
    )

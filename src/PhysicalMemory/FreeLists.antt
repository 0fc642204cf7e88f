-- ===== src/PhysicalMemory/FreeLists.antt =====
-- The lists of free blocks of each order: the pointer code of `AddToPageFrameOrder` and
-- `DeleteFromPageFrameOrder` against plain lists of page indices.
use native.Mathlib.Decide.{ℕ_discrete}
use amaterasu.Base.{
  ℕ, ◌≡◌, ◌≢◌, refl, sym, ◌∙◌, true, false, Option, none, some, List, ◌∷◌, ◌==◌, if◌then◌else◌,
  update, arith, eq_self, eq_of_ne,
}
use amaterasu.Base.Chain.{
  elem, erase, Distinct, Chain, Chain-frame, Chain-push, Chain-unlink, push_prev, push_next,
  unlink_prev, unlink_next, points, apart, first_prev, prev_inside, next_inside, prev_none,
  elem-erase, erase-Distinct,
}
use amaterasu.PhysicalMemory.{Buddy, add_to_page_frame_order, delete_from_page_frame_order}

-- The blocks that are free, by order: the first page of each.
abbrev pub FreeBlocks : Type 0
FreeBlocks = ℕ → List ℕ

abbrev pub prevs : Buddy → ℕ → Option ℕ
prevs b q = (b.memory_map q).prev

abbrev pub nexts : Buddy → ℕ → Option ℕ
nexts b q = (b.memory_map q).next

-- The lists of the allocator's state are those blocks, each marked with its order.
pub record Holds (b : Buddy) (free : FreeBlocks) : Type 0 where
  pub chain : (o : ℕ) → Chain (prevs b) (nexts b) none (b.page_frame_order o) (free o)
  pub distinct : (o : ℕ) → Distinct (free o)
  pub tagged : (o x : ℕ) → elem x (free o) ≡ true → (b.memory_map x).private_order ≡ o

add_prevs :
    (order page : ℕ) (b : Buddy) (q : ℕ)
    → prevs (add_to_page_frame_order order page b) q
      ≡ push_prev (prevs b) (b.page_frame_order order) page q
unfolding add_to_page_frame_order
add_prevs order page b q = ground arith

add_nexts :
    (order page : ℕ) (b : Buddy) (q : ℕ)
    → nexts (add_to_page_frame_order order page b) q
      ≡ push_next (nexts b) (b.page_frame_order order) page q
unfolding add_to_page_frame_order
add_nexts order page b q = ground arith

delete_prevs :
    (order page : ℕ) (b : Buddy) (q : ℕ)
    → prevs (delete_from_page_frame_order order page b) q ≡ unlink_prev (prevs b) (nexts b) page q
unfolding delete_from_page_frame_order
delete_prevs order page b q = ground arith

delete_nexts :
    (order page : ℕ) (b : Buddy) (q : ℕ)
    → nexts (delete_from_page_frame_order order page b) q ≡ unlink_next (prevs b) (nexts b) page q
unfolding delete_from_page_frame_order
delete_nexts order page b q = ground arith

private_add :
    (order page : ℕ) (b : Buddy) (q : ℕ)
    → ((add_to_page_frame_order order page b).memory_map q).private_order
      ≡ (if q == page then order else (b.memory_map q).private_order)
unfolding add_to_page_frame_order
private_add order page b q = ground arith

private_delete :
    (order page : ℕ) (b : Buddy) (q : ℕ)
    → ((delete_from_page_frame_order order page b).memory_map q).private_order
      ≡ (b.memory_map q).private_order
unfolding delete_from_page_frame_order
private_delete order page b q = ground arith

pub head_add :
    (order page : ℕ) (b : Buddy)
    → (add_to_page_frame_order order page b).page_frame_order
      ≡ update b.page_frame_order order (some page)
unfolding add_to_page_frame_order
head_add order page b = refl

module _ (order page : ℕ) (b : Buddy) (free : FreeBlocks) (h : Holds b free) where
  -- A block of another order is not in this list.
  other_list : (o q : ℕ) → o ≢ order → elem q (free o) ≡ true → elem q (free order) ≡ true → ⊥
  other_list o q ne m m' = ne (sym (h.tagged o q m) ∙ h.tagged order q m')

  abbrev added : Buddy
  added = add_to_page_frame_order order page b

  add_links :
      (o q : ℕ)
      → o ≢ order
      → elem q (free o) ≡ true
      → elem page (free o) ≡ false
      → (prevs added q ≡ prevs b q) × (nexts added q ≡ nexts b q)
  add_links o q ne m new = ground (
    arith,
    add_prevs order page b q,
    add_nexts order page b q,
    apart q page q (free o) new m,
    other_list o q ne m,
    first_prev (free order) (prevs b) (nexts b) none (b.page_frame_order order) q (h.chain order),
  )

  add-Chain :
      (o : ℕ)
      → ((o : ℕ) → elem page (free o) ≡ false)
      → Chain
          (prevs added)
          (nexts added)
          none
          (added.page_frame_order o)
          (update free order (page ∷ free order) o)
  add-Chain o new = elim (ℕ_discrete o order) [
    | yes e ↦
        rw (e, head_add order page b, eq_self order)
          (Chain-frame (page ∷ free order) (push_prev (prevs b) (b.page_frame_order order) page)
            (push_next (nexts b) (b.page_frame_order order) page) (prevs added) (nexts added) none
            (some page) (λ q m. (add_prevs order page b q, add_nexts order page b q))
            (Chain-push (free order) (prevs b) (nexts b) (b.page_frame_order order) page (new order)
              (h.distinct order) (h.chain order)))
    | no ne ↦
        rw (head_add order page b, eq_of_ne o order ne)
          (Chain-frame (free o) (prevs b) (nexts b) (prevs added) (nexts added) none
            (b.page_frame_order o) (λ q m. add_links o q ne m (new o)) (h.chain o))
  ]

  abbrev deleted : Buddy
  deleted = delete_from_page_frame_order order page b

  delete_links :
      (o q : ℕ)
      → o ≢ order
      → elem q (free o) ≡ true
      → elem page (free order) ≡ true
      → (prevs deleted q ≡ prevs b q) × (nexts deleted q ≡ nexts b q)
  delete_links o q ne m in_list = ground (
    arith,
    delete_prevs order page b q,
    delete_nexts order page b q,
    other_list o q ne m,
    first_prev (free order) (prevs b) (nexts b) none (b.page_frame_order order) page
        (h.chain order),
    next_inside (free order) (prevs b) (nexts b) none (b.page_frame_order order) page q
        (h.chain order) in_list,
    prev_inside (free order) (prevs b) (nexts b) none (b.page_frame_order order) page q
        (h.chain order) in_list,
  )

  delete_heads :
      (o : ℕ)
      → elem page (free order) ≡ true
      → deleted.page_frame_order o ≡ (
          if o == order
          then (if points (b.page_frame_order order) page
              then nexts b page
              else b.page_frame_order order)
          else b.page_frame_order o)
  unfolding delete_from_page_frame_order
  delete_heads o m = ground (
    arith,
    first_prev (free order) (prevs b) (nexts b) none (b.page_frame_order order) page
        (h.chain order),
    prev_none (free order) (prevs b) (nexts b) none (b.page_frame_order order) page (h.chain order)
        m,
  )

  delete-Chain :
      (o : ℕ)
      → elem page (free order) ≡ true
      → Chain
          (prevs deleted)
          (nexts deleted)
          none
          (deleted.page_frame_order o)
          (update free order (erase page (free order)) o)
  delete-Chain o m = rw (delete_heads o m) (elim (ℕ_discrete o order) [
    | yes e ↦
        rw (e, eq_self order)
          (Chain-frame (erase page (free order)) (unlink_prev (prevs b) (nexts b) page)
            (unlink_next (prevs b) (nexts b) page) (prevs deleted) (nexts deleted) none
            (if points (b.page_frame_order order) page
              then nexts b page
              else b.page_frame_order order)
            (λ q _. (delete_prevs order page b q, delete_nexts order page b q))
            (Chain-unlink (free order) (prevs b) (nexts b) none (b.page_frame_order order) page
              (h.chain order) (h.distinct order) (λ y e'. cc) m))
    | no ne ↦ rw (eq_of_ne o order ne) (
        Chain-frame (free o) (prevs b) (nexts b) (prevs deleted) (nexts deleted) none
          (b.page_frame_order o) (λ q m'. delete_links o q ne m' m) (h.chain o))
  ])

-- A block that is in no list is put in front of the list of its order, and the other lists stay.
pub add-Holds :
    (order page : ℕ) (b : Buddy) (free : FreeBlocks)
    → Holds b free
    → ((o : ℕ) → elem page (free o) ≡ false)
    → Holds (add_to_page_frame_order order page b) (update free order (page ∷ free order))
add-Holds order page b free h new = record {
  chain = λ o. add-Chain order page b free h o new;
  distinct = λ o. ground (arith, new order, h.distinct order, h.distinct o);
  tagged = λ o x m. ground (arith, new o, private_add order page b x, h.tagged o x);
}

-- A block of a list is taken out of it, and the other lists stay.
pub delete-Holds :
    (order page : ℕ) (b : Buddy) (free : FreeBlocks)
    → Holds b free
    → elem page (free order) ≡ true
    → Holds
        (delete_from_page_frame_order order page b)
        (update free order (erase page (free order)))
delete-Holds order page b free h m = record {
  chain = λ o. delete-Chain order page b free h o m;
  distinct = λ o. ground (arith, erase-Distinct page (free order) (h.distinct order), h.distinct o);
  tagged = λ o x m'.
      ground (arith, elem-erase x page (free order), private_delete order page b x, h.tagged o x);
}

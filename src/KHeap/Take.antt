-- ===== src/KHeap/Take.antt =====
-- Taking the first block of a list out of the heap, as `kmalloc` does at the end.
use native.Mathlib.Decide.{ℕ_discrete}
use amaterasu.Base.{
  ℕ, ◌+◌, ◌*◌, ◌<◌, ◌≡◌, ◌↔◌, refl, ◌∙◌, true, false, not, ◌&&◌, some, ◌==◌, update, arith, eq_self,
  eq_of_ne,
}
use amaterasu.Base.Chain.{elem, erase}
use amaterasu.PhysicalMemory.FreeLists.{FreeBlocks}
use amaterasu.PhysicalMemory.Blocks.{IsFree, Within, IsAligned, elem-erase-Distinct}
use amaterasu.KHeap.{Heap, delete_from_k_heap_order, take_block}
use amaterasu.KHeap.Lists.{Line-frame, nexts, Holds, head_elem, delete_first-Holds}
use amaterasu.KHeap.Malloc.{IsHeap, first-IsFree}

-- The block of order `order` that begins at index `p` has been given out: it is aligned and marked
-- with its order, its sixteenths of the page were free and are free no more, and every other one is as
-- free as it was.
pub record Granted (order : ℕ) (free : FreeBlocks) (p : ℕ) (h' : Heap) : Type 0 where
  pub free' : FreeBlocks
  pub heap : IsHeap h' free'
  pub aligned : IsAligned order p
  pub marked : ((h'.blocks p).order ≡ order) × ((h'.blocks p).is_allocated ≡ 1)
  pub was_free : (q : ℕ) → Within order p q → (q < 16) × IsFree free q × (¬ IsFree free' q)
  pub others : (q : ℕ) → ¬ Within order p q → IsFree free q ↔ IsFree free' q

module _ (order p : ℕ) {h : Heap} {free : FreeBlocks} (v : IsHeap h free)
    (e : h.heads order ≡ some p) where
  in_list : elem p (free order) ≡ true
  in_list = head_elem v.holds order p e

  left : FreeBlocks
  left = update free order (erase p (free order))

  elem-left : (o x : ℕ) → elem x (left o) ≡ (elem x (free o) && not ((o == order) && (x == p)))
  unfolding left
  elem-left o x = ground (arith, elem-erase-Distinct x p (free order) (v.holds.distinct order))

  not_left : (o : ℕ) → elem p (left o) ≡ false
  not_left o = elim (ℕ_discrete o order) [
    | yes eo ↦ elem-left o p ∙ rw (eo, eq_self order, eq_self p) (ground arith)
    | no ne ↦ ground (arith, elem-left o p, v.holds.tagged o p, v.holds.tagged order p in_list)
  ]

  left-IsFree : (q : ℕ) → IsFree left q → IsFree free q × (¬ Within order p q)
  left-IsFree q (o, x, m, w) =
      let old : elem x (free o) ≡ true = ground (arith, elem-left o x) in
      (
        (o, x, old, w),
        λ w'. ground (arith, elem-left o x, v.apart.apart o x order p q old in_list w w'),
      )

  deleted : Heap
  deleted = delete_from_k_heap_order order p h

  pub taken_block : Heap
  taken_block = record deleted {
    blocks =
        update deleted.blocks p (record (deleted.blocks p) { order = order; is_allocated = 1 });
  }

  deleted-start : deleted.start ≡ h.start
  unfolding deleted delete_from_k_heap_order
  deleted-start = refl

  deleted-Holds : Holds deleted left
  unfolding deleted left
  deleted-Holds = delete_first-Holds order p h free v.holds e

  p_lt : p < 16
  p_lt = v.inside p (first-IsFree free order p in_list)

  taken-Holds : Holds taken_block left
  unfolding taken_block
  taken-Holds =
      let d = deleted-Holds in
      record {
        line = λ o.
            Line-frame (left o) (nexts deleted) (nexts taken_block) (deleted.heads o)
              (λ q m. ground arith) (d.line o);
        distinct = d.distinct;
        tagged = λ o x m. ground (arith, d.tagged o x m, not_left o);
        ids = λ x lt. ground (arith, d.ids x lt);
        no_back = λ x. ground (arith, d.no_back x);
      }

  marked_block : ((taken_block.blocks p).order ≡ order) × ((taken_block.blocks p).is_allocated ≡ 1)
  unfolding taken_block
  marked_block = (ground arith, ground arith)

  pub taken-Granted : Granted order free p taken_block
  unfolding left
  taken-Granted = record {
    free' = left;
    heap = record {
      holds = taken-Holds;
      apart = record {
        aligned = λ o x m. v.apart.aligned o x (ground (arith, elem-left o x));
        apart = λ o x o' x' q m m' w w'.
            v.apart.apart o x o' x' q (ground (arith, elem-left o x))
              (ground (arith, elem-left o' x')) w w';
      };
      inside = λ q f. v.inside q (left-IsFree q f).0;
    };
    aligned = v.apart.aligned order p in_list;
    marked = marked_block;
    was_free = λ q w.
        (v.inside q (order, p, in_list, w), (order, p, in_list, w), λ f. (left-IsFree q f).1 w);
    others = λ q far. (λ (o, x, m, w). (o, x, kept q far o x m w, w), λ f. (left-IsFree q f).0);
  }
    where
      kept :
          (q : ℕ)
          → ¬ Within order p q
          → (o x : ℕ) → elem x (free o) ≡ true
          → Within o x q
          → elem x (left o) ≡ true
      kept q far o x m w = elim (ℕ_discrete o order) [
        | yes eo ↦ elim (ℕ_discrete x p) [
          | yes ex ↦ absurd (far (rw ex at (rw eo at w)))
          | no ne ↦ elem-left o x ∙ rw (m, eq_of_ne x p ne) (ground arith)
        ]
        | no ne ↦ elem-left o x ∙ rw (m, eq_of_ne o order ne)
      ]

  taken_id : (taken_block.blocks p).id ≡ p
  taken_id = taken-Holds.ids p p_lt

  take_block_steps :
      take_block order h ≡ some (deleted.start + 256 * (taken_block.blocks p).id, taken_block)
  unfolding take_block taken_block deleted
  take_block_steps = rw (e, take_block) (rw (v.holds.ids p p_lt))

  pub take_block_lem : take_block order h ≡ some (h.start + 256 * p, taken_block)
  take_block_lem = take_block_steps ∙ rw (taken_id, deleted-start)

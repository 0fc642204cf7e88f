-- ===== src/KHeap/Malloc.antt =====
-- `kmalloc` against the sets of free blocks.
use native.Mathlib.Nat.{one-le-pow}
use amaterasu.Base.{
  ℕ, zero, suc, ◌+◌, ◌^◌, ◌<◌, ◌≡◌, ◌↔◌, refl, ap, ◌∙◌, true, false, some, ◌∷◌, update, arith,
  eq_self,
}
use amaterasu.Base.Chain.{elem, erase}
use amaterasu.PhysicalMemory.FreeLists.{FreeBlocks}
use amaterasu.PhysicalMemory.Blocks.{
  IsFree, IsApart, halves, halves-IsApart, halves_free, free_halves, upper_new, front_new,
  elem-erase-Distinct,
}
use amaterasu.KHeap.{Heap, add_to_k_heap_order, delete_from_k_heap_order, split_block, split_down}
use amaterasu.KHeap.Lists.{Holds, head_elem, add-Holds, delete_first-Holds}

-- The free blocks of the heap: the lists hold them, they do not overlap, and they lie in its page.
pub record IsHeap (h : Heap) (free : FreeBlocks) : Type 0 where
  pub holds : Holds h free
  pub apart : IsApart free
  pub inside : (q : ℕ) → IsFree free q → q < 16

-- The first block of a free block is free.
pub first-IsFree : (free : FreeBlocks) (o p : ℕ) → elem p (free o) ≡ true → IsFree free p
first-IsFree free o p m = (o, p, m, (omega arith, omega (arith, one-le-pow o 2)))

module _ (lower front : ℕ) {h : Heap} {free : FreeBlocks} (v : IsHeap h free)
    (e : h.heads (suc lower) ≡ some front) where
  in_list : elem front (free (suc lower)) ≡ true
  in_list = head_elem v.holds (suc lower) front e

  upper : ℕ
  upper = front + 2 ^ lower

  taken : FreeBlocks
  taken = update free (suc lower) (erase front (free (suc lower)))

  halved : FreeBlocks
  halved = halves lower front free v.apart (v.holds.distinct (suc lower)) in_list

  front_id : (h.blocks front).id ≡ front
  front_id = v.holds.ids front (v.inside front (first-IsFree free (suc lower) front in_list))

  front_lt : front < 16
  front_lt = v.inside front (first-IsFree free (suc lower) front in_list)

  deleted : Heap
  deleted = delete_from_k_heap_order (suc lower) front h

  deleted-Holds : Holds deleted taken
  unfolding deleted taken
  deleted-Holds = delete_first-Holds (suc lower) front h free v.holds e

  upper-new : (o : ℕ) → elem upper (taken o) ≡ false
  unfolding upper taken
  upper-new o = ground (
    arith,
    upper_new lower front free v.apart (v.holds.distinct (suc lower)) in_list o,
    upper_new lower front free v.apart (v.holds.distinct (suc lower)) in_list (suc lower),
    elem-erase-Distinct upper front (free (suc lower)) (v.holds.distinct (suc lower)),
  )

  front-new : (o : ℕ) → elem front (update taken lower (upper ∷ taken lower) o) ≡ false
  unfolding upper taken
  front-new o = ground (
    arith,
    front_new lower front free v.apart (v.holds.distinct (suc lower)) in_list o,
    front_new lower front free v.apart (v.holds.distinct (suc lower)) in_list lower,
    elem-erase-Distinct front front (free (suc lower)) (v.holds.distinct (suc lower)),
    one-le-pow lower 2,
  )

  with_upper-Holds :
      Holds (add_to_k_heap_order lower upper deleted) (update taken lower (upper ∷ taken lower))
  with_upper-Holds = add-Holds lower upper deleted taken deleted-Holds upper-new

  -- The split in terms of the first block's index.
  split_block_steps :
      split_block lower front h
      ≡ add_to_k_heap_order lower front (add_to_k_heap_order lower upper deleted)
  unfolding split_block deleted upper
  split_block_steps =
      rw (front_id, deleted-Holds.ids front front_lt, with_upper-Holds.ids front front_lt)

  -- Splitting a block puts its halves in the list of the order below, the lower half first.
  split_block-IsHeap : IsHeap (split_block lower front h) halved
  unfolding taken upper halved
  split_block-IsHeap = record {
    holds = rw split_block_steps (
        add-Holds lower front (add_to_k_heap_order lower upper deleted)
          (update taken lower (upper ∷ taken lower)) with_upper-Holds front-new);
    apart = halves-IsApart lower front free v.apart (v.holds.distinct (suc lower)) in_list;
    inside = λ q f.
        v.inside q
          (halves_free lower front free v.apart (v.holds.distinct (suc lower)) in_list q f);
  }

  split_block-head : (split_block lower front h).heads lower ≡ some front
  unfolding add_to_k_heap_order
  split_block-head = rw split_block_steps (rw (eq_self lower))

  halved-IsFree : (q : ℕ) → IsFree free q ↔ IsFree halved q
  unfolding halved
  halved-IsFree q = (
    free_halves lower front free v.apart (v.holds.distinct (suc lower)) in_list q,
    halves_free lower front free v.apart (v.holds.distinct (suc lower)) in_list q,
  )

-- What the splitting loop leaves behind: the same free blocks, and one of the order asked for at the
-- head of its list.
pub record Split (requested : ℕ) (free : FreeBlocks) (h' : Heap) (front' : ℕ) : Type 0 where
  pub free' : FreeBlocks
  pub heap : IsHeap h' free'
  pub head : h'.heads requested ≡ some front'
  pub same : (q : ℕ) → IsFree free q ↔ IsFree free' q

split_down_step :
    (rounds requested front : ℕ) (h : Heap)
    → h.heads (requested + suc rounds) ≡ some front
    → split_down (suc rounds) requested h
      ≡ split_down rounds requested (split_block (requested + rounds) front h)
unfolding split_down
split_down_step rounds requested front h e = rw (e, split_down)

pub split_down_lem :
    (rounds requested front : ℕ) (h : Heap) (free : FreeBlocks)
    → IsHeap h free
    → h.heads (requested + rounds) ≡ some front
    → (h' : Heap) × (front' : ℕ) × (split_down rounds requested h ≡ some h')
      × Split requested free h' front'
unfolding split_down
split_down_lem zero requested front h free v e = (
  h,
  front,
  refl,
  record {
    free' = free;
    heap = v;
    head = ap h.heads (omega arith) ∙ e;
    same = λ q. (λ x. x, λ x. x);
  },
)
split_down_lem (suc rounds) requested front h free v e =
    let lower = requested + rounds in
    let e' : h.heads (suc lower) ≡ some front = ap h.heads (omega arith) ∙ e in
    let (h', front', run, rest) =
      split_down_lem rounds requested front (split_block lower front h) (halved lower front v e')
        (split_block-IsHeap lower front v e') (split_block-head lower front v e') in
    (
      h',
      front',
      split_down_step rounds requested front h e ∙ run,
      record {
        free' = rest.free';
        heap = rest.heap;
        head = rest.head;
        same = λ q. (
          λ x. (rest.same q).0 ((halved-IsFree lower front v e' q).0 x),
          λ x. (halved-IsFree lower front v e' q).1 ((rest.same q).1 x),
        );
      },
    )

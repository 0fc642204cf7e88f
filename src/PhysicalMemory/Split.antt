-- ===== src/PhysicalMemory/Split.antt =====
-- The splitting loop of `AllocatePageFrames` against the sets of free blocks.
use native.Mathlib.Nat.{one-le-pow}
use amaterasu.Base.{
  ℕ, zero, suc, ◌+◌, ◌^◌, ◌≡◌, ◌<◌, ◌↔◌, refl, ap, ◌∙◌, true, false, none, some, ◌∷◌, update, arith,
  bit_xor,
}
use amaterasu.Base.Chain.{elem, erase, Chain-frame, first_prev}
use amaterasu.PhysicalMemory.{
  Buddy, page_frame_max_order, page_top, set_flag, split_block, split_down, add_to_page_frame_order,
  delete_from_page_frame_order,
}
use amaterasu.PhysicalMemory.FreeLists.{
  FreeBlocks, Holds, prevs, nexts, add-Holds, delete-Holds, head_add,
}
use amaterasu.PhysicalMemory.Blocks.{
  IsFree, IsApart, buddy_lem, halves, halves-IsApart, halves_free, free_halves, upper_new,
  front_new, elem-erase-Distinct,
}

-- Flags are no part of the lists.
set_flag-links :
    (mask page : ℕ) (b : Buddy) (q : ℕ)
    → (prevs (set_flag mask page b) q ≡ prevs b q)
      × (nexts (set_flag mask page b) q ≡ nexts b q)
      × (((set_flag mask page b).memory_map q).private_order ≡ (b.memory_map q).private_order)
set_flag-links mask page b q = ground arith

pub set_flag-Holds :
    (mask page : ℕ) (b : Buddy) (free : FreeBlocks)
    → Holds b free
    → Holds (set_flag mask page b) free
set_flag-Holds mask page b free h = record {
  chain = λ o.
      Chain-frame (free o) (prevs b) (nexts b) (prevs (set_flag mask page b))
        (nexts (set_flag mask page b)) none (b.page_frame_order o)
        (λ q m. ((set_flag-links mask page b q).0, (set_flag-links mask page b q).1)) (h.chain o);
  distinct = h.distinct;
  tagged = λ o x m. (set_flag-links mask page b x).2 ∙ h.tagged o x m;
}

-- The first page of a list is in it.
pub head_elem :
    {b : Buddy} {free : FreeBlocks}
    → Holds b free
    → (o front : ℕ) → b.page_frame_order o ≡ some front
    → elem front (free o) ≡ true
head_elem {b} {free} h o front e =
    (first_prev (free o) (prevs b) (nexts b) none (b.page_frame_order o) front (h.chain o) e).1

module _ (lower front : ℕ) {b : Buddy} {free : FreeBlocks} (h : Holds b free) (apart : IsApart free)
    (m : elem front (free (suc lower)) ≡ true) where
  upper : ℕ
  upper = front + 2 ^ lower

  taken : FreeBlocks
  taken = update free (suc lower) (erase front (free (suc lower)))

  -- Splitting a block puts its halves in the list of the order below, the lower half first.
  split_block-Holds :
      Holds (split_block lower front b) (halves lower front free apart (h.distinct (suc lower)) m)
  unfolding split_block upper taken
  split_block-Holds = rw (buddy_lem lower front (apart.aligned (suc lower) front m)) (
      add-Holds lower front (add_to_page_frame_order lower upper flagged)
        (update taken lower (upper ∷ taken lower))
        (add-Holds lower upper flagged taken flagged-Holds upper-new) front-new)
    where
      flagged : Buddy
      flagged =
          set_flag page_top upper
            (set_flag page_top front (delete_from_page_frame_order (suc lower) front b))

      flagged-Holds : Holds flagged taken
      flagged-Holds =
          set_flag-Holds page_top upper
            (set_flag page_top front (delete_from_page_frame_order (suc lower) front b)) taken
            (set_flag-Holds page_top front (delete_from_page_frame_order (suc lower) front b) taken
              (delete-Holds (suc lower) front b free h m))

      upper-new : (o : ℕ) → elem upper (taken o) ≡ false
      upper-new o = ground (
        arith,
        upper_new lower front free apart (h.distinct (suc lower)) m o,
        upper_new lower front free apart (h.distinct (suc lower)) m (suc lower),
        elem-erase-Distinct upper front (free (suc lower)) (h.distinct (suc lower)),
      )

      front-new : (o : ℕ) → elem front (update taken lower (upper ∷ taken lower) o) ≡ false
      front-new o = ground (
        arith,
        front_new lower front free apart (h.distinct (suc lower)) m o,
        front_new lower front free apart (h.distinct (suc lower)) m lower,
        elem-erase-Distinct front front (free (suc lower)) (h.distinct (suc lower)),
        one-le-pow lower 2,
      )

  split_block-head : (split_block lower front b).page_frame_order lower ≡ some front
  unfolding split_block
  split_block-head =
      let buddy = bit_xor front (2 ^ lower) in
      rw
        (head_add lower front (
          add_to_page_frame_order lower buddy (
            set_flag page_top buddy
              (set_flag page_top front (delete_from_page_frame_order (suc lower) front b)))))
        (ground arith)

-- The free blocks of an allocator's state: the lists hold them, and they do not overlap. The list heads up
-- to that of order 10, which lies behind the C array, are the allocator's.
pub record IsBuddy (b : Buddy) (free : FreeBlocks) : Type 0 where
  pub holds : Holds b free
  pub apart : IsApart free
  pub owned : page_frame_max_order < b.list_heads

-- What the splitting loop leaves behind: the same free pages, and a free block of the order asked
-- for at the head of its list.
pub record Split (requested : ℕ) (free : FreeBlocks) (b' : Buddy) (front' : ℕ) : Type 0 where
  pub free' : FreeBlocks
  pub buddy : IsBuddy b' free'
  pub head : b'.page_frame_order requested ≡ some front'
  pub same : (q : ℕ) → IsFree free q ↔ IsFree free' q

module _ (lower front : ℕ) {b : Buddy} {free : FreeBlocks} (v : IsBuddy b free)
    (m : elem front (free (suc lower)) ≡ true) where
  halved : FreeBlocks
  halved = halves lower front free v.apart (v.holds.distinct (suc lower)) m

  split_block-IsBuddy : IsBuddy (split_block lower front b) halved
  unfolding halved split_block add_to_page_frame_order delete_from_page_frame_order
  split_block-IsBuddy = record {
    holds = split_block-Holds lower front v.holds v.apart m;
    apart = halves-IsApart lower front free v.apart (v.holds.distinct (suc lower)) m;
    owned = v.owned;
  }

  halved-IsFree : (q : ℕ) → IsFree free q ↔ IsFree halved q
  unfolding halved
  halved-IsFree q = (
    free_halves lower front free v.apart (v.holds.distinct (suc lower)) m q,
    halves_free lower front free v.apart (v.holds.distinct (suc lower)) m q,
  )

split_down_step :
    (rounds requested front : ℕ) (b : Buddy)
    → b.page_frame_order (requested + suc rounds) ≡ some front
    → split_down (suc rounds) requested b
      ≡ split_down rounds requested (split_block (requested + rounds) front b)
unfolding split_down
split_down_step rounds requested front b e = rw (e, split_down)

pub split_down_lem :
    (rounds requested front : ℕ) (b : Buddy) (free : FreeBlocks)
    → IsBuddy b free
    → b.page_frame_order (requested + rounds) ≡ some front
    → (b' : Buddy) × (front' : ℕ) × (split_down rounds requested b ≡ some b')
      × Split requested free b' front'
unfolding split_down
split_down_lem zero requested front b free v e = (
  b,
  front,
  refl,
  record {
    free' = free;
    buddy = v;
    head = ap b.page_frame_order (omega arith) ∙ e;
    same = λ q. (λ x. x, λ x. x);
  },
)
split_down_lem (suc rounds) requested front b free v e =
    let lower = requested + rounds in
    let e' : b.page_frame_order (suc lower) ≡ some front =
      ap b.page_frame_order (omega arith) ∙ e in
    let m = head_elem v.holds (suc lower) front e' in
    let (b', front', run, rest) =
      split_down_lem rounds requested front (split_block lower front b) (halved lower front v m)
        (split_block-IsBuddy lower front v m) (split_block-head lower front v.holds v.apart m) in
    (
      b',
      front',
      split_down_step rounds requested front b e ∙ run,
      record {
        free' = rest.free';
        buddy = rest.buddy;
        head = rest.head;
        same = λ q. (
          λ x. (rest.same q).0 ((halved-IsFree lower front v m q).0 x),
          λ x. (halved-IsFree lower front v m q).1 ((rest.same q).1 x),
        );
      },
    )

-- ===== src/KHeap.antt =====
-- kHeap.c and kHeap.h: the kernel heap, a buddy system of sixteen blocks in one page. A block pointer
-- is the block's index in `kHeapBlocks`, and `none` is the null pointer. A C function that does not
-- return, or reads through a null pointer, is `none`.
pub mod Lists
pub mod Malloc
pub mod Take
pub mod Allocate
pub mod Free
pub mod Join
mod JoinTests
pub mod Init
pub mod Tests
use amaterasu.Base.{
  ℕ, zero, suc, ◌+◌, ◌-◌, ◌*◌, ◌/◌, ◌%◌, ◌^◌, Bool, true, false, ◌||◌, Option, none, some, ◌==◌,
  ltb, leb, if◌then◌else◌, bit_xor, update,
}
use amaterasu.Util.{pow, log2}

abbrev pub k_heap_heap_size : ℕ
k_heap_heap_size = 4096

abbrev pub k_heap_block_size : ℕ
k_heap_block_size = 256

abbrev pub k_heap_block_num : ℕ
k_heap_block_num = k_heap_heap_size / k_heap_block_size

abbrev pub k_heap_max_order : ℕ
k_heap_max_order = 4

-- `struct kHeapBlock`
pub record Block : Type 0 where
  pub order : ℕ
  pub is_allocated : ℕ
  pub id : ℕ
  pub prev : Option ℕ
  pub next : Option ℕ

-- The globals of kHeap.c.
pub record Heap : Type 0 where
  pub start : ℕ
  pub blocks : ℕ → Block
  pub heads : ℕ → Option ℕ

abbrev modify : (ℕ → Block) → Option ℕ → (Block → Block) → ℕ → Block
modify m none f = m
modify m (some p) f = update m p (f (m p))

-- The loop of `kHeapInit` over the blocks.
init_blocks : (rounds i : ℕ) → (ℕ → Block) → ℕ → Block
init_blocks zero i m = m
init_blocks (suc rounds) i m =
    init_blocks rounds (i + 1)
      (update m i (record { order = 0; is_allocated = 0; id = i; prev = none; next = none }))

-- The loop of `kHeapInit` over the list heads.
init_heads : (rounds i : ℕ) → (ℕ → Option ℕ) → ℕ → Option ℕ
init_heads zero i heads = heads
init_heads (suc rounds) i heads = init_heads rounds (i + 1) (update heads i none)

-- `kHeapInit`, given the page that `AllocatePageFrames` returned.
pub k_heap_init : (page : ℕ) → Heap → Heap
k_heap_init page h =
    let m1 = init_blocks k_heap_block_num 0 h.blocks in
    let m2 = update m1 0 (record (m1 0) { order = k_heap_max_order }) in
    record {
      start = page;
      blocks = m2;
      heads = update (init_heads k_heap_max_order 0 h.heads) k_heap_max_order (some 0);
    }

-- `AddTokHeapOrder`
pub add_to_k_heap_order : (order id : ℕ) → Heap → Heap
add_to_k_heap_order order id h =
    let added = h.blocks id in
    let added' = record added {
      order = order;
      is_allocated = 0;
      prev = none;
      next = h.heads order;
    } in
    record h { blocks = update h.blocks id added'; heads = update h.heads order (some id) }

abbrev unlink_head : (order : ℕ) (prev next : Option ℕ) → (ℕ → Option ℕ) → ℕ → Option ℕ
unlink_head order none next heads = update heads order next
unlink_head order (some p) next heads = heads

-- `DeleteFromkHeapOrder`
pub delete_from_k_heap_order : (order id : ℕ) → Heap → Heap
delete_from_k_heap_order order id h =
    let m = h.blocks in
    let prev = (m id).prev in
    let next = (m id).next in
    let m1 = modify m prev (λ f. record f { next = next }) in
    let m2 = modify m1 next (λ f. record f { prev = prev }) in
    let cleared = record (m2 id) { order = 0; is_allocated = 0; prev = none; next = none } in
    record h { blocks = update m2 id cleared; heads = unlink_head order prev next h.heads }

-- The body of the splitting loop of `kmalloc`, at order `suc lower`, on the first block `front`. The
-- source writes `2 ^ lower` as `pow(2, currentOrder - 1)`.
pub split_block : (lower front : ℕ) → Heap → Heap
split_block lower front h =
    let h1 = delete_from_k_heap_order (suc lower) (h.blocks front).id h in
    let buddy_id = (h1.blocks front).id + 2 ^ lower in
    let h2 = add_to_k_heap_order lower buddy_id h1 in
    add_to_k_heap_order lower (h2.blocks front).id h2

-- `while (currentOrder > requestedOrder)`: `rounds` is `currentOrder - requestedOrder`.
pub split_down : (rounds requested : ℕ) → Heap → Option Heap
split_down zero requested h = some h
split_down (suc rounds) requested h = elim (h.heads (requested + suc rounds)) [
  | none ↦ none
  | some front ↦ split_down rounds requested (split_block (requested + rounds) front h)
]

-- What follows the splitting loop: the first block of the requested order is taken.
pub take_block : (requested : ℕ) → Heap → Option (ℕ × Heap)
take_block requested h = elim (h.heads requested) [
  | none ↦ none
  | some front ↦
      let h1 = delete_from_k_heap_order requested (h.blocks front).id h in
      let block = record (h1.blocks front) { order = requested; is_allocated = 1 } in
      let h2 = record h1 { blocks = update h1.blocks front block } in
      some (h2.start + k_heap_block_size * (h2.blocks front).id, h2)
]

-- The search loop of `kmalloc`: `rounds` orders are left from `requested + above` on.
pub allocate_from : (rounds requested above : ℕ) → Heap → Option (ℕ × Heap)
allocate_from zero requested above h = some (0, h)
allocate_from (suc rounds) requested above h = elim (h.heads (requested + above)) [
  | none ↦ allocate_from rounds requested (above + 1) h
  | some front ↦ elim (split_down above requested h) [
    | none ↦ none
    | some split ↦ take_block requested split
  ]
]

-- `requestedBlockNumber` of `kmalloc`.
abbrev pub requested_block_number : ℕ → ℕ
requested_block_number size =
    if size % k_heap_block_size == 0 then size / k_heap_block_size else size / k_heap_block_size + 1

-- `requestedOrder` of `kmalloc`.
pub requested_order : (blocks : ℕ) → Option ℕ
requested_order blocks = elim (log2 blocks) [
  | none ↦ none
  | some order ↦ elim (pow 2 order) [
    | none ↦ none
    | some size ↦ some (if ltb size blocks then order + 1 else order)
  ]
]

-- `kmalloc`: an address, or 0.
pub kmalloc : (size : ℕ) → Heap → Option (ℕ × Heap)
kmalloc size h =
    if ltb k_heap_heap_size size
    then some (0, h)
    else elim (requested_order (requested_block_number size)) [
      | none ↦ none
      | some order ↦ allocate_from (k_heap_max_order + 1 - order) order 0 h
    ]

-- The joining loop of `kfree`: `rounds` is `KHEAP_MAX_ORDER - order`.
pub join_up : (rounds order id : ℕ) → Heap → Heap
join_up zero order id h = h
join_up (suc rounds) order id h =
    let buddy_id = bit_xor id (2 ^ order) in
    let h1 = delete_from_k_heap_order order id h in
    let h2 = delete_from_k_heap_order order buddy_id h1 in
    let id' = if ltb id buddy_id then id else buddy_id in
    let joined = join_up rounds (order + 1) id' (add_to_k_heap_order (order + 1) id' h2) in
    if (h.blocks buddy_id).is_allocated == 0 then joined else h

-- `kfree`
pub kfree : (addr : ℕ) → Heap → Heap
kfree addr h =
    let id = (addr - h.start) / k_heap_block_size in
    let order = (h.blocks id).order in
    if ltb addr h.start || leb (h.start + k_heap_heap_size) addr
    then h
    else if (h.blocks id).is_allocated == 0
    then h
    else join_up (k_heap_max_order - order) order id (add_to_k_heap_order order id h)

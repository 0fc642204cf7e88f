-- ===== src/KHeap/Tests.antt =====
-- The heap after its initialisation, and a heap whose sixteen blocks are in use.
use amaterasu.Base.{ℕ, ◌-◌, ◌*◌, ◌^◌, ◌≤◌, ◌<◌, ◌≡◌, ◌⊎◌, refl, arith, [], some, none}
use amaterasu.PhysicalMemory.FreeLists.{FreeBlocks}
use amaterasu.Util.{pow, log2}
use amaterasu.KHeap.{
  Heap, k_heap_init, kmalloc, k_heap_max_order, requested_order, allocate_from, split_down,
  split_block, take_block, delete_from_k_heap_order, add_to_k_heap_order, init_blocks, init_heads,
}
use amaterasu.KHeap.Malloc.{IsHeap}
use amaterasu.KHeap.Allocate.{Served, kmalloc_lem}
use amaterasu.KHeap.Free.{InUse}
use amaterasu.KHeap.Init.{initial_free, k_heap_init-IsHeap}

-- Sixteen blocks of the least size, all in use.
abbrev pub full : Heap
full = record {
  start = 4096;
  blocks = λ q. record { order = 0; is_allocated = 1; id = q; prev = none; next = none };
  heads = λ o. none;
}

abbrev none_free : FreeBlocks
none_free o = []

full-IsHeap : IsHeap full none_free
full-IsHeap = record {
  holds = record {
    line = λ o. refl;
    distinct = λ o. tt;
    tagged = λ o x m. ground arith;
    ids = λ x lt. refl;
    no_back = λ x. refl;
  };
  apart = record { aligned = λ o p m. ground arith; apart = λ o p o' p' q m m' w w'. ground arith };
  inside = λ q (o, p, m, w). ground arith;
}

five-InUse : InUse 0 5 full none_free
five-InUse = record {
  marked = (refl, refl);
  small = omega arith;
  aligned = (5, refl);
  inside = omega arith;
  apart = λ q w (o, p, m, w'). ground arith;
}

initial-IsHeap : IsHeap (k_heap_init 4096 full) initial_free
initial-IsHeap = k_heap_init-IsHeap 4096 full (λ o lt. refl) (λ x le. refl)

k_heap_init-IsHeap_example : IsHeap (k_heap_init 8192 full) initial_free
k_heap_init-IsHeap_example = k_heap_init-IsHeap 8192 full (λ o lt. refl) (λ x le. refl)

kmalloc_lem_example :
    let h = k_heap_init 4096 full in
    (order : ℕ) × (600 ≤ 2 ^ order * 256)
    × ((order ≡ 0) ⊎ (2 ^ (order - 1) * 256 < 600))
    × (((kmalloc 600 h ≡ some (0, h))
          × ((o : ℕ) → order ≤ o → o ≤ k_heap_max_order → initial_free o ≡ []))
        ⊎ Served order h initial_free (kmalloc 600 h))
kmalloc_lem_example =
    kmalloc_lem 600 (k_heap_init 4096 full) initial_free (omega arith) (omega arith) initial-IsHeap

-- The heap after the structures of a process are taken, and their addresses.
abbrev given : (size : ℕ) → Heap → Heap
given size h = elim (kmalloc size h) [ none ↦ h | some r ↦ r.1 ]

abbrev pub empty_heap : Heap
empty_heap = k_heap_init 4096 full

abbrev pub heap1 : Heap
heap1 = given 48 empty_heap

abbrev pub heap2 : Heap
heap2 = given 32 heap1

abbrev pub heap3 : Heap
heap3 = given 40 heap2

pub block1 : kmalloc 48 empty_heap ≡ some (4096, heap1)
unfolding kmalloc requested_order pow log2 allocate_from split_down split_block take_block
    delete_from_k_heap_order add_to_k_heap_order k_heap_init init_blocks init_heads
block1 = refl

pub block2 : kmalloc 32 heap1 ≡ some (4352, heap2)
unfolding kmalloc requested_order pow log2 allocate_from split_down split_block take_block
    delete_from_k_heap_order add_to_k_heap_order k_heap_init init_blocks init_heads
block2 = refl

pub block3 : kmalloc 40 heap2 ≡ some (4608, heap3)
unfolding kmalloc requested_order pow log2 allocate_from split_down split_block take_block
    delete_from_k_heap_order add_to_k_heap_order k_heap_init init_blocks init_heads
block3 = refl

-- ===== src/Boot/Memory.antt =====
-- The two allocators after the first steps of `start_kernel`.
use native.Mathlib.Nat.{one-le-pow}
use amaterasu.Base.{
  ℕ, ◌-◌, ◌*◌, ◌/◌, ◌%◌, ◌^◌, ◌≡◌, ◌<◌, ◌≤◌, ◌⊎◌, inl, inr, refl, false, [], none, some, arith,
}
use amaterasu.PhysicalMemory.{
  Buddy, FreeMapInfo, Page, page_bytes, page_frame_max_order, allocate_page_frames,
}
use amaterasu.PhysicalMemory.FreeLists.{FreeBlocks}
use amaterasu.PhysicalMemory.Blocks.{IsFree}
use amaterasu.PhysicalMemory.Split.{IsBuddy}
use amaterasu.PhysicalMemory.Frames.{IsLow, Taken, served_frame}
use amaterasu.PhysicalMemory.Allocate.{allocate_page_frames_lem}
use amaterasu.Util.{u64}
use amaterasu.PhysicalMemory.Init.{reserved, physical_memory_management_init}
use amaterasu.PhysicalMemory.Init.Partition.{Ends, buddy_system_init_lem}
use amaterasu.KHeap.{Heap, k_heap_init}
use amaterasu.KHeap.Malloc.{IsHeap}
use amaterasu.KHeap.Init.{initial_free, k_heap_init-IsHeap, k_heap_init-start}
use amaterasu.Boot.{memory_init}

-- One frame, or none because no block is free.
one_frame :
    (b : Buddy) (free : FreeBlocks)
    → IsBuddy b free
    → IsLow free
    → ((allocate_page_frames 1 b ≡ some (0, b))
        × ((o : ℕ) → o ≤ page_frame_max_order → free o ≡ []))
      ⊎ ((f : ℕ) × (b1 : Buddy) × (allocate_page_frames 1 b ≡ some (f, b1)) × Taken free f b1)
one_frame b free v low =
    let (order, enough, least, outcome) = allocate_page_frames_lem 1 b free (omega arith) v in
    let single : order ≡ 0 = elim least [
      | inl z ↦ z
      | inr lt ↦ absurd (omega (arith, one-le-pow (order - 1) 2))
    ] in
    elim outcome [
      | inl (refused, none_free) ↦ inl (refused, λ o hi. none_free o (omega (arith, single)) hi)
      | inr served ↦
          let (p, b1, run, granted) = served in
          inr (
            p * 2 ^ 12 % u64,
            b1,
            run,
            served_frame order (p * 2 ^ 12 % u64) b b1 free least low run served,
          )
    ]

-- What the first steps leave: an allocator with free blocks that do not overlap and hold no reserved
-- page, and a heap that is one free block. The heap lies in a page frame that the map
-- does not reserve and that is not free any more, or at 0, where no block was free.
pub record IsBooted (info : FreeMapInfo) (map : ℕ → Page) (b' : Buddy) (h' : Heap)
    (free : FreeBlocks) : Type 0 where
  pub buddy : IsBuddy b' free
  pub heap : IsHeap h' initial_free
  pub unreserved : (r : ℕ) → IsFree free r → (r < info.size / page_bytes) × (reserved map r ≡ false)
  pub place :
      ((h'.start ≡ 0) × ((o : ℕ) → o ≤ page_frame_max_order → free o ≡ []))
      ⊎ ((h'.start % 4096 ≡ 0)
          × (h'.start / 4096 < info.size / page_bytes)
          × (reserved map (h'.start / 4096) ≡ false)
          × (¬ IsFree free (h'.start / 4096)))

-- On a memory map whose last page is not reserved or behind which a reserved entry reads, with at most
-- 2 ^ 28 pages, where nothing else uses the word behind `pageFrameOrder` that serves as the list head of
-- order 10, and with the words and links past the list heads empty, the first steps of the kernel return
-- and leave the two allocators so.
pub memory_init-IsBooted :
    (info : FreeMapInfo) (map : ℕ → Page) (b : Buddy) (h : Heap)
    → page_frame_max_order < b.list_heads
    → ((o : ℕ) → page_frame_max_order < o → b.page_frame_order o ≡ none)
    → Ends map (info.size / page_bytes)
    → info.size / page_bytes ≤ 2 ^ 28
    → ((o : ℕ) → 4 < o → h.heads o ≡ none)
    → ((x : ℕ) → 16 ≤ x → (h.blocks x).prev ≡ none)
    → (b' : Buddy) × (h' : Heap) × (free : FreeBlocks) × (memory_init info map b h ≡ some (b', h'))
      × IsBooted info map b' h' free
unfolding memory_init physical_memory_management_init
memory_init-IsBooted info map b h own no_heads ends low no_heap_heads no_prev =
    let given : Buddy = record b { info = info; memory_map = map } in
    let (b1, free, run, v, free_iff) = buddy_system_init_lem given own no_heads ends in
    let low_free : IsLow free = λ r w. omega (arith, ((free_iff r).0 w).0) in
    elim (one_frame b1 free v low_free) [
      | inl (refused, none_free) ↦ (
        b1,
        k_heap_init 0 h,
        free,
        rw (run, memory_init) (rw (refused, memory_init) refl),
        record {
          buddy = v;
          heap = k_heap_init-IsHeap 0 h no_heap_heads no_prev;
          unreserved = λ r w. (free_iff r).0 w;
          place = inl (k_heap_init-start 0 h, none_free);
        },
      )
      | inr (f, b2, allocated, t) ↦ (
        b2,
        k_heap_init f h,
        t.free1,
        rw (run, memory_init) (rw (allocated, memory_init) refl),
        record {
          buddy = t.buddy;
          heap = k_heap_init-IsHeap f h no_heap_heads no_prev;
          unreserved = λ r w. (free_iff r).0 (t.kept r w);
          place = rw (k_heap_init-start f h) (
              inr (
                t.frame.0,
                ((free_iff (f / 4096)).0 t.was).0,
                ((free_iff (f / 4096)).0 t.was).1,
                t.gone,
              ));
        },
      )
    ]

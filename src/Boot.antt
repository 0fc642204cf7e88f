-- ===== src/Boot.antt =====
-- main.c: the first steps of `start_kernel`, in their order: the page frames, the heap in one of them, and
-- the first process.
pub mod Memory
pub mod Start
pub mod Interrupts
pub mod Devices
mod Tests
use amaterasu.Base.{ℕ, Option, none, some}
use amaterasu.PhysicalMemory.{Buddy, FreeMapInfo, Page, allocate_page_frames}
use amaterasu.PhysicalMemory.Init.{physical_memory_management_init}
use amaterasu.KHeap.{Heap, k_heap_init}

-- `PhysicalMemoryManagementInit` and `kHeapInit`, with its call of `AllocatePageFrames`.
pub memory_init : (info : FreeMapInfo) (map : ℕ → Page) → Buddy → Heap → Option (Buddy × Heap)
memory_init info map b h = elim (physical_memory_management_init info map b) [
  | none ↦ none
  | some b1 ↦ elim (allocate_page_frames 1 b1) [
    | none ↦ none
    | some (page, b2) ↦ some (b2, k_heap_init page h)
  ]
]

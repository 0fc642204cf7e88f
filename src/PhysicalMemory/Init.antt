-- ===== src/PhysicalMemory/Init.antt =====
-- `BuddySystemInit` and `PhysicalMemoryManagementInit` of physicalMemory.c. `none` means that a loop
-- on fuel ran out, or that `log2` or `pow` did not return.
pub mod Streaks
pub mod Partition
use amaterasu.Base.{
  ℕ, zero, suc, ◌+◌, ◌-◌, ◌*◌, ◌/◌, ◌%◌, ◌^◌, Bool, true, false, ◌&&◌, ◌||◌, Option, none, some,
  ◌==◌, ltb, if◌then◌else◌, bit_and, update,
}
use amaterasu.Util.{pow, log2}
use amaterasu.PhysicalMemory.{
  Buddy, FreeMapInfo, Page, has_flag, page_reserved, page_top, page_frame_max_order, total_pages,
  set_flag, add_to_page_frame_order, owns,
}

-- The loop that clears the list heads.
pub clear_orders : (rounds order : ℕ) → (ℕ → Option ℕ) → ℕ → Option ℕ
clear_orders zero order heads = heads
clear_orders (suc rounds) order heads = clear_orders rounds (order + 1) (update heads order none)

abbrev pub reserved : (ℕ → Page) → ℕ → Bool
reserved m page = has_flag page_reserved (m page)

-- The loop over reserved pages. `rounds` is `totalPageNumber - start`, so that the loop has ended where
-- no round is left.
pub skip_reserved : (rounds start : ℕ) → (ℕ → Page) → ℕ
skip_reserved zero start m = start
skip_reserved (suc rounds) start m =
    let rest = skip_reserved rounds (start + 1) m in if reserved m start then rest else start

-- The loop that finds the largest order of a block that can begin at `start`: `rounds` is
-- `PAGE_FRAME_MAX_ORDER + 1 - i`.
pub max_order_from : (rounds i start : ℕ) → ℕ
max_order_from zero i start = page_frame_max_order
max_order_from (suc rounds) i start =
    let rest = max_order_from rounds (i + 1) start in if bit_and start (2 ^ i) == 0 then rest else i

-- The loop that finds the end of the streak of pages that are not reserved: `rounds` is
-- `maxPageCount - (end - start)`.
pub streak_end : (rounds end total : ℕ) → (ℕ → Page) → ℕ
streak_end zero end total m = end
streak_end (suc rounds) end total m =
    let rest = streak_end rounds (end + 1) total m in
    if end == total then end else if reserved m end then end else rest

-- The body of the main loop from the page `start` on, which is not reserved: the next `start`.
pub place_block : (start : ℕ) → Buddy → Option (ℕ × Buddy)
place_block start b =
    let max_order = max_order_from (page_frame_max_order + 1) 0 start in
    elim (pow 2 max_order) [
      | none ↦ none
      | some max_page_count ↦
          let end = streak_end (max_page_count - 1) (start + 1) (total_pages b) b.memory_map in
          elim (log2 (end - start)) [
            | none ↦ none
            | some order ↦ elim (pow 2 order) [
              | none ↦ none
              | some size ↦
                  some
                    (start + size, add_to_page_frame_order order start (set_flag page_top start b))
            ]
          ]
    ]

-- The main loop, on fuel.
pub place_blocks : (fuel start : ℕ) → Buddy → Option Buddy
place_blocks zero start b = none
place_blocks (suc fuel) start b =
    let start' = skip_reserved (total_pages b - start) start b.memory_map in
    if ltb start (total_pages b)
    then if reserved b.memory_map start'
      then some b
      else elim (place_block start' b) [ none ↦ none | some (next, b') ↦ place_blocks fuel next b' ]
    else some b

-- `BuddySystemInit`. Every round of the main loop places a block, so one round for each page and one
-- more see the end. The loop that clears the list heads uses that of every order up to 10.
pub buddy_system_init : Buddy → Option Buddy
buddy_system_init b =
    let cleared = clear_orders (page_frame_max_order + 1) 0 b.page_frame_order in
    let placed = place_blocks (total_pages b + 1) 0 (record b { page_frame_order = cleared }) in
    if owns page_frame_max_order b then placed else none

-- `PhysicalMemoryManagementInit`; `map` is the memory from `freeMapInfo.Base` on.
unfoldable pub physical_memory_management_init :
    (info : FreeMapInfo) (map : ℕ → Page) → Buddy → Option Buddy
physical_memory_management_init info map b =
    buddy_system_init (record b { info = info; memory_map = map })

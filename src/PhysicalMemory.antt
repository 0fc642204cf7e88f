-- ===== src/PhysicalMemory.antt =====
-- physicalMemory.c: the buddy allocator of page frames. A page pointer is the page's index in
-- `memoryMap`, and `none` is the null pointer. A C function that does not return, or reads through
-- a null pointer, is `none`.
pub mod FreeLists
pub mod Blocks
pub mod Returned
pub mod Joined
pub mod Merge
pub mod Free
mod FreeTests
pub mod Split
pub mod Allocate
pub mod Init
pub mod Frames
pub mod Tests
use amaterasu.Base.{
  ℕ, zero, suc, ◌+◌, ◌-◌, ◌*◌, ◌/◌, ◌%◌, ◌^◌, Bool, true, false, not, ◌&&◌, ◌||◌, Option, none,
  some, ◌==◌, ltb, leb, if◌then◌else◌, bit_and, bit_or, bit_xor, update,
}
use amaterasu.Util.{u64, pow, log2}

-- `struct PhysicalMemoryFreeMapInfo`
pub record FreeMapInfo : Type 0 where
  pub base : ℕ
  pub size : ℕ

-- `struct Page`
pub record Page : Type 0 where
  pub flags : ℕ
  pub private_order : ℕ
  pub prev : Option ℕ
  pub next : Option ℕ

abbrev pub page_allocated : ℕ
page_allocated = 1

abbrev pub page_reserved : ℕ
page_reserved = 2

abbrev pub page_top : ℕ
page_top = 4

abbrev pub page_frame_max_order : ℕ
page_frame_max_order = 10

-- `sizeof(struct Page)`: a byte padded to eight, and three words.
abbrev pub page_bytes : ℕ
page_bytes = 32

-- The globals of physicalMemory.c. `page_frame_order` is the words from the address of the array on. The
-- C array has ten cells, and the code uses the indices 10 and 11 too; `list_heads` is how many of these
-- words nothing but the allocator uses at the time: those of the array, and what is free behind it.
pub record Buddy : Type 0 where
  pub info : FreeMapInfo
  pub memory_map : ℕ → Page
  pub page_frame_order : ℕ → Option ℕ
  pub list_heads : ℕ

-- The list head of this order is the allocator's. A function that uses any other is taken to fail.
abbrev pub owns : (order : ℕ) → Buddy → Bool
owns order b = ltb order b.list_heads

abbrev pub total_pages : Buddy → ℕ
total_pages b = b.info.size / page_bytes

-- `page->flags & mask` as a condition
abbrev pub has_flag : ℕ → Page → Bool
has_flag mask page = not (bit_and page.flags mask == 0)

-- An assignment through a page pointer, a fault-free no-op at null.
abbrev pub modify : (ℕ → Page) → Option ℕ → (Page → Page) → ℕ → Page
modify m none f = m
modify m (some p) f = update m p (f (m p))

-- `AddToPageFrameOrder`
pub add_to_page_frame_order : (order page : ℕ) → Buddy → Buddy
add_to_page_frame_order order page b =
    let front = b.page_frame_order order in
    let m = b.memory_map in
    let m1 = update m page (record (m page) { private_order = order; prev = none; next = front }) in
    let m2 = modify m1 front (λ f. record f { prev = some page }) in
    record b { memory_map = m2; page_frame_order = update b.page_frame_order order (some page) }

-- The head of a list moves when the first page is taken out of it.
abbrev unlink_head : (order : ℕ) (prev next : Option ℕ) → (ℕ → Option ℕ) → ℕ → Option ℕ
unlink_head order none next heads = update heads order next
unlink_head order (some p) next heads = heads

-- `DeleteFromPageFrameOrder`
pub delete_from_page_frame_order : (order page : ℕ) → Buddy → Buddy
delete_from_page_frame_order order page b =
    let m = b.memory_map in
    let prev = (m page).prev in
    let next = (m page).next in
    let heads = unlink_head order prev next b.page_frame_order in
    let m1 = modify m prev (λ f. record f { next = next }) in
    let m2 = modify m1 next (λ f. record f { prev = prev }) in
    let m3 = update m2 page (record (m2 page) { prev = none; next = none }) in
    record b { memory_map = m3; page_frame_order = heads }

-- `page->flags |= mask`
abbrev pub set_flag : (mask page : ℕ) → Buddy → Buddy
set_flag mask page b =
    let m = b.memory_map in
    record b { memory_map = update m page (record (m page) { flags = bit_or (m page).flags mask }) }

-- `page->flags ^= mask`
abbrev pub toggle_flag : (mask page : ℕ) → Buddy → Buddy
toggle_flag mask page b =
    let m = b.memory_map in
    record b {
      memory_map = update m page (record (m page) { flags = bit_xor (m page).flags mask });
    }

-- The body of the splitting loop of `AllocatePageFrames`, at order `suc lower`, on the first page
-- of that order.
pub split_block : (lower front : ℕ) → Buddy → Buddy
split_block lower front b =
    let b1 = delete_from_page_frame_order (suc lower) front b in
    let buddy = bit_xor front (2 ^ lower) in
    let b2 = set_flag page_top buddy (set_flag page_top front b1) in
    add_to_page_frame_order lower front (add_to_page_frame_order lower buddy b2)

-- `while (currentOrder > requestedOrder)`: `rounds` is `currentOrder - requestedOrder`.
pub split_down : (rounds requested : ℕ) → Buddy → Option Buddy
split_down zero requested b = some b
split_down (suc rounds) requested b = elim (b.page_frame_order (requested + suc rounds)) [
  | none ↦ none
  | some front ↦ split_down rounds requested (split_block (requested + rounds) front b)
]

-- What follows the splitting loop.
pub take_block : (requested : ℕ) → Buddy → Option (ℕ × Buddy)
take_block requested b = elim (b.page_frame_order requested) [
  | none ↦ none
  | some allocated ↦ some (
    allocated * 2 ^ 12 % u64,
    delete_from_page_frame_order requested allocated (set_flag page_allocated allocated b),
  )
]

-- The search loop of `AllocatePageFrames`: `rounds` orders are left from `requested + above` on.
pub allocate_from : (rounds requested above : ℕ) → Buddy → Option (ℕ × Buddy)
allocate_from zero requested above b = some (0, b)
allocate_from (suc rounds) requested above b =
    let found = elim (b.page_frame_order (requested + above)) as (λ _. Option (ℕ × Buddy)) [
      | none ↦ allocate_from rounds requested (above + 1) b
      | some front ↦ elim (split_down above requested b) [
        | none ↦ none
        | some split ↦ take_block requested split
      ]
    ] in
    if owns (requested + above) b then found else none

-- The order that `AllocatePageFrames` asks for: the least one that holds the pages.
pub requested_order : ℕ → Option ℕ
requested_order pages = elim (log2 pages) [
  | none ↦ none
  | some order ↦ elim (pow 2 order) [
    | none ↦ none
    | some size ↦ some (if ltb size pages then order + 1 else order)
  ]
]

-- An argument passed as an `int` and used as a 64-bit number: its low 32 bits, with their sign extended.
abbrev pub int_argument : ℕ → ℕ
int_argument n = let low = n % 2 ^ 32 in if ltb low (2 ^ 31) then low else low + (2 ^ 64 - 2 ^ 32)

-- `AllocatePageFrames`, whose parameter is an `int`.
pub allocate_page_frames : (requested_page_number : ℕ) → Buddy → Option (ℕ × Buddy)
allocate_page_frames requested_page_number b =
    elim (requested_order (int_argument requested_page_number)) [
      | none ↦ none
      | some order ↦
          if ltb page_frame_max_order order
          then some (0, b)
          else allocate_from (page_frame_max_order + 1 - order) order 0 b
    ]

-- The loop of `FreePageFrames` that finds the order of the block, on fuel.
pub freed_order : (fuel order page : ℕ) → Buddy → Option ℕ
freed_order zero order page b = none
freed_order (suc fuel) order page b =
    let rest = freed_order fuel (order + 1) page b in
    if has_flag page_top (b.memory_map (page + 2 ^ order)) then some order else rest

-- Whether `FreePageFrames` joins a buddy at this order.
pub can_join : (order buddy : ℕ) → Buddy → Bool
can_join order buddy b =
    let page = b.memory_map buddy in
    page.private_order == order
    && has_flag page_top page
    && not (has_flag page_allocated page)
    && not (has_flag page_reserved page)

-- The joining loop of `FreePageFrames`: `rounds` orders are left from `order` on.
pub join_up : (rounds order page : ℕ) → Buddy → Option Buddy
join_up zero order page b = some b
join_up (suc rounds) order page b =
    let buddy = bit_xor page (2 ^ order) in
    let b1 = delete_from_page_frame_order order page b in
    let b2 = delete_from_page_frame_order order buddy b1 in
    let b3 = add_to_page_frame_order (order + 1) page b2 in
    let joined = join_up rounds (order + 1) page b3 in
    if leb (total_pages b) buddy
    then some b
    else if can_join order buddy b
    then (if owns (order + 1) b then joined else none)
    else some b

-- `FreePageFrames`. The shift of `1` by the order is defined up to order 30.
pub free_page_frames : (address : ℕ) → Buddy → Option Buddy
free_page_frames address b =
    let page = address / 2 ^ 12 in
    elim (freed_order 31 0 page b) [
      | none ↦ none
      | some order ↦
          let b1 = toggle_flag page_allocated page (add_to_page_frame_order order page b) in
          let joined = join_up (page_frame_max_order + 1 - order) order page b1 in
          if owns order b then joined else none
    ]

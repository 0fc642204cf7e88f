-- ===== src/Paging.antt =====
-- paging.c and paging.h: page table entries as 64-bit words, and the walk through the tables.
pub mod Walk
pub mod Fault
mod Tests
use amaterasu.Base.{
  ℕ, zero, suc, ◌+◌, ◌-◌, ◌*◌, ◌/◌, ◌%◌, ◌^◌, ◌&&◌, Bool, true, false, not, List, [], ◌∷◌, leb, ltb,
  ◌==◌, if◌then◌else◌, bit_and, Option, none, some,
}
use amaterasu.Base.Bits.Fields.{get}

abbrev pub l4_pt_index : ℕ → ℕ
l4_pt_index address = bit_and (address / 2 ^ 39) 0x1ff

abbrev pub l3_pt_index : ℕ → ℕ
l3_pt_index address = bit_and (address / 2 ^ 30) 0x1ff

abbrev pub l2_pt_index : ℕ → ℕ
l2_pt_index address = bit_and (address / 2 ^ 21) 0x1ff

abbrev pub l1_pt_index : ℕ → ℕ
l1_pt_index address = bit_and (address / 2 ^ 12) 0x1ff

-- Fields that `L4PTEntry`, `L3PTEntry`, `L2PTEntry` and the two entries of large pages share.
abbrev pub present : ℕ → ℕ
present entry = get 0 1 entry

abbrev pub page_size : ℕ → ℕ
page_size entry = get 7 1 entry

-- `L3PTPhysAddr`, `L2PTPhysAddr`, `L1PTPhysAddr`
abbrev pub table_phys_addr : ℕ → ℕ
table_phys_addr entry = get 12 40 entry

-- `PageFramePhysAddr` of `L3PTEntry1GB`, `L2PTEntry2MB` and `L1PTEntry`
abbrev pub page_frame_1gb : ℕ → ℕ
page_frame_1gb entry = get 30 22 entry

abbrev pub page_frame_2mb : ℕ → ℕ
page_frame_2mb entry = get 21 31 entry

abbrev pub page_frame_4kb : ℕ → ℕ
page_frame_4kb entry = get 12 40 entry

-- Physical memory as 64-bit words, by the address of each.
abbrev pub Memory : Type 0
Memory = ℕ → ℕ

-- What `CalcPhyAddr` finds. In the first two cases it prints a message, with the level of the table,
-- and returns 0.
pub data Translation : Type 0 where
  not_canonical : Translation
  not_present : (level : ℕ) → Translation
  physical : (address : ℕ) → Translation

pub returned : Translation → ℕ
returned not_canonical = 0
returned (not_present level) = 0
returned (physical address) = address

-- `bits` is the width in which the compiler shifts a 40-bit field: 40 for gcc, at most 64.
module _ (bits : ℕ) (memory : Memory) where
  -- The entry of a table, and the table that an entry leads to.
  abbrev pub entry_at : (base index : ℕ) → ℕ
  entry_at base index = memory (base + 8 * index)

  abbrev pub table_of : (entry : ℕ) → ℕ
  table_of entry = table_phys_addr entry * 2 ^ 12 % 2 ^ bits

  -- The 4KB page, of the level 1 table.
  pub calc_l1 : (linear_addr l2_entry : ℕ) → Translation
  calc_l1 linear_addr l2_entry =
      let l1_entry = entry_at (table_of l2_entry) (l1_pt_index linear_addr) in
      if present l1_entry == 1
      then physical (page_frame_4kb l1_entry * 2 ^ 12 + bit_and linear_addr 0xfff)
      else not_present 1

  -- The 2MB page, or the level 1 table.
  pub calc_l2 : (linear_addr l3_entry : ℕ) → Translation
  calc_l2 linear_addr l3_entry =
      let l2_entry = entry_at (table_of l3_entry) (l2_pt_index linear_addr) in
      if present l2_entry == 1
      then (if page_size l2_entry == 1
          then physical (page_frame_2mb l2_entry * 2 ^ 21 + bit_and linear_addr 0x1fffff)
          else calc_l1 linear_addr l2_entry)
      else not_present 2

  -- The 1GB page, or the level 2 table.
  pub calc_l3 : (linear_addr l4_entry : ℕ) → Translation
  calc_l3 linear_addr l4_entry =
      let l3_entry = entry_at (table_of l4_entry) (l3_pt_index linear_addr) in
      if present l3_entry == 1
      then (if page_size l3_entry == 1
          then physical (page_frame_1gb l3_entry * 2 ^ 30 + bit_and linear_addr 0x3fff_ffff)
          else calc_l2 linear_addr l3_entry)
      else not_present 3

  -- `CalcPhyAddr`
  pub calc_phy_addr : (linear_addr cr3 : ℕ) → Translation
  calc_phy_addr linear_addr cr3 =
      let l4_entry = entry_at cr3 (l4_pt_index linear_addr) in
      if ltb 0x7fff_ffff_ffff linear_addr && ltb linear_addr 0xffff_8000_0000_0000
      then not_canonical
      else if present l4_entry == 1
      then calc_l3 linear_addr l4_entry
      else not_present 4

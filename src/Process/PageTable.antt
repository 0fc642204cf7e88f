-- ===== src/Process/PageTable.antt =====
-- `SetUpPageTable` of process.c: the page tables of a new process, in frames of the buddy allocator.
pub mod Fill
pub mod Entries
pub mod Space
pub mod Built
mod Tests
use amaterasu.Base.{
  ℕ, zero, suc, ◌+◌, ◌-◌, ◌*◌, ◌/◌, ◌%◌, ◌^◌, ltb, ◌==◌, if◌then◌else◌, update, List, [], ◌∷◌,
  Option, none, some,
}
use amaterasu.Base.Bits.Fields.{put, put_all}
use amaterasu.Util.{u64}
use amaterasu.PhysicalMemory.{Buddy, allocate_page_frames}
use amaterasu.Paging.{Memory}

-- The assignments to an `L4PTEntry`, `L3PTEntry` or `L2PTEntry` that is present.
abbrev pub table_fields : (user phys_addr : ℕ) → List (ℕ × ℕ × ℕ)
table_fields user phys_addr =
    (0, 1, 1)
    ∷ (1, 1, 1)
    ∷ (2, 1, user)
    ∷ (3, 1, 0)
    ∷ (4, 1, 0)
    ∷ (5, 1, 0)
    ∷ (6, 1, 0)
    ∷ (7, 1, 0)
    ∷ (8, 4, 0)
    ∷ (12, 40, phys_addr)
    ∷ (52, 11, 0)
    ∷ (63, 1, 0)
    ∷ []

-- The assignments to an `L3PTEntry1GB` that is present.
abbrev pub huge_fields : (phys_addr : ℕ) → List (ℕ × ℕ × ℕ)
huge_fields phys_addr =
    (0, 1, 1)
    ∷ (1, 1, 1)
    ∷ (2, 1, 0)
    ∷ (3, 1, 0)
    ∷ (4, 1, 0)
    ∷ (5, 1, 0)
    ∷ (6, 1, 0)
    ∷ (7, 1, 1)
    ∷ (8, 1, 0)
    ∷ (9, 3, 0)
    ∷ (12, 1, 0)
    ∷ (13, 17, 0)
    ∷ (30, 22, phys_addr)
    ∷ (52, 7, 0)
    ∷ (59, 4, 0)
    ∷ (63, 1, 0)
    ∷ []

-- The assignments to an `L1PTEntry` that is present.
abbrev pub page_fields : (phys_addr : ℕ) → List (ℕ × ℕ × ℕ)
page_fields phys_addr =
    (0, 1, 1)
    ∷ (1, 1, 1)
    ∷ (2, 1, 1)
    ∷ (3, 1, 0)
    ∷ (4, 1, 0)
    ∷ (5, 1, 0)
    ∷ (6, 1, 0)
    ∷ (7, 1, 0)
    ∷ (8, 1, 0)
    ∷ (9, 3, 0)
    ∷ (12, 40, phys_addr)
    ∷ (52, 7, 0)
    ∷ (59, 4, 0)
    ∷ (63, 1, 0)
    ∷ []

-- `Present = 0`; the other fields stay.
abbrev pub absent : ℕ → ℕ
absent w = put 0 1 0 w

-- The bodies of the five loops: the entry at an index, from what the memory held.
pub lower_entry : (i w : ℕ) → ℕ
lower_entry i w = if ltb i 5 then put_all (huge_fields (i * 0x4000_0000 / 2 ^ 30)) w else absent w

pub l1_entry : (text_segment_page_frame process_stack_base i w : ℕ) → ℕ
l1_entry text_segment_page_frame process_stack_base i w =
    if i == 510
    then put_all (page_fields (text_segment_page_frame / 2 ^ 12)) w
    else if i == 511
    then put_all (page_fields ((process_stack_base + 8 + u64 - 4096) % u64 / 2 ^ 12)) w
    else absent w

pub l2_entry : (l1_base i w : ℕ) → ℕ
l2_entry l1_base i w = if i == 511 then put_all (table_fields 1 (l1_base / 2 ^ 12)) w else absent w

pub l3_entry : (l2_base i w : ℕ) → ℕ
l3_entry l2_base i w = if i == 511 then put_all (table_fields 1 (l2_base / 2 ^ 12)) w else absent w

pub l4_entry : (lower_base l3_base i w : ℕ) → ℕ
l4_entry lower_base l3_base i w =
    if i == 0
    then put_all (table_fields 0 (lower_base / 2 ^ 12)) w
    else if i == 511
    then put_all (table_fields 1 (l3_base / 2 ^ 12)) w
    else absent w

-- A loop over the entries of a table.
pub fill_from : (rounds i base : ℕ) → (entry : ℕ → ℕ → ℕ) → Memory → Memory
fill_from zero i base entry memory = memory
fill_from (suc rounds) i base entry memory =
    fill_from rounds (i + 1) base entry
      (update memory (base + 8 * i) (entry i (memory (base + 8 * i))))

-- `AllocatePageFrames(1)`, with the return of 0 if there is no frame.
pub with_frame :
    Buddy → Memory → (ℕ → Buddy → Option (ℕ × Buddy × Memory)) → Option (ℕ × Buddy × Memory)
with_frame b memory rest = elim (allocate_page_frames 1 b) [
  | none ↦ none
  | some (frame, b') ↦ if frame == 0 then some (0, b', memory) else rest frame b'
]

-- `SetUpPageTable`: the address of the level 4 table, or 0.
pub set_up_page_table :
    (text_segment_page_frame process_stack_base : ℕ) → Buddy → Memory → Option (ℕ × Buddy × Memory)
set_up_page_table text_segment_page_frame process_stack_base b memory =
    with_frame b memory λ lower b1.
      let m1 = fill_from 512 0 lower lower_entry memory in
      with_frame b1 m1 λ l1 b2.
        let m2 = fill_from 512 0 l1 (l1_entry text_segment_page_frame process_stack_base) m1 in
        with_frame b2 m2 λ l2 b3.
          let m3 = fill_from 512 0 l2 (l2_entry l1) m2 in
          with_frame b3 m3 λ l3 b4.
            let m4 = fill_from 512 0 l3 (l3_entry l2) m3 in
            with_frame b4 m4 λ l4 b5. some (l4, b5, fill_from 512 0 l4 (l4_entry lower l3) m4)

-- ===== src/Process/PageTable/Tests.antt =====
-- The page tables of a process in the five frames that an allocator with eight free pages gives out.
use amaterasu.Base.{ℕ, ◌+◌, ◌-◌, ◌≡◌, ◌<◌, refl, arith, some}
use amaterasu.Util.{u64}
use amaterasu.PhysicalMemory.Tests.{
  eight_pages, after1, after2, after3, after4, after5, frame1, frame2, frame3, frame4, frame5,
}
use amaterasu.Paging.{Memory, calc_phy_addr}
use amaterasu.Paging.Walk.{Tables, address_space, calc_phy_addr-address_space}
use amaterasu.Process.PageTable.{set_up_page_table}
use amaterasu.Process.PageTable.Space.{Frames, built, built-Tables, set_up_page_table-address_space}

abbrev zeros : Memory
zeros a = 0

-- The text segment at 0x10000 and the user stack at 0x11000.
frames : Frames 32768 36864 40960 45056 49152 0x10000 0x11000
frames = record {
  frames = (
    (refl, omega arith),
    (refl, omega arith),
    (refl, omega arith),
    (refl, omega arith),
    (refl, omega arith),
  );
  lower_apart = (λ e. omega arith, λ e. omega arith, λ e. omega arith, λ e. omega arith);
  l1_apart = (λ e. omega arith, λ e. omega arith, λ e. omega arith);
  l2_apart = (λ e. omega arith, λ e. omega arith);
  l3_apart = λ e. omega arith;
  text_page = (refl, omega arith);
  stack_page = (refl, omega arith);
}

set_up_page_table-address_space_example :
    (memory' : Memory) × (set_up_page_table 0x10000 (0x11000 + 4096 - 8) eight_pages zeros
      ≡ some (49152, after5, memory'))
    × ((a : ℕ) → a < u64 → calc_phy_addr 40 memory' a 49152 ≡ address_space 0x10000 0x11000 a)
set_up_page_table-address_space_example =
    set_up_page_table-address_space 40 32768 36864 40960 45056 49152 0x10000 0x11000 eight_pages
      after1 after2 after3 after4 after5 zeros (omega arith) frames frame1 frame2 frame3 frame4
      frame5 (omega arith, omega arith, omega arith, omega arith, omega arith)

abbrev tables : Memory
tables = built 40 32768 36864 40960 45056 49152 0x10000 0x11000 (0x11000 + 4096 - 8) zeros

tables-Tables : Tables 40 tables 32768 36864 40960 45056 49152 0x10000 0x11000
tables-Tables =
    built-Tables 40 32768 36864 40960 45056 49152 0x10000 0x11000 (0x11000 + 4096 - 8) zeros
      (omega arith) refl frames

calc_phy_addr-address_space_example :
    calc_phy_addr 40 tables 0xfffffffffffff123 49152
    ≡ address_space 0x10000 0x11000 0xfffffffffffff123
calc_phy_addr-address_space_example =
    calc_phy_addr-address_space tables-Tables 0xfffffffffffff123 (omega arith)

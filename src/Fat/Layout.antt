-- ===== src/Fat/Layout.antt =====
-- What `ParseBootRecord` makes of a boot record.
use amaterasu.Base.{ℕ, ◌+◌, ◌*◌, ◌/◌, ◌≤◌, ◌<◌, ◌≡◌, arith}
use amaterasu.Graphic.{u32}
use amaterasu.Fat.{Partition, parse_boot_record, fat_starts, word16}

-- The regions of a partition, one behind the other: the reserved sectors, the tables, the root directory
-- with room for all its entries and less than a sector more, and the data.
pub record IsLaidOut (p : Partition) : Type 0 where
  pub first_fat : p.fats 0 ≡ p.start_lba + p.numbers_of_reserved_sectors
  pub second_fat : p.fats 1 ≡ p.fats 0 + p.sectors_of_fat
  pub root_dir : p.root_dir_start_lba ≡ p.fats 0 + p.sectors_of_fat * p.numbers_of_fats
  pub data_region : p.data_start_lba ≡ p.root_dir_start_lba + p.sectors_of_root_dir
  pub room :
      (p.numbers_of_root_dir_entries * 32 ≤ p.sectors_of_root_dir * 512)
      × (p.sectors_of_root_dir * 512 < p.numbers_of_root_dir_entries * 32 + 512)

-- Where the data region and the second table begin below sector 2 ^ 32, `ParseBootRecord` lays the
-- regions out one behind the other: the two tables behind the reserved sectors, the root directory
-- behind all tables, with room for its entries, and the data behind it.
pub parse_boot_record-IsLaidOut :
    (memory : ℕ → ℕ) (br start_lba : ℕ) (p : Partition)
    → start_lba
        + word16 memory (br + 0x0e)
        + word16 memory (br + 0x16) * memory (br + 0x10)
        + (word16 memory (br + 0x11) * 32 + 511) / 512
      < u32
    → start_lba + word16 memory (br + 0x0e) + word16 memory (br + 0x16) < u32
    → IsLaidOut (parse_boot_record memory br start_lba p)
unfolding parse_boot_record fat_starts
parse_boot_record-IsLaidOut memory br start_lba p fits fits' = record {
  first_fat = omega arith;
  second_fat = omega arith;
  root_dir = omega arith;
  data_region = omega arith;
  room = (omega arith, omega arith);
}

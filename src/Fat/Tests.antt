-- ===== src/Fat/Tests.antt =====
-- A boot record and a directory at concrete bytes.
use amaterasu.Base.{ℕ, ◌+◌, ◌≤◌, ◌<◌, ◌≡◌, ◌⊎◌, arith, none, some}
use amaterasu.Fat.{Partition, parse_boot_record, File, search_entries}
use amaterasu.Fat.Layout.{IsLaidOut, parse_boot_record-IsLaidOut}
use amaterasu.Fat.Directory.{NoneNamed, IsNamed, IsFile, search_entries_lem}

abbrev ones : ℕ → ℕ
ones a = 1

abbrev no_partition : Partition
no_partition = record {
  start_lba = 0;
  numbers_of_sectors = 0;
  sectors_of_cluster = 0;
  numbers_of_reserved_sectors = 0;
  numbers_of_fats = 0;
  sectors_of_fat = 0;
  fats = λ i. 0;
  numbers_of_root_dir_entries = 0;
  root_dir_start_lba = 0;
  sectors_of_root_dir = 0;
  data_start_lba = 0;
}

parse_boot_record-IsLaidOut_example : IsLaidOut (parse_boot_record ones 0 63 no_partition)
parse_boot_record-IsLaidOut_example =
    parse_boot_record-IsLaidOut ones 0 63 no_partition (omega arith) (omega arith)

search_entries_lem_example :
    let found = search_entries 16 0 ones 600 5 0 no_partition in
    ((found ≡ none) × NoneNamed ones 600 5 0 0 (0 + 16))
    ⊎ ((j : ℕ) × (f : File) × (0 ≤ j)
        × (j < 0 + 16)
        × (found ≡ some f)
        × IsFile ones 0 j no_partition f
        × IsNamed ones 600 5 0 j
        × NoneNamed ones 600 5 0 0 j)
search_entries_lem_example = search_entries_lem 16 0 ones 600 5 0 no_partition

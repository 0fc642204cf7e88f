-- ===== src/Fat.antt =====
-- fat.c, file.c and their headers: the partitions of the disk, and the files in a root directory of one
-- sector. Bytes are below 256; an `unsigned int` wraps at 2 ^ 32.
pub mod Layout
pub mod Directory
mod Tests
use amaterasu.Base.{
  ℕ, zero, suc, ◌+◌, ◌-◌, ◌*◌, ◌/◌, ◌%◌, ◌^◌, Bool, true, false, not, ◌&&◌, Option, none, some,
  ◌==◌, if◌then◌else◌, update,
}
use amaterasu.Util.{strncmp, strnlength}
use amaterasu.Graphic.{u32}
use amaterasu.X86.Ports.{Ports}
use amaterasu.KHeap.{Heap, kmalloc, kfree}
use amaterasu.Ata.{Disk, ata_read}

-- Little-endian words in memory.
abbrev pub word16 : (memory : ℕ → ℕ) (at : ℕ) → ℕ
word16 memory at = memory at + 256 * memory (at + 1)

abbrev pub word32 : (memory : ℕ → ℕ) (at : ℕ) → ℕ
word32 memory at = word16 memory at + 65536 * word16 memory (at + 2)

-- `struct PartitionTableEntry`
pub record PartitionTableEntry : Type 0 where
  pub is_valid : ℕ
  pub start_lba : ℕ
  pub numbers_of_sectors : ℕ

-- `struct Drive` with its `MBR`
pub record Drive : Type 0 where
  pub is_valid : ℕ
  pub id : ℕ
  pub partition_tables : ℕ → PartitionTableEntry

-- `struct Partition`; `fats` holds the first sector of each table.
pub record Partition : Type 0 where
  pub start_lba : ℕ
  pub numbers_of_sectors : ℕ
  pub sectors_of_cluster : ℕ
  pub numbers_of_reserved_sectors : ℕ
  pub numbers_of_fats : ℕ
  pub sectors_of_fat : ℕ
  pub fats : ℕ → ℕ
  pub numbers_of_root_dir_entries : ℕ
  pub root_dir_start_lba : ℕ
  pub sectors_of_root_dir : ℕ
  pub data_start_lba : ℕ

-- The loop of `ParseBootRecord` over the tables.
fat_starts : (rounds i start_lba reserved sectors_of_fat : ℕ) → (ℕ → ℕ) → ℕ → ℕ
fat_starts zero i start_lba reserved sectors_of_fat fats = fats
fat_starts (suc rounds) i start_lba reserved sectors_of_fat fats =
    fat_starts rounds (i + 1) start_lba reserved sectors_of_fat
      (update fats i ((start_lba + reserved + sectors_of_fat * i) % u32))

-- `ParseBootRecord`, on the partition in `partitions[0]`; `br` is the address of the sector.
pub parse_boot_record : (memory : ℕ → ℕ) (br start_lba : ℕ) → Partition → Partition
parse_boot_record memory br start_lba p =
    let reserved = word16 memory (br + 0x0e) in
    let sectors_of_fat = word16 memory (br + 0x16) in
    let numbers_of_fats = memory (br + 0x10) in
    let entries = word16 memory (br + 0x11) in
    let sectors_of_root_dir = (entries * 32 + 511) / 512 in
    let data_start =
      (start_lba + reserved + sectors_of_fat * numbers_of_fats + sectors_of_root_dir) % u32 in
    record {
      start_lba = start_lba;
      numbers_of_sectors = word32 memory (br + 0x20);
      sectors_of_cluster = memory (br + 0x0d);
      numbers_of_reserved_sectors = reserved;
      numbers_of_fats = numbers_of_fats;
      sectors_of_fat = sectors_of_fat;
      fats = fat_starts 2 0 start_lba reserved sectors_of_fat p.fats;
      numbers_of_root_dir_entries = entries;
      root_dir_start_lba = (data_start + u32 - sectors_of_root_dir) % u32;
      sectors_of_root_dir = sectors_of_root_dir;
      data_start_lba = data_start;
    }

-- The loop of `DriveInit` over the partition tables of the sector at `buffer`.
read_tables :
    (rounds partition : ℕ)
    → (memory : ℕ → ℕ) (buffer : ℕ) → (ℕ → PartitionTableEntry)
    → ℕ
    → PartitionTableEntry
read_tables zero partition memory buffer tables = tables
read_tables (suc rounds) partition memory buffer tables =
    let start = buffer + 0x1be + 16 * partition in
    let entry : PartitionTableEntry = record {
      is_valid = 1;
      start_lba = word32 memory (start + 0x08);
      numbers_of_sectors = word32 memory (start + 0x0c);
    } in
    read_tables rounds (partition + 1) memory buffer
      (if memory start == 0 then tables else update tables partition entry)

-- `struct File`
pub record File : Type 0 where
  pub start : ℕ
  pub size : ℕ

-- Entry `i` of the directory sector at `buffer` is in use and its name begins with the file's name.
abbrev pub matches : (memory : ℕ → ℕ) (filename length buffer i : ℕ) → Bool
matches memory filename length buffer i =
    not (memory (buffer + 32 * i) == 0)
    && (strncmp (λ k. memory (filename + k)) (λ k. memory (buffer + 32 * i + k)) length == 0)

-- The file that entry `i` describes.
abbrev pub file_of : (memory : ℕ → ℕ) (buffer i : ℕ) → Partition → File
file_of memory buffer i p = record {
  start =
      (p.data_start_lba + p.sectors_of_cluster * (word16 memory (buffer + 32 * i + 26) + (u32 - 2)))
      % u32;
  size = word32 memory (buffer + 32 * i + 28);
}

-- The loop of `GetFileInfo`: `rounds` entries are left from entry `i` on.
unfoldable pub search_entries :
    (rounds i : ℕ) → (memory : ℕ → ℕ) (filename length buffer : ℕ) → Partition → Option File
search_entries zero i memory filename length buffer p = none
search_entries (suc rounds) i memory filename length buffer p =
    if matches memory filename length buffer i
    then some (file_of memory buffer i p)
    else search_entries rounds (i + 1) memory filename length buffer p

module _ (ports : Ports) (sleep : Disk ports → Disk ports) (fuel : ℕ) where
  -- `GetFileInfo`, with the addresses of the name and of its buffer on the stack: `none` inside stands
  -- for 0, and a file for 1 with `*file` filled in. The result of `ATARead` is dropped.
  unfoldable pub get_file_info :
      (filename buffer : ℕ) (enable_poll : Bool)
      → Partition
      → Disk ports
      → Option (Option File × Disk ports)
  get_file_info filename buffer enable_poll p s =
      elim (ata_read ports sleep fuel p.root_dir_start_lba 512 buffer enable_poll s) [
        | none ↦ none
        | some (result, s1) ↦ elim (strnlength fuel (λ k. s1.memory (filename + k))) [
          | none ↦ none
          | some length ↦ some (search_entries 16 0 s1.memory filename length buffer p, s1)
        ]
      ]

  -- `ReadFile`; `ATARead` takes the sector as an `unsigned int`.
  unfoldable pub read_file :
      (file : File) (buffer : ℕ) (enable_poll : Bool) → Disk ports → Option (Option ℕ × Disk ports)
  read_file file buffer enable_poll s =
      ata_read ports sleep fuel (file.start % u32) file.size buffer enable_poll s

  -- The loop of `DriveInit` over the drives.
  read_drives : (rounds i buffer : ℕ) → (ℕ → Drive) → Disk ports → Option ((ℕ → Drive) × Disk ports)
  read_drives zero i buffer drives s = some (drives, s)
  read_drives (suc rounds) i buffer drives s =
      if (drives i).is_valid == 0
      then read_drives rounds (i + 1) buffer drives s
      else elim (ata_read ports sleep fuel 0 512 buffer true s) [
        | none ↦ none
        | some (result, s1) ↦
            let drive = drives i in
            let drive' = record drive {
              id = word32 s1.memory (buffer + 0x1b8);
              partition_tables = read_tables 4 0 s1.memory buffer drive.partition_tables;
            } in
            read_drives rounds (i + 1) buffer (update drives i drive') s1
      ]

  -- `DriveInit`
  pub drive_init :
      (ℕ → Drive)
      → Partition
      → Heap
      → Disk ports
      → Option ((ℕ → Drive) × Partition × Heap × Disk ports)
  drive_init drives p h s = elim (kmalloc 512 h) [
    | none ↦ none
    | some (buffer, h1) ↦ elim (read_drives 4 0 buffer drives s) [
      | none ↦ none
      | some (drives1, s1) ↦
          let first = (drives1 0).partition_tables 0 in
          elim (ata_read ports sleep fuel first.start_lba 512 buffer true s1) [
            | none ↦ none
            | some (result, s2) ↦
                some (
                  drives1,
                  parse_boot_record s2.memory buffer first.start_lba p,
                  kfree buffer h1,
                  s2,
                )
          ]
    ]
  ]

-- ===== src/Acpi.antt =====
-- acpi.c and acpi.h: the tables of the firmware. Tables are bytes in memory, at the offsets that their
-- packed structures give.
pub mod Find
mod Tests
use amaterasu.Base.{ℕ, zero, suc, ◌+◌, ◌-◌, ◌*◌, ◌/◌, ◌%◌, ◌==◌, if◌then◌else◌}
use amaterasu.Util.{u64, strncmp}
use amaterasu.Fat.{word32}

-- A little-endian word of eight bytes.
abbrev pub word64 : (memory : ℕ → ℕ) (at : ℕ) → ℕ
word64 memory at = word32 memory at + 0x1_0000_0000 * word32 memory (at + 4)

-- The offset of `XSDTAddress` in `struct RSDP`.
abbrev pub xsdt_address_offset : ℕ
xsdt_address_offset = 24

-- `sizeof(struct SDTH)`, and the offset of its `Length`.
abbrev pub sdth_bytes : ℕ
sdth_bytes = 36

abbrev pub length_offset : ℕ
length_offset = 4

-- The offset of `Address` in `struct ACPI_ADDRESS`.
abbrev pub address_offset : ℕ
address_offset = 4

-- `ACPIInit`: the new value of `xsdt`.
pub acpi_init : (memory : ℕ → ℕ) (rsdt_address : ℕ) → ℕ
acpi_init memory rsdt_address = word64 memory (rsdt_address + xsdt_address_offset)

-- `xsdt->Entry[i]`
abbrev pub entry : (memory : ℕ → ℕ) (xsdt i : ℕ) → ℕ
entry memory xsdt i = word64 memory (xsdt + sdth_bytes + 8 * i)

-- `entryNum`, a difference of 64-bit words.
abbrev pub entry_num : (memory : ℕ → ℕ) (xsdt : ℕ) → ℕ
entry_num memory xsdt = (word32 memory (xsdt + length_offset) + u64 - sdth_bytes) % u64 / 8

-- The loop of `FindSDT`: `rounds` entries are left from entry `i` on.
pub find_entry : (rounds i : ℕ) (memory : ℕ → ℕ) (xsdt : ℕ) (find_signature : ℕ → ℕ) → ℕ
find_entry zero i memory xsdt find_signature = 0
find_entry (suc rounds) i memory xsdt find_signature =
    let sdt = entry memory xsdt i in
    let rest = find_entry rounds (i + 1) memory xsdt find_signature in
    if strncmp (λ k. memory (sdt + k)) find_signature 4 == 0 then sdt else rest

-- `FindSDT`: the address of a table, or 0.
pub find_sdt : (memory : ℕ → ℕ) (xsdt : ℕ) (find_signature : ℕ → ℕ) → ℕ
find_sdt memory xsdt find_signature =
    find_entry (entry_num memory xsdt) 0 memory xsdt find_signature

-- ===== src/X86/Tests.antt =====
-- Descriptors at concrete values.
use amaterasu.Base.{arith, ◌+◌, ◌*◌, ◌%◌, ◌^◌, ◌≡◌, ◌<◌}
use amaterasu.Base.Bits.Fields.{get}
use amaterasu.Util.{u64}
use amaterasu.X86.{calc_gdt_entry, gdt_tss_descriptor_lower, calc_tss_descriptor_higher}
use amaterasu.X86.Descriptors.{calc_gdt_entry-fields, tss_descriptor-address}

calc_gdt_entry-fields_example :
    let e = calc_gdt_entry 0x12345678 0xfffff 0x9a 0xa in
    (get 16 24 e + get 56 8 e * 2 ^ 24 ≡ 0x12345678 % 2 ^ 32)
    × (get 0 16 e + get 48 4 e * 2 ^ 16 ≡ 0xfffff % 2 ^ 20)
    × (get 40 8 e ≡ 0x9a % 2 ^ 8)
    × (get 52 4 e ≡ 0xa % 2 ^ 4)
    × (e < u64)
calc_gdt_entry-fields_example = calc_gdt_entry-fields 0x12345678 0xfffff 0x9a 0xa

tss_descriptor-address_example :
    let lower = gdt_tss_descriptor_lower 0xffff_8000_1234_5678 in
    get 16 24 lower
      + get 56 8 lower * 2 ^ 24
      + calc_tss_descriptor_higher 0xffff_8000_1234_5678 * 2 ^ 32
    ≡ 0xffff_8000_1234_5678
tss_descriptor-address_example = tss_descriptor-address 0xffff_8000_1234_5678 (omega arith)

-- ===== src/X86.antt =====
-- x86_64.c and x86_64.h: segment descriptors, the task state segment, and the ports.
pub mod Ports
pub mod Descriptors
mod Tests
use amaterasu.Base.{
  ℕ, ◌+◌, ◌-◌, ◌*◌, ◌/◌, ◌%◌, ◌^◌, List, [], ◌∷◌, bit_and, bit_or, replicate, set, ◌==◌,
  if◌then◌else◌,
}
use amaterasu.Util.{u64}

-- `x << k` on a 64-bit word
abbrev pub shl : ℕ → ℕ → ℕ
shl x k = x * 2 ^ k % u64

abbrev pub shr : ℕ → ℕ → ℕ
shr x k = x / 2 ^ k

-- `CALC_ACCESS_BYTE`. The shifts are of an `int`, and the masks keep one byte.
pub calc_access_byte : (pr priv s ex dc rw_flag ac : ℕ) → ℕ
calc_access_byte pr priv s ex dc rw_flag ac =
    let b0 = bit_or 0 (bit_and 0x1 ac) in
    let b1 = bit_or b0 (bit_and 0x2 (rw_flag * 2)) in
    let b2 = bit_or b1 (bit_and 0x4 (dc * 4)) in
    let b3 = bit_or b2 (bit_and 0x8 (ex * 8)) in
    let b4 = bit_or b3 (bit_and 0x10 (s * 16)) in
    let b5 = bit_or b4 (bit_and 0x60 (priv * 32)) in bit_or b5 (bit_and 0x80 (pr * 128))

-- `CALC_FLAGS`
pub calc_flags : (gr sz l : ℕ) → ℕ
calc_flags gr sz l =
    let f1 = bit_or 0 (bit_and 0x2 (l * 2)) in
    let f2 = bit_or f1 (bit_and 0x4 (sz * 4)) in bit_or f2 (bit_and 0x8 (gr * 8))

-- `CalcGDTEntry`
pub calc_gdt_entry : (base limit access_byte flags : ℕ) → ℕ
calc_gdt_entry base limit access_byte flags =
    let e0 = bit_or 0 (bit_and limit 0xffff) in
    let e1 = bit_or e0 (shl (bit_and base 0xffff) 16) in
    let e2 = bit_or e1 (shl (bit_and (shr base 16) 0xff) 32) in
    let e3 = bit_or e2 (shl (bit_and access_byte 0xff) 40) in
    let e4 = bit_or e3 (shl (bit_and (shr limit 16) 0xf) 48) in
    let e5 = bit_or e4 (shl (bit_and flags 0xf) 52) in
    bit_or e5 (shl (bit_and (shr base 24) 0xff) 56)

-- `CalcTSSDescriptorHigher`
pub calc_tss_descriptor_higher : ℕ → ℕ
calc_tss_descriptor_higher base = 0 + bit_and (shr base 32) 0xffff_ffff

abbrev pub pl_kernel : ℕ
pl_kernel = 0

abbrev pub pl_user : ℕ
pl_user = 3

-- The descriptor macros of x86_64.h.
pub gdt_null : ℕ
gdt_null = calc_gdt_entry 0 0 0 0

pub gdt_kernel_code : ℕ
gdt_kernel_code =
    calc_gdt_entry 0 0xfffff (calc_access_byte 1 pl_kernel 1 1 0 1 0) (calc_flags 1 0 1)

pub gdt_kernel_data : ℕ
gdt_kernel_data =
    calc_gdt_entry 0 0xfffff (calc_access_byte 1 pl_kernel 1 0 0 1 0) (calc_flags 1 1 0)

pub gdt_user_code : ℕ
gdt_user_code = calc_gdt_entry 0 0xfffff (calc_access_byte 1 pl_user 1 1 0 1 0) (calc_flags 1 0 1)

pub gdt_user_data : ℕ
gdt_user_data = calc_gdt_entry 0 0xfffff (calc_access_byte 1 pl_user 1 0 0 1 0) (calc_flags 1 1 0)

pub gdt_tss_descriptor_lower : ℕ → ℕ
gdt_tss_descriptor_lower base =
    calc_gdt_entry base 104 (calc_access_byte 1 pl_kernel 0 1 0 0 1) (calc_flags 0 0 0)

abbrev pub cs_segment_selector_kernel : ℕ
cs_segment_selector_kernel = 8

abbrev pub cs_segment_selector_user : ℕ
cs_segment_selector_user = 27

abbrev pub ss_segment_selector_user : ℕ
ss_segment_selector_user = 35

-- The tables of x86_64.c, and the registers that `lgdt` and `ltr` load.
pub record Segments : Type 0 where
  pub gdt : List ℕ
  pub gdtr0 : ℕ
  pub gdtr1 : ℕ
  pub tss : List ℕ
  pub task_register : ℕ

-- `gdtInit`, given the addresses of `gdt` and `tss`. The reload of CS by a far return is left out.
pub gdt_init : (gdt_address tss_address : ℕ) → Segments
gdt_init gdt_address tss_address = record {
  gdt =
      gdt_null
      ∷ gdt_kernel_code
      ∷ gdt_kernel_data
      ∷ gdt_user_code
      ∷ gdt_user_data
      ∷ gdt_tss_descriptor_lower tss_address
      ∷ calc_tss_descriptor_higher tss_address
      ∷ [];
  gdtr0 = bit_or (shl gdt_address 16) (bit_and (7 * 8 - 1) 0xffff);
  gdtr1 = shr gdt_address 48;
  tss = replicate 25 0;
  task_register = 40;
}

-- `SwitchKernelStack`
pub switch_kernel_stack : (ring0rsp : ℕ) → List ℕ → List ℕ
switch_kernel_stack ring0rsp tss =
    set (set tss 1 (bit_and ring0rsp 0xffff_ffff)) 2 (bit_and (shr ring0rsp 32) 0xffff_ffff)

-- ===== src/X86/Descriptors.antt =====
-- What the descriptors of x86_64.c hold.
use native.Mathlib.Nat.{mod-lt, mod-eq_of_lt, one-le-pow, mul-le-mul_right}
use amaterasu.Base.{length, set, length-set, get_or-set_self, get_or-set_ne, ◌≢◌}
use amaterasu.X86.{gdt_tss_descriptor_lower, calc_access_byte, calc_flags, pl_kernel}
use amaterasu.Base.{
  ℕ, ◌+◌, ◌-◌, ◌*◌, ◌/◌, ◌%◌, ◌^◌, ◌≤◌, ◌<◌, ◌≡◌, sym, ◌∙◌, arith, bit_and, bit_or, List, get_or,
}
use amaterasu.Base.Bits.{bit_and-mask, bit_or-shifted, zero-bit_or}
use amaterasu.Base.Bits.Fields.{get}
use amaterasu.Util.{u64}
use amaterasu.X86.{shl, shr, calc_gdt_entry, calc_tss_descriptor_higher, switch_kernel_stack}

-- `acc |= (v & mask) << k` with a mask of `w` ones, where `acc` has no bits from `k` on.
put_field :
    (k w acc v : ℕ)
    → acc < 2 ^ k
    → 2 ^ w * 2 ^ k ≤ u64
    → bit_or acc (shl (bit_and v (2 ^ w - 1)) k) ≡ acc + v % 2 ^ w * 2 ^ k
put_field k w acc v small fits =
    let below : v % 2 ^ w * 2 ^ k < u64 =
      omega (
        arith,
        mul-le-mul_right (2 ^ k) (mod-lt v (one-le-pow w 2 (omega arith))),
        one-le-pow k 2,
      ) in
    rw (bit_and-mask w v, mod-eq_of_lt below) (bit_or-shifted k acc (v % 2 ^ w) small)

-- The entry as a sum of its fields.
calc_gdt_entry-sum :
    (base limit access_byte flags : ℕ)
    → calc_gdt_entry base limit access_byte flags
      ≡ limit % 2 ^ 16
        + base % 2 ^ 16 * 2 ^ 16
        + base / 2 ^ 16 % 2 ^ 8 * 2 ^ 32
        + access_byte % 2 ^ 8 * 2 ^ 40
        + limit / 2 ^ 16 % 2 ^ 4 * 2 ^ 48
        + flags % 2 ^ 4 * 2 ^ 52
        + base / 2 ^ 24 % 2 ^ 8 * 2 ^ 56
unfolding calc_gdt_entry
calc_gdt_entry-sum base limit access_byte flags =
    let e0 = bit_or 0 (bit_and limit 0xffff) in
    let e1 = bit_or e0 (shl (bit_and base 0xffff) 16) in
    let e2 = bit_or e1 (shl (bit_and (shr base 16) 0xff) 32) in
    let e3 = bit_or e2 (shl (bit_and access_byte 0xff) 40) in
    let e4 = bit_or e3 (shl (bit_and (shr limit 16) 0xf) 48) in
    let e5 = bit_or e4 (shl (bit_and flags 0xf) 52) in
    let s0 : e0 ≡ limit % 2 ^ 16 = zero-bit_or (bit_and limit 0xffff) ∙ bit_and-mask 16 limit in
    let s1 = put_field 16 16 e0 base (omega (arith, s0)) (omega arith) in
    let s2 = put_field 32 8 e1 (shr base 16) (omega (arith, s0, s1)) (omega arith) in
    let s3 = put_field 40 8 e2 access_byte (omega (arith, s0, s1, s2)) (omega arith) in
    let s4 = put_field 48 4 e3 (shr limit 16) (omega (arith, s0, s1, s2, s3)) (omega arith) in
    let s5 = put_field 52 4 e4 flags (omega (arith, s0, s1, s2, s3, s4)) (omega arith) in
    let s6 =
      put_field 56 8 e5 (shr base 24) (omega (arith, s0, s1, s2, s3, s4, s5)) (omega arith) in
    omega (arith, s0, s1, s2, s3, s4, s5, s6)

-- Each field of the entry reads back, in the places where the processor reads it: the base address
-- and the limit in two and three parts, the access byte and the flags whole.
pub calc_gdt_entry-fields :
    (base limit access_byte flags : ℕ)
    → let e = calc_gdt_entry base limit access_byte flags in
      (get 16 24 e + get 56 8 e * 2 ^ 24 ≡ base % 2 ^ 32)
      × (get 0 16 e + get 48 4 e * 2 ^ 16 ≡ limit % 2 ^ 20)
      × (get 40 8 e ≡ access_byte % 2 ^ 8)
      × (get 52 4 e ≡ flags % 2 ^ 4)
      × (e < u64)
calc_gdt_entry-fields base limit access_byte flags =
    omega (arith, calc_gdt_entry-sum base limit access_byte flags)

-- The two halves of the descriptor of the task state segment hold its whole 64-bit address.
pub tss_descriptor-address :
    (base : ℕ)
    → base < u64
    → let lower = gdt_tss_descriptor_lower base in
      get 16 24 lower + get 56 8 lower * 2 ^ 24 + calc_tss_descriptor_higher base * 2 ^ 32 ≡ base
unfolding gdt_tss_descriptor_lower calc_tss_descriptor_higher
tss_descriptor-address base h = omega (
  arith,
  calc_gdt_entry-sum base 104 (calc_access_byte 1 pl_kernel 0 1 0 0 1) (calc_flags 0 0 0),
  bit_and-mask 32 (shr base 32),
)

-- `SwitchKernelStack` stores the two halves of the stack pointer in their words, and no other word
-- changes.
pub switch_kernel_stack_lem :
    (ring0rsp i : ℕ) (tss : List ℕ)
    → ring0rsp < u64
    → length tss ≡ 25
    → let tss' = switch_kernel_stack ring0rsp tss in
      (get_or tss' 1 0 + get_or tss' 2 0 * 2 ^ 32 ≡ ring0rsp)
      × (i ≢ 1 → i ≢ 2 → get_or tss' i 0 ≡ get_or tss i 0)
unfolding switch_kernel_stack
switch_kernel_stack_lem ring0rsp i tss h len =
    let lo = bit_and ring0rsp 0xffff_ffff in
    let hi = bit_and (shr ring0rsp 32) 0xffff_ffff in
    let mid = set tss 1 lo in
    (
      omega (
        arith,
        get_or-set_ne mid 2 1 hi 0 (omega arith),
        get_or-set_self tss 1 lo 0 (omega arith),
        get_or-set_self mid 2 hi 0 (omega (arith, length-set tss 1 lo)),
        bit_and-mask 32 ring0rsp,
        bit_and-mask 32 (shr ring0rsp 32),
      ),
      λ n1 n2.
          get_or-set_ne mid 2 i hi 0 (λ e. n2 (sym e))
          ∙ get_or-set_ne tss 1 i lo 0 (λ e. n1 (sym e)),
    )

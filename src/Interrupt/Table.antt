-- ===== src/Interrupt/Table.antt =====
-- What the interrupt descriptor table holds.
use amaterasu.Base.{
  ℕ, zero, suc, ◌+◌, ◌*◌, ◌%◌, ◌^◌, ◌≤◌, ◌<◌, ◌≡◌, ◌≢◌, ◌∙◌, ◌&&◌, arith, leb, ltb, ◌==◌,
  if◌then◌else◌,
}
use native.Mathlib.Decide.{ℕ_discrete}
use amaterasu.Base.{eq_self, eq_of_ne}
use amaterasu.Util.{u64}
use amaterasu.Interrupt.{
  InterruptDescriptor, Idt, Interrupts, set_interrupt_descriptor, set_default_from, idt_init,
  syscall_interrupt_num, max_intr_num, double_fault_excp_num, general_protection_fault_excp_num,
}

-- The handler that the processor jumps to: the parts of its address put together.
abbrev pub target : InterruptDescriptor → ℕ
target d = d.offset0_15 + d.offset16_31 * 2 ^ 16 + d.offset32_63 * 2 ^ 32

-- A descriptor leads to the given handler, is present as told, and lets user code raise the
-- interrupt by an instruction only if it is that of the system calls. No other descriptor changes.
pub set_interrupt_descriptor_lem :
    (n handler present i : ℕ) (idt : Idt)
    → handler < u64
    → present < 2
    → let idt' = set_interrupt_descriptor n handler present idt in
      (target (idt' n) ≡ handler)
      × ((idt' n).present ≡ present)
      × ((idt' n).dpl ≡ (if n == syscall_interrupt_num then 3 else 0))
      × (i ≢ n → idt' i ≡ idt i)
unfolding set_interrupt_descriptor
set_interrupt_descriptor_lem n handler present i idt h p =
    (rw (eq_self n) (omega arith), ground arith, ground arith, λ ne. ground arith)

set_default_from_lem :
    (rounds i handler n : ℕ) (idt : Idt)
    → i + rounds ≤ max_intr_num
    → set_default_from rounds i handler idt n ≡ (
        if leb i n && ltb n (i + rounds) then set_interrupt_descriptor n handler 0 idt n else idt n)
unfolding set_default_from set_interrupt_descriptor
set_default_from_lem zero i handler n idt h = ground arith
set_default_from_lem (suc rounds) i handler n idt h =
    set_default_from_lem rounds (i + 1) handler n
      (set_interrupt_descriptor (i % 2 ^ 8) handler 0 idt) (omega arith)
    ∙ (let e : i % 2 ^ 8 ≡ i = omega arith in rw e (ground arith))

-- After `idtInit` with 64-bit handlers the double fault and the general protection fault lead to their
-- handlers and are present, every other interrupt leads to the default handler and is not present, and only
-- the system call is open to user code.
pub idt_init_lem :
    (default double_fault protection_fault address n : ℕ) (s : Interrupts)
    → default < u64
    → double_fault < u64
    → protection_fault < u64
    → n < max_intr_num
    → let d = (idt_init default double_fault protection_fault address s).idt n in
      (target d ≡ (
        if n == double_fault_excp_num
        then double_fault
        else if n == general_protection_fault_excp_num
        then protection_fault
        else default))
      × (d.present ≡ (
          if n == double_fault_excp_num
          then 1
          else if n == general_protection_fault_excp_num
          then 1
          else 0))
      × (d.dpl ≡ (if n == syscall_interrupt_num then 3 else 0))
unfolding idt_init
idt_init_lem default double_fault protection_fault address n s h1 h2 h3 h =
    let before = set_default_from max_intr_num 0 default s.idt in
    let idt2 = set_interrupt_descriptor double_fault_excp_num double_fault 1 before in
    let last =
      set_interrupt_descriptor_lem general_protection_fault_excp_num protection_fault 1 n idt2 h3
        (omega arith) in
    let first =
      set_interrupt_descriptor_lem double_fault_excp_num double_fault 1 n before h2 (omega arith) in
    let base = set_interrupt_descriptor_lem n default 0 n s.idt h1 (omega arith) in
    let filled : before n ≡ set_interrupt_descriptor n default 0 s.idt n =
      set_default_from_lem max_intr_num 0 default n s.idt (omega arith) ∙ ground arith in
    elim (ℕ_discrete n general_protection_fault_excp_num) [
      | yes e ↦ rw e (last.0, last.1, last.2)
      | no ne ↦ elim (ℕ_discrete n double_fault_excp_num) [
        | yes e ↦ rw (last.3 ne, e) (first.0, first.1, first.2)
        | no ne' ↦
            rw (last.3 ne, first.3 ne', filled, eq_of_ne n _ ne, eq_of_ne n _ ne')
              (base.0, base.1, base.2)
      ]
    ]

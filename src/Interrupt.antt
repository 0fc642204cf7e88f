-- ===== src/Interrupt.antt =====
-- interrupt.c and interrupt.h: the interrupt descriptor table.
pub mod Table
pub mod Fault
pub mod Tests
use amaterasu.Base.{
  ℕ, zero, suc, ◌+◌, ◌-◌, ◌*◌, ◌/◌, ◌%◌, ◌^◌, ◌==◌, if◌then◌else◌, bit_and, bit_or, update,
}
use amaterasu.X86.{shl, shr, cs_segment_selector_kernel}

abbrev pub max_intr_num : ℕ
max_intr_num = 256

abbrev pub double_fault_excp_num : ℕ
double_fault_excp_num = 8

abbrev pub general_protection_fault_excp_num : ℕ
general_protection_fault_excp_num = 13

abbrev pub page_fault_excp_num : ℕ
page_fault_excp_num = 14

abbrev pub syscall_interrupt_num : ℕ
syscall_interrupt_num = 0x80

-- `struct InterruptDescriptor`
pub record InterruptDescriptor : Type 0 where
  pub offset0_15 : ℕ
  pub segment_selector : ℕ
  pub ist : ℕ
  pub zero1 : ℕ
  pub gate_type : ℕ
  pub zero2 : ℕ
  pub dpl : ℕ
  pub present : ℕ
  pub offset16_31 : ℕ
  pub offset32_63 : ℕ
  pub zero_reserved : ℕ

abbrev pub Idt : Type 0
Idt = ℕ → InterruptDescriptor

-- `SetInterruptDescriptor`. Each field keeps as many bits as it is wide; the reserved word stays.
pub set_interrupt_descriptor : (interrupt_number handler present : ℕ) → Idt → Idt
set_interrupt_descriptor interrupt_number handler present idt =
    update idt interrupt_number (record {
      offset0_15 = handler % 2 ^ 16;
      segment_selector = cs_segment_selector_kernel;
      ist = 0;
      zero1 = 0;
      gate_type = 0xe;
      zero2 = 0;
      dpl = if interrupt_number == syscall_interrupt_num then 3 else 0;
      present = present % 2;
      offset16_31 = shr handler 16 % 2 ^ 16;
      offset32_63 = shr handler 32 % 2 ^ 32;
      zero_reserved = (idt interrupt_number).zero_reserved;
    })

-- The loop of `idtInit`; the index is converted to `unsigned char`.
set_default_from : (rounds i handler : ℕ) → Idt → Idt
set_default_from zero i handler idt = idt
set_default_from (suc rounds) i handler idt =
    set_default_from rounds (i + 1) handler (set_interrupt_descriptor (i % 2 ^ 8) handler 0 idt)

-- The table and the words that `lidt` loads.
pub record Interrupts : Type 0 where
  pub idt : Idt
  pub idtr0 : ℕ
  pub idtr1 : ℕ

-- `idtInit`, given the addresses of the assembly handlers and of the table.
pub idt_init :
    (default_handler double_fault_handler general_protection_fault_handler idt_address : ℕ)
    → Interrupts
    → Interrupts
idt_init default_handler double_fault_handler general_protection_fault_handler idt_address s =
    let idt1 = set_default_from max_intr_num 0 default_handler s.idt in
    let idt2 = set_interrupt_descriptor double_fault_excp_num double_fault_handler 1 idt1 in
    let idt3 =
      set_interrupt_descriptor general_protection_fault_excp_num general_protection_fault_handler 1
        idt2 in
    record {
      idt = idt3;
      idtr0 = bit_or (shl idt_address 16) (bit_and (16 * max_intr_num - 1) 0xffff);
      idtr1 = shr idt_address 48;
    }

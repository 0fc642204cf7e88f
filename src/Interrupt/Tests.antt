-- ===== src/Interrupt/Tests.antt =====
-- An empty interrupt descriptor table, and a fault on a blank screen.
use amaterasu.Base.{◌≡◌, arith}
use amaterasu.Base.{some, ◌==◌, if◌then◌else◌}
use amaterasu.Graphic.{Font, Screen}
use amaterasu.Graphic.Report.{print, text_of}
use amaterasu.Interrupt.Fault.{
  general_protection_fault_handler, protection_report, general_protection_fault_handler_lem,
}
use amaterasu.Interrupt.{
  Idt, Interrupts, idt_init, double_fault_excp_num, general_protection_fault_excp_num,
  syscall_interrupt_num,
}
use amaterasu.Interrupt.Table.{target, idt_init_lem}

abbrev pub empty_idt : Idt
empty_idt i = record {
  offset0_15 = 0;
  segment_selector = 0;
  ist = 0;
  zero1 = 0;
  gate_type = 0;
  zero2 = 0;
  dpl = 0;
  present = 0;
  offset16_31 = 0;
  offset32_63 = 0;
  zero_reserved = 0;
}

abbrev pub no_interrupts : Interrupts
no_interrupts = record { idt = empty_idt; idtr0 = 0; idtr1 = 0 }

abbrev blank_font : Font
blank_font c y x = 0

abbrev blank_screen : Screen
blank_screen = record {
  pixels = λ a. record { b = 0; g = 0; r = 0; reserved = 0 };
  size = 0;
  horizontal_resolution = 0;
  vertical_resolution = 0;
  cursor_x = 0;
  cursor_y = 0;
}

-- Every word of memory is 43, the error code too: external, table 1 and index 5.
general_protection_fault_handler_lem_example :
    general_protection_fault_handler blank_font (λ left k. 0) (λ a. 43) 4096 blank_screen
    ≡ some (print blank_font (text_of (protection_report (λ a. 43) 4096)) blank_screen)
general_protection_fault_handler_lem_example =
    general_protection_fault_handler_lem blank_font (λ left k. 0) (λ a. 43) 4096 blank_screen
      (λ a. omega arith)

idt_init_lem_example :
    let d = (idt_init 4096 8192 12288 65536 no_interrupts).idt 13 in
    (target d ≡ (
      if 13 == double_fault_excp_num
      then 8192
      else if 13 == general_protection_fault_excp_num
      then 12288
      else 4096))
    × (d.present ≡ (
        if 13 == double_fault_excp_num
        then 1
        else if 13 == general_protection_fault_excp_num
        then 1
        else 0))
    × (d.dpl ≡ (if 13 == syscall_interrupt_num then 3 else 0))
idt_init_lem_example =
    idt_init_lem 4096 8192 12288 65536 13 no_interrupts (omega arith) (omega arith) (omega arith)
      (omega arith)

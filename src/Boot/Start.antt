-- ===== src/Boot/Start.antt =====
-- `start_kernel` of main.c as a whole: the parts of the kernel in the order in which it sets them up.
use amaterasu.Base.{ℕ, Option, none, some}
use amaterasu.X86.Ports.{Ports}
use amaterasu.X86.{gdt_init}
use amaterasu.PhysicalMemory.{FreeMapInfo, Page}
use amaterasu.Interrupt.{idt_init}
use amaterasu.Pic.{pic_init}
use amaterasu.Kbc.{kbc_init}
use amaterasu.Acpi.{acpi_init}
use amaterasu.Hpet.{Registers, hpet_init}
use amaterasu.Syscall.{syscall_init}
use amaterasu.Ata.{Disk}
use amaterasu.Ata.Init.{ata_init}
use amaterasu.Fat.{drive_init}
use amaterasu.Paging.Fault.{paging_init}
use amaterasu.Graphic.{Screen, Font, fb_init, graphic_init}
use amaterasu.Process.Fork.{process_init}
use amaterasu.Machine.{Machine, act, show_printed}
use amaterasu.Boot.{memory_init}

-- The addresses that the linker gives to the handlers in assembly and to the tables.
pub record Symbols : Type 0 where
  pub default_handler : ℕ
  pub double_fault_handler : ℕ
  pub general_protection_fault_handler : ℕ
  pub kbc_handler : ℕ
  pub hpet_handler : ℕ
  pub syscall_handler : ℕ
  pub ata_handler : ℕ
  pub page_fault_handler : ℕ
  pub gdt : ℕ
  pub tss : ℕ
  pub idt : ℕ

-- `struct PlatformInfo`
pub record PlatformInfo : Type 0 where
  pub fb : Screen
  pub rsdp_address : ℕ

module _ {ports : Ports} {registers : Registers} (symbols : Symbols) where
  open symbols use {
    default_handler, double_fault_handler, general_protection_fault_handler, kbc_handler,
    hpet_handler, syscall_handler, ata_handler, page_fault_handler,
  }

  -- From `idtInit` to `picInit`.
  unfoldable pub init_controllers : Machine ports registers → Machine ports registers
  init_controllers m = record m {
    interrupts =
        idt_init default_handler double_fault_handler general_protection_fault_handler symbols.idt
          m.interrupts;
    disk = record m.disk { device = pic_init ports m.disk.device };
  }

  -- `KBCInit`
  unfoldable pub init_keyboard : Machine ports registers → Machine ports registers
  init_keyboard m =
      let (idt, device) = kbc_init ports kbc_handler m.interrupts.idt m.disk.device in
      record m {
        interrupts = record m.interrupts { idt = idt };
        disk = record m.disk { device = device };
      }

  -- `ACPIInit` and `HPETInit`; `signature` is the string "HPET".
  unfoldable pub init_timer :
      (platform : PlatformInfo) (signature : ℕ → ℕ)
      → Machine ports registers
      → Machine ports registers
  init_timer platform signature m =
      let xsdt = acpi_init m.disk.memory platform.rsdp_address in
      let (hpet, idt, device, timer) =
        hpet_init registers ports m.disk.memory xsdt signature hpet_handler m.interrupts.idt
          m.disk.device m.timer in
      record m {
        xsdt = xsdt;
        hpet = hpet;
        timer = timer;
        interrupts = record m.interrupts { idt = idt };
        disk = record m.disk { device = device };
      }

  -- `SyscallInit`
  unfoldable pub init_syscalls : Machine ports registers → Machine ports registers
  init_syscalls m =
      let (idt, device) = syscall_init ports syscall_handler m.interrupts.idt m.disk.device in
      record m {
        interrupts = record m.interrupts { idt = idt };
        disk = record m.disk { device = device };
      }

  -- `ATAInit` and `PagingInit`; the disk driver marks the drives that answer.
  unfoldable pub init_disk : (fuel : ℕ) → Machine ports registers → Option (Machine ports registers)
  init_disk fuel m =
      elim (ata_init ports fuel ata_handler (λ i. (m.drives i).is_valid) m.interrupts.idt m.disk) [
        | none ↦ none
        | some (valid, idt, disk) ↦
            let k = m.kernel in
            let current = k.processes k.ring.current_process in
            let base = (k.process_memories current.process_memory).l4_page_table_base in
            let (idt', cr3) = paging_init page_fault_handler base idt in
            some (record m {
              drives = λ i. record (m.drives i) { is_valid = valid i };
              interrupts = record m.interrupts { idt = idt' };
              disk = disk;
              cr3 = cr3;
            })
      ]

  -- From `idtInit` to `PagingInit`.
  unfoldable pub init_devices :
      (fuel : ℕ) (platform : PlatformInfo) (signature : ℕ → ℕ)
      → Machine ports registers
      → Option (Machine ports registers)
  init_devices fuel platform signature m =
      init_disk fuel
        (init_syscalls (init_timer platform signature (init_keyboard (init_controllers m))))

  -- The screen, the allocators and the segments, before `ProcessInit`.
  pub init_memory :
      (platform : PlatformInfo) (info : FreeMapInfo) (map : ℕ → Page)
      → Machine ports registers
      → Option (Machine ports registers)
  init_memory platform info map m = elim (memory_init info map m.kernel.buddy m.kernel.heap) [
    | none ↦ none
    | some (buddy, heap) ↦
        let segments = gdt_init symbols.gdt symbols.tss in
        some (record m {
          screen = graphic_init (fb_init platform.fb m.screen);
          segments = segments;
          kernel = record m.kernel { buddy = buddy; heap = heap; tss = segments.tss };
        })
  ]

  -- `EnableCPUInterrupt` and `DriveInit`, with what the disk driver prints.
  pub init_file_system :
      (font : Font) (sleep : Disk ports → Disk ports) (fuel : ℕ)
      → Machine ports registers
      → Option (Machine ports registers)
  init_file_system font sleep fuel m =
      elim (drive_init ports sleep fuel m.drives m.partition m.kernel.heap m.disk) [
        | none ↦ none
        | some (drives, partition, heap, disk) ↦ some (
            show_printed font (record m {
              interrupt_flag = 1;
              drives = drives;
              partition = partition;
              kernel = record m.kernel { heap = heap };
              disk = disk;
            }))
      ]

  -- `start_kernel`: the machine when the kernel halts to wait for interrupts. `sleep` and `fuel` are those
  -- of the disk.
  pub start_kernel :
      (font : Font) (sleep : Disk ports → Disk ports) (fuel : ℕ) (platform : PlatformInfo)
      (info : FreeMapInfo) (map : ℕ → Page) (signature : ℕ → ℕ)
      → Machine ports registers
      → Option (Machine ports registers)
  start_kernel font sleep fuel platform info map signature m =
      elim (init_memory platform info map m) [
        | none ↦ none
        | some m1 ↦ elim (act process_init m1) [
          | none ↦ none
          | some (_, m2) ↦ elim (init_devices fuel platform signature m2) [
            | none ↦ none
            | some m3 ↦ init_file_system font sleep fuel m3
          ]
        ]
      ]

-- ===== src/Boot/Devices.antt =====
-- The machine after the devices are set up.
use amaterasu.Base.{ℕ, ◌≡◌, refl, some, ◌==◌, if◌then◌else◌, update}
use amaterasu.X86.Ports.{Ports}
use amaterasu.Interrupt.{
  syscall_interrupt_num, set_interrupt_descriptor, double_fault_excp_num,
  general_protection_fault_excp_num, page_fault_excp_num, idt_init,
}
use amaterasu.Pic.Masks.{HasMasks}
use amaterasu.Kbc.{kbc_interrupt_num, kbc_init}
use amaterasu.Hpet.{Registers, hpet_interrupt_num, hpet_init}
use amaterasu.Syscall.{syscall_init}
use amaterasu.Ata.{ata_interrupt_num}
use amaterasu.Ata.Init.{init_drives, ata_init}
use amaterasu.Paging.Fault.{paging_init}
use amaterasu.Machine.{Machine}
use amaterasu.Boot.Start.{
  Symbols, PlatformInfo, init_controllers, init_keyboard, init_timer, init_syscalls, init_disk,
  init_devices,
}
use amaterasu.Boot.Interrupts.{
  handler_of, present_of, Wired, InRange, set-Wired, idt_init-Wired, TimerAndKeyboard, DiskApart,
  enabled, enabled-TimerAndKeyboard, search-TimerAndKeyboard,
}

-- The devices after their set-up. Every interrupt leads to its handler; the controllers let only the timer
-- and the keyboard through; the disk's queue is empty and its drives are marked; the page table in use is
-- the current process's; and the processes, the allocators and the memory are as before.
pub record IsReady {ports : Ports} {registers : Registers} (laws : HasMasks ports)
    (symbols : Symbols) (valid : ℕ → ℕ) (m m' : Machine ports registers) : Type 0 where
  pub wired : Wired m'.interrupts.idt (handler_of symbols) present_of
  pub masks : TimerAndKeyboard laws m'.disk.device
  pub empty : m'.disk.queue.size ≡ 0
  pub marked : (i : ℕ) → (m'.drives i).is_valid ≡ valid i
  pub page_table :
      let current = m.kernel.processes m.kernel.ring.current_process in
      let memory = m.kernel.process_memories current.process_memory in
      m'.cr3 ≡ memory.l4_page_table_base
  pub kernel : m'.kernel ≡ m.kernel
  pub memory : m'.disk.memory ≡ m.disk.memory

module _ {ports : Ports} {registers : Registers} (laws : HasMasks ports) (apart : DiskApart laws)
    (symbols : Symbols) (range : InRange symbols) (fuel : ℕ) (platform : PlatformInfo)
    (signature : ℕ → ℕ) (m : Machine ports registers) where
  -- The machine in front of `ATAInit`.
  before_disk : Machine ports registers
  before_disk =
      init_syscalls symbols
        (init_timer symbols platform signature (init_keyboard symbols (init_controllers symbols m)))

  -- The machine after `PagingInit`, where the search for drives ended so.
  after_disk : (valid : ℕ → ℕ) → ports.Device → Machine ports registers
  after_disk valid d =
      let m1 = before_disk in
      let k = m.kernel in
      record m1 {
        drives = λ i. record (m.drives i) { is_valid = valid i };
        interrupts = record m1.interrupts {
          idt =
              set_interrupt_descriptor page_fault_excp_num symbols.page_fault_handler 1 (
                set_interrupt_descriptor ata_interrupt_num symbols.ata_handler 1 m1.interrupts.idt);
        };
        disk = record m1.disk {
          device = d;
          queue = record m1.disk.queue { head_index = 0; size = 0 };
        };
        cr3 =
            let current = k.processes k.ring.current_process in
            let memory = k.process_memories current.process_memory in memory.l4_page_table_base;
      }

  before_disk-device : before_disk.disk.device ≡ enabled laws m.disk.device
  unfolding before_disk init_syscalls init_timer init_keyboard init_controllers kbc_init hpet_init
      syscall_init
  before_disk-device = refl

  -- The handlers and the marks after `idtInit`.
  first_handlers : ℕ → ℕ
  first_handlers n =
      if n == double_fault_excp_num
      then symbols.double_fault_handler
      else if n == general_protection_fault_excp_num
      then symbols.general_protection_fault_handler
      else symbols.default_handler

  first_present : ℕ → ℕ
  first_present n =
      if n == double_fault_excp_num
      then 1
      else if n == general_protection_fault_excp_num
      then 1
      else 0

  after_disk-Wired :
      (valid : ℕ → ℕ) (d : ports.Device)
      → Wired (after_disk valid d).interrupts.idt (handler_of symbols) present_of
  unfolding after_disk before_disk init_syscalls init_timer init_keyboard init_controllers kbc_init
      hpet_init syscall_init first_handlers first_present
  after_disk-Wired valid d =
      let i0 =
        idt_init symbols.default_handler symbols.double_fault_handler
          symbols.general_protection_fault_handler symbols.idt m.interrupts in
      let t1 = set_interrupt_descriptor kbc_interrupt_num symbols.kbc_handler 1 i0.idt in
      let t2 = set_interrupt_descriptor hpet_interrupt_num symbols.hpet_handler 1 t1 in
      let t3 = set_interrupt_descriptor syscall_interrupt_num symbols.syscall_handler 1 t2 in
      let t4 = set_interrupt_descriptor ata_interrupt_num symbols.ata_handler 1 t3 in
      let h1 = update first_handlers kbc_interrupt_num symbols.kbc_handler in
      let h2 = update h1 hpet_interrupt_num symbols.hpet_handler in
      let h3 = update h2 syscall_interrupt_num symbols.syscall_handler in
      let h4 = update h3 ata_interrupt_num symbols.ata_handler in
      let p1 = update first_present kbc_interrupt_num 1 in
      let p2 = update p1 hpet_interrupt_num 1 in
      let p3 = update p2 syscall_interrupt_num 1 in
      let p4 = update p3 ata_interrupt_num 1 in
      let w1 =
        set-Wired kbc_interrupt_num symbols.kbc_handler i0.idt first_handlers first_present
          range.kbc (idt_init-Wired symbols range m.interrupts) in
      let w2 = set-Wired hpet_interrupt_num symbols.hpet_handler t1 h1 p1 range.hpet w1 in
      let w3 = set-Wired syscall_interrupt_num symbols.syscall_handler t2 h2 p2 range.syscall w2 in
      let w4 = set-Wired ata_interrupt_num symbols.ata_handler t3 h3 p3 range.ata w3 in
      set-Wired page_fault_excp_num symbols.page_fault_handler t4 h4 p4 range.page_fault w4

  after_disk-run :
      (valid : ℕ → ℕ) (d : ports.Device)
      → init_drives ports fuel 4 0 (λ i. (m.drives i).is_valid) (enabled laws m.disk.device)
        ≡ some (valid, d)
      → init_devices symbols fuel platform signature m ≡ some (after_disk valid d)
  unfolding init_devices init_disk ata_init paging_init after_disk before_disk init_syscalls
      init_timer init_keyboard init_controllers kbc_init hpet_init syscall_init
  after_disk-run valid d e = rw (e, ata_init, init_disk) refl

  -- Where the search for drives ends within the fuel, the set-up of the devices returns, and leaves them
  -- ready.
  pub init_devices-IsReady :
      (valid : ℕ → ℕ) (d : ports.Device)
      → init_drives ports fuel 4 0 (λ i. (m.drives i).is_valid) (enabled laws m.disk.device)
        ≡ some (valid, d)
      → (m' : Machine ports registers) × (init_devices symbols fuel platform signature m ≡ some m')
        × IsReady laws symbols valid m m'
  unfolding after_disk before_disk init_syscalls init_timer init_keyboard init_controllers kbc_init
      hpet_init syscall_init
  init_devices-IsReady valid d e = (
    after_disk valid d,
    after_disk-run valid d e,
    record {
      wired = after_disk-Wired valid d;
      masks =
          let p =
            search-TimerAndKeyboard laws apart fuel (λ i. (m.drives i).is_valid)
              (enabled laws m.disk.device) (enabled-TimerAndKeyboard laws m.disk.device) in
          rw e at p;
      empty = refl;
      marked = λ i. refl;
      page_table = refl;
      kernel = refl;
      memory = refl;
    },
  )

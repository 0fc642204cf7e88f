-- ===== src/Boot/Tests.antt =====
-- The first steps on a map of sixteen pages, and the devices of a machine without a disk.
use amaterasu.Base.{◌+◌, ◌≡◌, inr, refl, arith, some}
use amaterasu.Pic.Tests.{two_masks, two_masks-HasMasks, all_masked}
use amaterasu.Hpet.Tests.{plain}
use amaterasu.Ata.{primary, secondary}
use amaterasu.Ata.Init.{io_base, init_drives, ata_identify}
use amaterasu.Machine.{Machine}
use amaterasu.Machine.Tests.{small_machine}
use amaterasu.Boot.Start.{Symbols, PlatformInfo, init_devices}
use amaterasu.Boot.Interrupts.{DiskApart, enabled}
use amaterasu.Boot.Devices.{IsReady, init_devices-IsReady}
use amaterasu.PhysicalMemory.{Buddy}
use amaterasu.PhysicalMemory.FreeLists.{FreeBlocks}
use amaterasu.PhysicalMemory.Tests.{sixteen_pages}
use amaterasu.KHeap.{Heap}
use amaterasu.KHeap.Tests.{full}
use amaterasu.Boot.{memory_init}
use amaterasu.Boot.Memory.{IsBooted, memory_init-IsBooted}

memory_init-IsBooted_example :
    (b' : Buddy) × (h' : Heap) × (free : FreeBlocks) × (memory_init sixteen_pages.info
        sixteen_pages.memory_map sixteen_pages full
      ≡ some (b', h'))
    × IsBooted sixteen_pages.info sixteen_pages.memory_map b' h' free
memory_init-IsBooted_example =
    memory_init-IsBooted sixteen_pages.info sixteen_pages.memory_map sixteen_pages full
      (omega arith) (λ o h. refl) (inr refl) (omega arith) (λ o h. refl) (λ x h. refl)

two_masks-DiskApart : DiskApart two_masks-HasMasks
unfolding two_masks-HasMasks
two_masks-DiskApart = record {
  short_ready = λ port d up. refl;
  short_mask = λ port q d. refl;
  write_ready = λ bus k v d lt up. refl;
  write_mask = λ bus k v q d lt.
      elim bus
        as (λ b.
          two_masks-HasMasks.mask q (two_masks.out_byte (io_base two_masks b + k) v d)
          ≡ two_masks-HasMasks.mask q d) [ primary ↦ ground arith | secondary ↦ ground arith ];
}

abbrev symbols : Symbols
symbols = record {
  default_handler = 1000;
  double_fault_handler = 1100;
  general_protection_fault_handler = 1200;
  kbc_handler = 1300;
  hpet_handler = 1400;
  syscall_handler = 1500;
  ata_handler = 1600;
  page_fault_handler = 1700;
  gdt = 4096;
  tss = 8192;
  idt = 12288;
}

abbrev platform : PlatformInfo
platform = record { fb = small_machine.screen; rsdp_address = 2048 }

-- No drive answers.
no_drive : (d : two_masks.Device) → init_drives two_masks 1 4 0 (λ i. 0) d ≡ some (λ i. 0, d)
unfolding init_drives ata_identify
no_drive d = refl

init_devices-IsReady_example :
    (m' : Machine two_masks plain) × (init_devices symbols 1 platform (λ i. 0) small_machine
      ≡ some m')
    × IsReady two_masks-HasMasks symbols (λ i. 0) small_machine m'
init_devices-IsReady_example =
    init_devices-IsReady two_masks-HasMasks two_masks-DiskApart symbols (omega arith) 1 platform
      (λ i. 0) small_machine (λ i. 0) (enabled two_masks-HasMasks all_masked)
      (no_drive (enabled two_masks-HasMasks all_masked))

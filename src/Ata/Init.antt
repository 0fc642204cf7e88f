-- ===== src/Ata/Init.antt =====
-- `ATAIdentify` and `ATAInit` of ata.c: which of the four drives answer.
pub mod Search
use amaterasu.Base.{
  ℕ, zero, suc, ◌+◌, Bool, false, not, ◌&&◌, ◌||◌, Option, none, some, ◌==◌, if◌then◌else◌, bit_and,
  update,
}
use amaterasu.X86.{shr}
use amaterasu.X86.Ports.{Ports}
use amaterasu.Interrupt.{Idt, set_interrupt_descriptor}
use amaterasu.Ata.{
  BusSelector, DriveSelector, primary, secondary, master, slave, Disk, ata_interrupt_num,
  ata_io_base_primary, ata_io_base_secondary, status_register_bsy, status_register_drq,
  status_register_err,
}

module _ (ports : Ports) where
  open ports use {Device, in_byte, in_short, out_byte}

  abbrev pub io_base : BusSelector → ℕ
  io_base primary = ata_io_base_primary
  io_base secondary = ata_io_base_secondary

  abbrev pub drive_byte : DriveSelector → ℕ
  drive_byte master = 0xa0
  drive_byte slave = 0xb0

  -- `while (ATA_STATUS_REGISTER_BSY(status) != 0)`
  wait_idle : (fuel io_base status : ℕ) → Device → Option (ℕ × Device)
  wait_idle zero io_base status d = none
  wait_idle (suc fuel) io_base status d =
      let (status', d') = in_byte (io_base + 7) d in
      let rest = wait_idle fuel io_base status' d' in
      if status_register_bsy status == 0 then some (status, d) else rest

  -- `while (ATA_STATUS_REGISTER_DRQ(status) == 0 && ATA_STATUS_REGISTER_ERR(status) == 0)`
  wait_data : (fuel io_base status : ℕ) → Device → Option (ℕ × Device)
  wait_data zero io_base status d = none
  wait_data (suc fuel) io_base status d =
      let (status', d') = in_byte (io_base + 7) d in
      let rest = wait_data fuel io_base status' d' in
      if (status_register_drq status == 0) && (status_register_err status == 0)
      then rest
      else some (status, d)

  -- `ATAIdentify` after its first look at the status: whether the device is a disk that answers.
  pub identify_rest : (fuel base status : ℕ) → Device → Option (Bool × Device)
  identify_rest fuel base status d = elim (wait_idle fuel base status d) [
    | none ↦ none
    | some (idle, d1) ↦
        let (lba_mid, d2) = in_byte (base + 4) d1 in
        let (lba_high, d3) = in_byte (base + 5) d2 in
        if not (lba_mid == 0)
        then some (false, d2)
        else if not (lba_high == 0)
        then some (false, d3)
        else elim (wait_data fuel base idle d3) [
          | none ↦ none
          | some (last, d4) ↦ some (status_register_err last == 0, d4)
        ]
  ]

  -- `ATAIdentify`
  unfoldable pub ata_identify :
      (fuel : ℕ) → BusSelector → DriveSelector → Device → Option (Bool × Device)
  ata_identify fuel bus drive d =
      let base = io_base bus in
      let d1 = out_byte (base + 6) (drive_byte drive) d in
      let d2 = out_byte (base + 2) 0x0 d1 in
      let d3 = out_byte (base + 3) 0x0 d2 in
      let d4 = out_byte (base + 4) 0x0 d3 in
      let d5 = out_byte (base + 5) 0x0 d4 in
      let d6 = out_byte (base + 7) 0xec d5 in
      let (status, d7) = in_byte (base + 7) d6 in
      if (status == 0x0) || (status == 0xff)
      then some (false, d7)
      else identify_rest fuel base status d7

  -- The loop of `ATAInit` that reads what the disk says of itself and drops it.
  pub discard_words : (rounds port : ℕ) → Device → Device
  discard_words zero port d = d
  discard_words (suc rounds) port d = discard_words rounds port (in_short port d).1

  abbrev bus_of : (drive : ℕ) → BusSelector
  bus_of drive = if bit_and drive 1 == 0 then primary else secondary

  abbrev drive_of : (drive : ℕ) → DriveSelector
  drive_of drive = if bit_and (shr drive 1) 1 == 0 then master else slave

  -- The loop of `ATAInit` over the drives; `valid` is the `isValid` of each drive.
  unfoldable pub init_drives :
      (fuel rounds drive : ℕ) → (ℕ → ℕ) → Device → Option ((ℕ → ℕ) × Device)
  init_drives fuel zero drive valid d = some (valid, d)
  init_drives fuel (suc rounds) drive valid d =
      elim (ata_identify fuel (bus_of drive) (drive_of drive) d) [
        | none ↦ none
        | some (active, d1) ↦
            if active
            then init_drives fuel rounds (drive + 1) (update valid drive 1)
                (discard_words 256 (io_base (bus_of drive)) d1)
            else init_drives fuel rounds (drive + 1) valid d1
      ]

  -- `ATAInit`; `handler` is the address of `ATAHandlerASM`.
  unfoldable pub ata_init :
      (fuel handler : ℕ) → (ℕ → ℕ) → Idt → Disk ports → Option ((ℕ → ℕ) × Idt × Disk ports)
  ata_init fuel handler valid idt s =
      let emptied = record s.queue { head_index = 0; size = 0 } in
      elim (init_drives fuel 4 0 valid s.device) [
        | none ↦ none
        | some (valid', d) ↦ some (
          valid',
          set_interrupt_descriptor ata_interrupt_num handler 1 idt,
          record s { device = d; queue = emptied },
        )
      ]

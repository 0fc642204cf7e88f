-- ===== src/Hpet.antt =====
-- hpet.c and hpet.h: the timer. Its registers are 64-bit words at addresses of a device that the
-- repository does not implement: a parameter.
pub mod Timer
pub mod Tests
use amaterasu.Base.{ℕ, ◌+◌, ◌*◌, ◌/◌, ◌%◌, Option, none, some}
use amaterasu.Base.Bits.Fields.{get, put}
use amaterasu.Util.{u64}
use amaterasu.X86.Ports.{Ports}
use amaterasu.Pic.{enable_interrupt_on_pic, send_end_of_interrupt}
use amaterasu.Interrupt.{Idt, set_interrupt_descriptor}
use amaterasu.Acpi.{word64, sdth_bytes, address_offset, find_sdt}
use amaterasu.Scheduler.{Processes, schedule}

abbrev pub us_to_fs : ℕ
us_to_fs = 1000000000

abbrev pub ms_to_us : ℕ
ms_to_us = 1000

abbrev pub gcidr_offset : ℕ
gcidr_offset = 0

abbrev pub gcr_offset : ℕ
gcr_offset = 0x10

abbrev pub mcr_offset : ℕ
mcr_offset = 0xf0

abbrev pub tnccr_offset : ℕ
tnccr_offset = 0x100

abbrev pub tncr_offset : ℕ
tncr_offset = 0x108

abbrev pub hpet_interrupt_num : ℕ
hpet_interrupt_num = 32

-- The offset of `BaseAddress` in `struct HPETTable`.
abbrev pub base_address_offset : ℕ
base_address_offset = sdth_bytes + 4

-- The fields of `union GCIDR` and `union GCR`.
abbrev pub counter_clk_period : ℕ → ℕ
counter_clk_period raw = get 32 32 raw

abbrev pub enable_cnf : ℕ → ℕ → ℕ
enable_cnf v raw = put 0 1 v raw

abbrev pub leg_rt_cnf : ℕ → ℕ → ℕ
leg_rt_cnf v raw = put 1 1 v raw

-- The fields of `union TNCCR`.
abbrev pub tn_val_set_cnf : ℕ → ℕ → ℕ
tn_val_set_cnf v raw = put 6 1 v raw

-- The assignments of `HPETInit` to `union GCR` and `union TNCCR`.
pub stopped : (gcr : ℕ) → ℕ
stopped gcr = leg_rt_cnf 1 (enable_cnf 0 gcr)

pub periodic : (tnccr : ℕ) → ℕ
periodic tnccr =
    let t1 = put 2 1 1 (put 1 1 0 tnccr) in
    let t2 = tn_val_set_cnf 0 (put 3 1 1 t1) in
    let t3 = put 14 1 0 (put 8 1 0 t2) in put 16 16 0 (put 7 1 0 (put 0 1 0 t3))

-- The registers, by address.
pub record Registers : Type 1 where
  pub Timer : Type 0
  pub read : ℕ → Timer → ℕ × Timer
  pub write : ℕ → ℕ → Timer → Timer

-- The globals of hpet.c.
pub record Hpet : Type 0 where
  pub hpet_base_address : ℕ
  pub hpet_clk_period : ℕ

module _ (registers : Registers) where
  open registers use {Timer, read, write}

  -- A register is read, changed and written.
  pub change : (address : ℕ) → (ℕ → ℕ) → Timer → Timer
  change address set t = let (raw, t') = read address t in write address (set raw) t'

  -- The part of `HPETInit` on the registers: the clock period that it reads.
  pub init_registers : (base : ℕ) → Timer → ℕ × Timer
  init_registers base t =
      let t1 = change (base + gcr_offset) stopped t in
      let (gcidr, t2) = read (base + gcidr_offset) t1 in
      (counter_clk_period gcidr, change (base + tnccr_offset) periodic t2)

  -- `HPETInit`; `signature` is the string "HPET", and `handler` the address of `HPETHandlerASM`.
  unfoldable pub hpet_init :
      (ports : Ports) (memory : ℕ → ℕ) (xsdt : ℕ) (signature : ℕ → ℕ) (handler : ℕ)
      → Idt
      → ports.Device
      → Timer
      → Hpet × Idt × ports.Device × Timer
  hpet_init ports memory xsdt signature handler idt d t =
      let base =
        word64 memory (find_sdt memory xsdt signature + base_address_offset + address_offset) in
      let (period, t') = init_registers base t in
      (
        record { hpet_base_address = base; hpet_clk_period = period },
        set_interrupt_descriptor hpet_interrupt_num handler 1 idt,
        enable_interrupt_on_pic ports hpet_interrupt_num d,
        t',
      )

  -- `HPETStartPeriodicTimer`; the division by a period of 0 faults.
  pub hpet_start_periodic_timer : (us : ℕ) → Hpet → Timer → Timer
  hpet_start_periodic_timer us h t =
      let base = h.hpet_base_address in
      let t1 = change (base + tnccr_offset) (tn_val_set_cnf 1) t in
      let clock_count = us * us_to_fs % u64 / h.hpet_clk_period in
      let t2 = write (base + tncr_offset) clock_count t1 in
      let t3 = write (base + mcr_offset) 0 t2 in change (base + gcr_offset) (enable_cnf 1) t3

  -- `SCHEDULER_PERIOD` and `SchedulerStart`
  abbrev pub scheduler_period : ℕ
  scheduler_period = 5 * ms_to_us

  pub scheduler_start : Hpet → Timer → Timer
  scheduler_start h t = hpet_start_periodic_timer scheduler_period h t

-- `HPETHandler`, up to the switch of processes in `Schedule`.
pub hpet_handler :
    (ports : Ports) (fuel : ℕ) → Processes → ports.Device → Option (Processes × ports.Device)
hpet_handler ports fuel s d = elim (schedule fuel s) [
  | none ↦ none
  | some s' ↦ some (s', send_end_of_interrupt ports hpet_interrupt_num d)
]

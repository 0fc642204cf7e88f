-- ===== src/Ata.antt =====
-- ata.c and ata.h: the disk driver, a bounded queue of requests and the commands it sends through the
-- ports. An `int` that the source returns as -1 is `none`; a loop that waits for the device runs on
-- fuel, and `none` around a result means that it ran out.
pub mod Init
pub mod Requests
pub mod Idle
pub mod Transfer
pub mod Failure
mod Tests
use amaterasu.Base.{
  ℕ, zero, suc, ◌+◌, ◌-◌, ◌*◌, ◌/◌, ◌%◌, ◌^◌, Bool, true, false, not, ◌&&◌, ◌||◌, Option, none,
  some, List, [], ◌∷◌, ◌++◌, ◌==◌, leb, if◌then◌else◌, bit_and, bit_or, update,
}
use amaterasu.X86.{shr}
use amaterasu.X86.Ports.{Ports}
use amaterasu.Interrupt.{Idt, set_interrupt_descriptor}
use amaterasu.Pic.{send_end_of_interrupt}

abbrev pub ata_io_base_primary : ℕ
ata_io_base_primary = 0x1f0

abbrev pub ata_control_base_primary : ℕ
ata_control_base_primary = 0x3f6

abbrev pub ata_io_base_secondary : ℕ
ata_io_base_secondary = 0x170

abbrev pub status_register_err : ℕ → ℕ
status_register_err status = bit_and status 0x1

abbrev pub status_register_drq : ℕ → ℕ
status_register_drq status = bit_and (shr status 3) 0x1

abbrev pub status_register_df : ℕ → ℕ
status_register_df status = bit_and (shr status 5) 0x1

abbrev pub status_register_bsy : ℕ → ℕ
status_register_bsy status = bit_and (shr status 7) 0x1

abbrev pub ata_interrupt_num : ℕ
ata_interrupt_num = 46

abbrev pub ata_request_queue_capacity : ℕ
ata_request_queue_capacity = 10

pub data BusSelector : Type 0 where
  primary : BusSelector
  secondary : BusSelector

pub data DriveSelector : Type 0 where
  master : DriveSelector
  slave : DriveSelector

-- `struct ATARequestQueueEntry`; the buffer and the process are addresses.
pub record Request : Type 0 where
  pub is_write : ℕ
  pub lba : ℕ
  pub size_of_bytes : ℕ
  pub is_complete : ℕ
  pub buffer : ℕ
  pub process : ℕ

-- `struct ATARequestQueue`
pub record RequestQueue : Type 0 where
  pub head_index : ℕ
  pub size : ℕ
  pub queue_body : ℕ → Request

-- `ATARequestQueuePush`: the index of the new entry, or `none` for -1.
unfoldable pub ata_request_queue_push :
    (is_write lba size_of_bytes buffer current_process : ℕ) → RequestQueue → Option ℕ × RequestQueue
ata_request_queue_push is_write lba size_of_bytes buffer current_process q =
    let pushed_index = (q.head_index + q.size) % ata_request_queue_capacity in
    let entry : Request = record {
      is_write = is_write;
      lba = lba;
      size_of_bytes = size_of_bytes;
      is_complete = 0;
      buffer = buffer;
      process = current_process;
    } in
    if q.size == ata_request_queue_capacity then (none, q) else (
      some pushed_index,
      record q { size = q.size + 1; queue_body = update q.queue_body pushed_index entry },
    )

-- `ATARequestQueueFront`, the entry that the pointer points to.
unfoldable pub ata_request_queue_front : RequestQueue → Request
ata_request_queue_front q = q.queue_body q.head_index

-- `ATARequestComplete`
pub ata_request_complete : (index : ℕ) → RequestQueue → ℕ
ata_request_complete index q = (q.queue_body index).is_complete

-- `ATARequestQueuePop`
unfoldable pub ata_request_queue_pop : RequestQueue → RequestQueue
ata_request_queue_pop q = if q.size == 0 then q else record q {
  head_index = (q.head_index + 1) % ata_request_queue_capacity;
  size = q.size - 1;
}

module _ (ports : Ports) where
  open ports use {Device, in_byte, in_short, out_byte}

  -- The driver's part of the machine: the device, the queue, the memory, what has been printed, and
  -- the process that runs.
  pub record Disk : Type 0 where
    pub device : Device
    pub queue : RequestQueue
    pub memory : ℕ → ℕ
    pub printed : List (List ℕ)
    pub current_process : ℕ

  -- The test of the loop of `ATAPollingUntilReady`.
  abbrev pub keep_polling : (status : ℕ) → Bool
  keep_polling status =
      (not (status_register_bsy status == 0) || (status_register_drq status == 0))
      && ((status_register_err status == 0) && (status_register_df status == 0))

  unfoldable pub poll_from : (fuel status : ℕ) → Device → Option (ℕ × Device)
  poll_from zero status d = none
  poll_from (suc fuel) status d =
      let (status', d') = in_byte (ata_io_base_primary + 7) d in
      let rest = poll_from fuel status' d' in if keep_polling status then rest else some (status, d)

  -- `ATAPollingUntilReady(ATA_IO_BASE_PRIMARY)`, whose result every caller drops.
  unfoldable pub ata_polling_until_ready : (fuel : ℕ) → Device → Option (Bool × Device)
  ata_polling_until_ready fuel d =
      let (status, d1) = in_byte (ata_io_base_primary + 7) d in
      elim (poll_from fuel status d1) [
        | none ↦ none
        | some (last, d2) ↦
            some (not ((status_register_err last == 1) || (status_register_df last == 1)), d2)
      ]

  -- The sectors that hold that many bytes.
  abbrev pub sector_count : (size_of_bytes : ℕ) → ℕ
  sector_count size_of_bytes =
      if size_of_bytes % 512 == 0 then size_of_bytes / 512 else size_of_bytes / 512 + 1

  -- The port writes of `ATASendRequest` for a read.
  unfoldable pub send_read : (lba size_of_bytes : ℕ) → Device → Device
  send_read lba size_of_bytes d =
      let d1 = out_byte (ata_io_base_primary + 6) (bit_or 0xe0 (bit_and (shr lba 24) 0x0f)) d in
      let d2 = out_byte ata_control_base_primary 0x0 d1 in
      let d3 = out_byte (ata_io_base_primary + 2) (sector_count size_of_bytes % 2 ^ 8) d2 in
      let d4 = out_byte (ata_io_base_primary + 3) (bit_and lba 0xff) d3 in
      let d5 = out_byte (ata_io_base_primary + 4) (shr lba 8 % 2 ^ 8) d4 in
      let d6 = out_byte (ata_io_base_primary + 5) (shr lba 16 % 2 ^ 8) d5 in
      out_byte (ata_io_base_primary + 7) 0x20 d6

  -- "write is not supported\n"
  abbrev pub not_supported : List ℕ
  not_supported =
      119 ∷ 114 ∷ 105 ∷ 116 ∷ 101 ∷ 32 ∷ 105 ∷ 115 ∷ 32 ∷ 110 ∷ 111 ∷ 116 ∷ 32 ∷ 115 ∷ 117 ∷ 112
      ∷ 112 ∷ 111 ∷ 114 ∷ 116 ∷ 101 ∷ 100 ∷ 10 ∷ []

  -- "ERROR\n"
  abbrev pub error_text : List ℕ
  error_text = 69 ∷ 82 ∷ 82 ∷ 79 ∷ 82 ∷ 10 ∷ []

  -- `ATASendRequest`
  unfoldable pub ata_send_request : (index : ℕ) → Disk → Disk
  ata_send_request index s =
      let request = s.queue.queue_body index in
      if request.is_write == 0
      then record s { device = send_read request.lba request.size_of_bytes s.device }
      else record s { printed = s.printed ++ not_supported ∷ [] }

  -- The transfer loop of `ATARead`; `rounds` is `(SizeOfBytes + 1) / 2 - i`.
  unfoldable pub transfer :
      (rounds i size_of_bytes buffer : ℕ) → (ℕ → ℕ) → Device → (ℕ → ℕ) × Device
  transfer zero i size_of_bytes buffer memory d = (memory, d)
  transfer (suc rounds) i size_of_bytes buffer memory d =
      let (word, d') = in_short ata_io_base_primary d in
      let memory1 = update memory (buffer + 2 * i) (bit_and word 0xff) in
      let memory2 = update memory1 (buffer + 2 * i + 1) (bit_and (shr word 8) 0xff) in
      let keeps = not (i == (size_of_bytes + 1) / 2 - 1) || (size_of_bytes % 2 == 0) in
      transfer rounds (i + 1) size_of_bytes buffer (if keeps then memory2 else memory1) d'

  -- What `ATARead` does once the request at the front has been answered.
  unfoldable pub complete_read : Disk → Option ℕ × Disk
  complete_read s =
      let (status, d1) = in_byte (ata_io_base_primary + 7) s.device in
      let request = ata_request_queue_front s.queue in
      let (memory2, d2) =
        transfer ((request.size_of_bytes + 1) / 2) 0 request.size_of_bytes request.buffer s.memory
          d1 in
      let head = s.queue.head_index in
      let marked = record s.queue {
        queue_body = update s.queue.queue_body head (record request { is_complete = 1 });
      } in
      let popped = ata_request_queue_pop marked in
      let s1 =
        if request.is_write == 0
        then record s { device = d2; memory = memory2; queue = popped }
        else record s { device = d1; queue = popped } in
      let s2 = if leb 1 popped.size then ata_send_request popped.head_index s1 else s1 in
      if (status_register_err status == 0) && (status_register_df status == 0)
      then (some request.size_of_bytes, s2)
      else (none, record s { device = d1; printed = s.printed ++ error_text ∷ [] })

  -- `ATARead`. `sleep` stands for the switch to the other processes until the interrupt handler of the
  -- disk wakes this one.
  unfoldable pub ata_read :
      (sleep : Disk → Disk) (fuel lba size_of_bytes buffer : ℕ) (enable_poll : Bool)
      → Disk
      → Option (Option ℕ × Disk)
  ata_read sleep fuel lba size_of_bytes buffer enable_poll s =
      let (pushed, q) =
        ata_request_queue_push 0 lba size_of_bytes buffer s.current_process s.queue in
      let s1 = record s { queue = q } in
      elim pushed [
        | none ↦ some (none, s1)
        | some pushed_index ↦
            let s2 = if q.size == 1 then ata_send_request pushed_index s1 else s1 in
            if enable_poll
            then elim (ata_polling_until_ready fuel s2.device) [
              | none ↦ none
              | some (ready, d) ↦ some (complete_read (record s2 { device = d }))
            ]
            else some (complete_read (sleep s2))
      ]

  -- What `ATARead` does before it waits: whether the queue takes the request, and the driver's part then.
  pub begin_read : (lba size_of_bytes buffer : ℕ) → Disk → Bool × Disk
  begin_read lba size_of_bytes buffer s =
      let (pushed, q) =
        ata_request_queue_push 0 lba size_of_bytes buffer s.current_process s.queue in
      let s1 : Disk = record s { queue = q } in
      elim pushed [
        | none ↦ (false, s1)
        | some pushed_index ↦ (true, if q.size == 1 then ata_send_request pushed_index s1 else s1)
      ]

  -- `ATAHandler`: the process of the request at the front runs again.
  pub ata_handler : (wakeup : ℕ → Disk → Disk) → Disk → Disk
  ata_handler wakeup s =
      let woken = wakeup (ata_request_queue_front s.queue).process s in
      record woken { device = send_end_of_interrupt ports ata_interrupt_num woken.device }

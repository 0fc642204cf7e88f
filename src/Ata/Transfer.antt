-- ===== src/Ata/Transfer.antt =====
-- The transfer loop of `ATARead`, and a whole read on an idle disk.
use native.Mathlib.Decide.{ℕ_discrete}
use amaterasu.Base.{
  ℕ, zero, suc, ◌+◌, ◌-◌, ◌*◌, ◌/◌, ◌%◌, ◌<◌, ◌≡◌, refl, ap, ◌∙◌, Bool, true, not, ◌&&◌, ◌||◌,
  Option, some, ◌==◌, leb, ltb, if◌then◌else◌, bit_and, update, arith,
}
use amaterasu.X86.{shr}
use amaterasu.X86.Ports.{Ports}
use amaterasu.Ata.{
  Disk, transfer, complete_read, ata_read, ata_polling_until_ready, send_read, ata_io_base_primary,
  ata_request_queue_pop, ata_request_queue_front, status_register_err, status_register_df,
}
use amaterasu.Ata.Requests.{new_request}
use amaterasu.Ata.Idle.{one_waits, front_idle, ata_read-idle}

-- Byte `j` of a stream of 16-bit words, the low byte of each word first.
unfoldable pub byte_of : (words : ℕ → ℕ) (j : ℕ) → ℕ
byte_of words j = bit_and (shr (words (j / 2)) (8 * (j % 2))) 0xff

-- From `states 0` on, the data port delivers these words, one for each read.
pub record Delivers (ports : Ports) (words : ℕ → ℕ) (states : ℕ → ports.Device) : Type 0 where
  pub step : (k : ℕ) → ports.in_short ata_io_base_primary (states k) ≡ (words k, states (k + 1))

abbrev pub filled : (buffer from size : ℕ) (words memory : ℕ → ℕ) → ℕ → ℕ
filled buffer from size words memory a =
    if leb (buffer + from) a && ltb a (buffer + size) then byte_of words (a - buffer) else memory a

module _ (ports : Ports) (words : ℕ → ℕ) (states : ℕ → ports.Device)
    (v : Delivers ports words states) where
  abbrev stored : (i size buffer : ℕ) (memory : ℕ → ℕ) → ℕ → ℕ
  stored i size buffer memory =
      let memory1 = update memory (buffer + 2 * i) (bit_and (words i) 0xff) in
      let memory2 = update memory1 (buffer + 2 * i + 1) (bit_and (shr (words i) 8) 0xff) in
      if not (i == (size + 1) / 2 - 1) || (size % 2 == 0) then memory2 else memory1

  transfer_step :
      (rounds i size buffer : ℕ) (memory : ℕ → ℕ)
      → transfer ports (suc rounds) i size buffer memory (states i)
        ≡ transfer ports rounds (i + 1) size buffer (stored i size buffer memory) (states (i + 1))
  unfolding transfer
  transfer_step rounds i size buffer memory = rw (v.step i)

  even_byte : (i : ℕ) → byte_of words (2 * i) ≡ bit_and (words i) 0xff
  unfolding byte_of
  even_byte i =
      let e : 2 * i / 2 ≡ i = omega arith in
      let e' : 8 * (2 * i % 2) ≡ 0 = omega arith in
      let e'' : words i / 1 ≡ words i = omega arith in
      rw (e, e') (ap (λ (t : ℕ). bit_and t 0xff) e'')

  odd_byte : (i : ℕ) → byte_of words (2 * i + 1) ≡ bit_and (shr (words i) 8) 0xff
  unfolding byte_of
  odd_byte i =
      let e : (2 * i + 1) / 2 ≡ i = omega arith in
      let e' : 8 * ((2 * i + 1) % 2) ≡ 8 = omega arith in rw (e, e')

  stored-filled :
      (i size buffer : ℕ) (memory : ℕ → ℕ) (a : ℕ)
      → i < (size + 1) / 2
      → filled buffer (2 * (i + 1)) size words (stored i size buffer memory) a
        ≡ filled buffer (2 * i) size words memory a
  stored-filled i size buffer memory a lt = elim (ℕ_discrete a (buffer + 2 * i)) [
    | yes e ↦
        let at : buffer + 2 * i - buffer ≡ 2 * i = omega arith in
        let low : 2 * i < size = omega arith in rw (e, at, even_byte i) (ground arith)
    | no ne ↦ elim (ℕ_discrete a (buffer + 2 * i + 1)) [
      | yes e ↦
          let at : buffer + 2 * i + 1 - buffer ≡ 2 * i + 1 = omega arith in
          rw (e, at, odd_byte i) (ground arith)
      | no ne' ↦ ground arith
    ]
  ]

  pub transfer_lem :
      (rounds i size buffer : ℕ) (memory : ℕ → ℕ)
      → rounds + i ≡ (size + 1) / 2
      → let (memory', d') = transfer ports rounds i size buffer memory (states i) in
        (d' ≡ states (rounds + i))
        × ((a : ℕ) → memory' a ≡ filled buffer (2 * i) size words memory a)
  unfolding transfer
  transfer_lem zero i size buffer memory e = (ap states (omega arith), λ a. ground arith)
  transfer_lem (suc rounds) i size buffer memory e =
      let (last, rest) =
        transfer_lem rounds (i + 1) size buffer (stored i size buffer memory) (omega arith) in
      let next : rounds + (i + 1) ≡ suc rounds + i = omega arith in
      rw (transfer_step rounds i size buffer memory)
        (last ∙ ap states next, λ a. rest a ∙ stored-filled i size buffer memory a (omega arith))

  -- The disk after a read of `size` bytes into `buffer` that it answered: the buffer holds the bytes that
  -- the data port delivered, and no request waits.
  pub record IsRead (size buffer : ℕ) (s s' : Disk ports) : Type 0 where
    pub device : s'.device ≡ states ((size + 1) / 2)
    pub memory : (a : ℕ) → s'.memory a ≡ filled buffer 0 size words s.memory a
    pub none_waits : s'.queue.size ≡ 0
    pub printed : s'.printed ≡ s.printed

  complete_read_lem :
      (lba size buffer process status : ℕ) (s : Disk ports)
      → s.queue.size ≡ 1
      → ata_request_queue_front s.queue ≡ new_request 0 lba size buffer process
      → ports.in_byte (ata_io_base_primary + 7) s.device ≡ (status, states 0)
      → status_register_err status ≡ 0
      → status_register_df status ≡ 0
      → let (result, s') = complete_read ports s in (result ≡ some size) × IsRead size buffer s s'
  unfolding complete_read ata_request_queue_pop
  complete_read_lem lba size buffer process status s one front answer err df =
      let (last, rest) = transfer_lem ((size + 1) / 2) 0 size buffer s.memory (omega arith) in
      rw (answer, err, df, front, one)
        (
          refl,
          record {
            device = last ∙ ap states (omega arith);
            memory = rest;
            none_waits = refl;
            printed = refl;
          },
        )

  -- `ATARead` with polling on an idle disk, whose device becomes ready without an error and then delivers
  -- its words: it returns the number of bytes, the buffer holds these bytes and the rest of the memory is
  -- as it was, and the queue is empty again.
  pub ata_read_lem :
      (sleep : Disk ports → Disk ports) (fuel lba size buffer status : ℕ) (ready : Bool)
      (d : ports.Device) (s : Disk ports)
      → s.queue.size ≡ 0
      → s.queue.head_index < 10
      → ata_polling_until_ready ports fuel (send_read ports lba size s.device) ≡ some (ready, d)
      → ports.in_byte (ata_io_base_primary + 7) d ≡ (status, states 0)
      → status_register_err status ≡ 0
      → status_register_df status ≡ 0
      → (s' : Disk ports) × (ata_read ports sleep fuel lba size buffer true s
          ≡ some (some size, s'))
        × IsRead size buffer s s'
  ata_read_lem sleep fuel lba size buffer status ready d s empty head polled answer err df =
      let sent : Disk ports = record s { device = d; queue = one_waits ports lba size buffer s } in
      let (result, done) =
        complete_read_lem lba size buffer s.current_process status sent refl
          (front_idle ports lba size buffer s) answer err df in
      (
        (complete_read ports sent).1,
        ata_read-idle ports sleep fuel lba size buffer ready d s empty head polled
            ∙ ap (λ (o : Option ℕ). some (o, (complete_read ports sent).1)) result,
        record {
          device = done.device;
          memory = done.memory;
          none_waits = done.none_waits;
          printed = done.printed;
        },
      )

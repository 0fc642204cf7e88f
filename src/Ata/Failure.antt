-- ===== src/Ata/Failure.antt =====
-- A read that the disk answers with an error, and the read after it.
use amaterasu.Base.{
  ℕ, ◌+◌, ◌/◌, ◌%◌, ◌<◌, ◌≡◌, refl, ap, ◌∙◌, Bool, true, false, ◌&&◌, Option, none, some, [], ◌∷◌,
  ◌++◌, ◌==◌, arith, eq_self,
}
use amaterasu.X86.Ports.{Ports}
use amaterasu.Ata.{
  Disk, complete_read, ata_read, ata_polling_until_ready, send_read, ata_send_request,
  ata_io_base_primary, error_text, ata_request_queue_pop, ata_request_queue_front,
  status_register_err, status_register_df,
}
use amaterasu.Ata.Requests.{new_request, requests, one-requests, single-requests}
use amaterasu.Ata.Transfer.{Delivers, filled, transfer_lem}
use amaterasu.Ata.Idle.{two_wait, ata_read-waiting, one_waits, ata_read-idle}

module _ (ports : Ports) where
  -- The status reports an error.
  abbrev pub IsError : (status : ℕ) → Type 0
  IsError status = ((status_register_err status == 0) && (status_register_df status == 0)) ≡ false

  complete_read-error :
      (status : ℕ) (d : ports.Device) (s : Disk ports)
      → ports.in_byte (ata_io_base_primary + 7) s.device ≡ (status, d)
      → IsError status
      → complete_read ports s
        ≡ (none, record s { device = d; printed = s.printed ++ error_text ports ∷ [] })
  unfolding complete_read
  complete_read-error status d s answer bad = rw (answer, bad)

  -- `ATARead` with polling on an idle disk that answers with an error: it returns -1, it leaves the
  -- memory as it is, and the request stays in the queue.
  pub ata_read-error :
      (sleep : Disk ports → Disk ports) (fuel lba size buffer status : ℕ) (ready : Bool)
      (d d' : ports.Device) (s : Disk ports)
      → s.queue.size ≡ 0
      → s.queue.head_index < 10
      → ata_polling_until_ready ports fuel (send_read ports lba size s.device) ≡ some (ready, d)
      → ports.in_byte (ata_io_base_primary + 7) d ≡ (status, d')
      → IsError status
      → (s' : Disk ports) × (ata_read ports sleep fuel lba size buffer true s ≡ some (none, s'))
        × (s'.memory ≡ s.memory)
        × (s'.printed ≡ s.printed ++ error_text ports ∷ [])
        × (requests s'.queue ≡ new_request 0 lba size buffer s.current_process ∷ [])
  ata_read-error sleep fuel lba size buffer status ready d d' s empty head polled answer bad =
      let sent : Disk ports = record s { device = d; queue = one_waits ports lba size buffer s } in
      (
        record sent { device = d'; printed = s.printed ++ error_text ports ∷ [] },
        ata_read-idle ports sleep fuel lba size buffer ready d s empty head polled
            ∙ ap some (complete_read-error status d' sent answer bad),
        refl,
        refl,
        one-requests s.queue.head_index s.queue.queue_body
            (new_request 0 lba size buffer s.current_process) head,
      )

module _ (ports : Ports) (words : ℕ → ℕ) (states : ℕ → ports.Device)
    (v : Delivers ports words states) where
  complete_read-waiting :
      (lba size buffer lba' size' buffer' process status : ℕ) (s : Disk ports)
      → s.queue.head_index < 10
      → s.queue.queue_body s.queue.head_index ≡ new_request 0 lba size buffer process
      → ports.in_byte (ata_io_base_primary + 7) s.device ≡ (status, states 0)
      → status_register_err status ≡ 0
      → status_register_df status ≡ 0
      → let (result, s') =
          complete_read ports (record s { queue = two_wait ports lba' size' buffer' s }) in
        (result ≡ some size)
        × ((a : ℕ) → s'.memory a ≡ filled buffer 0 size words s.memory a)
        × (s'.device ≡ send_read ports lba' size' (states ((size + 1) / 2)))
        × (requests s'.queue ≡ new_request 0 lba' size' buffer' s.current_process ∷ [])
  unfolding complete_read ata_request_queue_pop ata_request_queue_front ata_send_request
  complete_read-waiting lba size buffer lba' size' buffer' process status s head front answer err
        df =
      let (last, rest) =
        transfer_lem ports words states v ((size + 1) / 2) 0 size buffer s.memory (omega arith) in
      let other : (s.queue.head_index == (s.queue.head_index + 1) % 10) ≡ false = ground arith in
      let next = (s.queue.head_index + 1) % 10 in
      let back : (next == s.queue.head_index) ≡ false = ground arith in
      rw (answer, err, df)
        (rw other (
          rw front (
            rw back (
              rw (eq_self next) (
                refl,
                rest,
                ap (send_read ports lba' size') (last ∙ ap states (omega arith)),
                single-requests next _ (omega arith) ∙ rw back (rw (eq_self next)),
              )))))

  -- `ATARead` with polling where an earlier request waits, which an error has left behind, and the
  -- disk is ready with no error: no command is sent before the transfer, the words that the data port
  -- delivers go to the buffer of the earlier request, whose size is returned, and the new
  -- request waits in its place, after its command is sent.
  pub ata_read-waiting_lem :
      (sleep : Disk ports → Disk ports) (fuel lba size buffer lba' size' buffer' process status : ℕ)
      (ready : Bool) (d : ports.Device) (s : Disk ports)
      → s.queue.size ≡ 1
      → s.queue.head_index < 10
      → s.queue.queue_body s.queue.head_index ≡ new_request 0 lba size buffer process
      → ata_polling_until_ready ports fuel s.device ≡ some (ready, d)
      → ports.in_byte (ata_io_base_primary + 7) d ≡ (status, states 0)
      → status_register_err status ≡ 0
      → status_register_df status ≡ 0
      → (s' : Disk ports) × (ata_read ports sleep fuel lba' size' buffer' true s
          ≡ some (some size, s'))
        × ((a : ℕ) → s'.memory a ≡ filled buffer 0 size words s.memory a)
        × (s'.device ≡ send_read ports lba' size' (states ((size + 1) / 2)))
        × (requests s'.queue ≡ new_request 0 lba' size' buffer' s.current_process ∷ [])
  ata_read-waiting_lem sleep fuel lba size buffer lba' size' buffer' process status ready d s one
        head front polled answer err df =
      let polled_disk : Disk ports = record s { device = d } in
      let (result, memory, device, waits) =
        complete_read-waiting lba size buffer lba' size' buffer' process status polled_disk head
          front answer err df in
      let done =
        complete_read ports
          (record s { device = d; queue = two_wait ports lba' size' buffer' s }) in
      (
        done.1,
        ata_read-waiting ports sleep fuel lba' size' buffer' ready d s one polled
            ∙ ap (λ (o : Option ℕ). some (o, done.1)) result,
        memory,
        device,
        waits,
      )

-- ===== src/Ata/Idle.antt =====
-- `ATARead` with polling, up to its completion: on an idle disk, and where a request waits.
use amaterasu.Base.{ℕ, ◌+◌, ◌%◌, ◌<◌, ◌≡◌, refl, Bool, true, some, update, arith, eq_self}
use amaterasu.X86.Ports.{Ports}
use amaterasu.Ata.{
  Disk, complete_read, ata_read, ata_send_request, ata_polling_until_ready, send_read,
  ata_request_queue_push, ata_request_queue_front, RequestQueue,
}
use amaterasu.Ata.Requests.{new_request}

module _ (ports : Ports) where
  abbrev pub one_waits : (lba size buffer : ℕ) → Disk ports → RequestQueue
  one_waits lba size buffer s = record {
    head_index = s.queue.head_index;
    size = 1;
    queue_body =
        update s.queue.queue_body s.queue.head_index
          (new_request 0 lba size buffer s.current_process);
  }

  pub push_idle :
      (lba size buffer : ℕ) (s : Disk ports)
      → s.queue.size ≡ 0
      → s.queue.head_index < 10
      → ata_request_queue_push 0 lba size buffer s.current_process s.queue
        ≡ (some s.queue.head_index, one_waits lba size buffer s)
  unfolding ata_request_queue_push
  push_idle lba size buffer s empty head =
      let at : (s.queue.head_index + 0) % 10 ≡ s.queue.head_index = omega (arith, head) in
      rw (empty, at)

  pub send_idle :
      (lba size buffer : ℕ) (s : Disk ports)
      → ata_send_request ports s.queue.head_index (record s { queue = one_waits lba size buffer s })
        ≡ record s {
          device = send_read ports lba size s.device;
          queue = one_waits lba size buffer s;
        }
  unfolding ata_send_request
  send_idle lba size buffer s = rw (eq_self s.queue.head_index)

  pub front_idle :
      (lba size buffer : ℕ) (s : Disk ports)
      → ata_request_queue_front (one_waits lba size buffer s)
        ≡ new_request 0 lba size buffer s.current_process
  unfolding ata_request_queue_front
  front_idle lba size buffer s = rw (eq_self s.queue.head_index)

  -- On an idle disk the request is sent, and completed once the polling ends.
  pub ata_read-idle :
      (sleep : Disk ports → Disk ports) (fuel lba size buffer : ℕ) (ready : Bool) (d : ports.Device)
      (s : Disk ports)
      → s.queue.size ≡ 0
      → s.queue.head_index < 10
      → ata_polling_until_ready ports fuel (send_read ports lba size s.device) ≡ some (ready, d)
      → ata_read ports sleep fuel lba size buffer true s
        ≡ some (complete_read ports (record s { device = d; queue = one_waits lba size buffer s }))
  unfolding ata_read
  ata_read-idle sleep fuel lba size buffer ready d s empty head polled =
      rw (push_idle lba size buffer s empty head, ata_read)
        (rw (push_idle lba size buffer s empty head) (
          rw (send_idle lba size buffer s) (
            rw (polled, ata_read)
              (rw (push_idle lba size buffer s empty head)
                (rw (send_idle lba size buffer s) refl)))))

  -- The queue with the request that waits and a new one behind it.
  abbrev pub two_wait : (lba size buffer : ℕ) → Disk ports → RequestQueue
  two_wait lba size buffer s = record {
    head_index = s.queue.head_index;
    size = 2;
    queue_body =
        update s.queue.queue_body ((s.queue.head_index + 1) % 10)
          (new_request 0 lba size buffer s.current_process);
  }

  push_waiting :
      (lba size buffer : ℕ) (s : Disk ports)
      → s.queue.size ≡ 1
      → ata_request_queue_push 0 lba size buffer s.current_process s.queue
        ≡ (some ((s.queue.head_index + 1) % 10), two_wait lba size buffer s)
  unfolding ata_request_queue_push
  push_waiting lba size buffer s one = rw one

  -- Where a request waits, no command is sent.
  pub ata_read-waiting :
      (sleep : Disk ports → Disk ports) (fuel lba size buffer : ℕ) (ready : Bool) (d : ports.Device)
      (s : Disk ports)
      → s.queue.size ≡ 1
      → ata_polling_until_ready ports fuel s.device ≡ some (ready, d)
      → ata_read ports sleep fuel lba size buffer true s
        ≡ some (complete_read ports (record s { device = d; queue = two_wait lba size buffer s }))
  unfolding ata_read
  ata_read-waiting sleep fuel lba size buffer ready d s one polled =
      rw (push_waiting lba size buffer s one, ata_read)
        (rw (push_waiting lba size buffer s one)
          (rw (polled, ata_read) (rw (push_waiting lba size buffer s one) refl)))

  front_waiting :
      (lba size buffer : ℕ) (s : Disk ports)
      → s.queue.head_index < 10
      → ata_request_queue_front (two_wait lba size buffer s) ≡ ata_request_queue_front s.queue
  unfolding ata_request_queue_front
  front_waiting lba size buffer s head = ground arith

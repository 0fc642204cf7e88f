-- ===== src/Ata/Tests.antt =====
-- A disk that is always ready and delivers the words 0, 1, 2 and so on, and small queues.
use amaterasu.Base.{ℕ, ◌+◌, ◌<◌, ◌≡◌, ◌⊎◌, refl, arith, [], ◌∷◌, ◌++◌, some, none, true, false}
use amaterasu.X86.Ports.{Ports}
use amaterasu.Ata.{
  RequestQueue, Disk, ata_request_queue_push, ata_request_queue_pop, ata_read,
  ata_polling_until_ready, poll_from, send_read, error_text,
}
use amaterasu.Ata.Requests.{IsRing, requests, new_request, dropped, push-requests, pop-requests}
use amaterasu.Ata.Transfer.{Delivers, IsRead, filled, ata_read_lem}
use amaterasu.Ata.Failure.{ata_read-error, ata_read-waiting_lem}

abbrev pub counting : Ports
counting = record {
  Device = ℕ;
  in_byte = λ port d. (8, d);
  in_short = λ port d. (d, d + 1);
  out_byte = λ port v d. d;
}

abbrev count : ℕ → ℕ
count k = k

counting-Delivers : Delivers counting count count
counting-Delivers = record { step = λ k. refl }

abbrev empty_queue : RequestQueue
empty_queue = record { head_index = 9; size = 0; queue_body = λ i. new_request 0 0 0 0 0 }

abbrev three : RequestQueue
three = record { head_index = 8; size = 3; queue_body = λ i. new_request 0 i 512 0 1 }

abbrev pub idle : Disk counting
idle = record {
  device = 0;
  queue = empty_queue;
  memory = λ a. 0;
  printed = [];
  current_process = 1;
}

abbrev no_switch : Disk counting → Disk counting
no_switch s = s

ready_at_once : ata_polling_until_ready counting 2 0 ≡ some (true, 0)
unfolding ata_polling_until_ready poll_from
ready_at_once = refl

ata_read_lem_example :
    (s' : Disk counting) × (ata_read counting no_switch 2 63 5 1000 true idle ≡ some (some 5, s'))
    × IsRead counting count count counting-Delivers 5 1000 idle s'
unfolding send_read
ata_read_lem_example =
    ata_read_lem counting count count counting-Delivers no_switch 2 63 5 1000 8 true 0 idle refl
      (omega arith) ready_at_once refl refl refl

push-requests_example :
    let (index, q') = ata_request_queue_push 0 63 512 1000 1 three in
    let new = new_request 0 63 512 1000 1 in
    ((three.size ≡ 10) × (index ≡ none) × (q' ≡ three))
    ⊎ ((three.size < 10)
        × (requests q' ≡ requests three ++ new ∷ [])
        × IsRing q'
        × ((i : ℕ) × (index ≡ some i) × (i < 10) × (q'.queue_body i ≡ new)))
push-requests_example = push-requests 0 63 512 1000 1 three (omega arith, omega arith)

pop-requests_example :
    (requests (ata_request_queue_pop three) ≡ dropped (requests three))
    × IsRing (ata_request_queue_pop three)
pop-requests_example = pop-requests three (omega arith, omega arith)

-- A disk that is always ready with an error.
abbrev failing : Ports
failing = record {
  Device = ℕ;
  in_byte = λ port d. (9, d);
  in_short = λ port d. (d, d + 1);
  out_byte = λ port v d. d;
}

abbrev failing_idle : Disk failing
failing_idle = record {
  device = 0;
  queue = empty_queue;
  memory = λ a. 0;
  printed = [];
  current_process = 1;
}

abbrev no_switch_failing : Disk failing → Disk failing
no_switch_failing s = s

fails_at_once : ata_polling_until_ready failing 2 0 ≡ some (false, 0)
unfolding ata_polling_until_ready poll_from
fails_at_once = refl

ata_read-error_example :
    (s' : Disk failing) × (ata_read failing no_switch_failing 2 63 5 1000 true failing_idle
      ≡ some (none, s'))
    × (s'.memory ≡ failing_idle.memory)
    × (s'.printed ≡ [] ++ error_text failing ∷ [])
    × (requests s'.queue ≡ new_request 0 63 5 1000 1 ∷ [])
unfolding send_read
ata_read-error_example =
    ata_read-error failing no_switch_failing 2 63 5 1000 9 false 0 0 failing_idle refl (omega arith)
      fails_at_once refl refl

-- A request that an error has left behind.
abbrev left_behind : Disk counting
left_behind = record idle {
  queue = record { head_index = 9; size = 1; queue_body = λ i. new_request 0 63 5 1000 1 };
}

ata_read-waiting_lem_example :
    (s' : Disk counting) × (ata_read counting no_switch 2 70 512 2000 true left_behind
      ≡ some (some 5, s'))
    × ((a : ℕ) → s'.memory a ≡ filled 1000 0 5 count left_behind.memory a)
    × (s'.device ≡ send_read counting 70 512 3)
    × (requests s'.queue ≡ new_request 0 70 512 2000 1 ∷ [])
ata_read-waiting_lem_example =
    ata_read-waiting_lem counting count count counting-Delivers no_switch 2 63 5 1000 70 512 2000 1
      8 true 0 left_behind refl (omega arith) refl ready_at_once refl refl refl

-- ===== src/Queue/Tests.antt =====
-- Queues of concrete nodes.
use amaterasu.Base.{refl, [], ◌∷◌, ◌==◌, if◌then◌else◌}
use amaterasu.Queue.{Queue, Links, queue_init, queue_push, queue_pop}
use amaterasu.Queue.Fifo.{IsQueue, queue_init-IsQueue, queue_push-IsQueue, queue_pop-IsQueue}

abbrev no_links : Links
no_links = record { prev = λ q. 0; next = λ q. 0 }

abbrev raw : Queue
raw = record { guard = 100; size = 7; links = no_links }

-- The guard at 100 with the nodes 200 and 300.
abbrev two : Queue
two = record {
  guard = 100;
  size = 2;
  links = record {
    prev = λ q. if q == 100 then 300 else if q == 300 then 200 else 100;
    next = λ q. if q == 100 then 200 else if q == 200 then 300 else 100;
  };
}

two-IsQueue : IsQueue two (200 ∷ 300 ∷ [])
two-IsQueue = record {
  ring = (refl, refl, (refl, refl, (refl, refl)));
  distinct = (refl, (refl, (refl, tt)));
  counts = refl;
}

queue_init-IsQueue_example : IsQueue (queue_init raw) []
queue_init-IsQueue_example = queue_init-IsQueue raw

queue_push-IsQueue_example : IsQueue (queue_push 400 two) (200 ∷ 300 ∷ 400 ∷ [])
queue_push-IsQueue_example = queue_push-IsQueue 400 two (200 ∷ 300 ∷ []) two-IsQueue refl

queue_pop-IsQueue_example : IsQueue (queue_pop two) (300 ∷ [])
queue_pop-IsQueue_example = queue_pop-IsQueue two (200 ∷ 300 ∷ []) two-IsQueue

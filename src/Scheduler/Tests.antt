-- ===== src/Scheduler/Tests.antt =====
-- A ring of three nodes: the head at 100 and the processes at 200 and 300.
use amaterasu.Base.{◌≡◌, ◌≢◌, refl, [], ◌∷◌, ◌==◌, if◌then◌else◌, some, none, true, arith}
use amaterasu.Scheduler.{Processes, running, sleeping, is_running, schedule, find_next_task}
use amaterasu.Scheduler.Next.{schedule_lem, find_next_task-starves, first_running}

abbrev ring : Processes
ring = record {
  links = record {
    prev = λ q. if q == 100 then 200 else if q == 300 then 100 else 300;
    next = λ q. if q == 200 then 100 else if q == 100 then 300 else 200;
  };
  state = λ q. running;
  process_list = 100;
  current_process = 200;
}

abbrev asleep : Processes
asleep = record ring { state = λ q. sleeping }

schedule_lem_example :
    (schedule 3 ring ≡ some (record ring { current_process = 300 }))
    × (300 ≢ ring.process_list)
    × (is_running (ring.state 300) ≡ true)
unfolding first_running
schedule_lem_example =
    schedule_lem ring (100 ∷ 300 ∷ []) 300 3 (refl, refl, (refl, refl, (refl, refl))) refl
      (omega arith)

find_next_task-starves_example : find_next_task 9 200 asleep ≡ none
find_next_task-starves_example = find_next_task-starves asleep (λ p. refl) 9 200

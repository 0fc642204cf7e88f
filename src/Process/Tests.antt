-- ===== src/Process/Tests.antt =====
-- Two processes in a ring behind the head at 50: the one at 100 goes to sleep, and the one at 200 runs.
use amaterasu.Base.{
  ℕ, ◌≡◌, ◌≢◌, refl, false, some, [], ◌∷◌, ◌==◌, if◌then◌else◌, update, ◌∙◌, arith,
}
use amaterasu.Scheduler.{Processes, running, sleeping, is_running, sleep}
use amaterasu.Scheduler.Sound.{IsSound, sleep-state}
use amaterasu.Scheduler.Next.{first_running, schedule_lem}
use amaterasu.Process.Steps.{sleeps, done, after, reach-Kept}

abbrev two_processes : Processes
two_processes = record {
  links = record {
    prev = λ q. if q == 50 then 200 else if q == 100 then 50 else 100;
    next = λ q. if q == 50 then 100 else if q == 100 then 200 else 50;
  };
  state = λ q. if q == 300 then sleeping else running;
  process_list = 50;
  current_process = 100;
}

two_processes-IsSound : IsSound (100 ∷ 200 ∷ []) two_processes
two_processes-IsSound = record {
  ring = (refl, refl, (refl, refl, (refl, refl)));
  current = refl;
  runs = refl;
}

abbrev first_asleep : Processes
first_asleep = record two_processes { state = update two_processes.state 100 sleeping }

abbrev second_runs : Processes
second_runs = record first_asleep { current_process = 200 }

sleeps_once : sleep 3 two_processes ≡ some second_runs
unfolding first_running
sleeps_once =
    sleep-state 3 two_processes
    ∙ (schedule_lem first_asleep (200 ∷ 50 ∷ []) 200 3 (refl, refl, (refl, refl, (refl, refl))) refl
        (omega arith)).0

abbrev NoneWakes : ℕ → Type 0
NoneWakes p = ⊥

reach-Kept_example :
    IsSound (100 ∷ 200 ∷ []) second_runs
    × (second_runs.links ≡ two_processes.links)
    × (second_runs.process_list ≡ two_processes.process_list)
    × ((q : ℕ)
        → ¬ NoneWakes q
        → is_running (two_processes.state q) ≡ false
        → (is_running (second_runs.state q) ≡ false) × (q ≢ second_runs.current_process))
reach-Kept_example =
    reach-Kept NoneWakes (100 ∷ 200 ∷ []) two_processes second_runs two_processes-IsSound
      (after (sleeps 3 sleeps_once) done)

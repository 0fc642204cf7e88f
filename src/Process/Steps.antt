-- ===== src/Process/Steps.antt =====
-- scheduler.c and process.c: what processes may do one after the other, and what stays true of them.
use native.Mathlib.Decide.{ℕ_discrete}
use amaterasu.Base.{
  ℕ, ◌≡◌, ◌≢◌, inl, inr, refl, sym, ◌∙◌, false, some, List, ◌==◌, Bool-cases, eq_of_ne, update,
}
use mathlib.Core.Bool.{false≢true}
use amaterasu.Scheduler.{
  Processes, ProcessState, running, sleeping, zombie, is_running, schedule, sleep, wakeup,
}
use amaterasu.Scheduler.Sound.{IsSound, schedule-Scheduled, sleep-state, wakeup-state}
use amaterasu.Process.Fork.{sys_exit}

-- One step: the timer switches to the next process, the process that runs goes to sleep or exits,
-- or a handler wakes a process that it may wake.
pub data Step (may_wake : ℕ → Type 0) : Processes → Processes → Type 0 where
  timer : {s s' : Processes} (fuel : ℕ) → schedule fuel s ≡ some s' → Step may_wake s s'
  sleeps : {s s' : Processes} (fuel : ℕ) → sleep fuel s ≡ some s' → Step may_wake s s'
  exits : {s s' : Processes} (fuel : ℕ) → sys_exit fuel s ≡ some s' → Step may_wake s s'
  wakes : {s s' : Processes} (p : ℕ) → may_wake p → wakeup p s ≡ s' → Step may_wake s s'

-- Any number of steps.
pub data Reach (may_wake : ℕ → Type 0) : Processes → Processes → Type 0 where
  done : {s : Processes} → Reach may_wake s s
  after : {s s1 s' : Processes} → Step may_wake s s1 → Reach may_wake s1 s' → Reach may_wake s s'

-- What a step keeps: the ring, and the processes that do not run and may not be woken.
pub record Kept (may_wake : ℕ → Type 0) (nodes : List ℕ) (s s' : Processes) : Type 0 where
  pub sound : IsSound nodes s'
  pub links : s'.links ≡ s.links
  pub head : s'.process_list ≡ s.process_list
  pub asleep :
      (q : ℕ) → ¬ may_wake q → is_running (s.state q) ≡ false → is_running (s'.state q) ≡ false

-- `Schedule` after the process that runs has been put into another state.
stopped-Kept :
    (may_wake : ℕ → Type 0) (fuel : ℕ) (nodes : List ℕ) (v : ProcessState) (s s' : Processes)
    → IsSound nodes s
    → is_running v ≡ false
    → schedule fuel (record s { state = update s.state s.current_process v }) ≡ some s'
    → Kept may_wake nodes s s'
stopped-Kept may_wake fuel nodes v s s' sound stops e =
    let stopped : Processes = record s { state = update s.state s.current_process v } in
    let t = schedule-Scheduled fuel nodes stopped s' sound.ring sound.current e in
    record {
      sound = t.sound;
      links = t.links;
      head = t.head;
      asleep = λ q no_wake off. rw t.state (elim (Bool-cases (q == s.current_process)) [
        | inl same ↦ rw same stops
        | inr away ↦ rw away off
      ]);
    }

-- `wakeup` of a process that may be woken.
woken :
    (may_wake : ℕ → Type 0) (nodes : List ℕ) (p : ℕ) (s : Processes)
    → IsSound nodes s
    → may_wake p
    → Kept may_wake nodes s (record s { state = update s.state p running })
woken may_wake nodes p s sound may = record {
  sound = record {
    ring = sound.ring;
    current = sound.current;
    runs = elim (Bool-cases (s.current_process == p)) [
      | inl same ↦ rw same refl
      | inr other ↦ rw other sound.runs
    ];
  };
  links = refl;
  head = refl;
  asleep = λ q no_wake off. elim (ℕ_discrete q p) [
    | yes same ↦ absurd (no_wake (rw same may))
    | no ne ↦ rw (eq_of_ne q p ne) off
  ];
}

Step-Kept :
    (may_wake : ℕ → Type 0) (nodes : List ℕ) (s s' : Processes)
    → IsSound nodes s
    → Step may_wake s s'
    → Kept may_wake nodes s s'
unfolding sys_exit
Step-Kept may_wake nodes s s' sound (timer fuel e) =
    let t = schedule-Scheduled fuel nodes s s' sound.ring sound.current e in
    record {
      sound = t.sound;
      links = t.links;
      head = t.head;
      asleep = λ q no_wake off. rw t.state off;
    }
Step-Kept may_wake nodes s s' sound (sleeps fuel e) =
    stopped-Kept may_wake fuel nodes sleeping s s' sound refl (sym (sleep-state fuel s) ∙ e)
Step-Kept may_wake nodes s s' sound (exits fuel e) =
    stopped-Kept may_wake fuel nodes zombie s s' sound refl e
Step-Kept may_wake nodes s s' sound (wakes p may e) =
    let eq : record s { state = update s.state p running } ≡ s' = sym (wakeup-state p s) ∙ e in
    let kept = woken may_wake nodes p s sound may in rw eq at kept

reached :
    (may_wake : ℕ → Type 0) (nodes : List ℕ) (s s' : Processes)
    → IsSound nodes s
    → Reach may_wake s s'
    → Kept may_wake nodes s s'
reached may_wake nodes s s' sound done = record {
  sound = sound;
  links = refl;
  head = refl;
  asleep = λ q no_wake off. off;
}
reached may_wake nodes s s' sound (after {s1 = s1} first rest) =
    let k = Step-Kept may_wake nodes s s1 sound first in
    let k' = reached may_wake nodes s1 s' k.sound rest in
    record {
      sound = k'.sound;
      links = k'.links ∙ k.links;
      head = k'.head ∙ k.head;
      asleep = λ q no_wake off. k'.asleep q no_wake (k.asleep q no_wake off);
    }

-- Where the process that runs is in the ring and in the running state, any number of steps of the
-- timer, of `sleep`, `sysExit` and `wakeup` leave it so: the ring is as it was, a
-- process of the ring that is not its head runs, and it is in the running state. A process that
-- is asleep or has exited does not run again as long as no handler wakes it.
pub reach-Kept :
    (may_wake : ℕ → Type 0) (nodes : List ℕ) (s s' : Processes)
    → IsSound nodes s
    → Reach may_wake s s'
    → IsSound nodes s'
      × (s'.links ≡ s.links)
      × (s'.process_list ≡ s.process_list)
      × ((q : ℕ)
          → ¬ may_wake q
          → is_running (s.state q) ≡ false
          → (is_running (s'.state q) ≡ false) × (q ≢ s'.current_process))
reach-Kept may_wake nodes s s' sound r =
    let k = reached may_wake nodes s s' sound r in
    (
      k.sound,
      k.links,
      k.head,
      λ q no_wake off. (
        k.asleep q no_wake off,
        λ e. false≢true (sym (k.asleep q no_wake off) ∙ rw e k.sound.runs),
      ),
    )

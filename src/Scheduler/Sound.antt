-- ===== src/Scheduler/Sound.antt =====
-- The process that `Schedule` chooses: one of the ring's, in the running state.
use native.Mathlib.Decide.{ℕ_discrete}
use amaterasu.Base.{
  ℕ, zero, suc, ◌≡◌, inl, inr, refl, sym, ◌∙◌, true, not, ◌&&◌, none, some, List, [], ◌∷◌, ◌==◌,
  arith, Bool-cases, Option-cases, eq_self, eq_of_ne, update,
}
use amaterasu.Base.Chain.{elem}
use amaterasu.Queue.{Links}
use amaterasu.Queue.Fifo.{Linked}
use amaterasu.Scheduler.{
  Processes, running, sleeping, is_running, find_next_task, schedule, sleep, wakeup,
}

-- The process that runs is one of those in the ring behind the head, and in the running state.
pub record IsSound (nodes : List ℕ) (s : Processes) : Type 0 where
  pub ring : Linked s.links s.process_list s.process_list nodes
  pub current : elem s.current_process nodes ≡ true
  pub runs : is_running (s.state s.current_process) ≡ true

-- The node behind one of the ring's nodes is one of them.
next-elem :
    (l : Links) (from to q : ℕ) (xs : List ℕ)
    → Linked l from to xs
    → elem q (from ∷ xs) ≡ true
    → elem (l.next q) (to ∷ xs) ≡ true
next-elem l from to q [] r m = ground arith
next-elem l from to q (x ∷ xs) r m = elim (ℕ_discrete q from) [
  | yes e ↦ rw e (ground arith)
  | no ne ↦ ground (arith, next-elem l x to q xs r.2)
]

-- What the search finds.
find_next_task_sound :
    (fuel pl p : ℕ) (nodes : List ℕ) (s : Processes)
    → Linked s.links s.process_list s.process_list nodes
    → elem pl (s.process_list ∷ nodes) ≡ true
    → find_next_task fuel pl s ≡ some p
    → (elem p nodes ≡ true) × (is_running (s.state p) ≡ true)
unfolding find_next_task
find_next_task_sound zero pl p nodes s r m e = let bad : none ≡ some p = e in ground arith
find_next_task_sound (suc fuel) pl p nodes s r m e =
    let next = s.links.next pl in
    let inside = next-elem s.links s.process_list s.process_list pl nodes r m in
    elim (Bool-cases (not (next == s.process_list) && is_running (s.state next))) [
      | inl b ↦
          let same : some next ≡ some p = rw b at e in
          let eq : next ≡ p = cc in rw (← eq) (ground arith, ground arith)
      | inr b ↦ find_next_task_sound fuel next p nodes s r inside (rw b at e)
    ]

-- What a call of `Schedule` keeps, and that it leaves a sound state.
pub record Scheduled (nodes : List ℕ) (s s' : Processes) : Type 0 where
  pub sound : IsSound nodes s'
  pub links : s'.links ≡ s.links
  pub head : s'.process_list ≡ s.process_list
  pub state : s'.state ≡ s.state

schedule-found :
    (fuel p : ℕ) (s : Processes)
    → find_next_task fuel s.current_process s ≡ some p
    → schedule fuel s ≡ some (record s { current_process = p })
unfolding schedule
schedule-found fuel p s found =
    rw (found, schedule)
      (elim (ℕ_discrete s.current_process p) [
        | yes here ↦ rw (← here) (rw (eq_self s.current_process))
        | no away ↦ rw (eq_of_ne s.current_process p away)
      ])

schedule-stuck :
    (fuel : ℕ) (s : Processes)
    → find_next_task fuel s.current_process s ≡ none
    → schedule fuel s ≡ none
unfolding schedule
schedule-stuck fuel s stuck = rw (stuck, schedule)

pub schedule-Scheduled :
    (fuel : ℕ) (nodes : List ℕ) (s s' : Processes)
    → Linked s.links s.process_list s.process_list nodes
    → elem s.current_process nodes ≡ true
    → schedule fuel s ≡ some s'
    → Scheduled nodes s s'
schedule-Scheduled fuel nodes s s' r m e =
    elim (Option-cases (find_next_task fuel s.current_process s)) [
      | inl stuck ↦
          let bad : none ≡ some s' = sym (schedule-stuck fuel s stuck) ∙ e in absurd (ground arith)
      | inr (p, found) ↦
          let (inside, runs) =
            find_next_task_sound fuel s.current_process p nodes s r (ground arith) found in
          let chosen : Processes = record s { current_process = p } in
          let same : some chosen ≡ some s' = sym (schedule-found fuel p s found) ∙ e in
          let eq : chosen ≡ s' = cc in
          let done : Scheduled nodes s chosen = record {
            sound = record { ring = r; current = inside; runs = runs };
            links = refl;
            head = refl;
            state = refl;
          } in
          rw eq at done
    ]

-- `sleep` and `wakeup` by their effects on the states.
pub sleep-state :
    (fuel : ℕ) (s : Processes)
    → sleep fuel s ≡ schedule fuel (record s { state = update s.state s.current_process sleeping })
unfolding sleep
sleep-state fuel s = refl

pub wakeup-state :
    (p : ℕ) (s : Processes) → wakeup p s ≡ record s { state = update s.state p running }
unfolding wakeup
wakeup-state p s = refl

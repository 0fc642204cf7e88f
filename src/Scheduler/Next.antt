-- ===== src/Scheduler/Next.antt =====
-- `FindNextTask` on a ring of processes.
use native.Mathlib.Decide.{ℕ_discrete}
use amaterasu.Base.{
  ℕ, zero, suc, ◌+◌, ◌≤◌, ◌≡◌, ◌≢◌, inl, inr, refl, true, false, not, ◌&&◌, Option, none, some,
  List, [], ◌∷◌, ◌++◌, ◌==◌, if◌then◌else◌, length, arith, Bool-cases, eq_self, eq_of_ne,
}
use amaterasu.Queue.{Links}
use amaterasu.Queue.Fifo.{Linked, length-append_one}
use amaterasu.Base.Chain.{elem}
use amaterasu.Scheduler.{Processes, is_running, find_next_task, schedule}

-- The first process of these that may run.
unfoldable pub first_running : Processes → List ℕ → Option ℕ
first_running s [] = none
first_running s (p ∷ ps) =
    if not (p == s.process_list) && is_running (s.state p) then some p else first_running s ps

-- The nodes that `next` leads to, one after the other.
abbrev Follows : (next : ℕ → ℕ) (from : ℕ) → List ℕ → Type 0
Follows next from [] = Unit {0}
Follows next from (p ∷ ps) = (next from ≡ p) × Follows next p ps

ring-Follows :
    (l : Links) (from to : ℕ) (ps : List ℕ)
    → Linked l from to ps
    → Follows l.next from (ps ++ to ∷ [])
ring-Follows l from to [] r = (r.0, tt)
ring-Follows l from to (p ∷ ps) r = (r.0, ring-Follows l p to ps r.2)

-- The search goes through the nodes in the order of the ring.
find_next_task-first :
    (s : Processes) (from : ℕ) (ps : List ℕ) (fuel p : ℕ)
    → Follows s.links.next from ps
    → length ps ≤ fuel
    → first_running s ps ≡ some p
    → find_next_task fuel from s ≡ some p
unfolding find_next_task first_running
find_next_task-first s from [] fuel p r le e = let bad : none ≡ some p = e in ground arith
find_next_task-first s from (q ∷ qs) zero p r le e = absurd (omega arith)
find_next_task-first s from (q ∷ qs) (suc fuel) p r le e =
    rw r.0 (elim (Bool-cases (not (q == s.process_list) && is_running (s.state q))) [
      | inl b ↦ rw b (rw b at e)
      | inr b ↦ rw b (find_next_task-first s q qs fuel p r.1 (omega arith) (rw b at e))
    ])

-- Running processes and the others of a list.
first_running_lem :
    (s : Processes) (ps : List ℕ) (p : ℕ)
    → first_running s ps ≡ some p
    → (p ≢ s.process_list) × (is_running (s.state p) ≡ true) × (elem p ps ≡ true)
unfolding first_running
first_running_lem s [] p e = let bad : none ≡ some p = e in ground arith
first_running_lem s (q ∷ qs) p e =
    elim (Bool-cases (not (q == s.process_list) && is_running (s.state q))) [
      | inl b ↦
          let same : some q ≡ some p = rw b at e in (λ h. ground arith, ground arith, ground arith)
      | inr b ↦ let (ne, runs, m) = first_running_lem s qs p (rw b at e) in (ne, runs, ground arith)
    ]

-- `Schedule` on a ring of processes: the process that runs next is the first one behind the current
-- process, in the order of the ring and the current process last, that is not the head and is in the
-- running state; where there is one, as many steps as the ring has nodes find it.
pub schedule_lem :
    (s : Processes) (others : List ℕ) (p fuel : ℕ)
    → Linked s.links s.current_process s.current_process others
    → first_running s (others ++ s.current_process ∷ []) ≡ some p
    → length others + 1 ≤ fuel
    → (schedule fuel s ≡ some (record s { current_process = p }))
      × (p ≢ s.process_list)
      × (is_running (s.state p) ≡ true)
unfolding schedule
schedule_lem s others p fuel ring e le =
    let (ne, runs, m) = first_running_lem s (others ++ s.current_process ∷ []) p e in
    let found =
      find_next_task-first s s.current_process (others ++ s.current_process ∷ []) fuel p
        (ring-Follows s.links s.current_process s.current_process others ring)
        (omega (arith, length-append_one others s.current_process)) e in
    (
      rw (found, schedule)
          (elim (ℕ_discrete s.current_process p) [
            | yes here ↦ rw (← here) (rw (eq_self s.current_process))
            | no away ↦ rw (eq_of_ne s.current_process p away)
          ]),
      ne,
      runs,
    )

-- Where no process is in the running state, the search of `FindNextTask` finds nothing in any number of
-- steps.
pub find_next_task-starves :
    (s : Processes)
    → ((p : ℕ) → is_running (s.state p) ≡ false)
    → (fuel from : ℕ) → find_next_task fuel from s ≡ none
unfolding find_next_task
find_next_task-starves s idle zero from = refl
find_next_task-starves s idle (suc fuel) from =
    rw (idle (s.links.next from), find_next_task-starves s idle fuel (s.links.next from))
      (ground arith)

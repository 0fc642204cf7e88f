-- ===== src/Scheduler.antt =====
-- scheduler.c: the choice of the next process and the states of processes. A process is the address
-- of its node in the ring of processes.
pub mod Next
pub mod Sound
mod Tests
use amaterasu.Base.{
  ℕ, zero, suc, ◌+◌, ◌-◌, ◌*◌, ◌/◌, Bool, true, false, not, ◌&&◌, Option, none, some, ◌==◌,
  if◌then◌else◌, update,
}
use amaterasu.Queue.{Links}

-- `enum ProcessState`
pub data ProcessState : Type 0 where
  running : ProcessState
  sleeping : ProcessState
  zombie : ProcessState

abbrev pub is_running : ProcessState → Bool
is_running running = true
is_running sleeping = false
is_running zombie = false

-- The ring of processes, their states, and the process that runs; `process_list` is the ring's head.
pub record Processes : Type 0 where
  pub links : Links
  pub state : ℕ → ProcessState
  pub process_list : ℕ
  pub current_process : ℕ

-- `NewProcessId`
pub new_process_id : (pid : ℕ) → ℕ
new_process_id pid = pid + 1

-- The loop of `FindNextTask`, from node `pl` on, on fuel.
pub find_next_task : (fuel pl : ℕ) → Processes → Option ℕ
find_next_task zero pl s = none
find_next_task (suc fuel) pl s =
    let next = s.links.next pl in
    let rest = find_next_task fuel next s in
    if not (next == s.process_list) && is_running (s.state next) then some next else rest

-- `Schedule`, up to the switch of stacks and registers: the process that runs afterwards.
pub schedule : (fuel : ℕ) → Processes → Option Processes
schedule fuel s = elim (find_next_task fuel s.current_process s) [
  | none ↦ none
  | some next ↦ some (if s.current_process == next then s else record s { current_process = next })
]

-- `sleep`, up to its end-of-interrupt.
pub sleep : (fuel : ℕ) → Processes → Option Processes
sleep fuel s = schedule fuel (record s { state = update s.state s.current_process sleeping })

-- `wakeup`
pub wakeup : (p : ℕ) → Processes → Processes
wakeup p s = record s { state = update s.state p running }

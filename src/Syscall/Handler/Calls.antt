-- ===== src/Syscall/Handler/Calls.antt =====
-- What the system calls do to the machine.
use amaterasu.Base.{ℕ, ◌+◌, ◌*◌, ◌%◌, ◌≤◌, ◌<◌, ◌≡◌, ◌∙◌, refl, ap, Option, none, some, List}
use amaterasu.Util.{u64}
use amaterasu.X86.Ports.{Ports}
use amaterasu.Pic.Masks.{end_of_syscall}
use amaterasu.Hpet.{Registers}
use amaterasu.PhysicalMemory.FreeLists.{FreeBlocks}
use amaterasu.Scheduler.{new_process_id}
use amaterasu.Process.Kernel.{Kernel}
use amaterasu.Process.Fork.{sys_fork}
use amaterasu.Process.Fork.Child.{parent_memory, Grant, CanFork, IsForked, sys_fork-IsForked}
use amaterasu.Machine.{Machine, kernel_of, with_kernel, act-some, words_of_bytes}
use amaterasu.Machine.Views.{words_of_bytes-bytes_of_words}
use amaterasu.Syscall.{number, syscall_fork}
use amaterasu.Syscall.Handler.{
  Ending, answered, replaced, ended, Surroundings, fork_call, dispatch, finish, syscall_handler,
}

module _ {ports : Ports} {registers : Registers} (around : Surroundings)
    (sleep : Machine ports registers → Machine ports registers) (fuel : ℕ) where
  -- The end of the interrupt is none of the controllers', so nothing is sent.
  finish_lem :
      (ending : Ending) (m : Machine ports registers)
      → finish around sleep fuel ending m ≡ (ending, m)
  unfolding finish
  finish_lem (answered ret) m =
      ap (λ (d : ports.Device). (answered ret, record m { disk = record m.disk { device = d } }))
        (end_of_syscall ports m.disk.device)
  finish_lem (replaced rsp) m = refl
  finish_lem ended m = refl

  finish_result :
      (r : Option (Ending × Machine ports registers))
      → (elim r as (λ _. Option (Ending × Machine ports registers)) [
        | none ↦ none
        | some (ending, m') ↦ some (finish around sleep fuel ending m')
      ])
        ≡ r
  finish_result none = refl
  finish_result (some (ending, m')) = ap some (finish_lem ending m')

  pub handler_dispatch :
      (n rsp arg1 arg2 arg3 : ℕ) (m : Machine ports registers)
      → syscall_handler around sleep fuel n rsp arg1 arg2 arg3 m
        ≡ dispatch around sleep fuel n rsp arg1 arg2 arg3 m
  unfolding syscall_handler
  handler_dispatch n rsp arg1 arg2 arg3 m =
      finish_result (dispatch around sleep fuel n rsp arg1 arg2 arg3 m)

  fork_call-some :
      (rsp pid : ℕ) (k' : Kernel) (m : Machine ports registers)
      → sys_fork around.return_from_sys_fork rsp (kernel_of m) ≡ some (pid, k')
      → fork_call around sleep fuel rsp m ≡ some (answered pid, with_kernel k' m)
  unfolding fork_call
  fork_call-some rsp pid k' m e =
      rw (act-some (sys_fork around.return_from_sys_fork rsp) pid k' m e, fork_call) refl

  -- The call of fork in a process whose kernel stack holds the interrupted registers from word `slot` on,
  -- where the allocators give out three structures and eight page frames: the handler answers with the
  -- child's number, the processes are as after `sysFork`, the bytes of memory hold its 64-bit words,
  -- and nothing else of the machine changes but for the note of the process that runs.
  pub syscall_handler-fork :
      (bits slot arg1 arg2 arg3 : ℕ) (m : Machine ports registers) (free : FreeBlocks)
      (used others : List ℕ) (g : Grant)
      → 40 ≤ bits
      → slot < 512
      → CanFork (kernel_of m) free used others g
      → let k = kernel_of m in
        (k' : Kernel) × (syscall_handler around sleep fuel
            (number syscall_fork)
            ((parent_memory k).kernel_stack_page_frame + 8 * slot)
            arg1
            arg2
            arg3
            m
          ≡ some (
            answered (new_process_id (k.processes k.ring.current_process).pid),
            with_kernel k' m,
          ))
        × IsForked around.return_from_sys_fork bits slot used others g k k'
        × ((a : ℕ)
            → a % 8 ≡ 0
            → k'.memory a < u64
            → words_of_bytes (with_kernel k' m).disk.memory a ≡ k'.memory a)
  unfolding dispatch
  syscall_handler-fork bits slot arg1 arg2 arg3 m free used others g wide lt c =
      let k = kernel_of m in
      let rsp = (parent_memory k).kernel_stack_page_frame + 8 * slot in
      let (k', run, forked) =
        sys_fork-IsForked around.return_from_sys_fork bits slot k free used others g wide lt c in
      (
        k',
        handler_dispatch (number syscall_fork) rsp arg1 arg2 arg3 m
            ∙ fork_call-some rsp (new_process_id (k.processes k.ring.current_process).pid) k' m run,
        forked,
        λ a aligned small. words_of_bytes-bytes_of_words k'.memory a aligned small,
      )

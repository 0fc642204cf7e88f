-- ===== src/Syscall/Tests.antt =====
-- System calls of the process of a small machine.
use amaterasu.Base.{ℕ, ◌+◌, ◌*◌, ◌%◌, ◌<◌, ◌≡◌, some, [], ◌∷◌, arith}
use amaterasu.Util.{u64}
use amaterasu.Pic.Tests.{two_masks}
use amaterasu.PhysicalMemory.Tests.{eight_free}
use amaterasu.Scheduler.{new_process_id}
use amaterasu.Process.Kernel.{Kernel}
use amaterasu.Process.Fork.Child.{CanFork, IsForked}
use amaterasu.Process.Fork.Tests.{one_process-CanFork, grant, pages_in_use}
use amaterasu.Hpet.Tests.{plain}
use amaterasu.Machine.{Machine, kernel_of, with_kernel, words_of_bytes}
use amaterasu.Machine.Tests.{small_machine}
use amaterasu.Syscall.{number, syscall_fork}
use amaterasu.Syscall.Handler.{answered, Surroundings, syscall_handler}
use amaterasu.Syscall.Handler.Calls.{syscall_handler-fork}

abbrev around : Surroundings
around = record {
  font = λ c y x. 0;
  return_from_sys_fork = 0x401000;
  info_buffer = 2048;
  unassigned = 7;
}

abbrev no_switch : Machine two_masks plain → Machine two_masks plain
no_switch m = m

machine-CanFork : CanFork (kernel_of small_machine) eight_free pages_in_use (50 ∷ []) grant
machine-CanFork =
    let c = one_process-CanFork in
    record {
      buddy = c.buddy;
      low = c.low;
      given = c.given;
      process = c.process;
      process_memory = c.process_memory;
      thread_info = c.thread_info;
      new_memory = c.new_memory;
      used_distinct = c.used_distinct;
      used_frames = c.used_frames;
      parent_frames = c.parent_frames;
      ring = c.ring;
      ring_distinct = c.ring_distinct;
      new_node = c.new_node;
    }

syscall_handler-fork_example :
    (k' : Kernel) × (syscall_handler around no_switch 5
        (number syscall_fork)
        (0x11000 + 8 * 400)
        0
        0
        0
        small_machine
      ≡ some (answered (new_process_id 0), with_kernel k' small_machine))
    × IsForked 0x401000 40 400 pages_in_use (50 ∷ []) grant (kernel_of small_machine) k'
    × ((a : ℕ)
        → a % 8 ≡ 0
        → k'.memory a < u64
        → words_of_bytes (with_kernel k' small_machine).disk.memory a ≡ k'.memory a)
syscall_handler-fork_example =
    syscall_handler-fork around no_switch 5 40 400 0 0 0 small_machine eight_free pages_in_use
      (50 ∷ []) grant (omega arith) (omega arith) machine-CanFork

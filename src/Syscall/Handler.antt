-- ===== src/Syscall/Handler.antt =====
-- `SyscallHandler` of syscall.c: the dispatch of the system calls, on the globals of all parts. The calls
-- that read do not poll, so they sleep; `sleep` is what `sleep` of scheduler.c and the processes and handlers
-- that run meanwhile do to the whole machine until the caller runs again.
pub mod Calls
use amaterasu.Base.{
  ℕ, zero, suc, ◌+◌, ◌-◌, ◌*◌, ◌/◌, ◌%◌, ◌^◌, Bool, true, false, Option, none, some, ◌==◌,
  if◌then◌else◌, update,
}
use amaterasu.Util.{u64}
use amaterasu.Graphic.{Font, putc}
use amaterasu.X86.Ports.{Ports}
use amaterasu.Interrupt.{syscall_interrupt_num}
use amaterasu.Pic.{send_end_of_interrupt}
use amaterasu.Ata.{Disk, ata_read, begin_read}
use amaterasu.Acpi.{word64}
use amaterasu.Fat.{File, get_file_info, read_file}
use amaterasu.Hpet.{Registers}
use amaterasu.Process.Kernel.{ProcessMemory}
use amaterasu.Process.Fork.{sys_fork, sys_exit}
use amaterasu.Process.Exec.{Outcome, sys_exec, store_bytes, returned}
use amaterasu.Machine.{Machine, act, show_printed}
use amaterasu.Syscall.{number, SyscallNum}
use amaterasu.Syscall.{
  syscall_read, syscall_put, syscall_open, syscall_exec, syscall_exit, syscall_ata_read,
  syscall_fork,
}

-- How a call ends: it goes back to the caller with a value, the caller goes on in another program with its
-- stack pointer at a frame, or the caller has ended and another process runs.
pub data Ending : Type 0 where
  answered : (ret : ℕ) → Ending
  replaced : (rsp : ℕ) → Ending
  ended : Ending

-- `struct File` in memory.
abbrev pub file_at : (memory : ℕ → ℕ) (at : ℕ) → File
file_at memory at = record { start = word64 memory at; size = word64 memory (at + 8) }

abbrev pub store_file : (at : ℕ) → File → (ℕ → ℕ) → ℕ → ℕ
store_file at file memory = store_bytes 8 (at + 8) file.size (store_bytes 8 at file.start memory)

-- What the handler takes from the rest of the kernel: the font, the label that a child returns to, the
-- address of the buffer of `GetFileInfo`, and the value that `ret` has where it is not assigned.
pub record Surroundings : Type 0 where
  pub font : Font
  pub return_from_sys_fork : ℕ
  pub info_buffer : ℕ
  pub unassigned : ℕ

abbrev pub SystemCall : Ports → Registers → Type 0
SystemCall ports registers = Machine ports registers → Option (Ending × Machine ports registers)

module _ {ports : Ports} {registers : Registers} (around : Surroundings)
    (sleep : Machine ports registers → Machine ports registers) (fuel : ℕ) where
  open around use {font, return_from_sys_fork, info_buffer, unassigned}

  -- The driver's part of a sleep, in a call that began on this machine.
  abbrev disk_sleep : Machine ports registers → Disk ports → Disk ports
  disk_sleep m d = (sleep (record m { disk = d })).disk

  -- The machine where a read goes on: it has slept if the queue took its request.
  abbrev slept : (lba size buffer : ℕ) → Machine ports registers → Machine ports registers
  slept lba size buffer m =
      let (accepted, d) = begin_read ports lba size buffer m.disk in
      if accepted then sleep (record m { disk = d }) else m

  -- The machine after a read that left the driver so. What the driver printed, after the sleep if at all,
  -- is on the screen.
  abbrev after_read :
      (lba size buffer : ℕ) → Disk ports → Machine ports registers → Machine ports registers
  after_read lba size buffer disk m =
      show_printed font (record (slept lba size buffer m) { disk = disk })

  -- A read that returns an `int`, as `ret`.
  abbrev disk_call :
      (lba size buffer : ℕ) → Option (Option ℕ × Disk ports) → SystemCall ports registers
  disk_call lba size buffer run m = elim run [
    | none ↦ none
    | some (result, disk) ↦
        some (answered (returned ports result), after_read lba size buffer disk m)
  ]

  -- `SYSCALL_READ`
  pub read_call : (file buffer : ℕ) → SystemCall ports registers
  read_call file buffer m =
      let f = file_at m.disk.memory file in
      disk_call (f.start % 2 ^ 32) f.size buffer
        (read_file ports (disk_sleep m) fuel f buffer false m.disk) m

  -- `SYSCALL_PUT`
  pub put_call : (c : ℕ) → SystemCall ports registers
  put_call c m = some (answered unassigned, record m { screen = putc font (c % 2 ^ 8) m.screen })

  -- `SYSCALL_OPEN`: `GetFileInfo` fills in the file where it finds one.
  pub open_call : (filename file : ℕ) → SystemCall ports registers
  open_call filename file m =
      let root = m.partition.root_dir_start_lba in
      elim (get_file_info ports (disk_sleep m) fuel filename info_buffer false m.partition m.disk) [
        | none ↦ none
        | some (found, disk) ↦ elim found [
          | none ↦ some (answered 0, after_read root 512 info_buffer disk m)
          | some info ↦ some (
            answered 1,
            after_read root 512 info_buffer
                (record disk { memory = store_file file info disk.memory }) m,
          )
        ]
      ]

  -- `SYSCALL_EXEC`
  pub exec_call : (rsp filename : ℕ) → SystemCall ports registers
  exec_call rsp filename m =
      let k = m.kernel in
      let current = k.processes k.ring.current_process in
      let pm = k.process_memories current.process_memory in
      elim (sys_exec ports (disk_sleep m) fuel rsp filename info_buffer m.partition pm
        (record { disk = m.disk; heap = k.heap; tss = k.tss })) [
          | none ↦ none
          | some (outcome, e) ↦
              let m' =
                show_printed font
                  (record m { disk = e.disk; kernel = record k { heap = e.heap; tss = e.tss } }) in
              elim outcome [
                | Outcome.failed ↦ some (answered unassigned, m')
                | Outcome.entered frame ↦ some (replaced frame, m')
              ]
        ]

  -- `SYSCALL_EXIT`, up to the switch to the process that runs next.
  pub exit_call : SystemCall ports registers
  exit_call m = elim (sys_exit fuel m.kernel.ring) [
    | none ↦ none
    | some ring ↦ some (
      ended,
      record m {
        kernel = record m.kernel { ring = ring };
        disk = record m.disk { current_process = ring.current_process };
      },
    )
  ]

  -- `SYSCALL_ATA_READ`. A size is an `int`; the driver's model takes those that are not negative.
  pub ata_read_call : (lba size buffer : ℕ) → SystemCall ports registers
  ata_read_call lba size buffer m =
      disk_call (lba % 2 ^ 32) (size % 2 ^ 32) buffer
        (ata_read ports (disk_sleep m) fuel (lba % 2 ^ 32) (size % 2 ^ 32) buffer false m.disk) m

  -- `SYSCALL_FORK`
  pub fork_call : (rsp : ℕ) → SystemCall ports registers
  fork_call rsp m = elim (act (sys_fork return_from_sys_fork rsp) m) [
    | none ↦ none
    | some (pid, m') ↦ some (answered pid, m')
  ]

  -- The `switch`; a number that is none of these does nothing.
  pub dispatch : (syscall_id rsp arg1 arg2 arg3 : ℕ) → SystemCall ports registers
  dispatch syscall_id rsp arg1 arg2 arg3 m =
      if syscall_id == number syscall_read
      then read_call arg1 arg2 m
      else if syscall_id == number syscall_put
      then put_call arg1 m
      else if syscall_id == number syscall_open
      then open_call arg1 arg2 m
      else if syscall_id == number syscall_exec
      then exec_call rsp arg1 m
      else if syscall_id == number syscall_exit
      then exit_call m
      else if syscall_id == number syscall_ata_read
      then ata_read_call arg1 arg2 arg3 m
      else if syscall_id == number syscall_fork
      then fork_call rsp m
      else some (answered unassigned, m)

  abbrev end_of_interrupt : Machine ports registers → Machine ports registers
  end_of_interrupt m =
      let device = send_end_of_interrupt ports syscall_interrupt_num m.disk.device in
      record m { disk = record m.disk { device = device } }

  -- What follows the `switch`: only a call that goes back to the caller gets there.
  pub finish : Ending → Machine ports registers → Ending × Machine ports registers
  finish (answered ret) m = (answered ret, end_of_interrupt m)
  finish (replaced rsp) m = (replaced rsp, m)
  finish ended m = (ended, m)

  -- `SyscallHandler`
  pub syscall_handler : (syscall_id rsp arg1 arg2 arg3 : ℕ) → SystemCall ports registers
  syscall_handler syscall_id rsp arg1 arg2 arg3 m =
      elim (dispatch syscall_id rsp arg1 arg2 arg3 m) [
        | none ↦ none
        | some (ending, m') ↦ some (finish ending m')
      ]

-- ===== src/Syscall.antt =====
-- syscall.c and syscall.h: the numbers of the system calls, and the gate that leads to their handler. The
-- handlers of the calls are modelled with the parts that they belong to.
pub mod Handler
mod Tests
use amaterasu.Base.{ℕ}
use amaterasu.X86.Ports.{Ports}
use amaterasu.Interrupt.{Idt, syscall_interrupt_num, set_interrupt_descriptor}
use amaterasu.Pic.{enable_interrupt_on_pic}

-- `enum SYSCALL_NUM`
pub data SyscallNum : Type 0 where
  syscall_read : SyscallNum
  syscall_put : SyscallNum
  syscall_open : SyscallNum
  syscall_exec : SyscallNum
  syscall_exit : SyscallNum
  syscall_ata_read : SyscallNum
  syscall_fork : SyscallNum

abbrev pub number : SyscallNum → ℕ
number syscall_read = 0
number syscall_put = 1
number syscall_open = 2
number syscall_exec = 59
number syscall_exit = 60
number syscall_ata_read = 61
number syscall_fork = 62

-- `SyscallInit`; `handler` is the address of `SyscallHandlerASM`.
unfoldable pub syscall_init :
    (ports : Ports) (handler : ℕ) → Idt → ports.Device → Idt × ports.Device
syscall_init ports handler idt d = (
  set_interrupt_descriptor syscall_interrupt_num handler 1 idt,
  enable_interrupt_on_pic ports syscall_interrupt_num d,
)

-- ===== src/Lib.antt =====
-- amaterasu: a verification library for the kernel.
--
-- The kernel is one address space of C files at the root of the repository with headers under include/.
-- At boot it sets up segments, interrupts, the allocators, the disk and the first process; afterwards
-- interrupts drive the scheduler, the disk and the keyboard, and user programs enter by system calls.
-- Every C function that is modelled is a function of the same name in snake_case (`AllocatePageFrames`
-- is `allocate_page_frames`) on a record of the globals that it reads and writes.
--
-- Parts and files:
--   Base and its children: shared names, tests on numbers, arrays, bit fields, doubly linked lists.
--   Util: util.c. Power and Bytes hold the theorems.
--   PhysicalMemory: physicalMemory.c, the buddy allocator of page frames. `Buddy` holds the globals;
--     FreeLists relates the pointer code to lists of page numbers, Blocks is about blocks and their
--     halves, Split and Allocate follow the loops of `AllocatePageFrames`, Returned is about blocks
--     that are put back, Frames about single frames given out one after the other. Joined, Merge and
--     Free follow `FreePageFrames`: two halves as one block, the joining loop, the whole call. Init is
--     `BuddySystemInit`: Streaks for its inner loops, Partition for the blocks that it places.
--   KHeap: kHeap.c, the heap of sixteen blocks in one page: Lists, Malloc, Take, Allocate, Free, Init.
--     Join is one round of the joining loop of `kfree`, Merge in it the whole loop. `DumpkHeap` only
--     prints.
--   Paging: paging.c, page table entries as 64-bit words and the walk of `CalcPhyAddr` (Walk).
--     Fault is `PagingInit` and the page fault handler. The dumps, which only print, are left out.
--   Process.PageTable: `SetUpPageTable` of process.c. Fill and Entries are about its loops, Space puts
--     the allocator, the tables and the walk together, Built is about the memory outside the tables.
--   Process.Kernel and Process.Fork: the structures of process.h, each in a store by address, and the
--     functions that fork, start kernel threads, exit and set up the first process, as actions on one
--     record with both allocators, the words of memory and the ring. Words and Copies
--     follow the copies, NewProcess and Run the calls, Pages the memory, and Child is `sysFork` as a whole.
--     `KernelThread` and `ProcessInit` have definitions only.
--   Process.Exec: `sysExec` on the bytes of the disk driver's memory, with the offsets of elf.h; Store
--     is about the frame that it writes, Load about the whole call.
--   Process.Steps: what processes may do one after the other, as a step relation.
--   Scheduler: scheduler.c, on the ring of list.c, with Next for the choice and Sound for what it
--     keeps. The switch of registers and stacks is assembly and is left out.
--   Queue: list.c, queue.c and the macros of their headers; Fifo.
--   Ata: ata.c, the queue of requests (Requests), the steps of a read (Idle), the transfer
--     (Transfer), reads that fail (Failure) and the search for drives (Init, with Search for what it
--     leaves alone).
--   Fat: fat.c and file.c; Layout, Directory.
--   Graphic: graphic.c and fb.c; Hex. The table of font.c is an argument. Report is a sequence of
--     `puts` and `puth`, as the fault handlers make them.
--   Kbc, Pic, Interrupt, X86: kbc.c, pic.c, interrupt.c and the segment code of x86_64.c.
--     Interrupt.Fault is the handlers of the double fault and the general protection fault.
--   Acpi and Hpet: acpi.c and hpet.c, less the dumps; Find and Timer hold the theorems.
--   Machine: the globals of all files in one record. Memory is bytes in it, as the disk fills it, and
--     `act` runs a function of process.c on the view of these bytes as 64-bit words; Views is about the
--     two views.
--   Syscall: the numbers of syscall.h and `SyscallInit`. Handler is `SyscallHandler` on the machine, with
--     Calls for the calls one by one.
--   Boot: `start_kernel` in main.c. Start is the whole of it, Memory is about the allocators, Interrupts
--     and Devices are about the part from `idtInit` to `PagingInit`.
--
-- Conventions. A pointer into an array of structs is the element's index, `none` the null pointer;
-- other pointers are addresses. A w-bit value wraps at 2 ^ w where the source can reach it. A
-- function that does not return is `none`; loops that need it run on fuel. The fuel of `pow` is 65
-- and of `log2` 64, one round for each binary digit and for `pow` one to see that none is left;
-- `puth` has 17 rounds for sixteen digits. The splitting and joining loops of the allocators count
-- the orders that are left. Loops that wait for a device take their fuel as an argument. The ports
-- and the devices behind them are a parameter (X86.Ports), so are the registers of the timer, and a
-- theorem that relies on a device's behaviour names it as a hypothesis: that the mask registers
-- keep what is written once they are initialised (Pic.Masks), that the disk's ports are none of the
-- controllers' (Boot.Interrupts), that the disk's data port delivers words (Ata.Transfer), that
-- the timer behaves as its specification says (Hpet.Timer).
--
-- `pageFrameOrder` of physicalMemory.c has ten cells, and the code uses the indices 10 and 11 too. The
-- model takes the words from the array's address on, and a number of them that nothing but the allocator
-- uses; a function that uses another word fails, and the theorems name how many words they need. In the
-- link order of the Makefile the first word behind the array is `xsdt` of acpi.c. It is the allocator's
-- until `ACPIInit` writes it, so while the kernel sets up its memory and the first process; afterwards
-- the theorems are about a build that leaves the words behind the array free.
--
-- The fork's memory is 64-bit words at aligned addresses, since page tables and frames are read so; the
-- structures of kmalloc stand apart from it. The exec's memory is bytes, as the disk fills it. A system call
-- of fork runs on the words that the bytes of the machine spell, and its words are taken apart into bytes
-- again. A handler that ends in a halting loop returns the screen on which it halts. The disk driver
-- gathers what it prints, and the machine draws it where the driver has returned.
--
-- A system call that reads sleeps: what `sleep`, the other processes and the handlers do to the machine
-- until it runs again is a parameter, from the machine to the machine.
--
-- The dispatcher of the system calls returns a value that it has not assigned in four of its cases; this
-- value is a parameter. A size of `SYSCALL_ATA_READ` of 2 ^ 31 or more is negative in the source and is
-- outside the model.
--
-- Not modelled: the dumps, which only print; `taskX` and `CausePageFoult`, which nothing uses; assembly,
-- with the stub of the system calls and the switch of stacks and registers; the user programs under app/;
-- the other declarations of elf.h; the font's data.
pub mod Base
pub mod Util
pub mod PhysicalMemory
pub mod X86
pub mod Interrupt
pub mod Pic
pub mod Kbc
pub mod Paging
pub mod Process
pub mod KHeap
pub mod Queue
pub mod Ata
pub mod Graphic
pub mod Fat
pub mod Scheduler
pub mod Acpi
pub mod Hpet
pub mod Syscall
pub mod Machine
pub mod Boot

-- ===== src/Process/Exec.antt =====
-- process.c and elf.h: the system call exec. Memory is bytes; `ports`, `sleep` and `fuel` are those of the
-- disk. The call does not return where it succeeds: it goes on at the assembly code's `return_from_sys_exec`.
pub mod Store
pub mod Load
mod Tests
use amaterasu.Base.{
  ℕ, zero, suc, ◌+◌, ◌-◌, ◌*◌, ◌/◌, ◌%◌, ◌^◌, Bool, true, List, [], ◌∷◌, Option, none, some, ◌==◌,
  if◌then◌else◌, update,
}
use amaterasu.Util.{u64, memcpy}
use amaterasu.X86.{cs_segment_selector_user, ss_segment_selector_user, switch_kernel_stack}
use amaterasu.X86.Ports.{Ports}
use amaterasu.KHeap.{Heap, kmalloc, kfree}
use amaterasu.Interrupt.{syscall_interrupt_num}
use amaterasu.Pic.{send_end_of_interrupt}
use amaterasu.Ata.{Disk}
use amaterasu.Fat.{File, Partition, get_file_info, read_file}
use amaterasu.Acpi.{word64}
use amaterasu.Process.Kernel.{ProcessMemory, InterruptStack}
use amaterasu.Process.Fork.{words_of, zero_registers, stack_base}

-- The offsets of the fields in `struct Elf64_Ehdr` and `struct Elf64_Phdr`.
abbrev pub e_entry : ℕ
e_entry = 24

abbrev pub e_phoff : ℕ
e_phoff = 32

abbrev pub p_offset : ℕ
p_offset = 8

abbrev pub p_memsz : ℕ
p_memsz = 40

-- A word in memory, its lowest byte first, and words one behind the other.
pub store_bytes : (count at v : ℕ) → (ℕ → ℕ) → ℕ → ℕ
store_bytes zero at v memory = memory
store_bytes (suc count) at v memory =
    store_bytes count (at + 1) (v / 256) (update memory at (v % 256))

pub store_frame : (at : ℕ) → List ℕ → (ℕ → ℕ) → ℕ → ℕ
store_frame at [] memory = memory
store_frame at (w ∷ ws) memory = store_frame (at + 8) ws (store_bytes 8 at w memory)

-- The frame that `iret` returns through: everything is 0 but the entry point, the stack and the
-- user's selectors.
abbrev pub user_registers : (entry_point : ℕ) → InterruptStack
user_registers entry_point = record zero_registers {
  rip = entry_point;
  rsp = 0xffff_ffff_ffff_fff8;
  rbp = 0xffff_ffff_ffff_fff8;
  rflags = 0x202;
  cs = cs_segment_selector_user;
  ss = ss_segment_selector_user;
}

-- The program in the file at `buffer` is copied over the process's text segment, and the frame at `rsp`
-- over its registers.
pub load : (rsp buffer : ℕ) → ProcessMemory → (ℕ → ℕ) → ℕ → ℕ
load rsp buffer pm memory =
    let entry_point = word64 memory (buffer + e_entry) in
    let phdr = (buffer + word64 memory (buffer + e_phoff)) % u64 in
    let text_segment_size = word64 memory (phdr + p_memsz) in
    let text_segment_offset = word64 memory (phdr + p_offset) in
    let copied =
      memcpy pm.text_segment_page_frame ((buffer + text_segment_offset) % u64) text_segment_size
        memory in
    store_frame rsp (words_of (user_registers entry_point)) copied

-- The outcome: the call returns -1, or it goes on in the new program with the stack pointer at the frame.
pub data Outcome : Type 0 where
  failed : Outcome
  entered : (rsp : ℕ) → Outcome

module _ (ports : Ports) where
  -- What the call reads and writes.
  pub record Machine : Type 0 where
    pub disk : Disk ports
    pub heap : Heap
    pub tss : List ℕ

  -- What follows the read of the file.
  pub enter : (rsp buffer : ℕ) → ProcessMemory → Machine → Machine
  enter rsp buffer pm m =
      let loaded = load rsp buffer pm m.disk.memory in
      let device = send_end_of_interrupt ports syscall_interrupt_num m.disk.device in
      record {
        disk = record m.disk { memory = loaded; device = device };
        tss = switch_kernel_stack (stack_base pm.kernel_stack_page_frame) m.tss;
        heap = kfree buffer m.heap;
      }

  -- The `int` that `ReadFile` returns, compared as a 64-bit word: `none` is -1.
  abbrev pub returned : Option ℕ → ℕ
  returned none = u64 - 1
  returned (some n) = n

  module _ (sleep : Disk ports → Disk ports) (fuel : ℕ) where
    -- `sysExec`; `info_buffer` is the address of the buffer of `GetFileInfo`.
    pub sys_exec :
        (rsp filename info_buffer : ℕ)
        → Partition
        → ProcessMemory
        → Machine
        → Option (Outcome × Machine)
    sys_exec rsp filename info_buffer p pm m =
        elim (get_file_info ports sleep fuel filename info_buffer true p m.disk) [
          | none ↦ none
          | some (found, disk) ↦ elim found [
            | none ↦ some (failed, record m { disk = disk })
            | some file ↦ elim (kmalloc file.size m.heap) [
              | none ↦ none
              | some (buffer, heap) ↦
                  let m1 = record m { disk = disk; heap = heap } in
                  if buffer == 0
                  then some (failed, m1)
                  else elim (read_file ports sleep fuel file buffer true disk) [
                    | none ↦ none
                    | some (count, disk2) ↦
                        let m2 = record m1 { disk = disk2 } in
                        if returned count == file.size
                        then some (entered rsp, enter rsp buffer pm m2)
                        else some (failed, m2)
                  ]
            ]
          ]
        ]

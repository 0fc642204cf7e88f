-- ===== src/Machine.antt =====
-- The globals of all files together, for what runs through several of them: the start of the kernel and
-- the system calls. Memory is bytes, as the disk fills it. The functions of process.c read and write
-- 64-bit words at aligned addresses, so they run on a view of these bytes.
pub mod Views
pub mod Tests
use amaterasu.Base.{◌≡◌, ℕ, ◌+◌, ◌-◌, ◌*◌, ◌/◌, ◌%◌, ◌^◌, Option, none, some, List, [], ◌∷◌}
use amaterasu.X86.Ports.{Ports}
use amaterasu.X86.{Segments}
use amaterasu.Interrupt.{Interrupts}
use amaterasu.Graphic.{Screen, Font}
use amaterasu.Graphic.Report.{print}
use amaterasu.Ata.{Disk}
use amaterasu.Acpi.{word64}
use amaterasu.Fat.{Drive, Partition}
use amaterasu.Hpet.{Hpet, Registers}
use amaterasu.Paging.{Memory}
use amaterasu.Process.Kernel.{Kernel, Action}

-- The word at an address, its lowest byte first, and the bytes of the words at aligned addresses.
pub words_of_bytes : (ℕ → ℕ) → Memory
words_of_bytes memory a = word64 memory a

pub bytes_of_words : Memory → ℕ → ℕ
bytes_of_words words a = words (a - a % 8) / 256 ^ (a % 8) % 256

-- `kernel` holds the globals of process.c, scheduler.c and the two allocators, and `tss`; the memory and
-- the process that runs stand in it for the time of an action only.
pub record Machine (ports : Ports) (registers : Registers) : Type 0 where
  pub screen : Screen
  pub kernel : Kernel
  pub segments : Segments
  pub interrupts : Interrupts
  pub disk : Disk ports
  pub timer : registers.Timer
  pub hpet : Hpet
  pub xsdt : ℕ
  pub drives : ℕ → Drive
  pub partition : Partition
  pub cr3 : ℕ
  pub interrupt_flag : ℕ

-- Texts on the screen, one after the other.
abbrev print_all : Font → List (List ℕ) → Screen → Screen
print_all font [] s = s
print_all font (text ∷ texts) s = print_all font texts (print font text s)

module _ {ports : Ports} {registers : Registers} where
  -- What the disk driver has printed is drawn.
  pub show_printed : Font → Machine ports registers → Machine ports registers
  show_printed font m = record m {
    screen = print_all font m.disk.printed m.screen;
    disk = record m.disk { printed = [] };
  }

  -- What a function of process.c sees of the machine.
  abbrev pub kernel_of : Machine ports registers → Kernel
  kernel_of m = record m.kernel { memory = words_of_bytes m.disk.memory }

  -- The machine after such a function. `currentProcess` is one variable for the disk driver too.
  abbrev pub with_kernel : Kernel → Machine ports registers → Machine ports registers
  with_kernel k m = record m {
    kernel = k;
    disk = record m.disk {
      memory = bytes_of_words k.memory;
      current_process = k.ring.current_process;
    };
  }

  unfoldable pub act :
      {A : Type 0} → Action A → Machine ports registers → Option (A × Machine ports registers)
  act action m = elim (action (kernel_of m)) [
    | none ↦ none
    | some (a, k) ↦ some (a, with_kernel k m)
  ]

  pub act-some :
      {A : Type 0} (action : Action A) (a : A) (k : Kernel) (m : Machine ports registers)
      → action (kernel_of m) ≡ some (a, k)
      → act action m ≡ some (a, with_kernel k m)
  unfolding act
  act-some action a k m e = rw (e, act)

-- ===== src/Process/Fork.antt =====
-- process.c: the copies that make a new process, the system calls fork and exit, kernel threads, and
-- the first process. The processor's switch to another process is not part of the model.
pub mod Words
pub mod Copies
pub mod NewProcess
pub mod Run
pub mod Child
pub mod Tests
pub mod Pages
use amaterasu.Base.{
  ℕ, zero, suc, ◌+◌, ◌-◌, ◌*◌, ◌%◌, List, [], ◌∷◌, Option, none, some, ◌==◌, if◌then◌else◌, bit_and,
  update,
}
use amaterasu.Util.{u64}
use amaterasu.X86.{cs_segment_selector_kernel, switch_kernel_stack}
use amaterasu.Paging.{Memory}
use amaterasu.Queue.{list_add, list_init}
use amaterasu.Scheduler.{Processes, running, zombie, new_process_id, schedule}
use amaterasu.Process.PageTable.{set_up_page_table}
use amaterasu.Process.Kernel.{
  clone_vm, Kernel, Process, ThreadInfo, ProcessMemory, InterruptStack, process_memory_bytes,
  thread_info_bytes, process_bytes, node_offset, Action, ◌>>=◌, ◌>>◌, pure, reads, assign,
  kmalloc_bytes, allocate_page_frame, assign_process, assign_thread_info, assign_process_memory,
}

-- The words of a frame in the order of the structure.
abbrev pub words_of : InterruptStack → List ℕ
words_of r =
    r.rax ∷ r.rbx ∷ r.rcx ∷ r.rdx ∷ r.rbp ∷ r.rsi ∷ r.rdi ∷ r.r8 ∷ r.r9 ∷ r.r10 ∷ r.r11 ∷ r.r12
    ∷ r.r13 ∷ r.r14 ∷ r.r15 ∷ r.rip ∷ r.cs ∷ r.rflags ∷ r.rsp ∷ r.ss ∷ []

pub store_words : (at : ℕ) → List ℕ → Memory → Memory
store_words at [] memory = memory
store_words at (w ∷ ws) memory = store_words (at + 8) ws (update memory at w)

-- `SetUpKernelStack`
pub set_up_kernel_stack : (registers : InterruptStack) (kernel_stack_base : ℕ) → Action ℕ
set_up_kernel_stack registers kernel_stack_base =
    let sp = ((kernel_stack_base + u64 - 160) % u64 + 8) % u64 in
    do assign λ k. record k { memory = store_words sp (words_of registers) k.memory }; pure sp

-- `memcpy` of a page by its words, for frames that are aligned.
pub copy_words : (rounds i dst src : ℕ) → Memory → Memory
copy_words zero i dst src memory = memory
copy_words (suc rounds) i dst src memory =
    copy_words rounds (i + 1) dst src (update memory (dst + 8 * i) (memory (src + 8 * i)))

abbrev pub copy_page : (dst src : ℕ) → Action (Unit {0})
copy_page dst src = assign λ k. record k { memory = copy_words 512 0 dst src k.memory }

-- The top of a stack in a page frame: `frame - 8 + PAGE_SIZE`.
abbrev pub stack_base : (frame : ℕ) → ℕ
stack_base frame = (frame + u64 - 8 + 4096) % u64

-- `SetUpPageTable`
pub page_table : (text_segment_page_frame process_stack_base : ℕ) → Action ℕ
page_table text_segment_page_frame process_stack_base k =
    elim (set_up_page_table text_segment_page_frame process_stack_base k.buddy k.memory) [
      | none ↦ none
      | some (l4, buddy, memory) ↦ some (l4, record k { buddy = buddy; memory = memory })
    ]

-- The copies of the three pages, between two structures.
abbrev pub copy_between : (old new : ProcessMemory) → Action (Unit {0})
copy_between old new = do
  copy_page new.text_segment_page_frame old.text_segment_page_frame
  copy_page new.kernel_stack_page_frame old.kernel_stack_page_frame
  copy_page new.user_stack_page_frame old.user_stack_page_frame

-- A copy's own text segment, and the copies of the three pages.
pub copy_pages : (old : ProcessMemory) (pm : ℕ) → Action (Unit {0})
copy_pages old pm = do
  text ← allocate_page_frame
  assign_process_memory pm λ m. record m { text_segment_page_frame = text }
  new ← reads λ k. k.process_memories pm
  copy_between old new

-- The text segment of a copy: shared, or copied with the two stacks.
pub copy_segments : (clone_flags original_pm pm : ℕ) → Action (Unit {0})
copy_segments clone_flags original_pm pm = do
  old ← reads λ k. k.process_memories original_pm
  if bit_and clone_flags clone_vm == 0
      then copy_pages old pm
      else assign_process_memory pm
          (λ m. record m { text_segment_page_frame = old.text_segment_page_frame })

-- `CopyProcessMemory`
pub copy_process_memory : (clone_flags original_pm : ℕ) → Action ℕ
copy_process_memory clone_flags original_pm = do
  pm ← kmalloc_bytes process_memory_bytes
  original ← reads λ k. k.process_memories original_pm
  assign_process_memory pm λ m. original
  user ← allocate_page_frame
  assign_process_memory pm λ m. record m { user_stack_page_frame = user }
  kernel ← allocate_page_frame
  assign_process_memory pm λ m. record m { kernel_stack_page_frame = kernel }
  copy_segments clone_flags original_pm pm
  new ← reads λ k. k.process_memories pm
  l4 ← page_table new.text_segment_page_frame (stack_base new.user_stack_page_frame)
  assign_process_memory pm λ m. record m { l4_page_table_base = l4 }
  pure pm

-- `CopyThreadInfo`
pub copy_thread_info : (original_ti process : ℕ) → Action ℕ
copy_thread_info original_ti process = do
  ti ← kmalloc_bytes thread_info_bytes
  original ← reads λ k. k.thread_infos original_ti
  assign_thread_info ti λ t. original
  assign_thread_info ti λ t. record t { process = process }
  pure ti

-- `memcpy(p, original, sizeof(struct Process))` copies the state and the links with the rest.
abbrev pub copy_structure : (p original : ℕ) → Kernel → Kernel
copy_structure p original k =
    let r = k.ring in
    record k {
      processes = update k.processes p (k.processes original);
      ring = record r {
        state = update r.state p (r.state original);
        links = record {
          prev = update r.links.prev p (r.links.prev original);
          next = update r.links.next p (r.links.next original);
        };
      };
    }

-- `ListAdd` on the nodes of processes.
abbrev pub add_to_ring : (p behind : ℕ) → Kernel → Kernel
add_to_ring p behind k =
    let r = k.ring in record k { ring = record r { links = list_add p behind r.links } }

-- `CopyProcess`
pub copy_process : (clone_flags original : ℕ) → Action ℕ
copy_process clone_flags original = do
  address ← kmalloc_bytes process_bytes
  let p = address + node_offset
  assign (copy_structure p original)
  assign (add_to_ring p original)
  from ← reads λ k. k.processes original
  assign_process p λ c. record c { pid = new_process_id from.pid }
  pm ← copy_process_memory clone_flags from.process_memory
  assign_process p λ c. record c { process_memory = pm }
  again ← reads λ k. k.processes original
  ti ← copy_thread_info again.thread_info p
  assign_process p λ c. record c { thread_info = ti }
  pure p

-- A frame of zeros, as `memset` leaves it.
abbrev pub zero_registers : InterruptStack
zero_registers = record {
  rax = 0;
  rbx = 0;
  rcx = 0;
  rdx = 0;
  rbp = 0;
  rsi = 0;
  rdi = 0;
  r8 = 0;
  r9 = 0;
  r10 = 0;
  r11 = 0;
  r12 = 0;
  r13 = 0;
  r14 = 0;
  r15 = 0;
  rip = 0;
  cs = 0;
  rflags = 0;
  rsp = 0;
  ss = 0;
}

-- The stack of a child with the memory `pm`, as `DoFork` sets it up: the frame given, or the parent's
-- frame with 0 in `rax`.
abbrev pub stack_in :
    (share_vm : ℕ) (registers : InterruptStack) (rsp : ℕ) (pm parent_pm : ProcessMemory) → Action ℕ
stack_in share_vm registers rsp pm parent_pm =
    let top = stack_base pm.kernel_stack_page_frame in
    let child_rsp =
      (pm.kernel_stack_page_frame + (rsp + u64 - parent_pm.kernel_stack_page_frame)) % u64 in
    if share_vm == 0
    then (do assign λ k. record k { memory = update k.memory child_rsp 0 }; pure child_rsp)
    else set_up_kernel_stack (record registers { rbp = top; rsp = top }) top

pub child_stack : (share_vm : ℕ) (registers : InterruptStack) (rsp child parent : ℕ) → Action ℕ
child_stack share_vm registers rsp child parent = do
  pm ← reads λ k. k.process_memories (k.processes child).process_memory
  parent_pm ← reads λ k. k.process_memories (k.processes parent).process_memory
  stack_in share_vm registers rsp pm parent_pm

-- `return_from_sys_fork` is the address of a label of the assembly code. `registers` is what the
-- pointer of that name points at, which is read only where the memory is shared.
module _ (return_from_sys_fork : ℕ) where
  -- `DoFork`
  pub do_fork : (share_vm : ℕ) (registers : InterruptStack) (rsp : ℕ) → Action ℕ
  do_fork share_vm registers rsp = do
    parent ← reads λ k. k.ring.current_process
    child ← copy_process share_vm parent
    assign_process child λ c. record c { parent = parent }
    ring0rsp ← child_stack share_vm registers rsp child parent
    c ← reads λ k. k.processes child
    pm ← reads λ k. k.process_memories c.process_memory
    assign_thread_info c.thread_info λ t. record t {
      ring0rsp = ring0rsp;
      rsp = ring0rsp;
      rip = return_from_sys_fork;
      cr3 = pm.l4_page_table_base;
    }
    pure c.pid

  -- `sysFork`
  pub sys_fork : (rsp : ℕ) → Action ℕ
  sys_fork rsp = do_fork 0 zero_registers rsp

  -- `KernelThread`
  pub kernel_thread : (fn arg1 : ℕ) → Action ℕ
  kernel_thread fn arg1 =
      do_fork 1
        (record zero_registers {
          rip = fn;
          cs = cs_segment_selector_kernel;
          rflags = 0x202;
          rdi = arg1;
        })
        0

-- `sysExit`, up to the switch to the process that runs next.
unfoldable pub sys_exit : (fuel : ℕ) → Processes → Option Processes
sys_exit fuel s = schedule fuel (record s { state = update s.state s.current_process zombie })

-- The structure of the first process in the ring, which is new.
abbrev pub start_ring : (p : ℕ) → Kernel → Kernel
start_ring p k =
    let r = k.ring in
    record k {
      ring = record r {
        links = list_add p r.process_list (list_init r.process_list r.links);
        state = update r.state p running;
        current_process = p;
      };
    }

-- `ProcessInit`
pub process_init : Action (Unit {0})
process_init = do
  address ← kmalloc_bytes process_bytes
  let p = address + node_offset
  assign (start_ring p)
  assign_process p λ c. record c { pid = 0; parent = 0 }
  pm ← kmalloc_bytes process_memory_bytes
  text ← allocate_page_frame
  assign_process_memory pm λ m. record m { text_segment_page_frame = text }
  kernel ← allocate_page_frame
  assign_process_memory pm λ m. record m { kernel_stack_page_frame = kernel }
  user ← allocate_page_frame
  assign_process_memory pm λ m. record m { user_stack_page_frame = user }
  l4 ← page_table text (stack_base user)
  assign_process_memory pm λ m. record m { l4_page_table_base = l4 }
  assign λ k. record k { tss = switch_kernel_stack (stack_base kernel) k.tss }
  ti ← kmalloc_bytes thread_info_bytes
  assign_thread_info ti λ t. record t { process = p; ring0rsp = stack_base kernel }
  assign_process p λ c. record c { process_memory = pm; thread_info = ti }

-- ===== src/Process/Fork/Child.antt =====
-- What a forked process is: `sysFork` as a whole.
use amaterasu.Base.{
  ℕ, ◌+◌, ◌-◌, ◌*◌, ◌/◌, ◌%◌, ◌≡◌, ◌≢◌, ◌<◌, ◌≤◌, refl, ap, ◌∙◌, some, true, false, List, [], ◌∷◌,
  ◌==◌, if◌then◌else◌, arith, update,
}
use amaterasu.Base.Chain.{elem, Distinct, apart}
use amaterasu.Util.{u64}
use amaterasu.KHeap.{Heap, kmalloc}
use amaterasu.PhysicalMemory.{Buddy}
use amaterasu.PhysicalMemory.FreeLists.{FreeBlocks}
use amaterasu.PhysicalMemory.Blocks.{IsFree}
use amaterasu.PhysicalMemory.Split.{IsBuddy}
use amaterasu.PhysicalMemory.Frames.{Given, IsFrame, IsLow, given-Distinct}
use amaterasu.Paging.{Memory, calc_phy_addr}
use amaterasu.Paging.Walk.{address_space}
use amaterasu.Queue.{Links}
use amaterasu.Queue.Fifo.{Linked, linked_frame, add_first}
use amaterasu.Scheduler.{new_process_id}
use amaterasu.Process.PageTable.Space.{set_up_page_table-built}
use amaterasu.Process.Kernel.{
  Kernel, ProcessMemory, process_bytes, node_offset, process_memory_bytes, thread_info_bytes,
  update-same, update-other,
}
use amaterasu.Process.Fork.{sys_fork, stack_base}
use amaterasu.Process.PageTable.Space.{built}
use amaterasu.Process.Fork.Copies.{copied}
use amaterasu.Process.Fork.NewProcess.{Resources, Gives, process_copied}
use amaterasu.Process.Fork.Run.{sys_fork_lem}
use amaterasu.Process.Fork.Pages.{text-copied, user-copied, kernel-copied, used-kept, child_space}

-- The process that runs, and its memory.
abbrev pub parent_memory : Kernel → ProcessMemory
parent_memory k = k.process_memories (k.processes k.ring.current_process).process_memory

-- What the two allocators give out for a child.
pub record Grant : Type 0 where
  pub address : ℕ
  pub pm : ℕ
  pub ti : ℕ
  pub h0 : Heap
  pub h1 : Heap
  pub h2 : Heap
  pub user : ℕ
  pub kernel : ℕ
  pub text : ℕ
  pub lower : ℕ
  pub l1 : ℕ
  pub l2 : ℕ
  pub l3 : ℕ
  pub l4 : ℕ
  pub b' : Buddy

-- The child's node.
abbrev pub child_of : Grant → ℕ
child_of g = g.address + node_offset

abbrev pub frames_of : Grant → List ℕ
frames_of g = g.user ∷ g.kernel ∷ g.text ∷ g.lower ∷ g.l1 ∷ g.l2 ∷ g.l3 ∷ g.l4 ∷ []

-- The allocators have what a child needs. `used` are page frames in use, those of the parent among
-- them, and `others` the other nodes of the ring.
pub record CanFork (k : Kernel) (free : FreeBlocks) (used others : List ℕ) (g : Grant)
    : Type 0 where
  pub buddy : IsBuddy k.buddy free
  pub low : IsLow free
  pub given : Given k.buddy (frames_of g) g.b'
  pub process : kmalloc process_bytes k.heap ≡ some (g.address, g.h0)
  pub process_memory : kmalloc process_memory_bytes g.h0 ≡ some (g.pm, g.h1)
  pub thread_info : kmalloc thread_info_bytes g.h1 ≡ some (g.ti, g.h2)
  pub new_memory : (k.processes k.ring.current_process).process_memory ≢ g.pm
  pub used_distinct : Distinct used
  pub used_frames : (f : ℕ) → elem f used ≡ true → IsFrame f × ¬ IsFree free (f / 4096)
  pub parent_frames :
      (elem (parent_memory k).user_stack_page_frame used ≡ true)
      × (elem (parent_memory k).kernel_stack_page_frame used ≡ true)
      × (elem (parent_memory k).text_segment_page_frame used ≡ true)
  pub ring : Linked k.ring.links k.ring.current_process k.ring.current_process others
  pub ring_distinct : Distinct (k.ring.current_process ∷ others)
  pub new_node : elem (child_of g) (k.ring.current_process ∷ others) ≡ false

-- A child that runs where the parent will return from the call, with 0 as its result, on its own
-- copies of the parent's pages; `slot` is the word of the kernel stack that holds `rax`.
pub record IsForked (return_from_sys_fork bits slot : ℕ) (used others : List ℕ) (g : Grant)
    (k k' : Kernel) : Type 0 where
  pub current : k'.ring.current_process ≡ k.ring.current_process
  pub ring :
      Linked k'.ring.links k.ring.current_process k.ring.current_process (child_of g ∷ others)
  pub state : k'.ring.state (child_of g) ≡ k.ring.state k.ring.current_process
  pub process : k'.processes (child_of g) ≡ record {
    pid = new_process_id (k.processes k.ring.current_process).pid;
    parent = k.ring.current_process;
    thread_info = g.ti;
    process_memory = g.pm;
  }
  pub thread : k'.thread_infos g.ti ≡ record {
    rsp = g.kernel + 8 * slot;
    ring0rsp = g.kernel + 8 * slot;
    cr3 = g.l4;
    rip = return_from_sys_fork;
    process = child_of g;
  }
  pub text :
      (j : ℕ)
      → j < 512
      → k'.memory (g.text + 8 * j) ≡ k.memory ((parent_memory k).text_segment_page_frame + 8 * j)
  pub user :
      (j : ℕ)
      → j < 512
      → k'.memory (g.user + 8 * j) ≡ k.memory ((parent_memory k).user_stack_page_frame + 8 * j)
  pub kernel :
      (j : ℕ)
      → j < 512
      → k'.memory (g.kernel + 8 * j)
        ≡ (if j == slot then 0 else k.memory ((parent_memory k).kernel_stack_page_frame + 8 * j))
  pub kept : (f j : ℕ) → elem f used ≡ true → j < 512 → k'.memory (f + 8 * j) ≡ k.memory (f + 8 * j)
  pub space :
      (a : ℕ) → a < u64 → calc_phy_addr bits k'.memory a g.l4 ≡ address_space g.text g.user a

module _ (k : Kernel) (free : FreeBlocks) (used others : List ℕ) (g : Grant)
    (c : CanFork k free used others g) where
  abbrev copies : Memory
  copies = copied g.user g.kernel g.text (parent_memory k) k.memory

  -- The memory with the page tables; the first and the ninth argument do not matter.
  abbrev tables_memory : Memory
  tables_memory = built 0 g.lower g.l1 g.l2 g.l3 g.l4 g.text 0 (stack_base g.user) copies

  abbrev resources : Resources
  resources = record {
    address = g.address;
    pm = g.pm;
    ti = g.ti;
    user = g.user;
    kernel = g.kernel;
    text = g.text;
    l4 = g.l4;
    h0 = g.h0;
    h1 = g.h1;
    h2 = g.h2;
    b1 = c.given.0;
    b2 = c.given.3.0;
    b3 = c.given.3.3.0;
    b' = g.b';
    memory' = tables_memory;
  }

  gives : Gives k.ring.current_process k resources
  gives = record {
    process = c.process;
    process_memory = c.process_memory;
    thread_info = c.thread_info;
    user = c.given.1;
    kernel = c.given.3.1;
    text = c.given.3.3.1;
    table =
        set_up_page_table-built 0 g.lower g.l1 g.l2 g.l3 g.l4 g.text (stack_base g.user)
          c.given.3.3.0 c.given.3.3.3.0 c.given.3.3.3.3.0 c.given.3.3.3.3.3.0 c.given.3.3.3.3.3.3.0
          c.given.3.3.3.3.3.3.3.0 copies c.given.3.3.3.1 c.given.3.3.3.3.1 c.given.3.3.3.3.3.1
          c.given.3.3.3.3.3.3.1 c.given.3.3.3.3.3.3.3.1
          (
            c.given.3.3.3.2, c.given.3.3.3.3.2, c.given.3.3.3.3.3.2, c.given.3.3.3.3.3.3.2,
            c.given.3.3.3.3.3.3.3.2,
          )
        ∙ ap (λ (b : Buddy). some (g.l4, b, tables_memory)) c.given.3.3.3.3.3.3.3.3;
    new_process = λ e. ground (arith, c.new_node);
    new_memory = c.new_memory;
  }

  abbrev parent_node : ℕ
  parent_node = k.ring.current_process

  -- The state that the call leaves, with the child's stack pointer.
  abbrev after_fork : (return_from_sys_fork sp : ℕ) → Kernel
  after_fork return_from_sys_fork sp = record (process_copied parent_node k resources) {
    processes = update k.processes (child_of g) (record {
      pid = new_process_id (k.processes parent_node).pid;
      parent = parent_node;
      thread_info = g.ti;
      process_memory = g.pm;
    });
    thread_infos = update k.thread_infos g.ti (record {
      rsp = sp;
      ring0rsp = sp;
      cr3 = g.l4;
      rip = return_from_sys_fork;
      process = child_of g;
    });
    memory = update tables_memory sp 0;
  }

  distinct :
      Distinct (g.user ∷ g.kernel ∷ g.text ∷ g.lower ∷ g.l1 ∷ g.l2 ∷ g.l3 ∷ g.l4 ∷ used)
      × ((f : ℕ)
          → elem f (g.user ∷ g.kernel ∷ g.text ∷ g.lower ∷ g.l1 ∷ g.l2 ∷ g.l3 ∷ g.l4 ∷ used) ≡ true
          → IsFrame f)
  distinct =
      given-Distinct (frames_of g) used k.buddy g.b' free c.buddy c.low c.given c.used_distinct
        c.used_frames

  stack_pointer :
      (slot : ℕ)
      → slot < 512
      → let parent_kernel = (parent_memory k).kernel_stack_page_frame in
        (g.kernel + (parent_kernel + 8 * slot + u64 - parent_kernel)) % u64 ≡ g.kernel + 8 * slot
  stack_pointer slot lt =
      let f : IsFrame g.kernel = distinct.1 g.kernel (ground arith) in omega (arith, f.1)

  run_fork :
      (return_from_sys_fork slot : ℕ)
      → slot < 512
      → sys_fork return_from_sys_fork ((parent_memory k).kernel_stack_page_frame + 8 * slot) k
        ≡ some (
          new_process_id (k.processes parent_node).pid,
          after_fork return_from_sys_fork (g.kernel + 8 * slot),
        )
  run_fork return_from_sys_fork slot lt =
      sys_fork_lem return_from_sys_fork ((parent_memory k).kernel_stack_page_frame + 8 * slot) k
        resources gives
      ∙ ap
          (λ (sp : ℕ).
            some (new_process_id (k.processes parent_node).pid, after_fork return_from_sys_fork sp))
          (stack_pointer slot lt)

  -- The ring after `ListAdd`, whose node the copy of the structure has overwritten before.
  ring_after :
      Linked
        (process_copied parent_node k resources).ring.links
        parent_node
        parent_node
        (child_of g ∷ others)
  ring_after =
      let l = k.ring.links in
      let x = child_of g in
      let copied_links : Links = record {
        prev = update l.prev x (l.prev parent_node);
        next = update l.next x (l.next parent_node);
      } in
      let old : (q : ℕ) → elem q (parent_node ∷ others) ≡ true → q ≢ x =
        λ q m e. ground (arith, apart q x q (parent_node ∷ others) c.new_node m) in
      add_first copied_links parent_node x others
        (linked_frame l copied_links parent_node parent_node others
          (λ q m. update-other l.next x q (l.next parent_node) (old q m))
          (λ q m. update-other l.prev x q (l.prev parent_node) (old q m)) c.ring)
        c.ring_distinct c.new_node

-- `sysFork` of a process whose kernel stack holds the interrupted registers from word `slot` on, where
-- the allocators give out three structures and eight page frames: it returns the child's number, and
-- puts a child behind the parent in the ring, in the parent's state and with the parent still
-- running. The child's text segment and user stack are copies of the parent's, its kernel stack too
-- but for the result of 0, it goes on where the parent called, in an address space of its own
-- pages, and no page in use is changed.
pub sys_fork-IsForked :
    (return_from_sys_fork bits slot : ℕ) (k : Kernel) (free : FreeBlocks) (used others : List ℕ)
    (g : Grant)
    → 40 ≤ bits
    → slot < 512
    → CanFork k free used others g
    → (k' : Kernel) × (sys_fork return_from_sys_fork
          ((parent_memory k).kernel_stack_page_frame + 8 * slot)
          k
        ≡ some (new_process_id (k.processes k.ring.current_process).pid, k'))
      × IsForked return_from_sys_fork bits slot used others g k k'
sys_fork-IsForked return_from_sys_fork bits slot k free used others g wide lt c =
    let (d, frames) = distinct k free used others g c in
    let m = parent_memory k in
    (
      after_fork k free used others g c return_from_sys_fork (g.kernel + 8 * slot),
      run_fork k free used others g c return_from_sys_fork slot lt,
      record {
        current = refl;
        ring = ring_after k free used others g c;
        state = update-same k.ring.state (child_of g) (k.ring.state k.ring.current_process);
        process = update-same k.processes (child_of g) _;
        thread = update-same k.thread_infos g.ti _;
        text =
            text-copied g.user g.kernel g.text g.lower g.l1 g.l2 g.l3 g.l4 used d frames bits slot m
              k.memory lt c.parent_frames;
        user =
            user-copied g.user g.kernel g.text g.lower g.l1 g.l2 g.l3 g.l4 used d frames bits slot m
              k.memory lt c.parent_frames;
        kernel =
            kernel-copied g.user g.kernel g.text g.lower g.l1 g.l2 g.l3 g.l4 used d frames bits slot
              m k.memory lt c.parent_frames;
        kept =
            used-kept g.user g.kernel g.text g.lower g.l1 g.l2 g.l3 g.l4 used d frames bits slot m
              k.memory lt c.parent_frames;
        space =
            child_space g.user g.kernel g.text g.lower g.l1 g.l2 g.l3 g.l4 used d frames bits slot m
              k.memory lt c.parent_frames wide;
      },
    )

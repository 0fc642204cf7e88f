-- ===== src/Process/Kernel.antt =====
-- process.h and x86_64.h: processes, and the state that the functions of process.c share. Each
-- structure stands in a store of its own, by address, apart from the words of the page frames. A
-- process is known by the address of its node in the ring, 16 bytes into the structure.
use amaterasu.Base.{
  ℕ, ◌≡◌, ◌≢◌, ap, List, Option, none, some, update, fun_ext, eq_self, eq_of_ne, Bool-cases, inl,
  inr, ◌==◌,
}
use amaterasu.KHeap.{Heap, kmalloc}
use amaterasu.PhysicalMemory.{Buddy, allocate_page_frames}
use amaterasu.Paging.{Memory}
use amaterasu.Scheduler.{Processes}

-- `CLONE_VM`
abbrev pub clone_vm : ℕ
clone_vm = 1

-- `struct ProcessMemory`
pub record ProcessMemory : Type 0 where
  pub user_stack_page_frame : ℕ
  pub kernel_stack_page_frame : ℕ
  pub text_segment_page_frame : ℕ
  pub l4_page_table_base : ℕ

-- `struct ThreadInfo`
pub record ThreadInfo : Type 0 where
  pub rsp : ℕ
  pub ring0rsp : ℕ
  pub cr3 : ℕ
  pub rip : ℕ
  pub process : ℕ

-- `struct Process`, less the state and the node, which `Processes` holds. Null is 0.
pub record Process : Type 0 where
  pub pid : ℕ
  pub parent : ℕ
  pub thread_info : ℕ
  pub process_memory : ℕ

-- `sizeof` of the three structures, and the offset of the node in `struct Process`.
abbrev pub process_memory_bytes : ℕ
process_memory_bytes = 32

abbrev pub thread_info_bytes : ℕ
thread_info_bytes = 40

abbrev pub process_bytes : ℕ
process_bytes = 48

abbrev pub node_offset : ℕ
node_offset = 16

-- `struct InterruptStack`
pub record InterruptStack : Type 0 where
  pub rax : ℕ
  pub rbx : ℕ
  pub rcx : ℕ
  pub rdx : ℕ
  pub rbp : ℕ
  pub rsi : ℕ
  pub rdi : ℕ
  pub r8 : ℕ
  pub r9 : ℕ
  pub r10 : ℕ
  pub r11 : ℕ
  pub r12 : ℕ
  pub r13 : ℕ
  pub r14 : ℕ
  pub r15 : ℕ
  pub rip : ℕ
  pub cs : ℕ
  pub rflags : ℕ
  pub rsp : ℕ
  pub ss : ℕ

-- What the functions of process.c read and write: the two allocators, the words of memory, the ring of
-- processes, the structures, and the task state segment.
pub record Kernel : Type 0 where
  pub heap : Heap
  pub buddy : Buddy
  pub memory : Memory
  pub ring : Processes
  pub processes : ℕ → Process
  pub thread_infos : ℕ → ThreadInfo
  pub process_memories : ℕ → ProcessMemory
  pub tss : List ℕ

-- A C function on this state; `none` means that a call did not return.
abbrev pub Action : Type 0 → Type 0
Action A = Kernel → Option (A × Kernel)

abbrev pub continue : {A B : Type 0} → (A → Action B) → Option (A × Kernel) → Option (B × Kernel)
continue f none = none
continue f (some r) = f r.0 r.1

infixl 5 ◌>>=◌ ◌>>◌
abbrev pub ◌>>=◌ : {A B : Type 0} → Action A → (A → Action B) → Action B
(m >>= f) k = continue f (m k)

abbrev pub ◌>>◌ : {B : Type 0} → Action (Unit {0}) → Action B → Action B
m >> next = m >>= λ _. next

abbrev pub pure : {A : Type 0} → A → Action A
pure a k = some (a, k)

-- Reading the state, and an assignment.
abbrev pub reads : {A : Type 0} → (Kernel → A) → Action A
reads get k = some (get k, k)

abbrev pub assign : (Kernel → Kernel) → Action (Unit {0})
assign set k = some (tt, set k)

-- `kmalloc(size)` and `AllocatePageFrames(1)`
pub kmalloc_bytes : (size : ℕ) → Action ℕ
kmalloc_bytes size k = elim (kmalloc size k.heap) [
  | none ↦ none
  | some (address, heap) ↦ some (address, record k { heap = heap })
]

pub allocate_page_frame : Action ℕ
allocate_page_frame k = elim (allocate_page_frames 1 k.buddy) [
  | none ↦ none
  | some (frame, buddy) ↦ some (frame, record k { buddy = buddy })
]

-- Assignments through a pointer to each structure.
abbrev pub assign_process : (p : ℕ) → (Process → Process) → Action (Unit {0})
assign_process p set =
    assign λ k. record k { processes = update k.processes p (set (k.processes p)) }

abbrev pub assign_thread_info : (ti : ℕ) → (ThreadInfo → ThreadInfo) → Action (Unit {0})
assign_thread_info ti set =
    assign λ k. record k { thread_infos = update k.thread_infos ti (set (k.thread_infos ti)) }

abbrev pub assign_process_memory : (pm : ℕ) → (ProcessMemory → ProcessMemory) → Action (Unit {0})
assign_process_memory pm set =
    assign λ k. record k {
      process_memories = update k.process_memories pm (set (k.process_memories pm));
    }

kmalloc_bytes-some :
    (size address : ℕ) (heap : Heap) (k : Kernel)
    → kmalloc size k.heap ≡ some (address, heap)
    → kmalloc_bytes size k ≡ some (address, record k { heap = heap })
unfolding kmalloc_bytes
kmalloc_bytes-some size address heap k e = rw (e, kmalloc_bytes)

allocate_page_frame-some :
    (frame : ℕ) (buddy : Buddy) (k : Kernel)
    → allocate_page_frames 1 k.buddy ≡ some (frame, buddy)
    → allocate_page_frame k ≡ some (frame, record k { buddy = buddy })
unfolding allocate_page_frame
allocate_page_frame-some frame buddy k e = rw (e, allocate_page_frame)

-- A step that runs, in front of the rest of a function.
pub run_kmalloc_bytes :
    {B : Type 0} (size address : ℕ) (heap : Heap) (k : Kernel) (rest : ℕ → Action B)
    → kmalloc size k.heap ≡ some (address, heap)
    → (kmalloc_bytes size >>= rest) k ≡ rest address (record k { heap = heap })
run_kmalloc_bytes size address heap k rest e =
    ap (continue rest) (kmalloc_bytes-some size address heap k e)

pub run_allocate_page_frame :
    {B : Type 0} (frame : ℕ) (buddy : Buddy) (k : Kernel) (rest : ℕ → Action B)
    → allocate_page_frames 1 k.buddy ≡ some (frame, buddy)
    → (allocate_page_frame >>= rest) k ≡ rest frame (record k { buddy = buddy })
run_allocate_page_frame frame buddy k rest e =
    ap (continue rest) (allocate_page_frame-some frame buddy k e)

pub run_action :
    {A B : Type 0} (m : Action A) (a : A) (k k1 : Kernel) (rest : A → Action B)
    → m k ≡ some (a, k1)
    → (m >>= rest) k ≡ rest a k1
run_action m a k k1 rest e = ap (continue rest) e

-- Assignments one after the other to one structure.
update_again {ℓ} :
    {A : Type ℓ} (f : ℕ → A) (p : ℕ) (v : A) (set : A → A)
    → update (update f p v) p (set (update f p v p)) ≡ update f p (set v)
update_again f p v set =
    fun_ext λ q. rw (eq_self p) (elim (Bool-cases (q == p)) [ inl e ↦ rw e | inr e ↦ rw e ])

pub run_assign_process_memory :
    {B : Type 0} (p : ℕ) (v : ProcessMemory) (set : ProcessMemory → ProcessMemory)
    (stores : ℕ → ProcessMemory) (k : Kernel) (rest : Action B)
    → (assign_process_memory p set >> rest) (record k { process_memories = update stores p v })
      ≡ rest (record k { process_memories = update stores p (set v) })
run_assign_process_memory p v set stores k rest =
    ap (λ (f : ℕ → ProcessMemory). rest (record k { process_memories = f }))
      (update_again stores p v set)

pub run_read_process_memory :
    {B : Type 0} (p : ℕ) (v : ProcessMemory) (stores : ℕ → ProcessMemory) (k : Kernel)
    (rest : ProcessMemory → Action B)
    → rest (update stores p v p) (record k { process_memories = update stores p v })
      ≡ rest v (record k { process_memories = update stores p v })
run_read_process_memory p v stores k rest = rw (eq_self p)

pub run_assign_process :
    {B : Type 0} (p : ℕ) (v : Process) (set : Process → Process) (stores : ℕ → Process) (k : Kernel)
    (rest : Action B)
    → (assign_process p set >> rest) (record k { processes = update stores p v })
      ≡ rest (record k { processes = update stores p (set v) })
run_assign_process p v set stores k rest =
    ap (λ (f : ℕ → Process). rest (record k { processes = f })) (update_again stores p v set)

pub run_assign_thread_info :
    {B : Type 0} (p : ℕ) (v : ThreadInfo) (set : ThreadInfo → ThreadInfo) (stores : ℕ → ThreadInfo)
    (k : Kernel) (rest : Action B)
    → (assign_thread_info p set >> rest) (record k { thread_infos = update stores p v })
      ≡ rest (record k { thread_infos = update stores p (set v) })
run_assign_thread_info p v set stores k rest =
    ap (λ (f : ℕ → ThreadInfo). rest (record k { thread_infos = f })) (update_again stores p v set)

-- Reading one structure, and another one.
pub update-same {ℓ} : {A : Type ℓ} (f : ℕ → A) (p : ℕ) (v : A) → update f p v p ≡ v
update-same f p v = rw (eq_self p)

pub update-other {ℓ} : {A : Type ℓ} (f : ℕ → A) (p q : ℕ) (v : A) → q ≢ p → update f p v q ≡ f q
update-other f p q v ne = rw (eq_of_ne q p ne)

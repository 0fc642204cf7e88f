-- ===== src/Process/Fork/NewProcess.antt =====
-- The state that `CopyProcess` leaves, where the allocators have what they ask for.
use amaterasu.Base.{ℕ, ◌+◌, ◌≡◌, ◌≢◌, ap, ◌∙◌, some, update}
use amaterasu.KHeap.{Heap, kmalloc}
use amaterasu.PhysicalMemory.{Buddy, allocate_page_frames}
use amaterasu.Paging.{Memory}
use amaterasu.Scheduler.{new_process_id}
use amaterasu.Process.PageTable.{set_up_page_table}
use amaterasu.Process.Kernel.{
  Kernel, Process, ProcessMemory, Action, ◌>>=◌, ◌>>◌, pure, reads, process_bytes, node_offset,
  process_memory_bytes, thread_info_bytes, assign_process, run_kmalloc_bytes, run_action,
  run_assign_process, update-other,
}
use amaterasu.Process.Fork.{
  copy_process_memory, copy_thread_info, copy_process, stack_base, copy_structure, add_to_ring,
}
use amaterasu.Process.Fork.Copies.{
  copied, memory_copied, copy_process_memory_lem, copy_thread_info_lem,
}

-- What the allocators give out for a new process.
pub record Resources : Type 0 where
  pub address : ℕ
  pub pm : ℕ
  pub ti : ℕ
  pub user : ℕ
  pub kernel : ℕ
  pub text : ℕ
  pub l4 : ℕ
  pub h0 : Heap
  pub h1 : Heap
  pub h2 : Heap
  pub b1 : Buddy
  pub b2 : Buddy
  pub b3 : Buddy
  pub b' : Buddy
  pub memory' : Memory

module _ (original : ℕ) (k : Kernel) (r : Resources) where
  abbrev pub p : ℕ
  p = r.address + node_offset

  abbrev pub from : Process
  from = k.processes original

  abbrev pub old : ProcessMemory
  old = k.process_memories from.process_memory

  -- The allocators give these out, and the process and its memory are not those that are copied.
  pub record Gives : Type 0 where
    pub process : kmalloc process_bytes k.heap ≡ some (r.address, r.h0)
    pub process_memory : kmalloc process_memory_bytes r.h0 ≡ some (r.pm, r.h1)
    pub thread_info : kmalloc thread_info_bytes r.h1 ≡ some (r.ti, r.h2)
    pub user : allocate_page_frames 1 k.buddy ≡ some (r.user, r.b1)
    pub kernel : allocate_page_frames 1 r.b1 ≡ some (r.kernel, r.b2)
    pub text : allocate_page_frames 1 r.b2 ≡ some (r.text, r.b3)
    pub table :
        set_up_page_table r.text
          (stack_base r.user)
          r.b3
          (copied r.user r.kernel r.text old k.memory)
        ≡ some (r.l4, r.b', r.memory')
    pub new_process : original ≢ p
    pub new_memory : from.process_memory ≢ r.pm

  abbrev start : Kernel
  start = add_to_ring p original (copy_structure p original (record k { heap = r.h0 }))

  abbrev with_process : Kernel → Process → Kernel
  with_process s v = record s { processes = update k.processes p v }

  abbrev v1 : Process
  v1 = record from { pid = new_process_id from.pid }

  abbrev v2 : Process
  v2 = record v1 { process_memory = r.pm }

  abbrev pub v3 : Process
  v3 = record v2 { thread_info = r.ti }

  abbrev s1 : Kernel
  s1 =
      memory_copied from.process_memory r.pm r.user r.kernel r.text r.l4 (with_process start v1)
        r.h1 r.b1 r.b2 r.b3 r.b' r.memory'

  abbrev s2 : Kernel
  s2 = record s1 {
    heap = r.h2;
    thread_infos =
        update k.thread_infos r.ti (record (k.thread_infos from.thread_info) { process = p });
  }

  abbrev pub process_copied : Kernel
  process_copied = with_process s2 v3

  -- The rests of `CopyProcess`.
  abbrev keep_ti : ℕ → Action ℕ
  keep_ti ti = assign_process p (λ c. record c { thread_info = ti }) >> pure p

  abbrev info : Process → Action ℕ
  info again = copy_thread_info again.thread_info p >>= keep_ti

  abbrev keep_pm : ℕ → Action ℕ
  keep_pm pm =
      assign_process p (λ c. record c { process_memory = pm })
      >> (reads (λ k. k.processes original) >>= info)

  abbrev renumber : Process → Action ℕ
  renumber first =
      assign_process p (λ c. record c { pid = new_process_id first.pid })
      >> (copy_process_memory 0 first.process_memory >>= keep_pm)

  pub copy_process_lem : Gives → copy_process 0 original k ≡ some (p, process_copied)
  unfolding copy_process
  copy_process_lem g =
      run_kmalloc_bytes process_bytes r.address r.h0 k _ g.process
      ∙ ap (λ (first : Process). renumber first (with_process start from))
          (update-other k.processes p original from g.new_process)
      ∙ run_assign_process p from (λ c. record c { pid = new_process_id from.pid }) k.processes
          (with_process start from) (copy_process_memory 0 from.process_memory >>= keep_pm)
      ∙ run_action (copy_process_memory 0 from.process_memory) r.pm (with_process start v1) s1
          keep_pm
          (copy_process_memory_lem from.process_memory r.pm r.user r.kernel r.text r.l4
            (with_process start v1) r.h1 r.b1 r.b2 r.b3 r.b' r.memory' g.process_memory g.new_memory
            g.user g.kernel g.text g.table)
      ∙ run_assign_process p v1 (λ c. record c { process_memory = r.pm }) k.processes s1
          (reads (λ k. k.processes original) >>= info)
      ∙ ap (λ (again : Process). info again (with_process s1 v2))
          (update-other k.processes p original v2 g.new_process)
      ∙ run_action (copy_thread_info from.thread_info p) r.ti (with_process s1 v2)
          (with_process s2 v2) keep_ti
          (copy_thread_info_lem from.thread_info p r.ti (with_process s1 v2) r.h2 g.thread_info)
      ∙ run_assign_process p v2 (λ c. record c { thread_info = r.ti }) k.processes
          (with_process s2 v2) (pure p)

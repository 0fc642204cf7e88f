-- ===== src/Process/Fork/Run.antt =====
-- The state that `sysFork` leaves, where the allocators have what they ask for.
use amaterasu.Base.{ℕ, ◌+◌, ◌-◌, ◌%◌, ◌≡◌, ap, ◌∙◌, some, update}
use amaterasu.Util.{u64}
use amaterasu.Process.Kernel.{
  Kernel, Process, ThreadInfo, ProcessMemory, Action, ◌>>=◌, ◌>>◌, pure, reads, assign_thread_info,
  run_action, run_assign_process, run_assign_thread_info, update-same, update-other,
}
use amaterasu.Process.Fork.{copy_process, stack_in, child_stack, do_fork, sys_fork, zero_registers}
use amaterasu.Process.Fork.NewProcess.{
  Resources, Gives, p, from, old, v3, process_copied, copy_process_lem,
}

-- The stack of a child that has its own memory.
child_stack_lem :
    (rsp child parent : ℕ) (k : Kernel) (m m' : ProcessMemory)
    → k.process_memories (k.processes child).process_memory ≡ m
    → k.process_memories (k.processes parent).process_memory ≡ m'
    → let child_rsp =
        (m.kernel_stack_page_frame + (rsp + u64 - m'.kernel_stack_page_frame)) % u64 in
      child_stack 0 zero_registers rsp child parent k
      ≡ some (child_rsp, record k { memory = update k.memory child_rsp 0 })
unfolding child_stack
child_stack_lem rsp child parent k m m' e e' =
    ap
      (λ (pm : ProcessMemory).
        stack_in 0 zero_registers rsp pm (k.process_memories (k.processes parent).process_memory) k)
      e
    ∙ ap (λ (pm : ProcessMemory). stack_in 0 zero_registers rsp m pm k) e'

module _ (return_from_sys_fork rsp : ℕ) (k : Kernel) (r : Resources) where
  abbrev pub parent : ℕ
  parent = k.ring.current_process

  abbrev pub child : ℕ
  child = p parent k r

  -- The child's stack pointer.
  abbrev pub child_rsp : ℕ
  child_rsp = (r.kernel + (rsp + u64 - (old parent k r).kernel_stack_page_frame)) % u64

  abbrev copy : Kernel
  copy = process_copied parent k r

  abbrev pub v4 : Process
  v4 = record (v3 parent k r) { parent = parent }

  abbrev with_parent : Kernel
  with_parent = record copy { processes = update k.processes child v4 }

  abbrev with_stack : Kernel
  with_stack = record with_parent { memory = update r.memory' child_rsp 0 }

  abbrev pub thread : ThreadInfo
  thread = record {
    rsp = child_rsp;
    ring0rsp = child_rsp;
    cr3 = r.l4;
    rip = return_from_sys_fork;
    process = child;
  }

  abbrev pub forked : Kernel
  forked = record with_stack { thread_infos = update k.thread_infos r.ti thread }

  abbrev finish : (ring0rsp : ℕ) → Process → ProcessMemory → Action ℕ
  finish ring0rsp c pm =
      assign_thread_info c.thread_info (λ t. record t {
        ring0rsp = ring0rsp;
        rsp = ring0rsp;
        rip = return_from_sys_fork;
        cr3 = pm.l4_page_table_base;
      })
      >> pure c.pid

  abbrev look : ℕ → Action ℕ
  look ring0rsp = reads (λ k. k.processes child) >>= λ c.
      reads (λ k. k.process_memories c.process_memory) >>= finish ring0rsp c

  abbrev pub memory : ProcessMemory
  memory = record {
    user_stack_page_frame = r.user;
    kernel_stack_page_frame = r.kernel;
    text_segment_page_frame = r.text;
    l4_page_table_base = r.l4;
  }

  child_memory : with_parent.process_memories (with_parent.processes child).process_memory ≡ memory
  child_memory =
      ap (λ (c : Process). with_parent.process_memories c.process_memory)
        (update-same k.processes child v4)
      ∙ update-same k.process_memories r.pm memory

  parent_memory :
      Gives parent k r
      → with_parent.process_memories (with_parent.processes parent).process_memory ≡ old parent k r
  parent_memory g =
      ap (λ (c : Process). with_parent.process_memories c.process_memory)
        (update-other k.processes child parent v4 g.new_process)
      ∙ update-other k.process_memories r.pm (from parent k r).process_memory memory g.new_memory

  pub sys_fork_lem : Gives parent k r → sys_fork return_from_sys_fork rsp k ≡ some (v4.pid, forked)
  unfolding sys_fork do_fork
  sys_fork_lem g =
      run_action (copy_process 0 parent) child k copy _ (copy_process_lem parent k r g)
      ∙ run_assign_process child (v3 parent k r) (λ c. record c { parent = parent }) k.processes
          copy (child_stack 0 zero_registers rsp child parent >>= look)
      ∙ run_action (child_stack 0 zero_registers rsp child parent) child_rsp with_parent with_stack
          look
          (child_stack_lem rsp child parent with_parent memory (old parent k r) child_memory
            (parent_memory g))
      ∙ ap
          (λ (c : Process).
            finish child_rsp c (with_stack.process_memories c.process_memory) with_stack)
          (update-same k.processes child v4)
      ∙ ap (λ (m : ProcessMemory). finish child_rsp v4 m with_stack)
          (update-same k.process_memories r.pm memory)
      ∙ run_assign_thread_info r.ti
          (record (k.thread_infos (from parent k r).thread_info) { process = child })
          (λ t. record t {
            ring0rsp = child_rsp;
            rsp = child_rsp;
            rip = return_from_sys_fork;
            cr3 = r.l4;
          })
          k.thread_infos with_stack (pure v4.pid)

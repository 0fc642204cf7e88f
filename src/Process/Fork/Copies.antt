-- ===== src/Process/Fork/Copies.antt =====
-- The state that the copies of process.c leave, where the allocators have what they ask for.
use amaterasu.Base.{ℕ, ◌≡◌, ◌≢◌, ap, ◌∙◌, some, update, eq_of_ne}
use amaterasu.KHeap.{Heap, kmalloc}
use amaterasu.PhysicalMemory.{Buddy, allocate_page_frames}
use amaterasu.Paging.{Memory}
use amaterasu.Process.PageTable.{set_up_page_table}
use amaterasu.Process.Kernel.{
  Kernel, ProcessMemory, run_kmalloc_bytes, run_allocate_page_frame, run_assign_thread_info,
  thread_info_bytes, run_assign_process_memory, run_read_process_memory, run_action, Action, ◌>>=◌,
  ◌>>◌, pure, reads, allocate_page_frame, assign_process_memory, process_memory_bytes,
}
use amaterasu.Process.Fork.{
  copy_words, copy_thread_info, copy_between, copy_pages, copy_segments, copy_process_memory,
  page_table, stack_base,
}

page_table-some :
    (text base l4 : ℕ) (b : Buddy) (memory : Memory) (k : Kernel)
    → set_up_page_table text base k.buddy k.memory ≡ some (l4, b, memory)
    → page_table text base k ≡ some (l4, record k { buddy = b; memory = memory })
unfolding page_table
page_table-some text base l4 b memory k e = rw (e, page_table)

-- The three pages that a copy takes over.
abbrev pub copied : (user kernel text : ℕ) → ProcessMemory → Memory → Memory
copied user kernel text original memory = copy_words 512 0 user original.user_stack_page_frame (
    copy_words 512 0 kernel original.kernel_stack_page_frame
      (copy_words 512 0 text original.text_segment_page_frame memory))

module _ (original pm user kernel text l4 : ℕ) (k : Kernel) (h : Heap) (b1 b2 b3 b' : Buddy)
    (memory' : Memory) where
  abbrev old : ProcessMemory
  old = k.process_memories original

  -- The states on the way, with the new structure.
  abbrev with_memory : Buddy → Memory → ProcessMemory → Kernel
  with_memory b memory v = record k {
    heap = h;
    buddy = b;
    memory = memory;
    process_memories = update k.process_memories pm v;
  }

  abbrev v1 : ProcessMemory
  v1 = record old { user_stack_page_frame = user }

  abbrev v2 : ProcessMemory
  v2 = record v1 { kernel_stack_page_frame = kernel }

  abbrev v3 : ProcessMemory
  v3 = record v2 { text_segment_page_frame = text }

  abbrev pub memory_copied : Kernel
  memory_copied = with_memory b' memory' (record v3 { l4_page_table_base = l4 })

  other_memory : original ≢ pm → (v : ProcessMemory) → update k.process_memories pm v original ≡ old
  other_memory ne v = rw (eq_of_ne original pm ne)

  abbrev pub pages : Memory
  pages = copied user kernel text old k.memory

  copy_segments_lem :
      original ≢ pm
      → allocate_page_frames 1 b2 ≡ some (text, b3)
      → copy_segments 0 original pm (with_memory b2 k.memory v2)
        ≡ some (tt, with_memory b3 pages v3)
  unfolding copy_segments copy_pages
  copy_segments_lem ne et =
      ap (λ (o : ProcessMemory). copy_pages o pm (with_memory b2 k.memory v2)) (other_memory ne v2)
      ∙ run_allocate_page_frame text b3 (with_memory b2 k.memory v2) _ et
      ∙ run_assign_process_memory pm v2 (λ m. record m { text_segment_page_frame = text })
          k.process_memories (with_memory b3 k.memory v2)
          (reads (λ k. k.process_memories pm) >>= copy_between old)
      ∙ run_read_process_memory pm v3 k.process_memories (with_memory b3 k.memory v3)
          (copy_between old)

  -- The rests of `CopyProcessMemory`, the last one first.
  abbrev keep_l4 : ℕ → Action ℕ
  keep_l4 table = assign_process_memory pm (λ m. record m { l4_page_table_base = table }) >> pure pm

  abbrev build : ProcessMemory → Action ℕ
  build new =
      page_table new.text_segment_page_frame (stack_base new.user_stack_page_frame) >>= keep_l4

  abbrev segments : Action ℕ
  segments = copy_segments 0 original pm >> (reads (λ k. k.process_memories pm) >>= build)

  abbrev keep_kernel : ℕ → Action ℕ
  keep_kernel frame =
      assign_process_memory pm (λ m. record m { kernel_stack_page_frame = frame }) >> segments

  pub copy_process_memory_lem :
      kmalloc process_memory_bytes k.heap ≡ some (pm, h)
      → original ≢ pm
      → allocate_page_frames 1 k.buddy ≡ some (user, b1)
      → allocate_page_frames 1 b1 ≡ some (kernel, b2)
      → allocate_page_frames 1 b2 ≡ some (text, b3)
      → set_up_page_table text (stack_base user) b3 pages ≡ some (l4, b', memory')
      → copy_process_memory 0 original k ≡ some (pm, memory_copied)
  unfolding copy_process_memory
  copy_process_memory_lem em ne eu ek et table =
      run_kmalloc_bytes process_memory_bytes pm h k _ em
      ∙ run_allocate_page_frame user b1 (with_memory k.buddy k.memory old) _ eu
      ∙ run_assign_process_memory pm old (λ m. record m { user_stack_page_frame = user })
          k.process_memories (with_memory b1 k.memory old) (allocate_page_frame >>= keep_kernel)
      ∙ run_allocate_page_frame kernel b2 (with_memory b1 k.memory v1) keep_kernel ek
      ∙ run_assign_process_memory pm v1 (λ m. record m { kernel_stack_page_frame = kernel })
          k.process_memories (with_memory b2 k.memory v1) segments
      ∙ run_action (copy_segments 0 original pm) tt (with_memory b2 k.memory v2)
          (with_memory b3 pages v3) (λ _. reads (λ k. k.process_memories pm) >>= build)
          (copy_segments_lem ne et)
      ∙ run_read_process_memory pm v3 k.process_memories (with_memory b3 pages v3) build
      ∙ run_action (page_table text (stack_base user)) l4 (with_memory b3 pages v3)
          (with_memory b' memory' v3) keep_l4
          (page_table-some text (stack_base user) l4 b' memory' (with_memory b3 pages v3) table)
      ∙ run_assign_process_memory pm v3 (λ m. record m { l4_page_table_base = l4 })
          k.process_memories (with_memory b' memory' v3) (pure pm)

-- `CopyThreadInfo`
pub copy_thread_info_lem :
    (original p ti : ℕ) (k : Kernel) (h : Heap)
    → kmalloc thread_info_bytes k.heap ≡ some (ti, h)
    → copy_thread_info original p k
      ≡ some (
        ti,
        record k {
          heap = h;
          thread_infos =
              update k.thread_infos ti (record (k.thread_infos original) { process = p });
        },
      )
unfolding copy_thread_info
copy_thread_info_lem original p ti k h e =
    let old = k.thread_infos original in
    run_kmalloc_bytes thread_info_bytes ti h k _ e
    ∙ run_assign_thread_info ti old (λ t. record t { process = p }) k.thread_infos
        (record k { heap = h }) (pure ti)

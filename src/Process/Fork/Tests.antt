-- ===== src/Process/Fork/Tests.antt =====
-- A fork of the only process, on a fresh heap and an allocator with eight free pages.
use amaterasu.Base.{
  ℕ, ◌+◌, ◌-◌, ◌*◌, ◌/◌, ◌≡◌, ◌<◌, refl, arith, some, true, List, [], ◌∷◌, ◌==◌, if◌then◌else◌,
}
use amaterasu.Base.Chain.{elem}
use amaterasu.KHeap.Tests.{empty_heap, heap1, heap2, heap3, block1, block2, block3}
use amaterasu.PhysicalMemory.Tests.{
  eight_pages, eight_free, eight_inside, eight_pages-IsBuddy, after1, after2, after3, after4,
  after5, after6, after7, after8, frame1, frame2, frame3, frame4, frame5, frame6, frame7, frame8,
}
use amaterasu.PhysicalMemory.Blocks.{IsFree}
use amaterasu.PhysicalMemory.Frames.{IsFrame}
use amaterasu.Scheduler.{running, new_process_id}
use amaterasu.Process.Kernel.{Kernel}
use amaterasu.Process.Fork.{sys_fork}
use amaterasu.Process.Fork.Child.{Grant, CanFork, IsForked, sys_fork-IsForked}

abbrev pub pages_in_use : List ℕ
pages_in_use = 0x10000 ∷ 0x11000 ∷ 0x12000 ∷ []

-- The process at 100 in a ring with the head at 50; its pages begin at 0x10000.
abbrev pub one_process : Kernel
one_process = record {
  heap = empty_heap;
  buddy = eight_pages;
  memory = λ a. a;
  ring = record {
    links = record {
      prev = λ q. if q == 50 then 100 else 50;
      next = λ q. if q == 50 then 100 else 50;
    };
    state = λ q. running;
    process_list = 50;
    current_process = 100;
  };
  processes = λ q. record { pid = 0; parent = 0; thread_info = 300; process_memory = 200 };
  thread_infos = λ q. record { rsp = 0; ring0rsp = 0; cr3 = 0; rip = 0; process = 100 };
  process_memories = λ q. record {
    user_stack_page_frame = 0x10000;
    kernel_stack_page_frame = 0x11000;
    text_segment_page_frame = 0x12000;
    l4_page_table_base = 0x13000;
  };
  tss = [];
}

abbrev pub grant : Grant
grant = record {
  address = 4096;
  pm = 4352;
  ti = 4608;
  h0 = heap1;
  h1 = heap2;
  h2 = heap3;
  user = 32768;
  kernel = 36864;
  text = 40960;
  lower = 45056;
  l1 = 49152;
  l2 = 53248;
  l3 = 57344;
  l4 = 61440;
  b' = after8;
}

in_use : (f : ℕ) → elem f pages_in_use ≡ true → IsFrame f × ¬ IsFree eight_free (f / 4096)
in_use f m =
    let among : (0x10000 - 1 < f) × (f < 0x13000) × (f - f / 4096 * 4096 ≡ 0) = ground arith in
    ((omega arith, omega arith), λ w. omega (arith, eight_inside (f / 4096) w))

pub one_process-CanFork : CanFork one_process eight_free pages_in_use (50 ∷ []) grant
one_process-CanFork = record {
  buddy = eight_pages-IsBuddy;
  low = λ q w. omega (arith, (eight_inside q w).1);
  given = (
    after1,
    frame1,
    omega arith,
    (
      after2,
      frame2,
      omega arith,
      (
        after3,
        frame3,
        omega arith,
        (
          after4,
          frame4,
          omega arith,
          (
            after5,
            frame5,
            omega arith,
            (
              after6,
              frame6,
              omega arith,
              (after7, frame7, omega arith, (after8, frame8, omega arith, refl)),
            ),
          ),
        ),
      ),
    ),
  );
  process = block1;
  process_memory = block2;
  thread_info = block3;
  new_memory = λ e. omega arith;
  used_distinct = (refl, (refl, (refl, tt)));
  used_frames = in_use;
  parent_frames = (refl, refl, refl);
  ring = (refl, refl, (refl, refl));
  ring_distinct = (refl, (refl, tt));
  new_node = refl;
}

sys_fork-IsForked_example :
    (k' : Kernel) × (sys_fork 0x401000 (0x11000 + 8 * 400) one_process
      ≡ some (new_process_id 0, k'))
    × IsForked 0x401000 40 400 pages_in_use (50 ∷ []) grant one_process k'
sys_fork-IsForked_example =
    sys_fork-IsForked 0x401000 40 400 one_process eight_free pages_in_use (50 ∷ []) grant
      (omega arith) (omega arith) one_process-CanFork

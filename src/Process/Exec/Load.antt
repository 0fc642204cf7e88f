-- ===== src/Process/Exec/Load.antt =====
-- `sysExec` as a whole: the new program.
use amaterasu.Base.{
  ℕ, zero, suc, List, [], ◌∷◌, ◌+◌, ◌-◌, ◌*◌, ◌%◌, ◌^◌, ◌≡◌, ◌<◌, ◌≤◌, ◌⊎◌, refl, ◌∙◌, true, Option,
  some, ◌==◌, if◌then◌else◌, eq_self, eq_of_ne, arith, ltb, leb, ◌&&◌,
}
use amaterasu.Util.{u64, memcpy}
use amaterasu.Util.Bytes.{Apart, memcpy_lem}
use amaterasu.X86.Ports.{Ports}
use amaterasu.KHeap.{Heap, kmalloc, kfree}
use amaterasu.Ata.{Disk}
use amaterasu.Fat.{File, Partition, get_file_info, read_file}
use amaterasu.Acpi.{word64}
use amaterasu.Process.Kernel.{ProcessMemory}
use amaterasu.Process.Fork.{words_of}
use amaterasu.Process.Exec.{
  failed, entered, Machine, load, enter, returned, sys_exec, e_entry, e_phoff, p_offset, p_memsz,
  user_registers,
}
use amaterasu.Process.Exec.Store.{nth, store_frame-other, store_frame-word64}

-- All words of a list are below 2 ^ 64.
abbrev AllSmall : List ℕ → Type 0
AllSmall [] = Unit {0}
AllSmall (w ∷ ws) = (w < 2 ^ 64) × AllSmall ws

nth-small : (ws : List ℕ) (i : ℕ) → AllSmall ws → nth ws i < 2 ^ 64
nth-small [] i h = omega arith
nth-small (w ∷ ws) zero h = h.0
nth-small (w ∷ ws) (suc i) h = nth-small ws i h.1

user_registers-small : (entry : ℕ) → entry < 2 ^ 64 → AllSmall (words_of (user_registers entry))
user_registers-small entry lt = (
  omega arith,
  (
    omega arith,
    (
      omega arith,
      (
        omega arith,
        (
          omega arith,
          (
            omega arith,
            (
              omega arith,
              (
                omega arith,
                (
                  omega arith,
                  (
                    omega arith,
                    (
                      omega arith,
                      (
                        omega arith,
                        (
                          omega arith,
                          (
                            omega arith,
                            (
                              omega arith,
                              (
                                omega arith,
                                (omega arith, (omega arith, (omega arith, (omega arith, tt)))),
                              ),
                            ),
                          ),
                        ),
                      ),
                    ),
                  ),
                ),
              ),
            ),
          ),
        ),
      ),
    ),
  ),
)

-- The words of the frame in their order: the base pointer is the fifth, and the last five are the entry
-- point, the user's code segment with privilege 3, the flags with interrupts enabled, the
-- stack pointer and the user's stack segment.
abbrev pub iret_frame : (entry : ℕ) → List ℕ
iret_frame entry =
    0 ∷ 0 ∷ 0 ∷ 0 ∷ 0xffff_ffff_ffff_fff8 ∷ 0 ∷ 0 ∷ 0 ∷ 0 ∷ 0 ∷ 0 ∷ 0 ∷ 0 ∷ 0 ∷ 0 ∷ entry ∷ 27
    ∷ 0x202 ∷ 0xffff_ffff_ffff_fff8 ∷ 35 ∷ []

-- The loaded program.
module _ (rsp buffer : ℕ) (pm : ProcessMemory) (memory : ℕ → ℕ) where
  abbrev pub entry_point : ℕ
  entry_point = word64 memory (buffer + e_entry)

  abbrev pub header : ℕ
  header = (buffer + word64 memory (buffer + e_phoff)) % u64

  abbrev pub text_size : ℕ
  text_size = word64 memory (header + p_memsz)

  abbrev pub source : ℕ
  source = (buffer + word64 memory (header + p_offset)) % u64

  -- The frame and the text segment after the load.
  pub record IsLoaded (loaded : ℕ → ℕ) : Type 0 where
    pub frame : (i : ℕ) → i < 20 → word64 loaded (rsp + 8 * i) ≡ nth (iret_frame entry_point) i
    pub text :
        (j : ℕ) → j < text_size → loaded (pm.text_segment_page_frame + j) ≡ memory (source + j)

  load-IsLoaded :
      entry_point < 2 ^ 64
      → Apart pm.text_segment_page_frame source text_size
      → (pm.text_segment_page_frame + text_size ≤ rsp) ⊎ (rsp + 160 ≤ pm.text_segment_page_frame)
      → IsLoaded (load rsp buffer pm memory)
  unfolding load
  load-IsLoaded small apart frame_apart =
      let copied = memcpy pm.text_segment_page_frame source text_size memory in
      let moved : (j : ℕ)
          → j < text_size
          → (if leb pm.text_segment_page_frame (pm.text_segment_page_frame + j)
                && ltb (pm.text_segment_page_frame + j) (pm.text_segment_page_frame + text_size)
              then memory (source + (pm.text_segment_page_frame + j - pm.text_segment_page_frame))
              else memory (pm.text_segment_page_frame + j))
            ≡ memory (source + j) =
        λ j lt.
          let back : pm.text_segment_page_frame + j - pm.text_segment_page_frame ≡ j =
            omega arith in
          rw back (ground arith) in
      let words = words_of (user_registers entry_point) in
      record {
        frame = λ i lt.
            store_frame-word64 rsp i words copied lt
              (nth-small words i (user_registers-small entry_point small));
        text = λ j lt.
            store_frame-other rsp (pm.text_segment_page_frame + j) words copied (omega arith)
            ∙ memcpy_lem pm.text_segment_page_frame source text_size
                (pm.text_segment_page_frame + j) memory apart
            ∙ moved j lt;
      }

module _ (ports : Ports) (sleep : Disk ports → Disk ports) (fuel rsp filename info_buffer : ℕ)
    (p : Partition) (pm : ProcessMemory) (m : Machine ports) where
  -- The call once the file is found.
  ran_found :
      (disk : Disk ports) (file : File) (buffer : ℕ) (heap : Heap)
      → get_file_info ports sleep fuel filename info_buffer true p m.disk ≡ some (some file, disk)
      → kmalloc file.size m.heap ≡ some (buffer, heap)
      → 0 < buffer
      → (disk2 : Disk ports) (count : Option ℕ)
      → read_file ports sleep fuel file buffer true disk ≡ some (count, disk2)
      → sys_exec ports sleep fuel rsp filename info_buffer p pm m ≡ (
          if returned ports count == file.size
          then some
              (entered rsp, enter ports rsp buffer pm (record m { disk = disk2; heap = heap }))
          else some (failed, record m { disk = disk2; heap = heap }))
  unfolding sys_exec
  ran_found disk file buffer heap e em pos disk2 count er =
      rw (e, sys_exec)
        (rw (em, sys_exec) (rw (eq_of_ne buffer 0 (omega arith)) (rw (er, sys_exec) refl)))

  -- Where the file is found, the heap has a block for it, the read returns its size, the entry point is
  -- a 64-bit word, and the text segment overlaps neither its source nor the frame at `rsp`:
  -- `sysExec` goes on at that frame, which holds the entry point, the user's selectors, the flags
  -- 0x202, the top of the user's stack as stack and base pointer, and 0 in the other registers, with the
  -- program's first segment in the text segment, and the block is freed.
  pub sys_exec-IsLoaded :
      (disk disk2 : Disk ports) (file : File) (heap : Heap) (buffer : ℕ)
      → get_file_info ports sleep fuel filename info_buffer true p m.disk ≡ some (some file, disk)
      → kmalloc file.size m.heap ≡ some (buffer, heap)
      → 0 < buffer
      → read_file ports sleep fuel file buffer true disk ≡ some (some file.size, disk2)
      → entry_point rsp buffer pm disk2.memory < 2 ^ 64
      → Apart pm.text_segment_page_frame
          (source rsp buffer pm disk2.memory)
          (text_size rsp buffer pm disk2.memory)
      → (pm.text_segment_page_frame + text_size rsp buffer pm disk2.memory ≤ rsp)
        ⊎ (rsp + 160 ≤ pm.text_segment_page_frame)
      → (m' : Machine ports) × (sys_exec ports sleep fuel rsp filename info_buffer p pm m
          ≡ some (entered rsp, m'))
        × IsLoaded rsp buffer pm disk2.memory m'.disk.memory
        × (m'.heap ≡ kfree buffer heap)
  unfolding enter
  sys_exec-IsLoaded disk disk2 file heap buffer e em pos er small apart frame_apart =
      let read : Machine ports = record m { disk = disk2; heap = heap } in
      (
        enter ports rsp buffer pm read,
        ran_found disk file buffer heap e em pos disk2 (some file.size) er ∙ rw (eq_self file.size),
        load-IsLoaded rsp buffer pm disk2.memory small apart frame_apart,
        refl,
      )

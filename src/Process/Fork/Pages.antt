-- ===== src/Process/Fork/Pages.antt =====
-- The memory of a forked process: the copied pages, the page tables, and the pages in use.
use native.Mathlib.Decide.{ℕ_discrete}
use amaterasu.Base.{
  ℕ, ◌+◌, ◌-◌, ◌*◌, ◌≡◌, ◌<◌, ◌≤◌, ap, ◌∙◌, true, false, List, [], ◌∷◌, ◌==◌, if◌then◌else◌, arith,
  update, eq_of_ne, eq_self,
}
use amaterasu.Base.Chain.{elem, Distinct, apart}
use amaterasu.Util.{u64}
use amaterasu.PhysicalMemory.Frames.{IsFrame}
use amaterasu.Paging.{Memory, calc_phy_addr}
use amaterasu.Paging.Walk.{address_space}
use amaterasu.Process.PageTable.Space.{Frames, built, built-address_space}
use amaterasu.Process.PageTable.Built.{Outside, built-other, built-update}
use amaterasu.Process.Kernel.{ProcessMemory}
use amaterasu.Process.Fork.{stack_base, copy_words}
use amaterasu.Process.Fork.Words.{page-Outside, words_apart, copy-other, copy-page}
use amaterasu.Process.Fork.Copies.{copied}

-- Eight new frames, and the frames in use.
module _ (user kernel text lower l1 l2 l3 l4 : ℕ) (used : List ℕ) where
  abbrev pub new_frames : List ℕ
  new_frames = user ∷ kernel ∷ text ∷ lower ∷ l1 ∷ l2 ∷ l3 ∷ l4 ∷ []

  abbrev tables : List ℕ
  tables = lower ∷ l1 ∷ l2 ∷ l3 ∷ l4 ∷ []

  abbrev pages : List ℕ
  pages = user ∷ kernel ∷ text ∷ used

  module _ (d : Distinct (user ∷ kernel ∷ text ∷ lower ∷ l1 ∷ l2 ∷ l3 ∷ l4 ∷ used))
      (frames : (f : ℕ)
        → elem f (user ∷ kernel ∷ text ∷ lower ∷ l1 ∷ l2 ∷ l3 ∷ l4 ∷ used) ≡ true
        → IsFrame f) where
    used_apart : (f x : ℕ) → elem f used ≡ true → elem x used ≡ false → (f == x) ≡ false
    used_apart f x m out = apart f x f used out m

    used-new :
        (f : ℕ)
        → elem f used ≡ true
        → ((f == user) ≡ false)
          × ((f == kernel) ≡ false)
          × ((f == text) ≡ false)
          × (elem f tables ≡ false)
    used-new f m = (
      used_apart f user m (ground (arith, d.0)),
      used_apart f kernel m (ground (arith, d.1.0)),
      used_apart f text m (ground (arith, d.1.1.0)),
      ground (
        arith,
        used_apart f lower m,
        used_apart f l1 m,
        used_apart f l2 m,
        used_apart f l3 m,
        used_apart f l4 m,
      ),
    )

    new_apart :
        ((user == kernel) ≡ false)
        × ((user == text) ≡ false)
        × ((kernel == text) ≡ false)
        × ((kernel == user) ≡ false)
        × ((text == user) ≡ false)
        × ((text == kernel) ≡ false)
    new_apart = (
      ground (arith, d.0),
      ground (arith, d.0),
      ground (arith, d.1.0),
      ground (arith, d.0),
      ground (arith, d.0),
      ground (arith, d.1.0),
    )

    new_tables :
        (elem user tables ≡ false) × (elem kernel tables ≡ false) × (elem text tables ≡ false)
    new_tables = (ground (arith, d.0), ground (arith, d.1.0), ground (arith, d.1.1.0))

    frame_of : (f : ℕ) → elem f used ≡ true → IsFrame f
    frame_of f m = frames f (ground arith)

    user_frame : IsFrame user
    user_frame = frames user (ground arith)

    kernel_frame : IsFrame kernel
    kernel_frame = frames kernel (ground arith)

    text_frame : IsFrame text
    text_frame = frames text (ground arith)

    table_frames : IsFrame lower × IsFrame l1 × IsFrame l2 × IsFrame l3 × IsFrame l4
    table_frames = (
      frames lower (ground arith),
      frames l1 (ground arith),
      frames l2 (ground arith),
      frames l3 (ground arith),
      frames l4 (ground arith),
    )

    Outside-tables :
        (f j : ℕ)
        → IsFrame f
        → elem f tables ≡ false
        → j < 512
        → Outside (f + 8 * j) lower
          × Outside (f + 8 * j) l1
          × Outside (f + 8 * j) l2
          × Outside (f + 8 * j) l3
          × Outside (f + 8 * j) l4
    Outside-tables f j ff out lt = (
      page-Outside f lower j ff table_frames.0 (ground arith) lt,
      page-Outside f l1 j ff table_frames.1 (ground arith) lt,
      page-Outside f l2 j ff table_frames.2 (ground arith) lt,
      page-Outside f l3 j ff table_frames.3 (ground arith) lt,
      page-Outside f l4 j ff table_frames.4 (ground arith) lt,
    )

    module _ (bits slot : ℕ) (old : ProcessMemory) (memory : Memory) (in_page : slot < 512)
        (old_frames : (elem old.user_stack_page_frame used ≡ true)
          × (elem old.kernel_stack_page_frame used ≡ true)
          × (elem old.text_segment_page_frame used ≡ true)) where
      abbrev pub with_copies : Memory
      with_copies = copied user kernel text old memory

      abbrev pub with_tables : Memory
      with_tables = built bits lower l1 l2 l3 l4 text 0 (stack_base user) with_copies

      -- The memory after the child's `rax` is set to 0.
      abbrev pub after : Memory
      after = update with_tables (kernel + 8 * slot) 0

      through_tables :
          (f j : ℕ)
          → IsFrame f
          → elem f tables ≡ false
          → j < 512
          → with_tables (f + 8 * j) ≡ with_copies (f + 8 * j)
      through_tables f j ff out lt =
          built-other bits lower l1 l2 l3 l4 text 0 (stack_base user) (f + 8 * j) with_copies
            (Outside-tables f j ff out lt)

      -- Another page than the kernel stack.
      outside_kernel :
          (f j : ℕ)
          → IsFrame f
          → (f == kernel) ≡ false
          → elem f tables ≡ false
          → j < 512
          → after (f + 8 * j) ≡ with_copies (f + 8 * j)
      outside_kernel f j ff ne out lt =
          rw (words_apart f kernel j slot ff kernel_frame ne lt in_page)
            (through_tables f j ff out lt)

      -- A page in use before and after the first copies.
      text_source :
          (f j : ℕ)
          → elem f used ≡ true
          → j < 512
          → copy_words 512 0 text old.text_segment_page_frame memory (f + 8 * j)
            ≡ memory (f + 8 * j)
      text_source f j m lt =
          copy-other text old.text_segment_page_frame f j memory text_frame (frame_of f m)
            (used-new f m).2 lt

      kernel_source :
          (f j : ℕ)
          → elem f used ≡ true
          → j < 512
          → copy_words 512 0 kernel old.kernel_stack_page_frame
              (copy_words 512 0 text old.text_segment_page_frame memory)
              (f + 8 * j)
            ≡ memory (f + 8 * j)
      kernel_source f j m lt =
          copy-other kernel old.kernel_stack_page_frame f j _ kernel_frame (frame_of f m)
            (used-new f m).1 lt
          ∙ text_source f j m lt

      pub text-copied :
          (j : ℕ) → j < 512 → after (text + 8 * j) ≡ memory (old.text_segment_page_frame + 8 * j)
      text-copied j lt =
          outside_kernel text j text_frame new_apart.5 new_tables.2 lt
          ∙ copy-other user old.user_stack_page_frame text j _ user_frame text_frame new_apart.4 lt
          ∙ copy-other kernel old.kernel_stack_page_frame text j _ kernel_frame text_frame
              new_apart.5 lt
          ∙ copy-page text old.text_segment_page_frame j memory text_frame
              (frame_of old.text_segment_page_frame old_frames.2)
              (used-new old.text_segment_page_frame old_frames.2).2 lt

      pub user-copied :
          (j : ℕ) → j < 512 → after (user + 8 * j) ≡ memory (old.user_stack_page_frame + 8 * j)
      user-copied j lt =
          outside_kernel user j user_frame new_apart.0 new_tables.0 lt
          ∙ copy-page user old.user_stack_page_frame j _ user_frame
              (frame_of old.user_stack_page_frame old_frames.0)
              (used-new old.user_stack_page_frame old_frames.0).0 lt
          ∙ kernel_source old.user_stack_page_frame j old_frames.0 lt

      kernel_through :
          (j : ℕ)
          → j < 512
          → with_tables (kernel + 8 * j) ≡ memory (old.kernel_stack_page_frame + 8 * j)
      kernel_through j lt =
          through_tables kernel j kernel_frame new_tables.1 lt
          ∙ copy-other user old.user_stack_page_frame kernel j _ user_frame kernel_frame new_apart.3
              lt
          ∙ copy-page kernel old.kernel_stack_page_frame j _ kernel_frame
              (frame_of old.kernel_stack_page_frame old_frames.1)
              (used-new old.kernel_stack_page_frame old_frames.1).1 lt
          ∙ text_source old.kernel_stack_page_frame j old_frames.1 lt

      pub kernel-copied :
          (j : ℕ)
          → j < 512
          → after (kernel + 8 * j)
            ≡ (if j == slot then 0 else memory (old.kernel_stack_page_frame + 8 * j))
      kernel-copied j lt = elim (ℕ_discrete j slot) [
        | yes e ↦ rw e (rw (eq_self (kernel + 8 * slot)) (rw (eq_self slot)))
        | no ne ↦
            rw (eq_of_ne (kernel + 8 * j) (kernel + 8 * slot) (λ e. ne (omega arith)))
              (rw (eq_of_ne j slot ne) (kernel_through j lt))
      ]

      pub used-kept :
          (f j : ℕ) → elem f used ≡ true → j < 512 → after (f + 8 * j) ≡ memory (f + 8 * j)
      used-kept f j m lt =
          outside_kernel f j (frame_of f m) (used-new f m).1 (used-new f m).3 lt
          ∙ copy-other user old.user_stack_page_frame f j _ user_frame (frame_of f m)
              (used-new f m).0 lt
          ∙ kernel_source f j m lt

      table_pages : Frames lower l1 l2 l3 l4 text user
      table_pages = record {
        frames = table_frames;
        lower_apart = (
          λ e. ground (arith, d.1.1.1.0),
          λ e. ground (arith, d.1.1.1.0),
          λ e. ground (arith, d.1.1.1.0),
          λ e. ground (arith, d.1.1.1.0),
        );
        l1_apart = (
          λ e. ground (arith, d.1.1.1.1.0),
          λ e. ground (arith, d.1.1.1.1.0),
          λ e. ground (arith, d.1.1.1.1.0),
        );
        l2_apart = (λ e. ground (arith, d.1.1.1.1.1.0), λ e. ground (arith, d.1.1.1.1.1.0));
        l3_apart = λ e. ground (arith, d.1.1.1.1.1.1.0);
        text_page = (text_frame.0, omega (arith, text_frame.1));
        stack_page = (user_frame.0, omega (arith, user_frame.1));
      }

      pub child_space :
          40 ≤ bits → (a : ℕ) → a < u64 → calc_phy_addr bits after a l4 ≡ address_space text user a
      child_space wide a lt =
          let top : stack_base user ≡ user + 4096 - 8 = omega (arith, user_frame.1) in
          ap (λ (m : Memory). calc_phy_addr bits m a l4)
            (built-update bits lower l1 l2 l3 l4 text 0 (stack_base user) (kernel + 8 * slot)
                with_copies (Outside-tables kernel slot kernel_frame new_tables.1 in_page) 0
              ∙ ap
                  (λ (base : ℕ).
                    built bits lower l1 l2 l3 l4 text user base
                      (update with_copies (kernel + 8 * slot) 0))
                  top)
          ∙ built-address_space bits lower l1 l2 l3 l4 text user
              (update with_copies (kernel + 8 * slot) 0) wide table_pages a lt

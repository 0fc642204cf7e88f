-- ===== src/Process/PageTable/Space.antt =====
-- The address space that `SetUpPageTable` builds.
use native.Mathlib.Nat.{mod-eq_of_lt, pow-le-pow_right}
use amaterasu.Base.{
  ℕ, ◌+◌, ◌-◌, ◌*◌, ◌/◌, ◌%◌, ◌^◌, ◌≡◌, ◌≢◌, ◌<◌, ◌≤◌, refl, sym, ap, ◌∙◌, arith, ◌==◌, false,
  Option, some, eq_of_ne,
}
use amaterasu.Util.{u64}
use amaterasu.PhysicalMemory.{Buddy, allocate_page_frames}
use amaterasu.PhysicalMemory.Frames.{IsFrame}
use amaterasu.Paging.{Memory, page_size, table_phys_addr, page_frame_4kb, table_of, calc_phy_addr}
use amaterasu.Paging.Walk.{Tables, address_space, calc_phy_addr-address_space}
use amaterasu.Process.PageTable.{
  fill_from, lower_entry, l1_entry, l2_entry, l3_entry, l4_entry, set_up_page_table, with_frame,
}
use amaterasu.Process.PageTable.Entries.{
  l4_entry-present, l4_entry-tables, l3_entry-present, l3_entry-last, l2_entry-present,
  l2_entry-last, lower_entry-present, lower_entry-page, l1_entry-present, l1_entry-pages,
}
use amaterasu.Process.PageTable.Fill.{fill_from-other, fill_from-entry}

-- The five frames, and the pages of the process.
pub record Frames (lower l1 l2 l3 l4 text stack : ℕ) : Type 0 where
  pub frames : IsFrame lower × IsFrame l1 × IsFrame l2 × IsFrame l3 × IsFrame l4
  pub lower_apart : (lower ≢ l1) × (lower ≢ l2) × (lower ≢ l3) × (lower ≢ l4)
  pub l1_apart : (l1 ≢ l2) × (l1 ≢ l3) × (l1 ≢ l4)
  pub l2_apart : (l2 ≢ l3) × (l2 ≢ l4)
  pub l3_apart : l3 ≢ l4
  pub text_page : (text % 4096 ≡ 0) × (text < 2 ^ 52)
  pub stack_page : (stack % 4096 ≡ 0) × (stack < 2 ^ 52)

-- A loop over the table in one frame leaves another frame alone.
fill-apart :
    (base other j : ℕ) (entry : ℕ → ℕ → ℕ) (memory : Memory)
    → IsFrame base
    → IsFrame other
    → base ≢ other
    → j < 512
    → fill_from 512 0 base entry memory (other + 8 * j) ≡ memory (other + 8 * j)
fill-apart base other j entry memory f g ne h =
    fill_from-other 512 0 base (other + 8 * j) entry memory (omega arith)

-- The table that an entry leads to is the frame that was put in.
table_of-table_fields :
    (bits base e : ℕ) (memory : Memory)
    → 40 ≤ bits
    → IsFrame base
    → table_phys_addr e ≡ base / 2 ^ 12 % 2 ^ 40
    → table_of bits memory e ≡ base
table_of-table_fields bits base e memory hb f eq =
    let wide : 2 ^ 40 ≤ 2 ^ bits = pow-le-pow_right (omega arith) hb in
    let back : base / 2 ^ 12 % 2 ^ 40 * 2 ^ 12 ≡ base = omega arith in
    rw (eq, back) (mod-eq_of_lt (omega arith))

page_back :
    (page frame : ℕ)
    → (page % 4096 ≡ 0) × (page < 2 ^ 52)
    → frame ≡ page / 2 ^ 12 % 2 ^ 40
    → frame * 2 ^ 12 ≡ page
page_back page frame h e = omega arith

-- The base of the stack that the callers pass is eight bytes below the end of its page.
stack_top :
    (stack stack_base : ℕ)
    → stack_base ≡ stack + 4096 - 8
    → stack < 2 ^ 52
    → (stack_base + 8 + u64 - 4096) % u64 / 2 ^ 12 % 2 ^ 40 ≡ stack / 2 ^ 12 % 2 ^ 40
stack_top stack stack_base e h = ap (λ (t : ℕ). t / 2 ^ 12 % 2 ^ 40) (omega arith)

module _ (bits lower l1 l2 l3 l4 text stack stack_base : ℕ) (memory : Memory) where
  abbrev m1 : Memory
  m1 = fill_from 512 0 lower lower_entry memory

  abbrev m2 : Memory
  m2 = fill_from 512 0 l1 (l1_entry text stack_base) m1

  abbrev m3 : Memory
  m3 = fill_from 512 0 l2 (l2_entry l1) m2

  abbrev m4 : Memory
  m4 = fill_from 512 0 l3 (l3_entry l2) m3

  -- The memory that the five loops leave.
  abbrev pub built : Memory
  built = fill_from 512 0 l4 (l4_entry lower l3) m4

  module _ (wide : 40 ≤ bits) (base_is : stack_base ≡ stack + 4096 - 8)
      (f : Frames lower l1 l2 l3 l4 text stack) where
    at_l4 : (j : ℕ) → j < 512 → (w : ℕ) × (built (l4 + 8 * j) ≡ l4_entry lower l3 j w)
    at_l4 j h = fill_from-entry 512 0 l4 j (l4_entry lower l3) m4 (omega arith) (omega arith)

    at_l3 : (j : ℕ) → j < 512 → (w : ℕ) × (built (l3 + 8 * j) ≡ l3_entry l2 j w)
    at_l3 j h =
        let (w, e) = fill_from-entry 512 0 l3 j (l3_entry l2) m3 (omega arith) (omega arith) in
        (
          w,
          fill-apart l4 l3 j (l4_entry lower l3) m4 f.frames.4 f.frames.3 (λ e. f.l3_apart (sym e))
                h
              ∙ e,
        )

    at_l2 : (j : ℕ) → j < 512 → (w : ℕ) × (built (l2 + 8 * j) ≡ l2_entry l1 j w)
    at_l2 j h =
        let (w, e) = fill_from-entry 512 0 l2 j (l2_entry l1) m2 (omega arith) (omega arith) in
        (
          w,
          fill-apart l4 l2 j (l4_entry lower l3) m4 f.frames.4 f.frames.2
                (λ e. f.l2_apart.1 (sym e)) h
              ∙ fill-apart l3 l2 j (l3_entry l2) m3 f.frames.3 f.frames.2
                  (λ e. f.l2_apart.0 (sym e)) h
              ∙ e,
        )

    at_l1 : (j : ℕ) → j < 512 → (w : ℕ) × (built (l1 + 8 * j) ≡ l1_entry text stack_base j w)
    at_l1 j h =
        let (w, e) =
          fill_from-entry 512 0 l1 j (l1_entry text stack_base) m1 (omega arith) (omega arith) in
        (
          w,
          fill-apart l4 l1 j (l4_entry lower l3) m4 f.frames.4 f.frames.1
                (λ e. f.l1_apart.2 (sym e)) h
              ∙ fill-apart l3 l1 j (l3_entry l2) m3 f.frames.3 f.frames.1
                  (λ e. f.l1_apart.1 (sym e)) h
              ∙ fill-apart l2 l1 j (l2_entry l1) m2 f.frames.2 f.frames.1
                  (λ e. f.l1_apart.0 (sym e)) h
              ∙ e,
        )

    at_lower : (j : ℕ) → j < 512 → (w : ℕ) × (built (lower + 8 * j) ≡ lower_entry j w)
    at_lower j h =
        let (w, e) = fill_from-entry 512 0 lower j lower_entry memory (omega arith) (omega arith) in
        (
          w,
          fill-apart l4 lower j (l4_entry lower l3) m4 f.frames.4 f.frames.0
                (λ e. f.lower_apart.3 (sym e)) h
              ∙ fill-apart l3 lower j (l3_entry l2) m3 f.frames.3 f.frames.0
                  (λ e. f.lower_apart.2 (sym e)) h
              ∙ fill-apart l2 lower j (l2_entry l1) m2 f.frames.2 f.frames.0
                  (λ e. f.lower_apart.1 (sym e)) h
              ∙ fill-apart l1 lower j (l1_entry text stack_base) m1 f.frames.1 f.frames.0
                  (λ e. f.lower_apart.0 (sym e)) h
              ∙ e,
        )

    leads_to :
        (base e : ℕ)
        → IsFrame base
        → table_phys_addr e ≡ base / 2 ^ 12 % 2 ^ 40
        → table_of bits built e ≡ base
    leads_to base e frame eq = table_of-table_fields bits base e built wide frame eq

    built_pages :
        (page_frame_4kb (built (l1 + 8 * 510)) * 2 ^ 12 ≡ text)
        × (page_frame_4kb (built (l1 + 8 * 511)) * 2 ^ 12 ≡ stack)
    built_pages =
        let (w, at510) = at_l1 510 (omega arith) in
        let (v, at511) = at_l1 511 (omega arith) in
        let (text_frame, stack_frame) = l1_entry-pages text stack_base w v in
        (
          page_back text (page_frame_4kb (built (l1 + 8 * 510))) f.text_page
              (ap page_frame_4kb at510 ∙ text_frame),
          page_back stack (page_frame_4kb (built (l1 + 8 * 511))) f.stack_page (
              ap page_frame_4kb at511
              ∙ stack_frame
              ∙ stack_top stack stack_base base_is f.stack_page.1),
        )

    pub built-Tables : Tables bits built lower l1 l2 l3 l4 text stack
    built-Tables = record {
      l4_present = λ j h. rw (at_l4 j h).1 (l4_entry-present lower l3 j (at_l4 j h).0);
      l4_first = leads_to lower (built (l4 + 8 * 0)) f.frames.0 (
          ap table_phys_addr (at_l4 0 (omega arith)).1
          ∙ (l4_entry-tables lower l3 (at_l4 0 (omega arith)).0).0);
      l4_last = leads_to l3 (built (l4 + 8 * 511)) f.frames.3 (
          ap table_phys_addr (at_l4 511 (omega arith)).1
          ∙ (l4_entry-tables lower l3 (at_l4 511 (omega arith)).0).1);
      lower_present = λ j h. rw (at_lower j h).1 (lower_entry-present j (at_lower j h).0);
      lower_page = λ j h.
          let lt : j < 512 = omega arith in
          rw (at_lower j lt).1 (lower_entry-page j (at_lower j lt).0 h);
      l3_present = λ j h. rw (at_l3 j h).1 (l3_entry-present l2 j (at_l3 j h).0);
      l3_last = (
        ap page_size (at_l3 511 (omega arith)).1 ∙ (l3_entry-last l2 (at_l3 511 (omega arith)).0).0,
        leads_to l2 (built (l3 + 8 * 511)) f.frames.2 (
            ap table_phys_addr (at_l3 511 (omega arith)).1
            ∙ (l3_entry-last l2 (at_l3 511 (omega arith)).0).1),
      );
      l2_present = λ j h. rw (at_l2 j h).1 (l2_entry-present l1 j (at_l2 j h).0);
      l2_last = (
        ap page_size (at_l2 511 (omega arith)).1 ∙ (l2_entry-last l1 (at_l2 511 (omega arith)).0).0,
        leads_to l1 (built (l2 + 8 * 511)) f.frames.1 (
            ap table_phys_addr (at_l2 511 (omega arith)).1
            ∙ (l2_entry-last l1 (at_l2 511 (omega arith)).0).1),
      );
      l1_present = λ j h. rw (at_l1 j h).1 (l1_entry-present text stack_base j (at_l1 j h).0);
      l1_pages = built_pages;
    }

with_frame-some :
    (frame : ℕ) (b b' : Buddy) (memory : Memory) (rest : ℕ → Buddy → Option (ℕ × Buddy × Memory))
    → allocate_page_frames 1 b ≡ some (frame, b')
    → 0 < frame
    → with_frame b memory rest ≡ rest frame b'
unfolding with_frame
with_frame-some frame b b' memory rest e pos =
    let ne : (frame == 0) ≡ false = eq_of_ne frame 0 (omega arith) in rw (e, with_frame) (rw ne)

pub set_up_page_table-built :
    (bits lower l1 l2 l3 l4 text stack_base : ℕ) (b b1 b2 b3 b4 b5 : Buddy) (memory : Memory)
    → allocate_page_frames 1 b ≡ some (lower, b1)
    → allocate_page_frames 1 b1 ≡ some (l1, b2)
    → allocate_page_frames 1 b2 ≡ some (l2, b3)
    → allocate_page_frames 1 b3 ≡ some (l3, b4)
    → allocate_page_frames 1 b4 ≡ some (l4, b5)
    → (0 < lower) × (0 < l1) × (0 < l2) × (0 < l3) × (0 < l4)
    → set_up_page_table text stack_base b memory
      ≡ some (l4, b5, built bits lower l1 l2 l3 l4 text 0 stack_base memory)
unfolding set_up_page_table
set_up_page_table-built bits lower l1 l2 l3 l4 text stack_base b b1 b2 b3 b4 b5 memory r0 r1 r2 r3
      r4 pos =
    with_frame-some lower b b1 memory _ r0 pos.0
    ∙ with_frame-some l1 b1 b2 _ _ r1 pos.1
    ∙ with_frame-some l2 b2 b3 _ _ r2 pos.2
    ∙ with_frame-some l3 b3 b4 _ _ r3 pos.3
    ∙ with_frame-some l4 b4 b5 _ _ r4 pos.4

pub built-address_space :
    (bits lower l1 l2 l3 l4 text stack : ℕ) (memory : Memory)
    → 40 ≤ bits
    → Frames lower l1 l2 l3 l4 text stack
    → (a : ℕ) → a < u64
    → calc_phy_addr bits (built bits lower l1 l2 l3 l4 text stack (stack + 4096 - 8) memory) a l4
      ≡ address_space text stack a
built-address_space bits lower l1 l2 l3 l4 text stack memory wide f =
    calc_phy_addr-address_space
      (built-Tables bits lower l1 l2 l3 l4 text stack (stack + 4096 - 8) memory wide refl f)

-- `SetUpPageTable`, when the allocator gives it five frames, returns the last of them with an address
-- space in which the first five gigabytes are the physical ones, the two pages at the top are the text
-- segment and the user stack, and nothing else is mapped.
pub set_up_page_table-address_space :
    (bits lower l1 l2 l3 l4 text stack : ℕ) (b b1 b2 b3 b4 b5 : Buddy) (memory : Memory)
    → 40 ≤ bits
    → Frames lower l1 l2 l3 l4 text stack
    → allocate_page_frames 1 b ≡ some (lower, b1)
    → allocate_page_frames 1 b1 ≡ some (l1, b2)
    → allocate_page_frames 1 b2 ≡ some (l2, b3)
    → allocate_page_frames 1 b3 ≡ some (l3, b4)
    → allocate_page_frames 1 b4 ≡ some (l4, b5)
    → (0 < lower) × (0 < l1) × (0 < l2) × (0 < l3) × (0 < l4)
    → (memory' : Memory) × (set_up_page_table text (stack + 4096 - 8) b memory
        ≡ some (l4, b5, memory'))
      × ((a : ℕ) → a < u64 → calc_phy_addr bits memory' a l4 ≡ address_space text stack a)
set_up_page_table-address_space bits lower l1 l2 l3 l4 text stack b b1 b2 b3 b4 b5 memory wide f r0
      r1 r2 r3 r4 pos =
    (
      built bits lower l1 l2 l3 l4 text stack (stack + 4096 - 8) memory,
      set_up_page_table-built bits lower l1 l2 l3 l4 text (stack + 4096 - 8) b b1 b2 b3 b4 b5 memory
          r0 r1 r2 r3 r4 pos,
      built-address_space bits lower l1 l2 l3 l4 text stack memory wide f,
    )

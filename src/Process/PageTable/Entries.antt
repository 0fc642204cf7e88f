-- ===== src/Process/PageTable/Entries.antt =====
-- The entries that the loops of `SetUpPageTable` write, by index.
use native.Mathlib.Decide.{ℕ_discrete}
use amaterasu.Base.{
  ℕ, ◌+◌, ◌-◌, ◌*◌, ◌/◌, ◌%◌, ◌^◌, ◌≡◌, ◌<◌, ◌∙◌, arith, ltb, ◌==◌, ◌||◌, if◌then◌else◌, Bool-cases,
  inl, inr, eq_of_ne, lt→ltb,
}
use amaterasu.Util.{u64}
use amaterasu.Paging.{present, page_size, table_phys_addr, page_frame_1gb, page_frame_4kb}
use amaterasu.Process.PageTable.{lower_entry, l1_entry, l2_entry, l3_entry, l4_entry}
use amaterasu.Process.PageTable.Fill.{
  table_fields_lem, huge_fields_lem, page_fields_lem, absent_lem,
}

pub l4_entry-present :
    (lower l3 j w : ℕ) → present (l4_entry lower l3 j w) ≡ (if (j == 0) || (j == 511) then 1 else 0)
unfolding l4_entry
l4_entry-present lower l3 j w = elim (ℕ_discrete j 0) [
  | yes e ↦ rw e (table_fields_lem 0 (lower / 2 ^ 12) w).0
  | no ne ↦ elim (ℕ_discrete j 511) [
    | yes e ↦ rw e (table_fields_lem 1 (l3 / 2 ^ 12) w).0
    | no ne' ↦ rw (eq_of_ne j 0 ne, eq_of_ne j 511 ne') (absent_lem w)
  ]
]

pub l4_entry-tables :
    (lower l3 w : ℕ)
    → (table_phys_addr (l4_entry lower l3 0 w) ≡ lower / 2 ^ 12 % 2 ^ 40)
      × (table_phys_addr (l4_entry lower l3 511 w) ≡ l3 / 2 ^ 12 % 2 ^ 40)
unfolding l4_entry
l4_entry-tables lower l3 w =
    ((table_fields_lem 0 (lower / 2 ^ 12) w).2, (table_fields_lem 1 (l3 / 2 ^ 12) w).2)

pub l3_entry-present : (l2 j w : ℕ) → present (l3_entry l2 j w) ≡ (if j == 511 then 1 else 0)
unfolding l3_entry
l3_entry-present l2 j w = elim (ℕ_discrete j 511) [
  | yes e ↦ rw e (table_fields_lem 1 (l2 / 2 ^ 12) w).0
  | no ne ↦ rw (eq_of_ne j 511 ne) (absent_lem w)
]

pub l3_entry-last :
    (l2 w : ℕ)
    → (page_size (l3_entry l2 511 w) ≡ 0)
      × (table_phys_addr (l3_entry l2 511 w) ≡ l2 / 2 ^ 12 % 2 ^ 40)
unfolding l3_entry
l3_entry-last l2 w =
    ((table_fields_lem 1 (l2 / 2 ^ 12) w).1, (table_fields_lem 1 (l2 / 2 ^ 12) w).2)

pub l2_entry-present : (l1 j w : ℕ) → present (l2_entry l1 j w) ≡ (if j == 511 then 1 else 0)
unfolding l2_entry
l2_entry-present l1 j w = elim (ℕ_discrete j 511) [
  | yes e ↦ rw e (table_fields_lem 1 (l1 / 2 ^ 12) w).0
  | no ne ↦ rw (eq_of_ne j 511 ne) (absent_lem w)
]

pub l2_entry-last :
    (l1 w : ℕ)
    → (page_size (l2_entry l1 511 w) ≡ 0)
      × (table_phys_addr (l2_entry l1 511 w) ≡ l1 / 2 ^ 12 % 2 ^ 40)
unfolding l2_entry
l2_entry-last l1 w =
    ((table_fields_lem 1 (l1 / 2 ^ 12) w).1, (table_fields_lem 1 (l1 / 2 ^ 12) w).2)

pub lower_entry-present : (j w : ℕ) → present (lower_entry j w) ≡ (if ltb j 5 then 1 else 0)
unfolding lower_entry
lower_entry-present j w = elim (Bool-cases (ltb j 5)) [
  | inl small ↦ rw small (huge_fields_lem (j * 0x4000_0000 / 2 ^ 30) w).0
  | inr big ↦ rw big (absent_lem w)
]

pub lower_entry-page :
    (j w : ℕ) → j < 5 → (page_size (lower_entry j w) ≡ 1) × (page_frame_1gb (lower_entry j w) ≡ j)
unfolding lower_entry
lower_entry-page j w h =
    let (_, size, frame) = huge_fields_lem (j * 0x4000_0000 / 2 ^ 30) w in
    rw (lt→ltb j 5 h) (size, frame ∙ omega arith)

pub l1_entry-present :
    (text stack_base j w : ℕ)
    → present (l1_entry text stack_base j w) ≡ (if (j == 510) || (j == 511) then 1 else 0)
unfolding l1_entry
l1_entry-present text stack_base j w = elim (ℕ_discrete j 510) [
  | yes e ↦ rw e (page_fields_lem (text / 2 ^ 12) w).0
  | no ne ↦ elim (ℕ_discrete j 511) [
    | yes e ↦ rw e (page_fields_lem ((stack_base + 8 + u64 - 4096) % u64 / 2 ^ 12) w).0
    | no ne' ↦ rw (eq_of_ne j 510 ne, eq_of_ne j 511 ne') (absent_lem w)
  ]
]

pub l1_entry-pages :
    (text stack_base w v : ℕ)
    → (page_frame_4kb (l1_entry text stack_base 510 w) ≡ text / 2 ^ 12 % 2 ^ 40)
      × (page_frame_4kb (l1_entry text stack_base 511 v)
          ≡ (stack_base + 8 + u64 - 4096) % u64 / 2 ^ 12 % 2 ^ 40)
unfolding l1_entry
l1_entry-pages text stack_base w v = (
  (page_fields_lem (text / 2 ^ 12) w).1,
  (page_fields_lem ((stack_base + 8 + u64 - 4096) % u64 / 2 ^ 12) v).1,
)

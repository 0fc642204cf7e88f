-- ===== src/Process/PageTable/Fill.antt =====
-- What the loops over the entries of a table leave in memory, and what the entries hold.
use amaterasu.Base.{
  take, drop, ℕ, zero, suc, ◌+◌, ◌*◌, ◌%◌, ◌^◌, ◌≡◌, ◌<◌, ◌≤◌, ◌⊎◌, refl, ◌∙◌, arith, update,
}
use native.Mathlib.Decide.{ℕ_discrete}
use amaterasu.Base.Bits.Fields.{put_all}
use amaterasu.Paging.{Memory, present, page_size, table_phys_addr, page_frame_1gb, page_frame_4kb}
use amaterasu.Process.PageTable.{fill_from, table_fields, huge_fields, page_fields, absent}

-- The loop leaves other addresses as they are.
pub fill_from-other :
    (rounds i base a : ℕ) (entry : ℕ → ℕ → ℕ) (memory : Memory)
    → (a < base + 8 * i) ⊎ (base + 8 * (i + rounds) ≤ a)
    → fill_from rounds i base entry memory a ≡ memory a
unfolding fill_from
fill_from-other zero i base a entry memory out = refl
fill_from-other (suc rounds) i base a entry memory out =
    fill_from-other rounds (i + 1) base a entry
      (update memory (base + 8 * i) (entry i (memory (base + 8 * i)))) (omega arith)
    ∙ ground arith

-- Each entry is what the body makes of the word that was there.
pub fill_from-entry :
    (rounds i base j : ℕ) (entry : ℕ → ℕ → ℕ) (memory : Memory)
    → i ≤ j
    → j < i + rounds
    → (w : ℕ) × (fill_from rounds i base entry memory (base + 8 * j) ≡ entry j w)
unfolding fill_from
fill_from-entry zero i base j entry memory lo hi = absurd (omega arith)
fill_from-entry (suc rounds) i base j entry memory lo hi =
    let memory' = update memory (base + 8 * i) (entry i (memory (base + 8 * i))) in
    elim (ℕ_discrete j i) [
      | yes e ↦ (
        memory (base + 8 * i),
        fill_from-other rounds (i + 1) base (base + 8 * j) entry memory' (omega arith)
            ∙ rw e (ground arith),
      )
      | no ne ↦ fill_from-entry rounds (i + 1) base j entry memory' (omega arith) (omega arith)
    ]

-- What the fields of each kind of entry read as, whatever the memory held before.
pub table_fields_lem :
    (user v w : ℕ)
    → let e = put_all (table_fields user v) w in
      (present e ≡ 1) × (page_size e ≡ 0) × (table_phys_addr e ≡ v % 2 ^ 40)
table_fields_lem user v w = omega arith

-- The first eight assignments to the entry of a large page, and the others.
low_fields_lem :
    (w : ℕ) → let e = put_all (take 8 (huge_fields 0)) w in (present e ≡ 1) × (page_size e ≡ 1)
low_fields_lem w = omega arith

high_fields_lem :
    (v w : ℕ)
    → let e = put_all (drop 8 (huge_fields v)) w in
      (present e ≡ present w) × (page_size e ≡ page_size w) × (page_frame_1gb e ≡ v % 2 ^ 22)
high_fields_lem v w = omega arith

pub huge_fields_lem :
    (v w : ℕ)
    → let e = put_all (huge_fields v) w in
      (present e ≡ 1) × (page_size e ≡ 1) × (page_frame_1gb e ≡ v % 2 ^ 22)
huge_fields_lem v w =
    let first = put_all (take 8 (huge_fields 0)) w in
    let high = high_fields_lem v first in
    let low = low_fields_lem w in (high.0 ∙ low.0, high.1 ∙ low.1, high.2)

pub page_fields_lem :
    (v w : ℕ)
    → let e = put_all (page_fields v) w in (present e ≡ 1) × (page_frame_4kb e ≡ v % 2 ^ 40)
page_fields_lem v w = omega arith

pub absent_lem : (w : ℕ) → present (absent w) ≡ 0
absent_lem w = omega arith

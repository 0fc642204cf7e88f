-- ===== src/Paging/Walk.antt =====
-- The walk of `CalcPhyAddr` through tables that map the lowest gigabytes to themselves and two pages
-- at the top of the address space.
use amaterasu.Base.{
  ℕ, ◌+◌, ◌-◌, ◌*◌, ◌/◌, ◌%◌, ◌^◌, ◌≡◌, ◌<◌, ◌∙◌, arith, ltb, ◌==◌, ◌||◌, ◌&&◌, ltb→lt,
  if◌then◌else◌, Bool-cases, inl, inr, eq_of_ne,
}
use native.Mathlib.Decide.{ℕ_discrete}
use amaterasu.Base.Bits.{bit_and-mask}
use amaterasu.Util.{u64}
use amaterasu.Paging.{
  Memory, Translation, not_canonical, not_present, physical, present, page_size, page_frame_1gb,
  page_frame_4kb, entry_at, table_of, calc_l1, calc_l2, calc_l3, calc_phy_addr, l4_pt_index,
  l3_pt_index, l2_pt_index, l1_pt_index,
}

-- The address space of a process: the first five gigabytes are the physical ones, the page before
-- the last is the text segment, the last is the user stack, and nothing else is mapped.
pub address_space : (text stack a : ℕ) → Translation
address_space text stack a =
    if ltb a (5 * 2 ^ 30)
    then physical a
    else if ltb a (2 ^ 39)
    then not_present 3
    else if ltb a (2 ^ 47)
    then not_present 4
    else if ltb a (2 ^ 64 - 2 ^ 47)
    then not_canonical
    else if ltb a (2 ^ 64 - 2 ^ 39)
    then not_present 4
    else if ltb a (2 ^ 64 - 2 ^ 30)
    then not_present 3
    else if ltb a (2 ^ 64 - 2 ^ 21)
    then not_present 2
    else if ltb a (2 ^ 64 - 8192)
    then not_present 1
    else if ltb a (2 ^ 64 - 4096)
    then physical (text + a % 4096)
    else physical (stack + a % 4096)

-- What the entries of the five tables say.
pub record Tables (bits : ℕ) (memory : Memory) (lower l1 l2 l3 l4 text stack : ℕ) : Type 0 where
  pub l4_present :
      (j : ℕ)
      → j < 512
      → present (entry_at bits memory l4 j) ≡ (if (j == 0) || (j == 511) then 1 else 0)
  pub l4_first : table_of bits memory (entry_at bits memory l4 0) ≡ lower
  pub l4_last : table_of bits memory (entry_at bits memory l4 511) ≡ l3
  pub lower_present :
      (j : ℕ) → j < 512 → present (entry_at bits memory lower j) ≡ (if ltb j 5 then 1 else 0)
  pub lower_page :
      (j : ℕ)
      → j < 5
      → (page_size (entry_at bits memory lower j) ≡ 1)
        × (page_frame_1gb (entry_at bits memory lower j) ≡ j)
  pub l3_present :
      (j : ℕ) → j < 512 → present (entry_at bits memory l3 j) ≡ (if j == 511 then 1 else 0)
  pub l3_last :
      (page_size (entry_at bits memory l3 511) ≡ 0)
      × (table_of bits memory (entry_at bits memory l3 511) ≡ l2)
  pub l2_present :
      (j : ℕ) → j < 512 → present (entry_at bits memory l2 j) ≡ (if j == 511 then 1 else 0)
  pub l2_last :
      (page_size (entry_at bits memory l2 511) ≡ 0)
      × (table_of bits memory (entry_at bits memory l2 511) ≡ l1)
  pub l1_present :
      (j : ℕ)
      → j < 512
      → present (entry_at bits memory l1 j) ≡ (if (j == 510) || (j == 511) then 1 else 0)
  pub l1_pages :
      (page_frame_4kb (entry_at bits memory l1 510) * 2 ^ 12 ≡ text)
      × (page_frame_4kb (entry_at bits memory l1 511) * 2 ^ 12 ≡ stack)

module _ {bits : ℕ} {memory : Memory} {lower l1 l2 l3 l4 text stack : ℕ}
    (t : Tables bits memory lower l1 l2 l3 l4 text stack) where
  -- The index into a level 1 table, as a remainder.
  walk_l1 :
      (a entry : ℕ)
      → table_of bits memory entry ≡ l1
      → calc_l1 bits memory a entry ≡ (
          if a / 2 ^ 12 % 512 == 510
          then physical (text + a % 4096)
          else if a / 2 ^ 12 % 512 == 511
          then physical (stack + a % 4096)
          else not_present 1)
  unfolding calc_l1
  walk_l1 a entry e =
      let j = a / 2 ^ 12 % 512 in
      let index : l1_pt_index a ≡ j = bit_and-mask 9 (a / 2 ^ 12) in
      rw (e, index, bit_and-mask 12 a)
        (elim (ℕ_discrete j 510) [
          | yes e510 ↦ rw (e510, t.l1_present 510 (omega arith), t.l1_pages.0)
          | no n510 ↦ elim (ℕ_discrete j 511) [
            | yes e511 ↦ rw (e511, t.l1_present 511 (omega arith), t.l1_pages.1)
            | no n511 ↦ rw (t.l1_present j (omega arith), eq_of_ne j 510 n510, eq_of_ne j 511 n511)
          ]
        ])

  walk_l2 :
      (a entry : ℕ)
      → table_of bits memory entry ≡ l2
      → calc_l2 bits memory a entry ≡ (
          if a / 2 ^ 21 % 512 == 511
          then calc_l1 bits memory a (entry_at bits memory l2 511)
          else not_present 2)
  unfolding calc_l2
  walk_l2 a entry e =
      let j = a / 2 ^ 21 % 512 in
      let index : l2_pt_index a ≡ j = bit_and-mask 9 (a / 2 ^ 21) in
      rw (e, index)
        (elim (ℕ_discrete j 511) [
          | yes e511 ↦ rw (e511, t.l2_present 511 (omega arith), t.l2_last.0)
          | no n511 ↦ rw (t.l2_present j (omega arith), eq_of_ne j 511 n511)
        ])

  walk_l3 :
      (a entry : ℕ)
      → table_of bits memory entry ≡ l3
      → calc_l3 bits memory a entry ≡ (
          if a / 2 ^ 30 % 512 == 511
          then calc_l2 bits memory a (entry_at bits memory l3 511)
          else not_present 3)
  unfolding calc_l3
  walk_l3 a entry e =
      let j = a / 2 ^ 30 % 512 in
      let index : l3_pt_index a ≡ j = bit_and-mask 9 (a / 2 ^ 30) in
      rw (e, index)
        (elim (ℕ_discrete j 511) [
          | yes e511 ↦ rw (e511, t.l3_present 511 (omega arith), t.l3_last.0)
          | no n511 ↦ rw (t.l3_present j (omega arith), eq_of_ne j 511 n511)
        ])

  walk_lower :
      (a entry : ℕ)
      → table_of bits memory entry ≡ lower
      → calc_l3 bits memory a entry ≡ (
          if ltb (a / 2 ^ 30 % 512) 5
          then physical (a / 2 ^ 30 % 512 * 2 ^ 30 + a % 2 ^ 30)
          else not_present 3)
  unfolding calc_l3
  walk_lower a entry e =
      let j = a / 2 ^ 30 % 512 in
      let index : l3_pt_index a ≡ j = bit_and-mask 9 (a / 2 ^ 30) in
      rw (e, index, bit_and-mask 30 a)
        (elim (Bool-cases (ltb j 5)) [
          | inl small ↦
              let lt : j < 5 = ltb→lt j 5 small in
              rw (
                t.lower_present j (omega arith),
                small,
                (t.lower_page j lt).0,
                (t.lower_page j lt).1,
              )
          | inr big ↦ rw (t.lower_present j (omega arith), big)
        ])

  -- The whole walk, by the four indices.
  walk_l4 :
      (a : ℕ)
      → calc_phy_addr bits memory a l4 ≡ (
          if ltb 0x7fff_ffff_ffff a && ltb a 0xffff_8000_0000_0000
          then not_canonical
          else if a / 2 ^ 39 % 512 == 0
          then calc_l3 bits memory a (entry_at bits memory l4 0)
          else if a / 2 ^ 39 % 512 == 511
          then calc_l3 bits memory a (entry_at bits memory l4 511)
          else not_present 4)
  unfolding calc_phy_addr
  walk_l4 a =
      let j = a / 2 ^ 39 % 512 in
      let index : l4_pt_index a ≡ j = bit_and-mask 9 (a / 2 ^ 39) in
      rw index (elim (ℕ_discrete j 0) [
        | yes e0 ↦ rw (e0, t.l4_present 0 (omega arith))
        | no n0 ↦ elim (ℕ_discrete j 511) [
          | yes e511 ↦ rw (e511, t.l4_present 511 (omega arith))
          | no n511 ↦ rw (t.l4_present j (omega arith), eq_of_ne j 0 n0, eq_of_ne j 511 n511)
        ]
      ])

  walk_indices :
      (a : ℕ)
      → calc_phy_addr bits memory a l4 ≡ (
          if ltb 0x7fff_ffff_ffff a && ltb a 0xffff_8000_0000_0000
          then not_canonical
          else if a / 2 ^ 39 % 512 == 0
          then (if ltb (a / 2 ^ 30 % 512) 5
              then physical (a / 2 ^ 30 % 512 * 2 ^ 30 + a % 2 ^ 30)
              else not_present 3)
          else if a / 2 ^ 39 % 512 == 511
          then (if a / 2 ^ 30 % 512 == 511
              then (if a / 2 ^ 21 % 512 == 511
                  then (if a / 2 ^ 12 % 512 == 510
                      then physical (text + a % 4096)
                      else if a / 2 ^ 12 % 512 == 511
                      then physical (stack + a % 4096)
                      else not_present 1)
                  else not_present 2)
              else not_present 3)
          else not_present 4)
  walk_indices a =
      walk_l4 a
      ∙ rw (
        walk_lower a (entry_at bits memory l4 0) t.l4_first,
        walk_l3 a (entry_at bits memory l4 511) t.l4_last,
        walk_l2 a (entry_at bits memory l3 511) t.l3_last.1,
        walk_l1 a (entry_at bits memory l2 511) t.l2_last.1,
      )

  -- Through such tables every 64-bit address is translated as the address space says.
  pub calc_phy_addr-address_space :
      (a : ℕ) → a < u64 → calc_phy_addr bits memory a l4 ≡ address_space text stack a
  unfolding address_space
  calc_phy_addr-address_space a h = walk_indices a ∙ ground arith

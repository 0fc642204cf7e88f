-- ===== src/PhysicalMemory/Init/Streaks.antt =====
-- The inner loops of `BuddySystemInit`.
use native.Mathlib.Nat.{pow-suc, one-le-pow}
use native.Mathlib.Decide.{ℕ_discrete}
use amaterasu.Base.{
  ℕ, zero, suc, ◌+◌, ◌*◌, ◌/◌, ◌%◌, ◌^◌, ◌≤◌, ◌<◌, ◌≡◌, inl, inr, ap, ◌∙◌, true, false, Option,
  none, ◌==◌, if◌then◌else◌, bit_and, arith, Bool-cases, eq_of_ne, ==_iff, leb, ltb, ◌&&◌, update,
}
use amaterasu.Base.Bits.{bit_and-set}
use amaterasu.PhysicalMemory.{Page, page_frame_max_order}
use amaterasu.PhysicalMemory.Blocks.{IsAligned}
use amaterasu.PhysicalMemory.Init.{
  clear_orders, reserved, skip_reserved, max_order_from, streak_end,
}

pub clear_orders_lem :
    (rounds order : ℕ) (heads : ℕ → Option ℕ) (o : ℕ)
    → clear_orders rounds order heads o
      ≡ (if leb order o && ltb o (order + rounds) then none else heads o)
unfolding clear_orders
clear_orders_lem zero order heads o = ground arith
clear_orders_lem (suc rounds) order heads o =
    clear_orders_lem rounds (order + 1) (update heads order none) o
    ∙ elim (ℕ_discrete o order) [ yes e ↦ rw e (ground arith) | no ne ↦ ground arith ]

-- All pages up to the one found are reserved, and that one is not, if it is in the map.
pub skip_reserved_lem :
    (rounds start : ℕ) (m : ℕ → Page)
    → let s = skip_reserved rounds start m in
      (start ≤ s)
      × (s ≤ start + rounds)
      × ((q : ℕ) → start ≤ q → q < s → reserved m q ≡ true)
      × (s < start + rounds → reserved m s ≡ false)
unfolding skip_reserved
skip_reserved_lem zero start m =
    (omega arith, omega arith, λ q lo hi. absurd (omega arith), λ lt. absurd (omega arith))
skip_reserved_lem (suc rounds) start m = elim (Bool-cases (reserved m start)) [
  | inl r ↦
      let (lo, hi, before, at) = skip_reserved_lem rounds (start + 1) m in
      rw r (
        omega arith,
        omega arith,
        λ q lo' hi'. elim (ℕ_discrete q start) [
          | yes e ↦ rw e r
          | no ne ↦ before q (omega arith) hi'
        ],
        λ lt. at (omega arith),
      )
  | inr r ↦ rw r (omega arith, omega arith, λ q lo hi. absurd (omega arith), λ lt. r)
]

-- A multiple of a power of two that has that binary digit clear is a multiple of the next power.
IsAligned-suc :
    (i start : ℕ) → IsAligned i start → bit_and start (2 ^ i) ≡ 0 → IsAligned (suc i) start
IsAligned-suc i start (k, e) clear = elim (ℕ_discrete (k % 2) 0) [
  | yes even ↦
      let h = k / 2 in
      let twice : k ≡ 2 * h = omega arith in
      let e' : start ≡ 2 * h * 2 ^ i = rw twice at e in
      (h, omega (arith, e', ap (λ (t : ℕ). h * t) (pow-suc 2 i)))
  | no odd ↦
      let h = k / 2 in
      let odd_k : k ≡ 2 * h + 1 = omega arith in
      let e' : start ≡ (2 * h + 1) * 2 ^ i = rw odd_k at e in
      let clear' : bit_and ((2 * h + 1) * 2 ^ i) (2 ^ i) ≡ 0 = rw e' at clear in
      absurd (omega (arith, clear', bit_and-set i h, one-le-pow i 2))
]

-- A block of the order found is aligned.
pub max_order_from-IsAligned :
    (rounds i start : ℕ)
    → i + rounds ≡ page_frame_max_order + 1
    → IsAligned i start
    → (IsAligned (max_order_from rounds i start) start)
      × (max_order_from rounds i start ≤ page_frame_max_order)
unfolding max_order_from
max_order_from-IsAligned zero i start e a =
    let last : i ≡ 11 = omega arith in
    let (k, eq) = a in
    let eq' : start ≡ k * 2 ^ 11 = rw last at eq in ((2 * k, omega arith), omega arith)
max_order_from-IsAligned (suc rounds) i start e a = elim (Bool-cases (bit_and start (2 ^ i) == 0)) [
  | inl clear ↦ rw clear (
      max_order_from-IsAligned rounds (i + 1) start (omega arith) (
        let next : i + 1 ≡ suc i = omega arith in
        rw next (IsAligned-suc i start a ((==_iff (bit_and start (2 ^ i)) 0).0 clear))))
  | inr set ↦ rw set (a, omega arith)
]

-- The streak ends inside the map, and no page in it is reserved.
pub streak_end_lem :
    (rounds end total : ℕ) (m : ℕ → Page)
    → end ≤ total
    → let e = streak_end rounds end total m in
      (end ≤ e)
      × (e ≤ end + rounds)
      × (e ≤ total)
      × ((q : ℕ) → end ≤ q → q < e → reserved m q ≡ false)
unfolding streak_end
streak_end_lem zero end total m le =
    (omega arith, omega arith, omega arith, λ q lo hi. absurd (omega arith))
streak_end_lem (suc rounds) end total m le = elim (ℕ_discrete end total) [
  | yes e ↦
      let here : (end == total) ≡ true = ground arith in
      rw here (omega arith, omega arith, omega arith, λ q lo hi. absurd (omega arith))
  | no ne ↦ rw (eq_of_ne end total ne) (elim (Bool-cases (reserved m end)) [
    | inl r ↦ rw r (omega arith, omega arith, omega arith, λ q lo hi. absurd (omega arith))
    | inr r ↦
        let (lo, hi, in_map, free) = streak_end_lem rounds (end + 1) total m (omega arith) in
        rw r (
          omega arith,
          omega arith,
          in_map,
          λ q lo' hi'. elim (ℕ_discrete q end) [
            | yes e ↦ rw e r
            | no ne' ↦ free q (omega arith) hi'
          ],
        )
  ])
]

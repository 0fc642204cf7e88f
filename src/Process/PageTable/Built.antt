-- ===== src/Process/PageTable/Built.antt =====
-- What the loops of `SetUpPageTable` leave of the memory outside the five tables.
use amaterasu.Base.{
  ℕ, zero, suc, ◌+◌, ◌*◌, ◌≡◌, ◌<◌, ◌≤◌, ◌⊎◌, refl, ap, ◌∙◌, fun_ext, arith, update,
}
use amaterasu.Paging.{Memory}
use amaterasu.Process.PageTable.{fill_from, lower_entry, l1_entry, l2_entry, l3_entry, l4_entry}
use amaterasu.Process.PageTable.Fill.{fill_from-other}
use amaterasu.Process.PageTable.Space.{built}

-- The address lies outside the page frame.
abbrev pub Outside : (a frame : ℕ) → Type 0
Outside a frame = (a < frame) ⊎ (frame + 4096 ≤ a)

update_comm :
    (memory : Memory) (a b v w : ℕ)
    → (a < b) ⊎ (b < a)
    → update (update memory b w) a v ≡ update (update memory a v) b w
update_comm memory a b v w apart = fun_ext λ q. ground arith

-- A write outside the table may come before the loop.
fill_from-update :
    (rounds i base a v : ℕ) (entry : ℕ → ℕ → ℕ) (memory : Memory)
    → (a < base + 8 * i) ⊎ (base + 8 * (i + rounds) ≤ a)
    → update (fill_from rounds i base entry memory) a v
      ≡ fill_from rounds i base entry (update memory a v)
unfolding fill_from
fill_from-update zero i base a v entry memory out = refl
fill_from-update (suc rounds) i base a v entry memory out =
    let w = entry i (memory (base + 8 * i)) in
    let same : update memory a v (base + 8 * i) ≡ memory (base + 8 * i) = ground arith in
    fill_from-update rounds (i + 1) base a v entry (update memory (base + 8 * i) w) (omega arith)
    ∙ rw same (
        ap (fill_from rounds (i + 1) base entry)
          (update_comm memory a (base + 8 * i) v w (omega arith)))

module _ (bits lower l1 l2 l3 l4 text stack stack_base a : ℕ) (memory : Memory)
    (out : Outside a lower × Outside a l1 × Outside a l2 × Outside a l3 × Outside a l4) where
  pub built-other : built bits lower l1 l2 l3 l4 text stack stack_base memory a ≡ memory a
  built-other =
      fill_from-other 512 0 l4 a (l4_entry lower l3) _ (omega (arith, out.4))
      ∙ fill_from-other 512 0 l3 a (l3_entry l2) _ (omega (arith, out.3))
      ∙ fill_from-other 512 0 l2 a (l2_entry l1) _ (omega (arith, out.2))
      ∙ fill_from-other 512 0 l1 a (l1_entry text stack_base) _ (omega (arith, out.1))
      ∙ fill_from-other 512 0 lower a lower_entry memory (omega (arith, out.0))

  pub built-update :
      (v : ℕ)
      → update (built bits lower l1 l2 l3 l4 text stack stack_base memory) a v
        ≡ built bits lower l1 l2 l3 l4 text stack stack_base (update memory a v)
  built-update v =
      fill_from-update 512 0 l4 a v (l4_entry lower l3) _ (omega (arith, out.4))
      ∙ ap (fill_from 512 0 l4 (l4_entry lower l3)) (
          fill_from-update 512 0 l3 a v (l3_entry l2) _ (omega (arith, out.3))
          ∙ ap (fill_from 512 0 l3 (l3_entry l2)) (
              fill_from-update 512 0 l2 a v (l2_entry l1) _ (omega (arith, out.2))
              ∙ ap (fill_from 512 0 l2 (l2_entry l1)) (
                  fill_from-update 512 0 l1 a v (l1_entry text stack_base) _ (omega (arith, out.1))
                  ∙ ap (fill_from 512 0 l1 (l1_entry text stack_base)) (
                      fill_from-update 512 0 lower a v lower_entry memory (omega (arith, out.0))))))

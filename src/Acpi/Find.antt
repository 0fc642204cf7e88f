-- ===== src/Acpi/Find.antt =====
-- What `FindSDT` finds.
use amaterasu.Base.{
  ℕ, zero, suc, ◌+◌, ◌≡◌, ◌<◌, ◌≤◌, ◌⊎◌, inl, inr, refl, arith, ◌==◌, Bool-cases, ==_iff,
}
use native.Mathlib.Decide.{ℕ_discrete}
use amaterasu.Util.{strncmp}
use amaterasu.Util.Bytes.{Agree, strncmp-Agree}
use amaterasu.Acpi.{entry, entry_num, find_entry, find_sdt}

-- Entry `i` leads to a table with the signature.
abbrev pub HasSignature : (memory : ℕ → ℕ) (xsdt : ℕ) (signature : ℕ → ℕ) (i : ℕ) → Type 0
HasSignature memory xsdt signature i = Agree (λ k. memory (entry memory xsdt i + k)) signature 0 4

find_entry_lem :
    (rounds i : ℕ) (memory : ℕ → ℕ) (xsdt : ℕ) (signature : ℕ → ℕ)
    → ((j : ℕ) × (i ≤ j)
        × (j < i + rounds)
        × HasSignature memory xsdt signature j
        × ((q : ℕ) → i ≤ q → q < j → ¬ HasSignature memory xsdt signature q)
        × (find_entry rounds i memory xsdt signature ≡ entry memory xsdt j))
      ⊎ (((q : ℕ) → i ≤ q → q < i + rounds → ¬ HasSignature memory xsdt signature q)
          × (find_entry rounds i memory xsdt signature ≡ 0))
unfolding find_entry
find_entry_lem zero i memory xsdt signature = inr (λ q lo hi h. omega arith, refl)
find_entry_lem (suc rounds) i memory xsdt signature =
    let here = λ (k : ℕ). memory (entry memory xsdt i + k) in
    elim (Bool-cases (strncmp here signature 4 == 0)) [
      | inl e ↦ inl (
        i,
        omega arith,
        omega arith,
        (strncmp-Agree here signature 4).0 ((==_iff (strncmp here signature 4) 0).0 e),
        λ q lo hi h. omega arith,
        rw e,
      )
      | inr e ↦
          let other : ¬ HasSignature memory xsdt signature i =
            λ h. let z = (strncmp-Agree here signature 4).1 h in ground arith in
          let past : (q : ℕ) → i ≤ q → (q ≡ i) ⊎ (i + 1 ≤ q) =
            λ q lo. elim (ℕ_discrete q i) [ yes s ↦ inl s | no ne ↦ inr (omega arith) ] in
          elim (find_entry_lem rounds (i + 1) memory xsdt signature) [
            | inl (j, lo, hi, has, before, run) ↦ inl (
              j,
              omega arith,
              omega arith,
              has,
              λ q qlo qhi. elim (past q qlo) [
                | inl s ↦ rw s other
                | inr later ↦ before q later qhi
              ],
              rw e run,
            )
            | inr (none_has, run) ↦ inr (
              λ q qlo qhi. elim (past q qlo) [
                | inl s ↦ rw s other
                | inr later ↦ none_has q later (omega arith)
              ],
              rw e run,
            )
          ]
    ]

-- `FindSDT` returns the table of the first entry whose table has the signature, and 0 if there is none.
pub find_sdt_lem :
    (memory : ℕ → ℕ) (xsdt : ℕ) (signature : ℕ → ℕ)
    → ((j : ℕ) × (j < entry_num memory xsdt)
        × HasSignature memory xsdt signature j
        × ((q : ℕ) → q < j → ¬ HasSignature memory xsdt signature q)
        × (find_sdt memory xsdt signature ≡ entry memory xsdt j))
      ⊎ (((q : ℕ) → q < entry_num memory xsdt → ¬ HasSignature memory xsdt signature q)
          × (find_sdt memory xsdt signature ≡ 0))
unfolding find_sdt
find_sdt_lem memory xsdt signature =
    elim (find_entry_lem (entry_num memory xsdt) 0 memory xsdt signature) [
      | inl (j, lo, hi, has, before, run) ↦
          inl (j, omega arith, has, λ q qhi. before q (omega arith) qhi, run)
      | inr (none_has, run) ↦ inr (λ q qhi. none_has q (omega arith) (omega arith), run)
    ]

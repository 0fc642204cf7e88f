-- ===== src/PhysicalMemory/Returned.antt =====
-- Free blocks after one more block becomes free.
use native.Mathlib.Nat.{one-le-pow}
use amaterasu.Base.{
  ℕ, ◌≡◌, ◌⊎◌, inl, inr, sym, ◌∙◌, true, false, ◌||◌, ◌&&◌, ◌∷◌, ◌==◌, update, arith, Bool-cases,
}
use amaterasu.Base.Chain.{elem}
use amaterasu.PhysicalMemory.FreeLists.{FreeBlocks}
use amaterasu.PhysicalMemory.Blocks.{IsFree, IsApart, Within, IsAligned}

unfoldable pub returned : (order p : ℕ) → FreeBlocks → FreeBlocks
returned order p free = update free order (p ∷ free order)

module _ (order p : ℕ) (free : FreeBlocks) where
  returned-elem :
      (o x : ℕ) → elem x (returned order p free o) ≡ (elem x (free o) || ((o == order) && (x == p)))
  unfolding returned
  returned-elem o x = ground arith

  -- A block that is free now is the new one, or was free.
  pub returned_cases :
      (o x : ℕ)
      → elem x (returned order p free o) ≡ true
      → ((o ≡ order) × (x ≡ p)) ⊎ (elem x (free o) ≡ true)
  returned_cases o x m = elim (Bool-cases (elem x (free o))) [
    | inl old ↦ inr old
    | inr new ↦ inl (ground (arith, returned-elem o x), ground (arith, returned-elem o x))
  ]

  pub returned_old : (q : ℕ) → IsFree free q → IsFree (returned order p free) q
  returned_old q (o, x, m, w) = (o, x, ground (arith, returned-elem o x), w)

  pub returned_new : (q : ℕ) → Within order p q → IsFree (returned order p free) q
  returned_new q w = (order, p, ground (arith, returned-elem order p), w)

  pub returned-IsFree :
      (q : ℕ) → IsFree (returned order p free) q → IsFree free q ⊎ Within order p q
  returned-IsFree q (o, x, m, w) = elim (returned_cases o x m) [
    | inl (eo, ex) ↦ inr (rw (eo, ex) at w)
    | inr old ↦ inl (o, x, old, w)
  ]

  module _ (busy : (q : ℕ) → Within order p q → ¬ IsFree free q) where
    -- The block is in no list.
    pub not_listed : (o : ℕ) → elem p (free o) ≡ false
    not_listed o = elim (Bool-cases (elem p (free o))) [
      | inl m ↦ absurd (
          busy p (omega arith, omega (arith, one-le-pow order 2))
            (o, p, m, (omega arith, omega (arith, one-le-pow o 2))))
      | inr e ↦ e
    ]

    pub returned-IsApart : IsAligned order p → IsApart free → IsApart (returned order p free)
    returned-IsApart aligned v = record {
      aligned = λ o x m. elim (returned_cases o x m) [
        | inl (eo, ex) ↦ rw (eo, ex) aligned
        | inr old ↦ v.aligned o x old
      ];
      apart = λ o x o' x' q m m' w w'. elim (returned_cases o x m) [
        | inl (eo, ex) ↦ elim (returned_cases o' x' m') [
          | inl (eo', ex') ↦ (eo ∙ sym eo', ex ∙ sym ex')
          | inr old' ↦ absurd (busy q (rw (eo, ex) at w) (o', x', old', w'))
        ]
        | inr old ↦ elim (returned_cases o' x' m') [
          | inl (eo', ex') ↦ absurd (busy q (rw (eo', ex') at w') (o, x, old, w))
          | inr old' ↦ v.apart o x o' x' q old old' w w'
        ]
      ];
    }

-- ===== src/PhysicalMemory/Blocks.antt =====
-- The free blocks as sets of pages: alignment, no overlap, and what splitting a block does to them.
use native.Mathlib.Nat.{pow-suc, one-le-pow}
use native.Mathlib.Decide.{ℕ_discrete, dec_lt}
use amaterasu.Base.{
  ℕ, suc, ◌+◌, ◌*◌, ◌^◌, ◌≤◌, ◌<◌, ◌≡◌, ◌≢◌, ◌⊎◌, inl, inr, refl, sym, ap, true, false, not, ◌&&◌,
  ◌||◌, List, [], ◌∷◌, ◌==◌, update, arith, Bool-cases, bit_xor,
}
use amaterasu.Base.Bits.{bit_xor-set}
use amaterasu.Base.Chain.{elem, erase, Distinct}
use amaterasu.PhysicalMemory.FreeLists.{FreeBlocks}

-- Page `q` lies in the block of order `o` that begins at page `p`.
abbrev pub Within : (o p q : ℕ) → Type 0
Within o p q = (p ≤ q) × (q < p + 2 ^ o)

-- Page `q` lies in a free block.
abbrev pub IsFree : FreeBlocks → ℕ → Type 0
IsFree free q = (o : ℕ) × (p : ℕ) × (elem p (free o) ≡ true) × Within o p q

-- The first page of a block of order `o` is a multiple of its size.
abbrev pub IsAligned : (o p : ℕ) → Type 0
IsAligned o p = (k : ℕ) × (p ≡ k * 2 ^ o)

-- Free blocks are aligned, and no page lies in two of them.
pub record IsApart (free : FreeBlocks) : Type 0 where
  pub aligned : (o p : ℕ) → elem p (free o) ≡ true → IsAligned o p
  pub apart :
      (o p o' p' q : ℕ)
      → elem p (free o) ≡ true
      → elem p' (free o') ≡ true
      → Within o p q
      → Within o' p' q
      → (o ≡ o') × (p ≡ p')

-- The free blocks after one of order `suc lower` is split into halves.
abbrev pub split_free : (lower front buddy : ℕ) → FreeBlocks → FreeBlocks
split_free lower front buddy free =
    let free1 = update free (suc lower) (erase front (free (suc lower))) in
    let free2 = update free1 lower (buddy ∷ free1 lower) in update free2 lower (front ∷ free2 lower)

pub elem-erase-Distinct :
    (q p : ℕ) (xs : List ℕ) → Distinct xs → elem q (erase p xs) ≡ (elem q xs && not (q == p))
elem-erase-Distinct q p [] d = refl
elem-erase-Distinct q p (x ∷ xs) d = ground (arith, elem-erase-Distinct q p xs)

-- Which blocks are free after the split.
pub split_free-elem :
    (lower front buddy : ℕ) (free : FreeBlocks) (o p : ℕ)
    → Distinct (free (suc lower))
    → elem p (split_free lower front buddy free o) ≡ (
        ((o == lower) && ((p == front) || (p == buddy)))
        || (elem p (free o) && not ((o == suc lower) && (p == front))))
split_free-elem lower front buddy free o p d =
    ground (arith, elem-erase-Distinct p front (free (suc lower)))

-- The buddy of the lower half is the upper half.
pub buddy_lem : (lower p : ℕ) → IsAligned (suc lower) p → bit_xor p (2 ^ lower) ≡ p + 2 ^ lower
buddy_lem lower p (k, e) =
    let e' : p ≡ 2 * k * 2 ^ lower = omega (arith, e, ap (λ (t : ℕ). k * t) (pow-suc 2 lower)) in
    rw e' (bit_xor-set lower k)

module _ (lower front : ℕ) (free : FreeBlocks) (ap_free : IsApart free)
    (d : Distinct (free (suc lower))) (m : elem front (free (suc lower)) ≡ true) where
  abbrev pub halves : FreeBlocks
  halves = split_free lower front (front + 2 ^ lower) free

  -- Every free block after the split is a half, or a block from before.
  halves_cases :
      (o p : ℕ)
      → elem p (halves o) ≡ true
      → ((o ≡ lower) × ((p ≡ front) ⊎ (p ≡ front + 2 ^ lower)))
        ⊎ ((elem p (free o) ≡ true) × ((o ≢ suc lower) ⊎ (p ≢ front)))
  halves_cases o p h = ground (arith, split_free-elem lower front (front + 2 ^ lower) free o p d)

  half_elem : (p : ℕ) → (p ≡ front) ⊎ (p ≡ front + 2 ^ lower) → elem p (halves lower) ≡ true
  half_elem p which = ground (arith, split_free-elem lower front (front + 2 ^ lower) free lower p d)

  old_elem :
      (o p : ℕ) → elem p (free o) ≡ true → (o ≢ suc lower) ⊎ (p ≢ front) → elem p (halves o) ≡ true
  old_elem o p old ne = ground (arith, split_free-elem lower front (front + 2 ^ lower) free o p d)

  half-Within :
      (p q : ℕ)
      → (p ≡ front) ⊎ (p ≡ front + 2 ^ lower)
      → Within lower p q
      → Within (suc lower) front q
  half-Within p q which w = omega (arith, pow-suc 2 lower)

  quotient : ℕ
  quotient = (ap_free.aligned (suc lower) front m).0

  even : front ≡ 2 * quotient * 2 ^ lower
  unfolding quotient
  even = omega (
    arith,
    (ap_free.aligned (suc lower) front m).1,
    ap (λ (t : ℕ). (ap_free.aligned (suc lower) front m).0 * t) (pow-suc 2 lower),
  )

  halves-IsAligned : (o p : ℕ) → elem p (halves o) ≡ true → IsAligned o p
  halves-IsAligned o p h = elim (halves_cases o p h) [
    | inl (e, inl e') ↦ rw (e, e') (2 * quotient, even)
    | inl (e, inr e') ↦ rw (e, e') (2 * quotient + 1, omega (arith, even))
    | inr (old, _) ↦ ap_free.aligned o p old
  ]

  same_half :
      (p p' q : ℕ)
      → (p ≡ front) ⊎ (p ≡ front + 2 ^ lower)
      → (p' ≡ front) ⊎ (p' ≡ front + 2 ^ lower)
      → Within lower p q
      → Within lower p' q
      → (o o' : ℕ) → o ≡ lower
      → o' ≡ lower
      → (o ≡ o') × (p ≡ p')
  same_half p p' q which which' w w' o o' e e' = omega arith

  -- A half and a block from before share no page.
  half_apart :
      (p o' p' q : ℕ)
      → (p ≡ front) ⊎ (p ≡ front + 2 ^ lower)
      → elem p' (free o') ≡ true
      → (o' ≢ suc lower) ⊎ (p' ≢ front)
      → Within lower p q
      → Within o' p' q
      → ⊥
  half_apart p o' p' q which old ne w w' =
      let both = ap_free.apart (suc lower) front o' p' q m old (half-Within p q which w) w' in
      omega arith

  halves_apart :
      (o p o' p' q : ℕ)
      → elem p (halves o) ≡ true
      → elem p' (halves o') ≡ true
      → Within o p q
      → Within o' p' q
      → (o ≡ o') × (p ≡ p')
  halves_apart o p o' p' q h h' w w' = elim (halves_cases o p h) [
    | inl (e, which) ↦ elim (halves_cases o' p' h') [
      | inl (e', which') ↦ same_half p p' q which which' (rw e at w) (rw e' at w') o o' e e'
      | inr (old, ne) ↦ absurd (half_apart p o' p' q which old ne (rw e at w) w')
    ]
    | inr (old, ne) ↦ elim (halves_cases o' p' h') [
      | inl (e', which') ↦ absurd (half_apart p' o p q which' old ne (rw e' at w') w)
      | inr (old', _) ↦ ap_free.apart o p o' p' q old old' w w'
    ]
  ]

  pub halves-IsApart : IsApart halves
  halves-IsApart = record { aligned = halves-IsAligned; apart = halves_apart }

  pub halves_free : (q : ℕ) → IsFree halves q → IsFree free q
  halves_free q (o, p, h, w) = elim (halves_cases o p h) [
    | inl (e, which) ↦ (suc lower, front, m, half-Within p q which (rw e at w))
    | inr (old, _) ↦ (o, p, old, w)
  ]

  half_of : (q : ℕ) → Within (suc lower) front q → IsFree halves q
  half_of q w = elim (dec_lt q (front + 2 ^ lower)) [
    | yes low ↦ (lower, front, half_elem front (inl refl), (w.0, low))
    | no high ↦
        let top : q < front + 2 ^ lower + 2 ^ lower = omega (arith, pow-suc 2 lower) in
        (lower, front + 2 ^ lower, half_elem (front + 2 ^ lower) (inr refl), (omega arith, top))
  ]

  pub free_halves : (q : ℕ) → IsFree free q → IsFree halves q
  free_halves q (o, p, old, w) = elim (ℕ_discrete o (suc lower)) [
    | yes e ↦ elim (ℕ_discrete p front) [
      | yes e' ↦ half_of q (rw e' at (rw e at w))
      | no ne ↦ (o, p, old_elem o p old (inr ne), w)
    ]
    | no ne ↦ (o, p, old_elem o p old (inl ne), w)
  ]

  -- The upper half begins no free block.
  pub upper_new : (o : ℕ) → elem (front + 2 ^ lower) (free o) ≡ false
  upper_new o = elim (Bool-cases (elem (front + 2 ^ lower) (free o))) [
    | inr no_elem ↦ no_elem
    | inl old ↦
        let both =
          ap_free.apart (suc lower) front o (front + 2 ^ lower) (front + 2 ^ lower) m old
            (omega (arith, pow-suc 2 lower, one-le-pow lower 2)) (omega (arith, one-le-pow o 2)) in
        absurd (omega (arith, one-le-pow lower 2, both.1))
  ]

  -- The first page begins no free block of another order.
  pub front_new : (o : ℕ) → o ≢ suc lower → elem front (free o) ≡ false
  front_new o ne = elim (Bool-cases (elem front (free o))) [
    | inr no_elem ↦ no_elem
    | inl old ↦
        let both =
          ap_free.apart (suc lower) front o front front m old
            (omega (arith, one-le-pow (suc lower) 2)) (omega (arith, one-le-pow o 2)) in
        absurd (ne (sym both.0))
  ]

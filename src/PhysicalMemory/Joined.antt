-- ===== src/PhysicalMemory/Joined.antt =====
-- Free blocks after a block and its buddy are joined into one of the next order.
use native.Mathlib.Nat.{pow-suc, one-le-pow}
use native.Mathlib.Decide.{dec_lt}
use amaterasu.Base.{
  ℕ, suc, ◌+◌, ◌*◌, ◌^◌, ◌<◌, ◌≡◌, ◌≢◌, ◌⊎◌, inl, inr, sym, ◌∙◌, true, false, not, ◌&&◌, ◌||◌, ◌∷◌,
  ◌==◌, update, arith, Bool-cases,
}
use amaterasu.Base.Chain.{elem, erase, Distinct, erase-Distinct}
use amaterasu.PhysicalMemory.FreeLists.{FreeBlocks}
use amaterasu.PhysicalMemory.Blocks.{IsFree, IsApart, IsAligned, Within, elem-erase-Distinct}

-- The lists after both halves are taken out.
abbrev pub parted : (order page buddy : ℕ) → FreeBlocks → FreeBlocks
parted order page buddy free =
    let free1 = update free order (erase page (free order)) in
    update free1 order (erase buddy (free1 order))

-- The lists after the joined block, which begins at page `low`, is put in.
abbrev pub joined : (order page buddy low : ℕ) → FreeBlocks → FreeBlocks
joined order page buddy low free =
    let free2 = parted order page buddy free in update free2 (order + 1) (low ∷ free2 (order + 1))

-- The two pages begin the halves of the block at `low`, in either order.
abbrev pub Halves : (order page buddy low : ℕ) → Type 0
Halves order page buddy low =
    ((page ≡ low) × (buddy ≡ low + 2 ^ order)) ⊎ ((buddy ≡ low) × (page ≡ low + 2 ^ order))

pub double : (k : ℕ) → 2 ^ (k + 1) ≡ 2 * 2 ^ k
double k = let e : k + 1 ≡ suc k = omega arith in rw e (omega (arith, pow-suc 2 k))

module _ (order page buddy low : ℕ) (free : FreeBlocks) (v : IsApart free)
    (d : Distinct (free order)) (m : elem page (free order) ≡ true)
    (m' : elem buddy (free order) ≡ true) (halves : Halves order page buddy low)
    (aligned : IsAligned (order + 1) low) where
  low_elem : elem low (free order) ≡ true
  low_elem = ground arith

  high_elem : elem (low + 2 ^ order) (free order) ≡ true
  high_elem = ground arith

  parted-elem :
      (o x : ℕ)
      → elem x (parted order page buddy free o)
        ≡ (elem x (free o) && not ((o == order) && ((x == low) || (x == low + 2 ^ order))))
  parted-elem o x = ground (
    arith,
    elem-erase-Distinct x page (free order) d,
    elem-erase-Distinct x buddy (erase page (free order)) (erase-Distinct page (free order) d),
  )

  joined-elem :
      (o x : ℕ)
      → elem x (joined order page buddy low free o)
        ≡ (((o == order + 1) && (x == low)) || elem x (parted order page buddy free o))
  joined-elem o x = ground arith

  whole : (q : ℕ) → Within (order + 1) low q → IsFree free q
  whole q w = elim (dec_lt q (low + 2 ^ order)) [
    | yes lt ↦ (order, low, low_elem, (w.0, lt))
    | no ge ↦
        let top : q < low + 2 ^ order + 2 ^ order = omega (arith, double order) in
        (order, low + 2 ^ order, high_elem, (omega arith, top))
  ]

  -- A free block now is the joined one, or one from before that is no half.
  joined_cases :
      (o x : ℕ)
      → elem x (joined order page buddy low free o) ≡ true
      → ((o ≡ order + 1) × (x ≡ low))
        ⊎ ((elem x (free o) ≡ true) × ((o ≢ order) ⊎ ((x ≢ low) × (x ≢ low + 2 ^ order))))
  joined_cases o x h = ground (arith, joined-elem o x, parted-elem o x)

  -- A block from before that is no half shares no page with the joined one.
  other_apart :
      (o x q : ℕ)
      → elem x (free o) ≡ true
      → (o ≢ order) ⊎ ((x ≢ low) × (x ≢ low + 2 ^ order))
      → Within o x q
      → Within (order + 1) low q
      → ⊥
  other_apart o x q old ne w w' = elim (dec_lt q (low + 2 ^ order)) [
    | yes lt ↦ let both = v.apart o x order low q old low_elem w (w'.0, lt) in omega arith
    | no ge ↦
        let top : q < low + 2 ^ order + 2 ^ order = omega (arith, double order) in
        let both = v.apart o x order (low + 2 ^ order) q old high_elem w (omega arith, top) in
        omega arith
  ]

  pub joined-IsApart : IsApart (joined order page buddy low free)
  joined-IsApart = record {
    aligned = λ o x h. elim (joined_cases o x h) [
      | inl (eo, ex) ↦ rw (eo, ex) aligned
      | inr (old, _) ↦ v.aligned o x old
    ];
    apart = λ o x o' x' q h h' w w'. elim (joined_cases o x h) [
      | inl (eo, ex) ↦ elim (joined_cases o' x' h') [
        | inl (eo', ex') ↦ (eo ∙ sym eo', ex ∙ sym ex')
        | inr (old', ne') ↦ absurd (other_apart o' x' q old' ne' w' (rw (eo, ex) at w))
      ]
      | inr (old, ne) ↦ elim (joined_cases o' x' h') [
        | inl (eo', ex') ↦ absurd (other_apart o x q old ne w (rw (eo', ex') at w'))
        | inr (old', _) ↦ v.apart o x o' x' q old old' w w'
      ]
    ];
  }

  pub joined-IsFree : (q : ℕ) → IsFree (joined order page buddy low free) q → IsFree free q
  joined-IsFree q (o, x, h, w) = elim (joined_cases o x h) [
    | inl (eo, ex) ↦ whole q (rw (eo, ex) at w)
    | inr (old, _) ↦ (o, x, old, w)
  ]

  half-Within :
      (x q : ℕ) → (x ≡ low) ⊎ (x ≡ low + 2 ^ order) → Within order x q → Within (order + 1) low q
  half-Within x q which w = omega (arith, double order)

  joined_block : (q : ℕ) → Within (order + 1) low q → IsFree (joined order page buddy low free) q
  joined_block q w = (order + 1, low, ground (arith, joined-elem (order + 1) low), w)

  pub IsFree-joined : (q : ℕ) → IsFree free q → IsFree (joined order page buddy low free) q
  IsFree-joined q (o, x, old, w) = elim (Bool-cases (elem x (joined order page buddy low free o))) [
    | inl kept ↦ (o, x, kept, w)
    | inr gone ↦
        let eo : o ≡ order = ground (arith, joined-elem o x, parted-elem o x) in
        let which : (x ≡ low) ⊎ (x ≡ low + 2 ^ order) =
          ground (arith, joined-elem o x, parted-elem o x) in
        joined_block q (half-Within x q which (rw eo at w))
  ]

  -- The joined block begins no block that is left.
  pub low_new : (o : ℕ) → elem low (parted order page buddy free o) ≡ false
  low_new o = elim (Bool-cases (elem low (parted order page buddy free o))) [
    | inr e ↦ e
    | inl old ↦
        let was : elem low (free o) ≡ true = ground (arith, parted-elem o low) in
        let both =
          v.apart o low order low low was low_elem (omega (arith, one-le-pow o 2))
            (omega (arith, one-le-pow order 2)) in
        ground (arith, parted-elem o low, both.0)
  ]

  -- The lists of other orders keep their blocks.
  pub joined_old :
      (o x : ℕ)
      → o ≢ order
      → elem x (free o) ≡ true
      → elem x (joined order page buddy low free o) ≡ true
  joined_old o x ne old = ground (arith, joined-elem o x, parted-elem o x)

  -- The second half is still there when the first is taken out.
  pub second_elem : elem buddy (update free order (erase page (free order)) order) ≡ true
  second_elem = ground (arith, one-le-pow order 2, elem-erase-Distinct buddy page (free order) d)

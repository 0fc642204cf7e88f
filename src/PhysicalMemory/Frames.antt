-- ===== src/PhysicalMemory/Frames.antt =====
-- Single frames that `AllocatePageFrames` gives out one after the other.
use native.Mathlib.Decide.{ℕ_discrete}
use native.Mathlib.Nat.{one-le-pow}
use mathlib.Core.Option.{Option}
use amaterasu.Base.{
  ℕ, ◌-◌, ◌*◌, ◌/◌, ◌%◌, ◌^◌, ◌<◌, ◌≡◌, ◌⊎◌, inl, inr, refl, sym, ◌∙◌, true, false, some, List, [],
  ◌∷◌, ◌++◌, arith, Bool-cases, eq_of_ne, ◌||◌,
}
use amaterasu.Base.Chain.{elem, Distinct}
use amaterasu.Util.{u64}
use amaterasu.PhysicalMemory.{Buddy, allocate_page_frames}
use amaterasu.PhysicalMemory.FreeLists.{FreeBlocks}
use amaterasu.PhysicalMemory.Blocks.{IsFree, Within}
use amaterasu.PhysicalMemory.Split.{IsBuddy}
use amaterasu.PhysicalMemory.Allocate.{Served, allocate_page_frames_lem}

-- The allocator gives out these frames, one call after the other.
abbrev pub Given : Buddy → List ℕ → Buddy → Type 0
Given b [] b' = b ≡ b'
Given b (f ∷ fs) b' =
    (b1 : Buddy) × (allocate_page_frames 1 b ≡ some (f, b1)) × (0 < f) × Given b1 fs b'

-- A page frame below 2 ^ 40.
abbrev pub IsFrame : ℕ → Type 0
IsFrame f = (f % 4096 ≡ 0) × (f < 2 ^ 40)

-- All free pages lie below 2 ^ 40.
abbrev pub IsLow : FreeBlocks → Type 0
IsLow free = (q : ℕ) → IsFree free q → q < 2 ^ 28

-- What one call does to the free pages.
pub record Taken (free : FreeBlocks) (f : ℕ) (b1 : Buddy) : Type 0 where
  pub free1 : FreeBlocks
  pub buddy : IsBuddy b1 free1
  pub frame : IsFrame f
  pub was : IsFree free (f / 4096)
  pub gone : ¬ IsFree free1 (f / 4096)
  pub kept : (q : ℕ) → IsFree free1 q → IsFree free q

pub served_frame :
    (order f : ℕ) (b b1 : Buddy) (free : FreeBlocks)
    → (order ≡ 0) ⊎ (2 ^ (order - 1) < 1)
    → IsLow free
    → allocate_page_frames 1 b ≡ some (f, b1)
    → Served order free (allocate_page_frames 1 b)
    → Taken free f b1
served_frame order f b b1 free least low e (p, b', run, g) =
    let same : Path (Option (ℕ × Buddy)) (some (p * 2 ^ 12 % u64, b')) (some (f, b1)) =
      sym run ∙ e in
    let eb : b' ≡ b1 = cc in
    let ef : p * 2 ^ 12 % u64 ≡ f = cc in
    let single : order ≡ 0 = elim least [
      | inl z ↦ z
      | inr lt ↦ absurd (omega (arith, one-le-pow (order - 1) 2))
    ] in
    let inside : Within order p p = rw single (omega arith, omega arith) in
    let below = low p (g.was_free p inside).0 in
    let page : f / 4096 ≡ p = omega arith in
    record {
      free1 = g.free';
      buddy = rw eb at g.buddy;
      frame = (omega arith, omega arith);
      was = rw page (g.was_free p inside).0;
      gone = rw page (g.was_free p inside).1;
      kept = λ q w. elim (ℕ_discrete q p) [
        | yes same ↦ absurd ((g.was_free p inside).1 (rw same at w))
        | no ne ↦ (g.others q (λ x. let y : Within 0 p q = rw single at x in ne (omega arith))).1 w
      ];
    }

taken :
    (f : ℕ) (b b1 : Buddy) (free : FreeBlocks)
    → IsBuddy b free
    → IsLow free
    → allocate_page_frames 1 b ≡ some (f, b1)
    → 0 < f
    → Taken free f b1
taken f b b1 free v low e pos =
    let (order, enough, least, outcome) = allocate_page_frames_lem 1 b free (omega arith) v in
    elim outcome [
      | inl (refused, none_free) ↦
          let same : Path (Option (ℕ × Buddy)) (some (0, b)) (some (f, b1)) = sym refused ∙ e in
          let zero_frame : 0 ≡ f = cc in absurd (omega arith)
      | inr served ↦ served_frame order f b b1 free least low e served
    ]

-- The frames given out were free.
given_frame :
    (fs : List ℕ) (b b' : Buddy) (free : FreeBlocks)
    → IsBuddy b free
    → IsLow free
    → Given b fs b'
    → (f : ℕ) → elem f fs ≡ true
    → IsFrame f × IsFree free (f / 4096)
given_frame [] b b' free v low given f m = absurd (ground arith)
given_frame (x ∷ xs) b b' free v low (b1, run, pos, rest) f m =
    let t = taken x b b1 free v low run pos in
    elim (ℕ_discrete f x) [
      | yes e ↦ rw e (t.frame, t.was)
      | no ne ↦
          let (frame, was) =
            given_frame xs b1 b' t.free1 t.buddy (λ q w. low q (t.kept q w)) rest f
              (ground (arith, eq_of_ne f x ne)) in
          (frame, t.kept (f / 4096) was)
    ]

elem-append : (f : ℕ) (xs ys : List ℕ) → elem f (xs ++ ys) ≡ (elem f xs || elem f ys)
elem-append f [] ys = refl
elem-append f (x ∷ xs) ys = ground (arith, elem-append f xs ys)

-- The frames given out are aligned, and differ from each other and from the frames that were in use.
pub given-Distinct :
    (fs used : List ℕ) (b b' : Buddy) (free : FreeBlocks)
    → IsBuddy b free
    → IsLow free
    → Given b fs b'
    → Distinct used
    → ((f : ℕ) → elem f used ≡ true → IsFrame f × ¬ IsFree free (f / 4096))
    → Distinct (fs ++ used) × ((f : ℕ) → elem f (fs ++ used) ≡ true → IsFrame f)
given-Distinct [] used b b' free v low given apart in_use = (apart, λ f m. (in_use f m).0)
given-Distinct (x ∷ xs) used b b' free v low (b1, run, pos, rest) apart in_use =
    let t = taken x b b1 free v low run pos in
    let low1 : IsLow t.free1 = λ q w. low q (t.kept q w) in
    let (distinct, frames) =
      given-Distinct xs used b1 b' t.free1 t.buddy low1 rest apart
        (λ f m. ((in_use f m).0, λ w. (in_use f m).1 (t.kept (f / 4096) w))) in
    let new : elem x (xs ++ used) ≡ false = elim (Bool-cases (elem x xs)) [
      | inl m ↦ absurd (t.gone (given_frame xs b1 b' t.free1 t.buddy low1 rest x m).1)
      | inr out ↦ elim (Bool-cases (elem x used)) [
        | inl m ↦ absurd ((in_use x m).1 t.was)
        | inr out' ↦ elem-append x xs used ∙ rw (out, out')
      ]
    ] in
    (
      (new, distinct),
      λ f m. elim (ℕ_discrete f x) [
        | yes e ↦ rw e t.frame
        | no ne ↦ frames f (ground (arith, eq_of_ne f x ne))
      ],
    )

-- ===== src/PhysicalMemory/Allocate.antt =====
-- `AllocatePageFrames` against the sets of free blocks.
use native.Mathlib.Decide.{ℕ_discrete}
use amaterasu.Base.{
  ℕ, zero, suc, ◌+◌, ◌*◌, ◌%◌, ◌^◌, ◌≤◌, ◌<◌, ◌≡◌, ◌↔◌, ◌⊎◌, inl, inr, refl, ◌∙◌, true, not, ◌&&◌,
  Option, none, some, List, [], ◌∷◌, ◌==◌, update, arith, eq_of_ne, Option-cases,
}
use native.Mathlib.Nat.{pow-suc, one-le-pow}
use native.Mathlib.Decide.{dec_lt}
use native.Mathlib.Numerals.{add-one}
use amaterasu.Base.{ltb, ◌-◌, false}
use amaterasu.Util.{u64, pow}
use amaterasu.Util.Power.{log2_total, pow_two}
use amaterasu.PhysicalMemory.{
  allocate_page_frames, int_argument, page_frame_max_order, requested_order,
}
use amaterasu.Base.Chain.{elem, erase, Chain}
use amaterasu.PhysicalMemory.{
  Buddy, owns, page_allocated, set_flag, take_block, allocate_from, delete_from_page_frame_order,
}
use amaterasu.PhysicalMemory.Split.{set_flag-Holds, head_elem, IsBuddy, split_down_lem}
use amaterasu.PhysicalMemory.FreeLists.{FreeBlocks, prevs, nexts, delete-Holds}
use amaterasu.PhysicalMemory.Blocks.{IsFree, Within, IsAligned, elem-erase-Distinct}

-- The block of order `order` that begins at page `p` has been given out: it is aligned, its pages
-- were free and are free no more, and every other page is as free as it was.
pub record Granted (order : ℕ) (free : FreeBlocks) (p : ℕ) (b' : Buddy) : Type 0 where
  pub free' : FreeBlocks
  pub buddy : IsBuddy b' free'
  pub aligned : IsAligned order p
  pub was_free : (q : ℕ) → Within order p q → IsFree free q × (¬ IsFree free' q)
  pub others : (q : ℕ) → ¬ Within order p q → IsFree free q ↔ IsFree free' q

module _ (order p : ℕ) {b : Buddy} {free : FreeBlocks} (v : IsBuddy b free)
    (e : b.page_frame_order order ≡ some p) where
  in_list : elem p (free order) ≡ true
  in_list = head_elem v.holds order p e

  left : FreeBlocks
  left = update free order (erase p (free order))

  elem-left : (o x : ℕ) → elem x (left o) ≡ (elem x (free o) && not ((o == order) && (x == p)))
  unfolding left
  elem-left o x = ground (arith, elem-erase-Distinct x p (free order) (v.holds.distinct order))

  left-IsFree : (q : ℕ) → IsFree left q → IsFree free q × (¬ Within order p q)
  left-IsFree q (o, x, m, w) =
      let old : elem x (free o) ≡ true = ground (arith, elem-left o x) in
      (
        (o, x, old, w),
        λ w'. ground (arith, elem-left o x, v.apart.apart o x order p q old in_list w w'),
      )

  taken_block : Buddy
  taken_block = delete_from_page_frame_order order p (set_flag page_allocated p b)

  taken-Granted : Granted order free p taken_block
  unfolding taken_block left delete_from_page_frame_order
  taken-Granted = record {
    free' = left;
    buddy = record {
      holds =
          delete-Holds order p (set_flag page_allocated p b) free
            (set_flag-Holds page_allocated p b free v.holds) in_list;
      apart = record {
        aligned = λ o x m. v.apart.aligned o x (ground (arith, elem-left o x));
        apart = λ o x o' x' q m m' w w'.
            v.apart.apart o x o' x' q (ground (arith, elem-left o x))
              (ground (arith, elem-left o' x')) w w';
      };
      owned = v.owned;
    };
    aligned = v.apart.aligned order p in_list;
    was_free = λ q w. ((order, p, in_list, w), λ f. (left-IsFree q f).1 w);
    others = λ q far. (λ (o, x, m, w). (o, x, kept q far o x m w, w), λ f. (left-IsFree q f).0);
  }
    where
      kept :
          (q : ℕ)
          → ¬ Within order p q
          → (o x : ℕ) → elem x (free o) ≡ true
          → Within o x q
          → elem x (left o) ≡ true
      kept q far o x m w = elim (ℕ_discrete o order) [
        | yes eo ↦ elim (ℕ_discrete x p) [
          | yes ex ↦ absurd (far (rw ex at (rw eo at w)))
          | no ne ↦ elem-left o x ∙ rw (m, eq_of_ne x p ne) (ground arith)
        ]
        | no ne ↦ elem-left o x ∙ rw (m, eq_of_ne o order ne)
      ]

  take_block_lem : take_block order b ≡ some (p * 2 ^ 12 % u64, taken_block)
  unfolding take_block taken_block
  take_block_lem = rw (e, take_block)

no_head :
    (xs : List ℕ) (pv nx : ℕ → Option ℕ) (before ptr : Option ℕ)
    → Chain pv nx before ptr xs
    → ptr ≡ none
    → xs ≡ []
no_head [] pv nx before ptr c e = refl
no_head (x ∷ xs) pv nx before ptr c e = cc

-- What `AllocatePageFrames` may return at an order: null with the state as it was and no free block
-- of the orders that it looked at, or the address of a block that it gives out.
abbrev pub Refused : (order above rounds : ℕ) → Buddy → FreeBlocks → Option (ℕ × Buddy) → Type 0
Refused order above rounds b free r =
    (r ≡ some (0, b)) × ((o : ℕ) → order + above ≤ o → o < order + above + rounds → free o ≡ [])

abbrev pub Served : (order : ℕ) → FreeBlocks → Option (ℕ × Buddy) → Type 0
Served order free r =
    (p : ℕ) × (b' : Buddy) × (r ≡ some (p * 2 ^ 12 % u64, b')) × Granted order free p b'

-- The free blocks that a grant is relative to may be described by any lists of the same pages.
Granted-same :
    {order p : ℕ} {free free1 : FreeBlocks} {b' : Buddy}
    → ((q : ℕ) → IsFree free q ↔ IsFree free1 q)
    → Granted order free1 p b'
    → Granted order free p b'
Granted-same same g = record {
  free' = g.free';
  buddy = g.buddy;
  aligned = g.aligned;
  was_free = λ q w. ((same q).1 (g.was_free q w).0, (g.was_free q w).1);
  others =
      λ q far. (λ f. (g.others q far).0 ((same q).0 f), λ f. (same q).1 ((g.others q far).1 f));
}

allocate_found :
    (rounds order above front : ℕ) (b : Buddy) (free : FreeBlocks)
    → IsBuddy b free
    → owns (order + above) b ≡ true
    → b.page_frame_order (order + above) ≡ some front
    → Served order free (allocate_from (suc rounds) order above b)
unfolding allocate_from
allocate_found rounds order above front b free v mine e =
    let (b1, p, run, split) = split_down_lem above order front b free v e in
    (
      p,
      taken_block order p split.buddy split.head,
      rw (mine, e, allocate_from) (rw run (take_block_lem order p split.buddy split.head)),
      Granted-same split.same (taken-Granted order p split.buddy split.head),
    )

allocate_next :
    (rounds order above : ℕ) (b : Buddy)
    → owns (order + above) b ≡ true
    → b.page_frame_order (order + above) ≡ none
    → allocate_from (suc rounds) order above b ≡ allocate_from rounds order (above + 1) b
unfolding allocate_from
allocate_next rounds order above b mine e = rw (mine, e, allocate_from)

allocate_none : (order above : ℕ) (b : Buddy) → allocate_from 0 order above b ≡ some (0, b)
unfolding allocate_from
allocate_none order above b = refl

pub allocate_from_lem :
    (rounds order above : ℕ) (b : Buddy) (free : FreeBlocks)
    → order + above + rounds ≤ page_frame_max_order + 1
    → IsBuddy b free
    → Refused order above rounds b free (allocate_from rounds order above b)
      ⊎ Served order free (allocate_from rounds order above b)
allocate_from_lem zero order above b free le v =
    inl (allocate_none order above b, λ o lo hi. absurd (omega arith))
allocate_from_lem (suc rounds) order above b free le v =
    let mine : owns (order + above) b ≡ true = ground (arith, v.owned) in
    elim (Option-cases (b.page_frame_order (order + above))) [
      | inr (front, e) ↦ inr (allocate_found rounds order above front b free v mine e)
      | inl e ↦
          rw (allocate_next rounds order above b mine e)
            (elim (allocate_from_lem rounds order (above + 1) b free (omega arith) v) [
              | inr served ↦ inr served
              | inl (run, none_free) ↦ inl (
                run,
                λ o lo hi. elim (ℕ_discrete o (order + above)) [
                  | yes here ↦ rw here (
                      no_head (free (order + above)) (prevs b) (nexts b) none
                        (b.page_frame_order (order + above)) (v.holds.chain (order + above)) e)
                  | no past ↦ none_free o (omega arith) (omega arith)
                ],
              )
            ])
    ]

least_exact : (k pages : ℕ) → 2 ^ k ≡ pages → (k ≡ 0) ⊎ (2 ^ (k - 1) < pages)
least_exact zero pages e = inl refl
least_exact (suc k) pages e =
    let e' : suc k - 1 ≡ k = omega arith in inr (rw e' (omega (arith, pow-suc 2 k, one-le-pow k 2)))

-- The least order whose blocks hold the pages.
requested_order_lem :
    (pages : ℕ)
    → 0 < pages
    → pages < u64
    → (order : ℕ) × (requested_order pages ≡ some order)
      × (pages ≤ 2 ^ order)
      × ((order ≡ 0) ⊎ (2 ^ (order - 1) < pages))
unfolding requested_order
requested_order_lem pages pos h =
    let (k, run, lt, lo, hi) = log2_total pages pos h in
    let run' : pow 2 k ≡ some (2 ^ k) = pow_two k (omega arith) (omega arith) in
    elim (dec_lt (2 ^ k) pages) [
      | yes above ↦ (
        k + 1,
        rw (run, requested_order) (rw run' (ground arith)),
        rw add-one (omega arith),
        inr (let e : k + 1 - 1 ≡ k = omega arith in rw e above),
      )
      | no exact ↦ (
        k,
        rw (run, requested_order) (rw run' (ground arith)),
        omega arith,
        least_exact k pages (omega arith),
      )
    ]

small : (order : ℕ) → ¬ (page_frame_max_order < order) → ltb page_frame_max_order order ≡ false
small order h = ground arith

-- On free blocks that do not overlap, `AllocatePageFrames` takes its argument as an `int`, and where that is
-- not 0 asks for the least order that holds as many pages, a negative one taken as a 64-bit number. It
-- returns 0 and changes nothing if no block of that order or above is free; otherwise it gives out an
-- aligned block of that order whose pages were free, and every other page is as free as it was. With the
-- free blocks goes that nothing else uses the word behind `pageFrameOrder` that serves as the list head of
-- order 10.
pub allocate_page_frames_lem :
    (n : ℕ) (b : Buddy) (free : FreeBlocks)
    → 0 < n % 2 ^ 32
    → IsBuddy b free
    → let pages = int_argument n in
      (order : ℕ) × (pages ≤ 2 ^ order)
      × ((order ≡ 0) ⊎ (2 ^ (order - 1) < pages))
      × (((allocate_page_frames n b ≡ some (0, b))
            × ((o : ℕ) → order ≤ o → o ≤ page_frame_max_order → free o ≡ []))
          ⊎ Served order free (allocate_page_frames n b))
unfolding allocate_page_frames
allocate_page_frames_lem n b free pos v =
    let (order, run, holds, least) =
      requested_order_lem (int_argument n) (ground arith) (ground arith) in
    (order, holds, least, outcome order run)
  where
    outcome :
        (order : ℕ)
        → requested_order (int_argument n) ≡ some order
        → ((allocate_page_frames n b ≡ some (0, b))
            × ((o : ℕ) → order ≤ o → o ≤ page_frame_max_order → free o ≡ []))
          ⊎ Served order free (allocate_page_frames n b)
    outcome order run = elim (dec_lt page_frame_max_order order) [
      | yes big ↦
          inl (rw (run, allocate_page_frames) (ground arith), λ o lo hi. absurd (omega arith))
      | no fits ↦
          rw (run, allocate_page_frames, small order fits)
            (elim (allocate_from_lem (page_frame_max_order + 1 - order) order 0 b free (omega arith)
              v) [
                | inl (out, none_free) ↦
                    inl (out, λ o lo hi. none_free o (omega arith) (omega arith))
                | inr served ↦ inr served
              ])
    ]

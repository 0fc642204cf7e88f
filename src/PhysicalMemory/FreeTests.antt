-- ===== src/PhysicalMemory/FreeTests.antt =====
-- Ten pages of which page 8 is in use and page 9 is free.
use native.Mathlib.Decide.{ℕ_discrete}
use amaterasu.Base.{
  ℕ, ◌+◌, ◌*◌, ◌^◌, ◌≡◌, ◌≢◌, ◌⊎◌, refl, arith, [], ◌∷◌, some, none, ◌==◌, if◌then◌else◌, eq_of_ne,
  true, bit_xor,
}
use amaterasu.Base.Chain.{elem}
use amaterasu.PhysicalMemory.{
  Buddy, can_join, free_page_frames, freed_order, join_up, page_frame_max_order,
  delete_from_page_frame_order, add_to_page_frame_order,
}
use amaterasu.PhysicalMemory.FreeLists.{FreeBlocks}
use amaterasu.PhysicalMemory.Blocks.{IsFree, Within}
use amaterasu.PhysicalMemory.Split.{IsBuddy}
use amaterasu.PhysicalMemory.Merge.{Mates, Merged}
use amaterasu.PhysicalMemory.Free.{InUse, free_page_frames_lem}

abbrev two_pages : Buddy
two_pages = record {
  info = record { base = 4096; size = 320 };
  memory_map =
      λ q. record { flags = if q == 8 then 5 else 4; private_order = 0; prev = none; next = none };
  page_frame_order = λ o. if o == 0 then some 9 else none;
  list_heads = 12;
}

abbrev two_free : FreeBlocks
two_free o = if o == 0 then 9 ∷ [] else []

two_elem : (o p : ℕ) → elem p (two_free o) ≡ true → (o ≡ 0) × (p ≡ 9)
two_elem o p m = (ground arith, ground arith)

two_pages-IsBuddy : IsBuddy two_pages two_free
two_pages-IsBuddy = record {
  holds = record {
    chain = λ o. elim (ℕ_discrete o 0) [
      | yes e ↦ rw e (refl, refl, refl)
      | no ne ↦ rw (eq_of_ne o 0 ne) refl
    ];
    distinct = λ o. elim (ℕ_discrete o 0) [
      | yes e ↦ rw e (ground arith)
      | no ne ↦ rw (eq_of_ne o 0 ne) (ground arith)
    ];
    tagged = λ o x m. ground (arith, two_elem o x m);
  };
  apart = record {
    aligned = λ o p m. (9, let (eo, ep) = two_elem o p m in rw (eo, ep) refl);
    apart = λ o p o' p' q m m' w w'. (
      omega (arith, (two_elem o p m).0, (two_elem o' p' m').0),
      omega (arith, (two_elem o p m).1, (two_elem o' p' m').1),
    );
  };
  owned = omega arith;
}

page_8-InUse : InUse 0 8 two_pages two_free
page_8-InUse = record {
  small = omega arith;
  aligned = (8, refl);
  followed = refl;
  unbroken = λ k lt. absurd (omega arith);
  apart = λ q w (o, p, m, w').
      let (eo, ep) = two_elem o p m in
      let w9 : Within 0 9 q = rw eo at (rw ep at w') in omega arith;
}

one_order : (k q : ℕ) → k ≢ 0 → can_join k q two_pages ≡ true → ⊥
unfolding can_join
one_order k q ne can = ground arith

page_8-Mates : Mates 0 11 8 two_pages two_free
page_8-Mates k le lt inside can = elim (ℕ_discrete k 0) [
  | yes e ↦ rw e ((4, refl), refl)
  | no ne ↦ absurd (one_order k (bit_xor 8 (2 ^ k)) ne can)
]

free_page_frames_lem_example :
    (b' : Buddy) × (free_page_frames (8 * 4096) two_pages ≡ some b')
    × Merged 0 (page_frame_max_order + 1) 8 b' (λ q. IsFree two_free q ⊎ Within 0 8 q)
free_page_frames_lem_example =
    free_page_frames_lem 0 8 two_pages two_free two_pages-IsBuddy page_8-InUse page_8-Mates
      (omega arith)

-- The two pages are one block of order 1 afterwards.
heads_after : Buddy → ℕ → ℕ
heads_after b o = elim (free_page_frames (8 * 4096) b) [
  | none ↦ 0
  | some b' ↦ elim (b'.page_frame_order o) [ none ↦ 1 | some p ↦ p ]
]

joined_two : heads_after two_pages 1 ≡ 8
unfolding heads_after free_page_frames freed_order join_up can_join delete_from_page_frame_order
    add_to_page_frame_order
joined_two = refl

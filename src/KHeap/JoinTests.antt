-- ===== src/KHeap/JoinTests.antt =====
-- A heap with one free block, next to one in use.
use native.Mathlib.Decide.{ℕ_discrete}
use amaterasu.Base.{
  ℕ, zero, suc, ◌+◌, ◌*◌, ◌≡◌, ◌⊎◌, refl, arith, [], ◌∷◌, some, none, ◌==◌, if◌then◌else◌, eq_of_ne,
  true,
}
use amaterasu.Base.Chain.{elem}
use amaterasu.PhysicalMemory.FreeLists.{FreeBlocks}
use amaterasu.PhysicalMemory.Blocks.{IsFree, Within}
use amaterasu.KHeap.{Heap, kfree, join_up, delete_from_k_heap_order, add_to_k_heap_order}
use amaterasu.KHeap.Malloc.{IsHeap}
use amaterasu.KHeap.Free.{InUse}
use amaterasu.KHeap.Join.{Mates}
use amaterasu.KHeap.Join.Merge.{Merged, kfree-Merged}

-- Block 5 in use and block 4 its free buddy, the others in use.
abbrev four_free : Heap
four_free = record {
  start = 4096;
  blocks = λ q. record {
    order = 0;
    is_allocated = if q == 4 then 0 else 1;
    id = q;
    prev = none;
    next = none;
  };
  heads = λ o. if o == 0 then some 4 else none;
}

abbrev only_four : FreeBlocks
only_four o = if o == 0 then 4 ∷ [] else []

four_elem : (o p : ℕ) → elem p (only_four o) ≡ true → (o ≡ 0) × (p ≡ 4)
four_elem o p m = (ground arith, ground arith)

four_free-IsHeap : IsHeap four_free only_four
four_free-IsHeap = record {
  holds = record {
    line = λ o. elim (ℕ_discrete o 0) [
      | yes e ↦ rw e (refl, refl)
      | no ne ↦ rw (eq_of_ne o 0 ne) refl
    ];
    distinct = λ o. elim (ℕ_discrete o 0) [
      | yes e ↦ rw e (ground arith)
      | no ne ↦ rw (eq_of_ne o 0 ne) (ground arith)
    ];
    tagged = λ o x m. ground (arith, four_elem o x m);
    ids = λ x lt. refl;
    no_back = λ x. refl;
  };
  apart = record {
    aligned = λ o p m. (4, let (eo, ep) = four_elem o p m in rw (eo, ep) refl);
    apart = λ o p o' p' q m m' w w'. (
      omega (arith, (four_elem o p m).0, (four_elem o' p' m').0),
      omega (arith, (four_elem o p m).1, (four_elem o' p' m').1),
    );
  };
  inside = λ q (o, p, m, w).
      let (eo, ep) = four_elem o p m in
      let w4 : Within 0 4 q = rw eo at (rw ep at w) in omega arith;
}

joins_five : InUse 0 5 four_free only_four
joins_five = record {
  marked = (refl, refl);
  small = omega arith;
  aligned = (5, refl);
  inside = omega arith;
  apart = λ q w (o, p, m, w').
      let (eo, ep) = four_elem o p m in
      let w4 : Within 0 4 q = rw eo at (rw ep at w') in omega arith;
}

five-Mates : Mates 0 5 four_free only_four
five-Mates zero le lt free = ([], refl)
five-Mates (suc zero) le lt free = absurd (omega arith)
five-Mates (suc (suc zero)) le lt free = absurd (omega arith)
five-Mates (suc (suc (suc zero))) le lt free = absurd (omega arith)
five-Mates (suc (suc (suc (suc k)))) le lt free = absurd (omega arith)

kfree-Merged_example :
    Merged 0 5 four_free (kfree (4096 + 256 * 5) four_free) (λ q. IsFree only_four q ⊎ Within 0 5 q)
kfree-Merged_example = kfree-Merged 0 5 four_free only_four four_free-IsHeap joins_five five-Mates

-- Both blocks are one of order 1 afterwards.
joined_four : (kfree (4096 + 256 * 5) four_free).heads 1 ≡ some 4
unfolding kfree join_up delete_from_k_heap_order add_to_k_heap_order
joined_four = refl

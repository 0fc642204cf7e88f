-- ===== src/KHeap/Init.antt =====
-- `kHeapInit`: the heap that it sets up.
use native.Mathlib.Decide.{ℕ_discrete}
use amaterasu.Base.{
  ℕ, zero, suc, ◌+◌, ◌≤◌, ◌<◌, ◌≡◌, refl, ◌∙◌, true, ◌&&◌, Option, none, [], ◌∷◌, ◌==◌, ltb, leb,
  if◌then◌else◌, update, arith, eq_of_ne,
}
use amaterasu.Base.Chain.{elem}
use amaterasu.PhysicalMemory.FreeLists.{FreeBlocks}
use amaterasu.PhysicalMemory.Blocks.{Within}
use amaterasu.KHeap.{Heap, Block, init_blocks, init_heads, k_heap_init}
use amaterasu.KHeap.Malloc.{IsHeap}

-- The heap's one free block after its initialisation, of the largest order.
unfoldable pub initial_free : FreeBlocks
initial_free o = if o == 4 then 0 ∷ [] else []

abbrev fresh : ℕ → Block
fresh i = record { order = 0; is_allocated = 0; id = i; prev = none; next = none }

init_blocks_lem :
    (rounds i : ℕ) (m : ℕ → Block) (x : ℕ)
    → init_blocks rounds i m x ≡ (if leb i x && ltb x (i + rounds) then fresh x else m x)
unfolding init_blocks
init_blocks_lem zero i m x = ground arith
init_blocks_lem (suc rounds) i m x =
    init_blocks_lem rounds (i + 1) (update m i (fresh i)) x
    ∙ elim (ℕ_discrete x i) [ yes e ↦ rw e (ground arith) | no ne ↦ ground arith ]

init_heads_lem :
    (rounds i : ℕ) (heads : ℕ → Option ℕ) (o : ℕ)
    → init_heads rounds i heads o ≡ (if leb i o && ltb o (i + rounds) then none else heads o)
unfolding init_heads
init_heads_lem zero i heads o = ground arith
init_heads_lem (suc rounds) i heads o =
    init_heads_lem rounds (i + 1) (update heads i none) o
    ∙ elim (ℕ_discrete o i) [ yes e ↦ rw e (ground arith) | no ne ↦ ground arith ]

initial_elem : (o p : ℕ) → elem p (initial_free o) ≡ true → (o ≡ 4) × (p ≡ 0)
unfolding initial_free
initial_elem o p m = (ground arith, ground arith)

-- `kHeapInit` sets up a heap with one free block, the whole page, and all other lists empty; the lists
-- and blocks past the end of the arrays are taken to be empty.
pub k_heap_init-IsHeap :
    (page : ℕ) (h : Heap)
    → ((o : ℕ) → 4 < o → h.heads o ≡ none)
    → ((x : ℕ) → 16 ≤ x → (h.blocks x).prev ≡ none)
    → IsHeap (k_heap_init page h) initial_free
unfolding k_heap_init initial_free
k_heap_init-IsHeap page h no_heads no_prev = record {
  holds = record {
    line = λ o. elim (ℕ_discrete o 4) [
      | yes e ↦ rw e (refl, ground (arith, init_blocks_lem 16 0 h.blocks 0))
      | no ne ↦ rw (eq_of_ne o 4 ne) (ground (arith, init_heads_lem 4 0 h.heads o, no_heads o))
    ];
    distinct = λ o. elim (ℕ_discrete o 4) [
      | yes e ↦ rw e (ground arith)
      | no ne ↦ rw (eq_of_ne o 4 ne) (ground arith)
    ];
    tagged = λ o x m. ground (arith, initial_elem o x m);
    ids = λ x lt. ground (arith, init_blocks_lem 16 0 h.blocks x, init_blocks_lem 16 0 h.blocks 0);
    no_back = λ x.
        ground (arith, init_blocks_lem 16 0 h.blocks x, init_blocks_lem 16 0 h.blocks 0, no_prev x);
  };
  apart = record {
    aligned = λ o p m. (0, omega (arith, (initial_elem o p m).1));
    apart = λ o p o' p' q m m' w w'. (
      omega (arith, (initial_elem o p m).0, (initial_elem o' p' m').0),
      omega (arith, (initial_elem o p m).1, (initial_elem o' p' m').1),
    );
  };
  inside = λ q (o, p, m, w).
      let (eo, ep) = initial_elem o p m in
      let w' : Within 4 0 q = rw (eo, ep) at w in omega (arith, w');
}

pub k_heap_init-start : (page : ℕ) (h : Heap) → (k_heap_init page h).start ≡ page
unfolding k_heap_init
k_heap_init-start page h = refl

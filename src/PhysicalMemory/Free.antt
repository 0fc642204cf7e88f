-- ===== src/PhysicalMemory/Free.antt =====
-- `FreePageFrames` against the sets of free blocks.
use native.Mathlib.Decide.{ℕ_discrete}
use amaterasu.Base.{
  ℕ, zero, suc, ◌+◌, ◌-◌, ◌*◌, ◌/◌, ◌^◌, ◌≤◌, ◌<◌, ◌≡◌, ◌⊎◌, inl, inr, refl, sym, ◌∙◌, true, false,
  none, some, ◌==◌, bit_xor, arith, eq_of_ne,
}
use amaterasu.Base.Bits.{bit_xor-ne}
use amaterasu.Base.Chain.{elem, Chain-frame}
use amaterasu.PhysicalMemory.{
  owns, Buddy, total_pages, has_flag, page_top, page_allocated, page_frame_max_order, toggle_flag,
  can_join, join_up, freed_order, free_page_frames, add_to_page_frame_order,
}
use amaterasu.PhysicalMemory.FreeLists.{FreeBlocks, Holds, prevs, nexts, add-Holds}
use amaterasu.PhysicalMemory.Blocks.{IsFree, IsAligned, Within}
use amaterasu.PhysicalMemory.Split.{IsBuddy}
use amaterasu.PhysicalMemory.Returned.{
  returned, not_listed, returned-IsApart, returned-IsFree, returned_old, returned_new,
}
use amaterasu.PhysicalMemory.Merge.{add-Same, can_join-Same, join_up_lem, Mates, Merged}

-- The block of order `order` at page `p` is in use: aligned, followed by the first page of a block and
-- by none at a shorter distance that is a power of two, and no part of it is free.
pub record InUse (order p : ℕ) (b : Buddy) (free : FreeBlocks) : Type 0 where
  pub small : order ≤ page_frame_max_order
  pub aligned : IsAligned order p
  pub followed : has_flag page_top (b.memory_map (p + 2 ^ order)) ≡ true
  pub unbroken : (k : ℕ) → k < order → has_flag page_top (b.memory_map (p + 2 ^ k)) ≡ false
  pub apart : (q : ℕ) → Within order p q → ¬ IsFree free q

freed_order_lem :
    (fuel k order page : ℕ) (b : Buddy)
    → k ≤ order
    → order < k + fuel
    → has_flag page_top (b.memory_map (page + 2 ^ order)) ≡ true
    → ((j : ℕ) → j < order → has_flag page_top (b.memory_map (page + 2 ^ j)) ≡ false)
    → freed_order fuel k page b ≡ some order
unfolding freed_order
freed_order_lem zero k order page b le lt here before = absurd (omega arith)
freed_order_lem (suc fuel) k order page b le lt here before = elim (ℕ_discrete k order) [
  | yes e ↦ rw (e, here) refl
  | no ne ↦
      rw (before k (omega arith))
        (freed_order_lem fuel (k + 1) order page b (omega arith) (omega arith) here before)
]

toggle_flag-Holds :
    (mask page : ℕ) (b : Buddy) (free : FreeBlocks)
    → Holds b free
    → Holds (toggle_flag mask page b) free
toggle_flag-Holds mask page b free h = record {
  chain = λ o.
      Chain-frame (free o) (prevs b) (nexts b) (prevs (toggle_flag mask page b))
        (nexts (toggle_flag mask page b)) none (b.page_frame_order o)
        (λ q m. (ground arith, ground arith)) (h.chain o);
  distinct = h.distinct;
  tagged = λ o x m. ground (arith, h.tagged o x m);
}

module _ (order p : ℕ) (b : Buddy) (free : FreeBlocks) (v : IsBuddy b free)
    (u : InUse order p b free) where
  -- The state in front of the joining loop.
  put_back : Buddy
  put_back = toggle_flag page_allocated p (add_to_page_frame_order order p b)

  put_back-total : total_pages put_back ≡ total_pages b
  unfolding put_back add_to_page_frame_order
  put_back-total = refl

  put_back-heads : put_back.list_heads ≡ b.list_heads
  unfolding put_back add_to_page_frame_order
  put_back-heads = refl

  put_back-IsBuddy : IsBuddy put_back (returned order p free)
  unfolding put_back returned add_to_page_frame_order
  put_back-IsBuddy = record {
    holds =
        toggle_flag-Holds page_allocated p (add_to_page_frame_order order p b)
          (returned order p free)
          (add-Holds order p b free v.holds (not_listed order p free u.apart));
    apart = returned-IsApart order p free u.apart u.aligned v.apart;
    owned = v.owned;
  }

  put_back-can_join : (j q : ℕ) → (q == p) ≡ false → can_join j q put_back ≡ can_join j q b
  unfolding put_back
  put_back-can_join j q ne =
      can_join-Same j q (add_to_page_frame_order order p b) put_back (ground arith, ground arith)
      ∙ can_join-Same j q b (add_to_page_frame_order order p b) (add-Same order p b q ne)

  put_back-Mates :
      Mates order (page_frame_max_order + 1) p b free
      → Mates order (page_frame_max_order + 1) p put_back (returned order p free)
  unfolding returned
  put_back-Mates mates k le lt inside can =
      let ne = eq_of_ne (bit_xor p (2 ^ k)) p (bit_xor-ne k p) in
      let can' = sym (put_back-can_join k (bit_xor p (2 ^ k)) ne) ∙ can in
      let (aligned, old) = mates k le lt (rw put_back-total at inside) can' in
      (aligned, ground arith)

  free_page_frames-run :
      free_page_frames (p * 4096) b ≡ join_up (page_frame_max_order + 1 - order) order p put_back
  unfolding free_page_frames put_back
  free_page_frames-run =
      let number : p * 4096 / 2 ^ 12 ≡ p = omega arith in
      let found : freed_order 31 0 (p * 4096 / 2 ^ 12) b ≡ some order = rw number (
        freed_order_lem 31 0 order p b (omega arith) (omega (arith, u.small)) u.followed
          u.unbroken) in
      let mine : owns order b ≡ true = ground (arith, v.owned, u.small) in
      rw (found, free_page_frames) (rw (number, mine) refl)

  in_list : elem p (returned order p free order) ≡ true
  unfolding returned
  in_list = ground arith

  -- `FreePageFrames` of a block in use, where every buddy that it joins is a free block behind the page,
  -- and where nothing else uses the two words behind `pageFrameOrder` that serve as the list heads of orders
  -- 10 and 11: it returns, and the page begins a free block of at least its order, which is 11, or has its
  -- buddy outside the memory, or has a buddy that is not to be joined. The free blocks do not overlap, and
  -- the free pages are those from before and the block's.
  pub free_page_frames_lem :
      Mates order (page_frame_max_order + 1) p b free
      → page_frame_max_order + 1 < b.list_heads
      → (b' : Buddy) × (free_page_frames (p * 4096) b ≡ some b')
        × Merged order (page_frame_max_order + 1) p b' (λ q. IsFree free q ⊎ Within order p q)
  free_page_frames_lem mates own =
      let (b', run, rest) =
        join_up_lem (page_frame_max_order + 1 - order) order (page_frame_max_order + 1) p put_back
          (returned order p free) (omega (arith, u.small)) put_back-IsBuddy in_list
          (put_back-Mates mates) (rw put_back-heads own) in
      (
        b',
        free_page_frames-run ∙ run,
        record {
          free' = rest.free';
          buddy = rest.buddy;
          order' = rest.order';
          grown = rest.grown;
          listed = rest.listed;
          stopped = rest.stopped;
          pages = λ q. (
            λ f. (rest.pages q).0 (to q f),
            λ f. returned-IsFree order p free q ((rest.pages q).1 f),
          );
        },
      )
    where
      to : (q : ℕ) → IsFree free q ⊎ Within order p q → IsFree (returned order p free) q
      to q (inl old) = returned_old order p free q old
      to q (inr new) = returned_new order p free q new

-- ===== src/PhysicalMemory/Init/Partition.antt =====
-- The free blocks that `BuddySystemInit` makes of the memory map.
use native.Mathlib.Nat.{one-le-pow, pow-le-pow_right, pow-suc}
use native.Mathlib.Decide.{ℕ_discrete, dec_lt}
use amaterasu.Base.{
  ℕ, zero, suc, ◌+◌, ◌-◌, ◌*◌, ◌^◌, ◌≤◌, ◌<◌, ◌≡◌, ◌↔◌, ◌⊎◌, inl, inr, refl, sym, ap, ◌∙◌, true,
  false, none, some, [], ◌==◌, ltb, arith, Bool-cases, Option-cases, eq_of_ne, not, bit_and,
}
use amaterasu.Util.{pow}
use amaterasu.Util.Power.{log2_total, pow_two}
use amaterasu.Base.Chain.{elem}
use amaterasu.PhysicalMemory.{
  owns, Buddy, Page, total_pages, page_frame_max_order, set_flag, page_top, page_reserved,
  add_to_page_frame_order,
}
use amaterasu.PhysicalMemory.FreeLists.{FreeBlocks, add-Holds}
use amaterasu.PhysicalMemory.Blocks.{IsFree, Within, IsAligned}
use amaterasu.PhysicalMemory.Returned.{
  returned, not_listed, returned_cases, returned_old, returned_new, returned-IsFree,
  returned-IsApart,
}
use amaterasu.PhysicalMemory.Split.{set_flag-Holds, IsBuddy}
use amaterasu.PhysicalMemory.Init.{
  reserved, clear_orders, skip_reserved, max_order_from, streak_end, place_block, place_blocks,
  buddy_system_init,
}
use amaterasu.PhysicalMemory.Init.Streaks.{
  clear_orders_lem, skip_reserved_lem, max_order_from-IsAligned, streak_end_lem,
}

-- The state of the main loop at the page `s`: the free blocks are the pages before it that the map
-- `m` does not reserve, and the pages from it on have their flags from the map.
record Upto (m : ℕ → Page) (total s : ℕ) (b : Buddy) (free : FreeBlocks) : Type 0 where
  buddy : IsBuddy b free
  below : (o p : ℕ) → elem p (free o) ≡ true → p + 2 ^ o ≤ s
  covers : (q : ℕ) → q < s → reserved m q ≡ false → IsFree free q
  only : (q : ℕ) → IsFree free q → reserved m q ≡ false
  flags : (q : ℕ) → s ≤ q → (b.memory_map q).flags ≡ (m q).flags
  pages : total_pages b ≡ total

reserved_same :
    (m m' : ℕ → Page) (q : ℕ) → (m' q).flags ≡ (m q).flags → reserved m' q ≡ reserved m q
reserved_same m m' q e = rw e

add-flags :
    (order page q : ℕ) (b : Buddy)
    → (q == page) ≡ false
    → ((add_to_page_frame_order order page (set_flag page_top page b)).memory_map q).flags
      ≡ (b.memory_map q).flags
unfolding add_to_page_frame_order
add-flags order page q b ne = elim (Option-cases (b.page_frame_order order)) [
  | inl e ↦ rw e (ground arith)
  | inr (front, e) ↦ rw e (ground arith)
]

add-pages :
    (order page : ℕ) (b : Buddy)
    → total_pages (add_to_page_frame_order order page (set_flag page_top page b)) ≡ total_pages b
unfolding add_to_page_frame_order
add-pages order page b = refl

-- Alignment to a larger block is alignment to a smaller one.
IsAligned-smaller : (d o s : ℕ) → IsAligned (o + d) s → IsAligned o s
IsAligned-smaller zero o s a = let e : o + 0 ≡ o = omega arith in rw e at a
IsAligned-smaller (suc d) o s a =
    let e : o + suc d ≡ suc (o + d) = omega arith in
    let (k, eq) = a in
    let eq' : s ≡ k * 2 ^ suc (o + d) = rw e at eq in
    IsAligned-smaller d o s (2 * k, omega (arith, eq', ap (λ (t : ℕ). k * t) (pow-suc 2 (o + d))))

order_le : (o k n : ℕ) → 2 ^ o ≤ n → n ≤ 2 ^ k → o ≤ k
order_le o k n lo hi = elim (dec_lt k o) [
  | yes gt ↦
      let more : 2 ^ suc k ≤ 2 ^ o = pow-le-pow_right (omega arith) gt in
      absurd (omega (arith, more, pow-suc 2 k, one-le-pow k 2))
  | no le ↦ omega arith
]

module _ (m : ℕ → Page) (total : ℕ) where
  -- Reserved pages are passed over.
  Upto-skip :
      (s s' : ℕ) (b : Buddy) (free : FreeBlocks)
      → Upto m total s b free
      → s ≤ s'
      → ((q : ℕ) → s ≤ q → q < s' → reserved m q ≡ true)
      → Upto m total s' b free
  Upto-skip s s' b free u le all_reserved = record {
    buddy = u.buddy;
    below = λ o p e. omega (arith, u.below o p e);
    covers = λ q lt r. elim (dec_lt q s) [
      | yes before ↦ u.covers q before r
      | no past ↦ absurd (ground (arith, all_reserved q (omega arith) lt))
    ];
    only = u.only;
    flags = λ q lo. u.flags q (omega arith);
    pages = u.pages;
  }

  -- A block of pages that are not reserved is added.
  Upto-add :
      (s order : ℕ) (b : Buddy) (free : FreeBlocks)
      → Upto m total s b free
      → IsAligned order s
      → ((q : ℕ) → Within order s q → reserved m q ≡ false)
      → Upto m total
          (s + 2 ^ order)
          (add_to_page_frame_order order s (set_flag page_top s b))
          (returned order s free)
  unfolding returned add_to_page_frame_order
  Upto-add s order b free u aligned usable = record {
    buddy = record {
      holds =
          add-Holds order s (set_flag page_top s b) free
            (set_flag-Holds page_top s b free u.buddy.holds) (not_listed order s free busy);
      apart = returned-IsApart order s free busy aligned u.buddy.apart;
      owned = u.buddy.owned;
    };
    below = λ o p e. elim (returned_cases order s free o p e) [
      | inl (eo, ep) ↦ rw (eo, ep) (omega arith)
      | inr old ↦ omega (arith, u.below o p old)
    ];
    covers = λ q lt r. elim (dec_lt q s) [
      | yes before ↦ returned_old order s free q (u.covers q before r)
      | no past ↦ returned_new order s free q (omega arith, lt)
    ];
    only = λ q f. elim (returned-IsFree order s free q f) [
      | inl old ↦ u.only q old
      | inr w ↦ usable q w
    ];
    flags = λ q lo.
        add-flags order s q b (eq_of_ne q s (λ e. omega (arith, one-le-pow order 2)))
        ∙ u.flags q (omega arith);
    pages = add-pages order s b ∙ u.pages;
  }
    where
      busy : (q : ℕ) → Within order s q → ¬ IsFree free q
      busy q w (o, p, e, w') = omega (arith, u.below o p e)

  place_block_lem :
      (s : ℕ) (b : Buddy) (free : FreeBlocks)
      → Upto m total s b free
      → s < total
      → reserved m s ≡ false
      → (next : ℕ) × (b' : Buddy) × (free' : FreeBlocks) × (place_block s b ≡ some (next, b'))
        × (s < next)
        × (next ≤ total)
        × Upto m total next b' free'
  unfolding place_block
  place_block_lem s b free u lt here =
      let k = max_order_from 11 0 s in
      let (aligned, small) = max_order_from-IsAligned 11 0 s refl (s, omega arith) in
      let page_count : 2 ^ k ≤ 2 ^ 10 = pow-le-pow_right (omega arith) small in
      let some_page : 1 ≤ 2 ^ k = omega (arith, one-le-pow k 2) in
      let run1 : pow 2 k ≡ some (2 ^ k) = pow_two k (omega arith) (omega arith) in
      let end = streak_end (2 ^ k - 1) (s + 1) (total_pages b) b.memory_map in
      let (lo, hi, in_map, usable) =
        streak_end_lem (2 ^ k - 1) (s + 1) (total_pages b) b.memory_map (omega (arith, u.pages)) in
      let (o, run2, o_lt, o_lo, o_hi) = log2_total (end - s) (omega arith) (omega arith) in
      let o_le : o ≤ k = order_le o k (end - s) o_lo (omega arith) in
      let size : 2 ^ o ≤ 2 ^ 10 = omega arith in
      let run3 : pow 2 o ≡ some (2 ^ o) = pow_two o (omega arith) (omega arith) in
      let split : o + (k - o) ≡ k = omega arith in
      let o_aligned : IsAligned o s = IsAligned-smaller (k - o) o s (rw split aligned) in
      (
        s + 2 ^ o,
        add_to_page_frame_order o s (set_flag page_top s b),
        returned o s free,
        rw (run1, place_block) (rw run2 (rw run3)),
        omega (arith, one-le-pow o 2),
        omega (arith, u.pages),
        Upto-add s o b free u o_aligned λ q w. elim (ℕ_discrete q s) [
          | yes e ↦ rw e here
          | no ne ↦
              ap (λ (f : ℕ). not (bit_and f page_reserved == 0)) (sym (u.flags q w.0))
              ∙ usable q (omega arith) (omega arith)
        ],
      )

  -- The last page that the map covers is not reserved, or what lies behind the map reads as reserved.
  abbrev pub Ends : Type 0
  Ends = (reserved m total ≡ true) ⊎ (reserved m (total - 1) ≡ false)

  finished :
      (b : Buddy) (free : FreeBlocks) (s : ℕ)
      → Upto m total s b free
      → s ≡ total
      → IsBuddy b free × ((q : ℕ) → IsFree free q ↔ (q < total) × (reserved m q ≡ false))
  finished b free s u e = (
    u.buddy,
    λ q. (
      λ (o, p, l, w). (omega (arith, u.below o p l), u.only q (o, p, l, w)),
      λ (lt, r). u.covers q (omega arith) r,
    ),
  )

  place_blocks_step :
      (fuel s next : ℕ) (b b' : Buddy)
      → ltb s (total_pages b) ≡ true
      → reserved b.memory_map (skip_reserved (total_pages b - s) s b.memory_map) ≡ false
      → place_block (skip_reserved (total_pages b - s) s b.memory_map) b ≡ some (next, b')
      → place_blocks (suc fuel) s b ≡ place_blocks fuel next b'
  unfolding place_blocks
  place_blocks_step fuel s next b b' more usable run = rw (more, usable) (rw (run, place_blocks))

  place_blocks_done :
      (fuel s : ℕ) (b : Buddy)
      → (ltb s (total_pages b) ≡ false)
        ⊎ (reserved b.memory_map (skip_reserved (total_pages b - s) s b.memory_map) ≡ true)
      → place_blocks (suc fuel) s b ≡ some b
  unfolding place_blocks
  place_blocks_done fuel s b (inl e) = rw e
  place_blocks_done fuel s b (inr e) = elim (Bool-cases (ltb s (total_pages b))) [
    | inl more ↦ rw (more, e)
    | inr over ↦ rw over
  ]

  at_end :
      (s1 pages : ℕ) (b : Buddy)
      → reserved b.memory_map s1 ≡ true
      → pages ≡ total
      → s1 ≤ total
      → (s1 < pages → reserved b.memory_map s1 ≡ false)
      → s1 ≡ total
  at_end s1 pages b r e le at = elim (dec_lt s1 pages) [
    | yes lt ↦ absurd (ground (arith, at lt))
    | no over ↦ omega arith
  ]

  -- The search for a page that is not reserved does not run over the end.
  before_end :
      Ends
      → (s s1 : ℕ) → s1 ≤ total
      → s < total
      → ((q : ℕ) → s ≤ q → q < s1 → reserved m q ≡ true)
      → reserved m s1 ≡ false
      → s1 < total
  before_end ends s s1 le more passed r = elim (ℕ_discrete s1 total) [
    | no ne ↦ omega arith
    | yes e ↦ elim ends [
      | inl behind ↦ let r' : reserved m total ≡ false = rw e at r in absurd (ground arith)
      | inr last ↦ absurd (ground (arith, passed (total - 1) (omega arith) (omega arith)))
    ]
  ]

  place_blocks_lem :
      Ends
      → (fuel s : ℕ) (b : Buddy) (free : FreeBlocks) → Upto m total s b free
      → s ≤ total
      → total < fuel + s
      → (b' : Buddy) × (free' : FreeBlocks) × (place_blocks fuel s b ≡ some b')
        × IsBuddy b' free'
        × ((q : ℕ) → IsFree free' q ↔ (q < total) × (reserved m q ≡ false))
  place_blocks_lem ends zero s b free u le fuel_lt = absurd (omega arith)
  place_blocks_lem ends (suc fuel) s b free u le fuel_lt =
      let s1 = skip_reserved (total_pages b - s) s b.memory_map in
      let (lo, hi, before, at) = skip_reserved_lem (total_pages b - s) s b.memory_map in
      let same = λ (q : ℕ) (past : s ≤ q). reserved_same m b.memory_map q (u.flags q past) in
      let passed : (q : ℕ) → s ≤ q → q < s1 → reserved m q ≡ true =
        λ q past lt. sym (same q past) ∙ before q past lt in
      let u1 = Upto-skip s s1 b free u lo passed in
      elim (Bool-cases (ltb s (total_pages b))) [
        | inr over ↦
            let e : s ≡ total = ground (arith, u.pages) in
            let (v, free_iff) = finished b free s u e in
            (b, free, place_blocks_done fuel s b (inl over), v, free_iff)
        | inl more ↦ elim (Bool-cases (reserved b.memory_map s1)) [
          | inl r ↦
              let e : s1 ≡ total =
                at_end s1 (total_pages b) b r u.pages (omega (arith, le, u.pages))
                  (λ lt. at (omega arith)) in
              let (v, free_iff) = finished b free s1 u1 e in
              (b, free, place_blocks_done fuel s b (inr r), v, free_iff)
          | inr r ↦
              let inside : s1 < total =
                before_end ends s s1 (omega (arith, le, u.pages)) (ground (arith, u.pages)) passed
                  (sym (same s1 lo) ∙ r) in
              let (next, b1, free1, run, gt, le1, u2) =
                place_block_lem s1 b free u1 inside (sym (same s1 lo) ∙ r) in
              let (b', free', run', v, free_iff) =
                place_blocks_lem ends fuel next b1 free1 u2 le1 (omega arith) in
              (b', free', place_blocks_step fuel s next b b1 more r run ∙ run', v, free_iff)
        ]
      ]

no_blocks : FreeBlocks
no_blocks o = []

-- `BuddySystemInit`, on a memory map whose last page is not reserved or behind which a reserved entry
-- reads, ends, and leaves free blocks that do not overlap and hold exactly the pages that the map
-- does not reserve. Nothing else uses the word behind `pageFrameOrder` that serves as the list head of order
-- 10, and the words past it are empty.
pub buddy_system_init_lem :
    (b : Buddy)
    → page_frame_max_order < b.list_heads
    → ((o : ℕ) → page_frame_max_order < o → b.page_frame_order o ≡ none)
    → Ends b.memory_map (total_pages b)
    → (b' : Buddy) × (free : FreeBlocks) × (buddy_system_init b ≡ some b')
      × IsBuddy b' free
      × ((q : ℕ) → IsFree free q ↔ (q < total_pages b) × (reserved b.memory_map q ≡ false))
unfolding buddy_system_init no_blocks
buddy_system_init_lem b own no_heads ends =
    let mine : owns page_frame_max_order b ≡ true = ground arith in
    let b1 : Buddy = record b { page_frame_order = clear_orders 11 0 b.page_frame_order } in
    rw mine (
      place_blocks_lem b.memory_map (total_pages b) ends (total_pages b + 1) 0 b1 no_blocks
        (record {
          buddy = record {
            holds = record {
              chain = λ o. ground (arith, clear_orders_lem 11 0 b.page_frame_order o, no_heads o);
              distinct = λ o. tt;
              tagged = λ o x e. ground arith;
            };
            apart = record {
              aligned = λ o p e. ground arith;
              apart = λ o p o' p' q e e' w w'. ground arith;
            };
            owned = own;
          };
          below = λ o p e. ground arith;
          covers = λ q lt. absurd (omega arith);
          only = λ q (o, p, e, w). ground arith;
          flags = λ q lo. refl;
          pages = refl;
        })
        (omega arith) (omega arith))

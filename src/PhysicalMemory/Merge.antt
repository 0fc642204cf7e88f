-- ===== src/PhysicalMemory/Merge.antt =====
-- The joining loop of `FreePageFrames` against the sets of free blocks.
use amaterasu.Base.{
  some, ℕ, zero, suc, ◌+◌, ◌^◌, ◌≤◌, ◌<◌, ◌≡◌, ◌⊎◌, ◌↔◌, inl, inr, refl, sym, ◌∙◌, true, false,
  ◌==◌, leb, bit_xor, update, arith, Bool-cases, eq_of_ne,
}
use amaterasu.Base.Bits.{bit_xor-ne}
use amaterasu.Base.Chain.{elem, erase}
use amaterasu.PhysicalMemory.{
  owns, Buddy, total_pages, can_join, join_up, add_to_page_frame_order,
  delete_from_page_frame_order,
}
use amaterasu.PhysicalMemory.FreeLists.{FreeBlocks, add-Holds, delete-Holds}
use amaterasu.PhysicalMemory.Blocks.{IsFree, IsAligned, buddy_lem}
use amaterasu.PhysicalMemory.Split.{IsBuddy}
use amaterasu.PhysicalMemory.Joined.{
  joined, parted, joined-IsApart, joined-IsFree, IsFree-joined, low_new, joined_old, second_elem,
}

-- Two states agree on a page's order and flags.
abbrev pub Same : (b b' : Buddy) (q : ℕ) → Type 0
Same b b' q =
    ((b'.memory_map q).private_order ≡ (b.memory_map q).private_order)
    × ((b'.memory_map q).flags ≡ (b.memory_map q).flags)

pub add-Same :
    (order page : ℕ) (b : Buddy) (q : ℕ)
    → (q == page) ≡ false
    → Same b (add_to_page_frame_order order page b) q
unfolding add_to_page_frame_order
add-Same order page b q ne = (ground arith, ground arith)

delete-Same :
    (order page : ℕ) (b : Buddy) (q : ℕ) → Same b (delete_from_page_frame_order order page b) q
unfolding delete_from_page_frame_order
delete-Same order page b q = (ground arith, ground arith)

pub can_join-Same :
    (order q : ℕ) (b b' : Buddy) → Same b b' q → can_join order q b' ≡ can_join order q b
unfolding can_join
can_join-Same order q b b' (e, e') = rw (e, e') refl

-- The body of the joining loop.
join_once : (order page : ℕ) → Buddy → Buddy
join_once order page b =
    let buddy = bit_xor page (2 ^ order) in
    add_to_page_frame_order (order + 1) page
      (delete_from_page_frame_order order buddy (delete_from_page_frame_order order page b))

join_once-total :
    (order page : ℕ) (b : Buddy) → total_pages (join_once order page b) ≡ total_pages b
unfolding join_once add_to_page_frame_order delete_from_page_frame_order
join_once-total order page b = refl

join_once-can_join :
    (order page j q : ℕ) (b : Buddy)
    → (q == page) ≡ false
    → can_join j q (join_once order page b) ≡ can_join j q b
unfolding join_once
join_once-can_join order page j q b ne =
    let buddy = bit_xor page (2 ^ order) in
    let b1 = delete_from_page_frame_order order page b in
    let b2 = delete_from_page_frame_order order buddy b1 in
    can_join-Same j q b2 (add_to_page_frame_order (order + 1) page b2)
      (add-Same (order + 1) page b2 q ne)
    ∙ can_join-Same j q b1 b2 (delete-Same order buddy b1 q)
    ∙ can_join-Same j q b b1 (delete-Same order page b q)

-- From this order on, below `top`, every buddy that the loop joins is a free block behind the page.
abbrev pub Mates : (order top page : ℕ) → Buddy → FreeBlocks → Type 0
Mates order top page b free =
    (k : ℕ)
    → order ≤ k
    → k < top
    → bit_xor page (2 ^ k) < total_pages b
    → can_join k (bit_xor page (2 ^ k)) b ≡ true
    → IsAligned (k + 1) page × (elem (bit_xor page (2 ^ k)) (free k) ≡ true)

-- The page begins a free block of an order at which the joining stops: the orders end, or its buddy
-- is no page, or is not to be joined. The free pages are those that `P` describes.
pub record Merged {ℓ} (order top page : ℕ) (b' : Buddy) (P : ℕ → Type ℓ) : Type ℓ where
  pub free' : FreeBlocks
  pub buddy : IsBuddy b' free'
  pub order' : ℕ
  pub grown : (order ≤ order') × (order' ≤ top)
  pub listed : elem page (free' order') ≡ true
  pub stopped :
      (order' ≡ top)
      ⊎ (total_pages b' ≤ bit_xor page (2 ^ order'))
      ⊎ (can_join order' (bit_xor page (2 ^ order')) b' ≡ false)
  pub pages : (q : ℕ) → P q ↔ IsFree free' q

module _ (order page : ℕ) (b : Buddy) (free : FreeBlocks) (v : IsBuddy b free)
    (m : elem page (free order) ≡ true) (mate : IsAligned (order + 1) page)
    (m' : elem (bit_xor page (2 ^ order)) (free order) ≡ true) where
  upper : bit_xor page (2 ^ order) ≡ page + 2 ^ order
  upper = buddy_lem order page (let e : order + 1 ≡ suc order = omega arith in rw e at mate)

  after : FreeBlocks
  after = joined order page (bit_xor page (2 ^ order)) page free

  join_once-IsBuddy : IsBuddy (join_once order page b) after
  unfolding join_once after add_to_page_frame_order delete_from_page_frame_order
  join_once-IsBuddy =
      let buddy = bit_xor page (2 ^ order) in
      let d = v.holds.distinct order in
      let free1 = update free order (erase page (free order)) in
      let b1 = delete_from_page_frame_order order page b in
      let second = second_elem order page buddy page free v.apart d m m' (inl (refl, upper)) mate in
      record {
        holds =
            add-Holds (order + 1) page (delete_from_page_frame_order order buddy b1)
              (parted order page buddy free)
              (delete-Holds order buddy b1 free1 (delete-Holds order page b free v.holds m) second)
              (low_new order page buddy page free v.apart d m m' (inl (refl, upper)) mate);
        apart = joined-IsApart order page buddy page free v.apart d m m' (inl (refl, upper)) mate;
        owned = v.owned;
      }

  after-IsFree : (q : ℕ) → IsFree free q ↔ IsFree after q
  unfolding after
  after-IsFree q =
      let buddy = bit_xor page (2 ^ order) in
      let d = v.holds.distinct order in
      (
        IsFree-joined order page buddy page free v.apart d m m' (inl (refl, upper)) mate q,
        joined-IsFree order page buddy page free v.apart d m m' (inl (refl, upper)) mate q,
      )

  after_listed : elem page (after (order + 1)) ≡ true
  unfolding after
  after_listed = ground arith

  after-Mates :
      (top : ℕ)
      → Mates order top page b free
      → Mates (order + 1) top page (join_once order page b) after
  unfolding after
  after-Mates top mates k le lt inside can =
      let buddy = bit_xor page (2 ^ order) in
      let d = v.holds.distinct order in
      let ne = eq_of_ne (bit_xor page (2 ^ k)) page (bit_xor-ne k page) in
      let can' = sym (join_once-can_join order page k (bit_xor page (2 ^ k)) b ne) ∙ can in
      let (aligned, old) =
        mates k (omega arith) lt (rw (join_once-total order page b) at inside) can' in
      (
        aligned,
        joined_old order page buddy page free v.apart d m m' (inl (refl, upper)) mate k
            (bit_xor page (2 ^ k)) (omega arith) old,
      )

join_once-heads : (order page : ℕ) (b : Buddy) → (join_once order page b).list_heads ≡ b.list_heads
unfolding join_once add_to_page_frame_order delete_from_page_frame_order
join_once-heads order page b = refl

-- The joining loop, `rounds` orders before `top`, whose list head is the allocator's.
pub join_up_lem :
    (rounds order top page : ℕ) (b : Buddy) (free : FreeBlocks)
    → order + rounds ≡ top
    → IsBuddy b free
    → elem page (free order) ≡ true
    → Mates order top page b free
    → top < b.list_heads
    → (b' : Buddy) × (join_up rounds order page b ≡ some b')
      × Merged order top page b' (IsFree free)
unfolding join_up join_once
join_up_lem zero order top page b free e v m mates own = (
  b,
  refl,
  record {
    free' = free;
    buddy = v;
    order' = order;
    grown = omega arith;
    listed = m;
    stopped = inl (omega arith);
    pages = λ q. (λ f. f, λ f. f);
  },
)
join_up_lem (suc rounds) order top page b free e v m mates own =
    elim (Bool-cases (leb (total_pages b) (bit_xor page (2 ^ order)))) [
      | inl out ↦ (b, rw out refl, stays (inr (inl (ground arith))))
      | inr fits ↦ (elim (Bool-cases (can_join order (bit_xor page (2 ^ order)) b)) [
        | inr refused ↦ (b, rw (fits, refused) refl, stays (inr (inr refused)))
        | inl can ↦
            (let (aligned, m') = mates order (omega arith) (omega arith) (ground arith) can in
              let mine : owns (order + 1) b ≡ true = ground arith in
              let (b', run, rest) =
                join_up_lem rounds (order + 1) top page (join_once order page b)
                  (after order page b free v m aligned m') (omega arith)
                  (join_once-IsBuddy order page b free v m aligned m')
                  (after_listed order page b free v m aligned m')
                  (after-Mates order page b free v m aligned m' top mates)
                  (rw (join_once-heads order page b) own) in
              (
                b',
                rw (fits, can, mine) run,
                widen (after order page b free v m aligned m') rest
                    (after-IsFree order page b free v m aligned m'),
              ))
      ])
    ]
  where
    stays :
        (order ≡ top)
          ⊎ (total_pages b ≤ bit_xor page (2 ^ order))
          ⊎ (can_join order (bit_xor page (2 ^ order)) b ≡ false)
        → Merged order top page b (IsFree free)
    stays why = record {
      free' = free;
      buddy = v;
      order' = order;
      grown = omega arith;
      listed = m;
      stopped = why;
      pages = λ q. (λ f. f, λ f. f);
    }

    widen :
        {b' : Buddy} (free1 : FreeBlocks)
        → Merged (order + 1) top page b' (IsFree free1)
        → ((q : ℕ) → IsFree free q ↔ IsFree free1 q)
        → Merged order top page b' (IsFree free)
    widen free1 r same = record {
      free' = r.free';
      buddy = r.buddy;
      order' = r.order';
      grown = omega (arith, r.grown);
      listed = r.listed;
      stopped = r.stopped;
      pages = λ q. (λ f. (r.pages q).0 ((same q).0 f), λ f. (same q).1 ((r.pages q).1 f));
    }

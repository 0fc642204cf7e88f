-- ===== src/PhysicalMemory/Tests.antt =====
-- An allocator with one free block of eight pages, at page 8, and the frames that it gives out.
use native.Mathlib.Decide.{ℕ_discrete}
use amaterasu.Base.{
  ℕ, ◌-◌, ◌^◌, ◌≤◌, ◌<◌, ◌≡◌, ◌⊎◌, refl, arith, [], ◌∷◌, some, none, ◌==◌, if◌then◌else◌, eq_of_ne,
  true, false, ltb, ◌||◌, ◌↔◌, inr,
}
use amaterasu.Base.Chain.{elem}
use amaterasu.Util.{pow, log2}
use amaterasu.PhysicalMemory.{
  Buddy, total_pages, allocate_page_frames, page_frame_max_order, requested_order, allocate_from,
  split_down, split_block, take_block, delete_from_page_frame_order, add_to_page_frame_order,
}
use amaterasu.PhysicalMemory.FreeLists.{FreeBlocks}
use amaterasu.PhysicalMemory.Blocks.{IsFree, Within}
use amaterasu.PhysicalMemory.Split.{IsBuddy}
use amaterasu.PhysicalMemory.Init.{reserved, buddy_system_init}
use amaterasu.PhysicalMemory.Init.Partition.{buddy_system_init_lem}
use amaterasu.PhysicalMemory.Allocate.{Served, allocate_page_frames_lem}

abbrev pub eight_pages : Buddy
eight_pages = record {
  info = record { base = 4096; size = 512 };
  memory_map = λ q. record { flags = 0; private_order = 3; prev = none; next = none };
  page_frame_order = λ o. if o == 3 then some 8 else none;
  list_heads = 12;
}

abbrev pub eight_free : FreeBlocks
eight_free o = if o == 3 then 8 ∷ [] else []

pub eight_elem : (o p : ℕ) → elem p (eight_free o) ≡ true → (o ≡ 3) × (p ≡ 8)
eight_elem o p m = (ground arith, ground arith)

pub eight_pages-IsBuddy : IsBuddy eight_pages eight_free
eight_pages-IsBuddy = record {
  holds = record {
    chain = λ o. elim (ℕ_discrete o 3) [
      | yes e ↦ rw e (refl, refl, refl)
      | no ne ↦ rw (eq_of_ne o 3 ne) refl
    ];
    distinct = λ o. elim (ℕ_discrete o 3) [
      | yes e ↦ rw e (ground arith)
      | no ne ↦ rw (eq_of_ne o 3 ne) (ground arith)
    ];
    tagged = λ o x m. ground (arith, eight_elem o x m);
  };
  apart = record {
    aligned = λ o p m. (1, let (eo, ep) = eight_elem o p m in rw (eo, ep) refl);
    apart = λ o p o' p' q m m' w w'. (
      omega (arith, (eight_elem o p m).0, (eight_elem o' p' m').0),
      omega (arith, (eight_elem o p m).1, (eight_elem o' p' m').1),
    );
  };
  owned = omega arith;
}

allocate_page_frames_lem_example :
    (order : ℕ) × (2 ≤ 2 ^ order)
    × ((order ≡ 0) ⊎ (2 ^ (order - 1) < 2))
    × (((allocate_page_frames 0x1_0000_0002 eight_pages ≡ some (0, eight_pages))
          × ((o : ℕ) → order ≤ o → o ≤ page_frame_max_order → eight_free o ≡ []))
        ⊎ Served order eight_free (allocate_page_frames 0x1_0000_0002 eight_pages))
allocate_page_frames_lem_example =
    allocate_page_frames_lem 0x1_0000_0002 eight_pages eight_free (omega arith) eight_pages-IsBuddy

-- The allocator's state after one frame is taken.
abbrev pub taken : Buddy → Buddy
taken b = elim (allocate_page_frames 1 b) [ none ↦ b | some given ↦ given.1 ]

abbrev pub after1 : Buddy
after1 = taken eight_pages

abbrev pub after2 : Buddy
after2 = taken after1

abbrev pub after3 : Buddy
after3 = taken after2

abbrev pub after4 : Buddy
after4 = taken after3

abbrev pub after5 : Buddy
after5 = taken after4

abbrev pub after6 : Buddy
after6 = taken after5

abbrev pub after7 : Buddy
after7 = taken after6

abbrev pub after8 : Buddy
after8 = taken after7

pub frame1 : allocate_page_frames 1 eight_pages ≡ some (32768, after1)
unfolding allocate_page_frames requested_order pow log2 allocate_from split_down split_block
    take_block delete_from_page_frame_order add_to_page_frame_order
frame1 = refl

pub frame2 : allocate_page_frames 1 after1 ≡ some (36864, after2)
unfolding allocate_page_frames requested_order pow log2 allocate_from split_down split_block
    take_block delete_from_page_frame_order add_to_page_frame_order
frame2 = refl

pub frame3 : allocate_page_frames 1 after2 ≡ some (40960, after3)
unfolding allocate_page_frames requested_order pow log2 allocate_from split_down split_block
    take_block delete_from_page_frame_order add_to_page_frame_order
frame3 = refl

pub frame4 : allocate_page_frames 1 after3 ≡ some (45056, after4)
unfolding allocate_page_frames requested_order pow log2 allocate_from split_down split_block
    take_block delete_from_page_frame_order add_to_page_frame_order
frame4 = refl

pub frame5 : allocate_page_frames 1 after4 ≡ some (49152, after5)
unfolding allocate_page_frames requested_order pow log2 allocate_from split_down split_block
    take_block delete_from_page_frame_order add_to_page_frame_order
frame5 = refl

pub frame6 : allocate_page_frames 1 after5 ≡ some (53248, after6)
unfolding allocate_page_frames requested_order pow log2 allocate_from split_down split_block
    take_block delete_from_page_frame_order add_to_page_frame_order
frame6 = refl

pub frame7 : allocate_page_frames 1 after6 ≡ some (57344, after7)
unfolding allocate_page_frames requested_order pow log2 allocate_from split_down split_block
    take_block delete_from_page_frame_order add_to_page_frame_order
frame7 = refl

pub frame8 : allocate_page_frames 1 after7 ≡ some (61440, after8)
unfolding allocate_page_frames requested_order pow log2 allocate_from split_down split_block
    take_block delete_from_page_frame_order add_to_page_frame_order
frame8 = refl

-- All free pages of this allocator are the pages 8 to 15.
pub eight_inside : (q : ℕ) → IsFree eight_free q → (8 ≤ q) × (q < 16)
eight_inside q (o, p, m, w) =
    let (eo, ep) = eight_elem o p m in let w' : Within 3 8 q = rw eo at (rw ep at w) in omega arith

-- Sixteen pages, of which the first three and page 9 are reserved.
abbrev pub sixteen_pages : Buddy
sixteen_pages = record {
  info = record { base = 4096; size = 512 };
  memory_map = λ q. record {
    flags = if ltb q 3 || (q == 9) then 2 else 0;
    private_order = 0;
    prev = none;
    next = none;
  };
  page_frame_order = λ o. none;
  list_heads = 12;
}

buddy_system_init_lem_example :
    (b' : Buddy) × (free : FreeBlocks) × (buddy_system_init sixteen_pages ≡ some b')
    × IsBuddy b' free
    × ((q : ℕ)
        → IsFree free q
          ↔ (q < total_pages sixteen_pages) × (reserved sixteen_pages.memory_map q ≡ false))
buddy_system_init_lem_example =
    buddy_system_init_lem sixteen_pages (omega arith) (λ o h. refl) (inr refl)

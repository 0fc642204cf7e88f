-- ===== src/Util/Bytes.antt =====
-- The byte routines of util.c: what the copies, fills and comparisons do to memory.
use native.Mathlib.Decide.{ℕ_discrete}
use amaterasu.Base.{
  ap, ℕ, zero, suc, ◌+◌, ◌-◌, ◌≤◌, ◌<◌, ◌≡◌, ◌≢◌, ◌↔◌, ◌⊎◌, refl, ◌∙◌, some, ◌&&◌, leb, ltb,
  if◌then◌else◌, update, arith,
}
use amaterasu.Util.{
  strncmp_from, strncmp, strnlength_from, strnlength, memcpy_from, memcpy, memset_from, memset,
}

-- Two regions of `size` bytes do not overlap.
abbrev pub Apart : (dst src size : ℕ) → Type 0
Apart dst src size = (dst + size ≤ src) ⊎ (src + size ≤ dst)

memcpy_from_lem :
    (left dst src i a : ℕ) (mem : ℕ → ℕ)
    → Apart dst src (i + left)
    → memcpy_from left dst src i mem a
      ≡ (if leb (dst + i) a && ltb a (dst + i + left) then mem (src + (a - dst)) else mem a)
unfolding memcpy_from
memcpy_from_lem zero dst src i a mem apart = ground arith
memcpy_from_lem (suc left) dst src i a mem apart =
    memcpy_from_lem left dst src (i + 1) a (update mem (dst + i) (mem (src + i))) (omega arith)
    ∙ ground (arith, copied)
  where
    copied : a ≡ dst + i → mem (src + (a - dst)) ≡ mem (src + i)
    copied e = ap mem (omega arith)

-- `memcpy` between regions that do not overlap moves every byte, and touches no other address.
pub memcpy_lem :
    (dst src size a : ℕ) (mem : ℕ → ℕ)
    → Apart dst src size
    → memcpy dst src size mem a
      ≡ (if leb dst a && ltb a (dst + size) then mem (src + (a - dst)) else mem a)
unfolding memcpy
memcpy_lem dst src size a mem apart =
    memcpy_from_lem size dst src 0 a mem (omega arith) ∙ ground arith

memset_from_lem :
    (left addr value i a : ℕ) (mem : ℕ → ℕ)
    → memset_from left addr value i mem a
      ≡ (if leb (addr + i) a && ltb a (addr + i + left) then value else mem a)
unfolding memset_from
memset_from_lem zero addr value i a mem = ground arith
memset_from_lem (suc left) addr value i a mem =
    memset_from_lem left addr value (i + 1) a (update mem (addr + i) value) ∙ ground arith

-- `memset` fills the region with the value, and touches no other address.
pub memset_lem :
    (addr value size a : ℕ) (mem : ℕ → ℕ)
    → memset addr value size mem a ≡ (if leb addr a && ltb a (addr + size) then value else mem a)
unfolding memset
memset_lem addr value size a mem = memset_from_lem size addr value 0 a mem ∙ ground arith

-- The bytes from index `i` on agree for `n` places.
abbrev pub Agree : (a b : ℕ → ℕ) → (i n : ℕ) → Type 0
Agree a b i n = (k : ℕ) → i ≤ k → k < i + n → a k ≡ b k

strncmp_from-Agree : (n : ℕ) (a b : ℕ → ℕ) (i : ℕ) → (strncmp_from n a b i ≡ 0) ↔ Agree a b i n
unfolding strncmp_from
strncmp_from-Agree zero a b i = (λ _ k lo hi. absurd (omega arith), λ _. refl)
strncmp_from-Agree (suc n) a b i = (
  λ e k lo hi. elim (ℕ_discrete k i) [
    | yes here ↦ rw here (ground arith)
    | no past ↦ (strncmp_from-Agree n a b (i + 1)).0 (ground arith) k (omega arith) (omega arith)
  ],
  λ same. ground (
    arith,
    same i,
    (strncmp_from-Agree n a b (i + 1)).1 (λ k lo hi. same k (omega arith) (omega arith)),
  ),
)

-- `strncmp` returns 0 exactly when the first `length` bytes agree.
pub strncmp-Agree : (a b : ℕ → ℕ) (length : ℕ) → (strncmp a b length ≡ 0) ↔ Agree a b 0 length
unfolding strncmp
strncmp-Agree a b length = strncmp_from-Agree length a b 0

strnlength_from_lem :
    (fuel : ℕ) (a : ℕ → ℕ) (i n : ℕ)
    → i ≤ n
    → n < i + fuel
    → a n ≡ 0
    → ((k : ℕ) → i ≤ k → k < n → a k ≢ 0)
    → strnlength_from fuel a i ≡ some n
unfolding strnlength_from
strnlength_from_lem zero a i n lo hi e before = absurd (omega arith)
strnlength_from_lem (suc fuel) a i n lo hi e before = elim (ℕ_discrete i n) [
  | yes here ↦ rw here (ground arith)
  | no past ↦ ground (
    arith,
    before i,
    strnlength_from_lem fuel a (i + 1) n (omega arith) (omega arith) e
        (λ k l h. before k (omega arith) h),
  )
]

-- `strnlength` returns the index of the first zero byte, if it lies within the fuel.
pub strnlength_lem :
    (fuel : ℕ) (a : ℕ → ℕ) (n : ℕ)
    → n < fuel
    → a n ≡ 0
    → ((k : ℕ) → k < n → a k ≢ 0)
    → strnlength fuel a ≡ some n
unfolding strnlength
strnlength_lem fuel a n h e before =
    strnlength_from_lem fuel a 0 n (omega arith) (omega arith) e (λ k l h'. before k h')

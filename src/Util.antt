-- ===== src/Util.antt =====
-- util.c: powers and logarithms by loops on 64-bit words, and the byte routines.
pub mod Power
pub mod Bytes
mod Tests
use amaterasu.Base.{
  ℕ, zero, suc, ◌+◌, ◌*◌, ◌/◌, ◌%◌, ◌^◌, ◌-◌, Option, none, some, ◌==◌, if◌then◌else◌, bit_and,
  update,
}

abbrev pub u64 : ℕ
u64 = 2 ^ 64

-- The `while` loop of `pow`; `none` means that the fuel ran out.
pow_loop : ℕ → (ret x n : ℕ) → Option ℕ
pow_loop zero ret x n = none
pow_loop (suc fuel) ret x n =
    let ret' = if bit_and n 1 == 0 then ret else ret * x % u64 in
    let rest = pow_loop fuel ret' (x * x % u64) (n / 2) in if n == 0 then some ret else rest

-- `pow`. A 64-bit exponent has at most 64 digits, and one round more sees that none is left.
unfoldable pub pow : (x n : ℕ) → Option ℕ
unfolding pow_loop
pow x n = pow_loop 65 1 x n

-- The `while` loop of `log2`; `none` means that the fuel ran out.
pub log2_loop : ℕ → (ret x : ℕ) → Option ℕ
log2_loop zero ret x = none
log2_loop (suc fuel) ret x =
    let rest = log2_loop fuel (ret + 1) (x / 2) in if x == 1 then some ret else rest

-- `log2`. A 64-bit number is 1 after at most 63 halvings, unless it is 0.
unfoldable pub log2 : ℕ → Option ℕ
unfolding log2_loop
log2 x = log2_loop 64 0 x

-- Memory as bytes. The rounds left stand for `length - i`.
strncmp_from : ℕ → (a b : ℕ → ℕ) → (i : ℕ) → ℕ
strncmp_from zero a b i = 0
strncmp_from (suc left) a b i =
    let rest = strncmp_from left a b (i + 1) in if a i == b i then rest else 1

-- `strncmp`: 0 if the first `length` bytes agree, else 1. It does not stop at a zero byte.
unfoldable pub strncmp : (a b : ℕ → ℕ) → (length : ℕ) → ℕ
unfolding strncmp_from
strncmp a b length = strncmp_from length a b 0

-- `strnlength`, on fuel: the index of the first zero byte.
strnlength_from : ℕ → (a : ℕ → ℕ) → (length : ℕ) → Option ℕ
strnlength_from zero a length = none
strnlength_from (suc fuel) a length =
    let rest = strnlength_from fuel a (length + 1) in if a length == 0 then some length else rest

unfoldable pub strnlength : ℕ → (a : ℕ → ℕ) → Option ℕ
unfolding strnlength_from
strnlength fuel a = strnlength_from fuel a 0

-- The loop of `memcpy` from index `i` on, over one memory that holds both regions.
memcpy_from : ℕ → (dst src i : ℕ) → (ℕ → ℕ) → ℕ → ℕ
memcpy_from zero dst src i mem = mem
memcpy_from (suc left) dst src i mem =
    memcpy_from left dst src (i + 1) (update mem (dst + i) (mem (src + i)))

unfoldable pub memcpy : (dst src size : ℕ) → (ℕ → ℕ) → ℕ → ℕ
unfolding memcpy_from
memcpy dst src size mem = memcpy_from size dst src 0 mem

-- The loop of `memset` from index `i` on.
memset_from : ℕ → (addr value i : ℕ) → (ℕ → ℕ) → ℕ → ℕ
memset_from zero addr value i mem = mem
memset_from (suc left) addr value i mem =
    memset_from left addr value (i + 1) (update mem (addr + i) value)

unfoldable pub memset : (addr value size : ℕ) → (ℕ → ℕ) → ℕ → ℕ
unfolding memset_from
memset addr value size mem = memset_from size addr value 0 mem

-- ===== src/Base/Bits.antt =====
-- `|`, `&`, bit fields and shifts as arithmetic.
pub mod Digits
pub mod Fields
use Digits.{bit_or_step, bit_and_step, bit_xor_step}
use Prim.Native.Nat.{
  ℕ, zero, suc, ◌+◌, ◌-◌, ◌*◌, ◌/◌, ◌%◌, ◌^◌, ◌≤◌, ◌<◌, bit_and, bit_or, bit_xor, differ,
  bit_or-bitwise, bit_xor-bitwise,
}
use mathlib.Core.Path.{◌≡◌, refl, sym, ap, ◌∙◌}
use native.Mathlib.Omega.{arith}
use native.Mathlib.Nat.{pow-suc, one-le-pow}

or_zero_fuel : (n a : ℕ) → a ≤ n → bit_or a 0 ≡ a
or_zero_fuel n zero h = refl
or_zero_fuel zero (suc a) h = absurd (omega arith)
or_zero_fuel (suc n) (suc a) h =
    omega (arith, bit_or_step (suc a) 0, or_zero_fuel n (suc a / 2) (omega arith))

pub bit_or-zero : (a : ℕ) → bit_or a 0 ≡ a
bit_or-zero a = or_zero_fuel a a (omega arith)

pub zero-bit_or : (b : ℕ) → bit_or 0 b ≡ b
zero-bit_or b = bit_or-bitwise 0 b

and_zero_fuel : (n a : ℕ) → a ≤ n → bit_and a 0 ≡ 0
and_zero_fuel n zero h = refl
and_zero_fuel zero (suc a) h = absurd (omega arith)
and_zero_fuel (suc n) (suc a) h =
    omega (arith, bit_and_step (suc a) 0, and_zero_fuel n (suc a / 2) (omega arith))

pub bit_and-zero : (a : ℕ) → bit_and a 0 ≡ 0
bit_and-zero a = and_zero_fuel a a (omega arith)

scale_suc : (q k : ℕ) → q * 2 ^ suc k ≡ 2 * (q * 2 ^ k)
scale_suc q k = omega (arith, ap (λ (t : ℕ). q * t) (pow-suc 2 k))

-- `|` of a value that is shifted past the bits of another is their sum.
pub bit_or-shifted : (k r q : ℕ) → r < 2 ^ k → bit_or r (q * 2 ^ k) ≡ r + q * 2 ^ k
bit_or-shifted zero r q fits =
    let e : r ≡ 0 = omega arith in rw e (ground (arith, zero-bit_or (q * 1)))
bit_or-shifted (suc k) r q fits =
    ground (
      arith,
      bit_or_step r (q * 2 ^ suc k),
      scale_suc q k,
      bit_or-shifted k (r / 2) q (omega arith),
    )

low_part : (k q r : ℕ) → r < 2 ^ k → bit_and (q * 2 ^ k + r) (2 ^ k - 1) ≡ r
low_part zero q r fits = ground (arith, bit_and-zero (q * 1 + r))
low_part (suc k) q r fits = ground (
  arith,
  bit_and_step (q * 2 ^ suc k + r) (2 ^ suc k - 1),
  scale_suc q k,
  pow-suc 2 k,
  one-le-pow k 2,
  low_part k q (r / 2) (omega arith),
)

-- `&` with `k` low ones is the remainder by `2 ^ k`.
pub bit_and-mask : (k a : ℕ) → bit_and a (2 ^ k - 1) ≡ a % 2 ^ k
bit_and-mask k a = ground (arith, one-le-pow k 2, low_part k (a / 2 ^ k) (a % 2 ^ k))

zero-bit_xor : (b : ℕ) → bit_xor 0 b ≡ b
zero-bit_xor b = bit_xor-bitwise 0 b

digit-differ : (a : ℕ) → a < 2 → differ a 0 ≡ a
digit-differ zero h = refl
digit-differ (suc a) h = refl

xor_zero_fuel : (n a : ℕ) → a ≤ n → bit_xor a 0 ≡ a
xor_zero_fuel n zero h = refl
xor_zero_fuel zero (suc a) h = absurd (omega arith)
xor_zero_fuel (suc n) (suc a) h = omega (
  arith,
  bit_xor_step (suc a) 0,
  digit-differ (suc a % 2) (omega arith),
  xor_zero_fuel n (suc a / 2) (omega arith),
)

pub bit_xor-zero : (a : ℕ) → bit_xor a 0 ≡ a
bit_xor-zero a = xor_zero_fuel a a (omega arith)

-- `^` with a power of two above the low zeros of a number adds it, and taken again removes it.
pub bit_xor-set : (k q : ℕ) → bit_xor (2 * q * 2 ^ k) (2 ^ k) ≡ 2 * q * 2 ^ k + 2 ^ k
bit_xor-set zero q =
    let even : 2 * q * 1 % 2 ≡ 0 = omega arith in
    bit_xor_step (2 * q * 1) 1 ∙ rw (even, bit_xor-zero (2 * q * 1 / 2)) (omega arith)
bit_xor-set (suc k) q = ground (
  arith,
  bit_xor_step (2 * q * 2 ^ suc k) (2 ^ suc k),
  scale_suc (2 * q) k,
  pow-suc 2 k,
  bit_xor-set k q,
)

-- `&` of a power of two with an odd multiple of it keeps it.
pub bit_and-set : (k q : ℕ) → bit_and ((2 * q + 1) * 2 ^ k) (2 ^ k) ≡ 2 ^ k
bit_and-set zero q = bit_and-mask 1 ((2 * q + 1) * 1) ∙ omega arith
bit_and-set (suc k) q = ground (
  arith,
  bit_and_step ((2 * q + 1) * 2 ^ suc k) (2 ^ suc k),
  scale_suc (2 * q + 1) k,
  pow-suc 2 k,
  bit_and-set k q,
)

digit-flips : (r : ℕ) → r < 2 → differ r 1 ≡ 1 - r
digit-flips zero h = refl
digit-flips (suc zero) h = refl
digit-flips (suc (suc r)) h = absurd (omega arith)

-- `^` with a power of two changes a number.
pub bit_xor-ne : (k a : ℕ) → bit_xor a (2 ^ k) ≡ a → ⊥
bit_xor-ne zero a e = omega (arith, bit_xor_step a 1, digit-flips (a % 2))
bit_xor-ne (suc k) a e =
    let even : 2 ^ suc k % 2 ≡ 0 = omega (arith, pow-suc 2 k) in
    let half : 2 ^ suc k / 2 ≡ 2 ^ k = omega (arith, pow-suc 2 k) in
    let step : a ≡ bit_xor (a / 2) (2 ^ k) * 2 + a % 2 =
      sym e
      ∙ bit_xor_step a (2 ^ suc k)
      ∙ rw (even, half, digit-differ (a % 2) (omega arith)) refl in
    bit_xor-ne k (a / 2) (omega arith)

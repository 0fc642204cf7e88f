-- ===== src/Util/Power.antt =====
-- `pow` and `log2` of util.c against the powers of the natural numbers.
use native.Mathlib.Nat.{
  pow-suc, pow-zero, mod-add-div', add-mul-mod_self_right, mul_comm, one-le-pow, mod-eq_of_lt,
}
use mathlib.Core.Path.{◌≡⟨◌⟩◌, ◌∎}
use native.Mathlib.Decide.{ℕ_discrete, dec_lt}
use amaterasu.Base.{
  ℕ, zero, suc, ◌+◌, ◌*◌, ◌/◌, ◌%◌, ◌^◌, ◌≤◌, ◌<◌, ◌≡◌, ◌≢◌, refl, sym, ap, ◌∙◌, none, some, arith,
}
use amaterasu.Base.Bits.{bit_and-mask}
use amaterasu.Util.{u64, pow_loop, pow, log2_loop, log2}

mod-mul : (a b m : ℕ) → a % m * b % m ≡ a * b % m
mod-mul a b m =
    let e : a * b ≡ a % m * b + a / m * b * m =
      omega (arith, ap (λ (t : ℕ). t * b) (mod-add-div' a m)) in
    rw (e, add-mul-mod_self_right)

mul-mod : (a b m : ℕ) → a * (b % m) % m ≡ a * b % m
mul-mod a b m = rw (mul_comm a (b % m), mod-mul b a m, mul_comm b a)

pow-mod : (a k m : ℕ) → (a % m) ^ k % m ≡ a ^ k % m
pow-mod a zero m = rw (pow-zero (a % m), pow-zero a)
pow-mod a (suc k) m =
    (a % m) ^ suc k % m
    ≡⟨ ap (λ (t : ℕ). t % m) (pow-suc (a % m) k) ⟩ (a % m) ^ k * (a % m) % m
    ≡⟨ mul-mod ((a % m) ^ k) a m ⟩ (a % m) ^ k * a % m
    ≡⟨ sym (mod-mul ((a % m) ^ k) a m) ⟩ (a % m) ^ k % m * a % m
    ≡⟨ ap (λ (t : ℕ). t * a % m) (pow-mod a k m) ⟩ a ^ k % m * a % m
    ≡⟨ mod-mul (a ^ k) a m ⟩ a ^ k * a % m
    ≡⟨ ap (λ (t : ℕ). t % m) (sym (pow-suc a k)) ⟩ a ^ suc k % m ∎

-- An even power is a power of the square.
square-pow : (x h : ℕ) → (x * x) ^ h ≡ x ^ (h + h)
square-pow x zero = rw (pow-zero (x * x), pow-zero x)
square-pow x (suc h) =
    let e : suc h + suc h ≡ suc (suc (h + h)) = omega arith in
    rw (e, pow-suc (x * x) h, square-pow x h, pow-suc x (suc (h + h)), pow-suc x (h + h))
      (omega arith)

-- One round on the exponent's lowest digit, when the digit is 0 and when it is 1.
even_round : (ret x n : ℕ) → n % 2 ≡ 0 → ret * (x * x % u64) ^ (n / 2) % u64 ≡ ret * x ^ n % u64
even_round ret x n e =
    ret * (x * x % u64) ^ (n / 2) % u64
    ≡⟨ sym (mul-mod ret ((x * x % u64) ^ (n / 2)) u64) ⟩ ret * ((x * x % u64) ^ (n / 2) % u64) % u64
    ≡⟨ ap (λ (t : ℕ). ret * t % u64) (pow-mod (x * x) (n / 2) u64) ⟩
      ret * ((x * x) ^ (n / 2) % u64) % u64
    ≡⟨ mul-mod ret ((x * x) ^ (n / 2)) u64 ⟩ ret * (x * x) ^ (n / 2) % u64
    ≡⟨ ap (λ (t : ℕ). ret * t % u64) (square-pow x (n / 2)) ⟩ ret * x ^ (n / 2 + n / 2) % u64
    ≡⟨ ap (λ (t : ℕ). ret * x ^ t % u64) (omega arith) ⟩ ret * x ^ n % u64 ∎

odd_round :
    (ret x n : ℕ) → n % 2 ≡ 1 → ret * x % u64 * (x * x % u64) ^ (n / 2) % u64 ≡ ret * x ^ n % u64
odd_round ret x n e =
    ret * x % u64 * (x * x % u64) ^ (n / 2) % u64
    ≡⟨ even_tail ⟩ ret * x % u64 * x ^ (n / 2 + n / 2) % u64
    ≡⟨ mod-mul (ret * x) (x ^ (n / 2 + n / 2)) u64 ⟩ ret * x * x ^ (n / 2 + n / 2) % u64
    ≡⟨ ap (λ (t : ℕ). t % u64) regroup ⟩ ret * x ^ suc (n / 2 + n / 2) % u64
    ≡⟨ ap (λ (t : ℕ). ret * x ^ t % u64) (omega arith) ⟩ ret * x ^ n % u64 ∎
  where
    even_tail :
        ret * x % u64 * (x * x % u64) ^ (n / 2) % u64 ≡ ret * x % u64 * x ^ (n / 2 + n / 2) % u64
    even_tail =
        let halves : (n / 2 + n / 2) / 2 ≡ n / 2 = omega arith in
        ap (λ (t : ℕ). ret * x % u64 * (x * x % u64) ^ t % u64) (sym halves)
        ∙ even_round (ret * x % u64) x (n / 2 + n / 2) (omega arith)

    regroup : ret * x * x ^ (n / 2 + n / 2) ≡ ret * x ^ suc (n / 2 + n / 2)
    regroup = rw (pow-suc x (n / 2 + n / 2)) (omega arith)

-- A round on a digit 0, and on a digit 1.
pow_loop_even :
    (f ret x n : ℕ)
    → n ≢ 0
    → n % 2 ≡ 0
    → pow_loop (suc f) ret x n ≡ pow_loop f ret (x * x % u64) (n / 2)
unfolding pow_loop
pow_loop_even f ret x n ne e = ground (arith, bit_and-mask 1 n)

pow_loop_odd :
    (f ret x n : ℕ)
    → n % 2 ≡ 1
    → pow_loop (suc f) ret x n ≡ pow_loop f (ret * x % u64) (x * x % u64) (n / 2)
unfolding pow_loop
pow_loop_odd f ret x n e = ground (arith, bit_and-mask 1 n)

pow_loop_done : (f ret x : ℕ) → pow_loop (suc f) ret x 0 ≡ some ret
unfolding pow_loop
pow_loop_done f ret x = refl

half_lt : (f n : ℕ) → n < 2 ^ suc f → n / 2 < 2 ^ f
half_lt f n h = omega (arith, pow-suc 2 f)

pow_loop_lem :
    (f ret x n : ℕ) → n < 2 ^ f → ret < u64 → pow_loop (suc f) ret x n ≡ some (ret * x ^ n % u64)
pow_loop_lem f ret x zero h small = rw (pow_loop_done f ret x, pow-zero x) (ap some (omega arith))
pow_loop_lem zero ret x (suc n) h small = absurd (omega arith)
pow_loop_lem (suc f) ret x (suc n) h small = elim (ℕ_discrete (suc n % 2) 0) [
  | yes e ↦
      pow_loop_even (suc f) ret x (suc n) (omega arith) e
      ∙ pow_loop_lem f ret (x * x % u64) (suc n / 2) (half_lt f (suc n) h) small
      ∙ ap some (even_round ret x (suc n) e)
  | no ne ↦
      let e : suc n % 2 ≡ 1 = omega arith in
      pow_loop_odd (suc f) ret x (suc n) e
      ∙ pow_loop_lem f (ret * x % u64) (x * x % u64) (suc n / 2) (half_lt f (suc n) h) (omega arith)
      ∙ ap some (odd_round ret x (suc n) e)
]

-- `pow` returns `x` to the power `n`, reduced to 64 bits, for every 64-bit exponent.
pub pow_lem : (x n : ℕ) → n < u64 → pow x n ≡ some (x ^ n % u64)
unfolding pow
pow_lem x n h =
    pow_loop_lem 64 1 x n h (omega arith) ∙ ap some (ap (λ (t : ℕ). t % u64) (omega arith))

-- `2 ^ k ≤ x < 2 ^ (k + 1)` with the rounds that are left.
log2_loop_lem :
    (f k ret x : ℕ) → k < f → 2 ^ k ≤ x → x < 2 ^ suc k → log2_loop f ret x ≡ some (ret + k)
unfolding log2_loop
log2_loop_lem zero k ret x h lo hi = absurd (omega arith)
log2_loop_lem (suc f) zero ret x h lo hi = ground arith
log2_loop_lem (suc f) (suc k) ret x h lo hi =
    ground
      (arith, pow-suc 2 k, pow-suc 2 (suc k), one-le-pow k 2, log2_loop_lem f k (ret + 1) (x / 2))

-- `log2` returns the place of the highest binary digit of a 64-bit number that is not 0.
pub log2_lem : (k x : ℕ) → k < 64 → 2 ^ k ≤ x → x < 2 ^ suc k → log2 x ≡ some k
unfolding log2
log2_lem k x h lo hi = log2_loop_lem 64 k 0 x h lo hi ∙ ap some (omega arith)

-- At 0 the loop of `log2` does not stop, whatever number of rounds it is given.
pub log2_loop-zero : (fuel ret : ℕ) → log2_loop fuel ret 0 ≡ none
unfolding log2_loop
log2_loop-zero zero ret = refl
log2_loop-zero (suc fuel) ret = log2_loop-zero fuel (ret + 1)

floor_log : (f x : ℕ) → 0 < x → x < 2 ^ f → (k : ℕ) × (k < f) × (2 ^ k ≤ x) × (x < 2 ^ suc k)
floor_log zero x pos h = absurd (omega arith)
floor_log (suc f) x pos h = elim (dec_lt x (2 ^ f)) [
  | yes below ↦ let (k, lt, lo, hi) = floor_log f x pos below in (k, omega arith, lo, hi)
  | no above ↦ (f, omega arith, omega arith, h)
]

-- `log2` returns on every 64-bit number but 0, with the place of the highest binary digit.
pub log2_total :
    (x : ℕ)
    → 0 < x
    → x < u64
    → (k : ℕ) × (log2 x ≡ some k) × (k < 64) × (2 ^ k ≤ x) × (x < 2 ^ suc k)
log2_total x pos h =
    let (k, lt, lo, hi) = floor_log 64 x pos h in (k, log2_lem k x lt lo hi, lt, lo, hi)

pub pow_two : (k : ℕ) → 2 ^ k < u64 → k < u64 → pow 2 k ≡ some (2 ^ k)
pow_two k h lt = pow_lem 2 k lt ∙ ap some (mod-eq_of_lt h)

-- ===== src/Graphic/Hex.antt =====
-- The digits that `puth` prints.
use native.Mathlib.Decide.{ℕ_discrete}
use native.Mathlib.Nat.{pow-suc, zero-div, div-div-eq-div-mul}
use amaterasu.Base.{
  ℕ, zero, suc, ◌+◌, ◌-◌, ◌*◌, ◌/◌, ◌%◌, ◌^◌, ◌≤◌, ◌<◌, ◌≡◌, refl, sym, ap, ◌∙◌, ◌&&◌, some, List,
  [], ◌∷◌, get_or, length, leb, ltb, if◌then◌else◌, bit_and, update, arith, eq_of_ne, eq_self,
}
use amaterasu.Base.Bits.{bit_and-mask}
use amaterasu.Util.{u64}
use amaterasu.Graphic.{digit, clear_digits, write_digits, hex_string}

clear_digits_lem :
    (rounds i : ℕ) (str : ℕ → ℕ) (k : ℕ)
    → clear_digits rounds i str k ≡ (if leb i k && ltb k (i + rounds) then 48 else str k)
unfolding clear_digits
clear_digits_lem zero i str k = ground arith
clear_digits_lem (suc rounds) i str k =
    clear_digits_lem rounds (i + 1) (update str i 48) k ∙ ground arith

zero_digit : (n : ℕ) → digit (0 / 16 ^ n % 16) ≡ 48
unfolding digit
zero_digit n = rw (zero-div (16 ^ n)) refl

low_digit : (num : ℕ) → bit_and num 0xf ≡ num % 16
low_digit num = bit_and-mask 4 num

digit_shift : (num n : ℕ) → num / 16 / 16 ^ n ≡ num / 16 ^ suc n
digit_shift num n =
    let e : 16 ^ suc n ≡ 16 * 16 ^ n = omega (arith, pow-suc 16 n) in
    rw e (div-div-eq-div-mul num 16 (16 ^ n))

write_step :
    (fuel place num : ℕ) (str : ℕ → ℕ)
    → ¬ (num ≡ 0)
    → write_digits (suc fuel) (suc place) num str
      ≡ write_digits fuel place (num / 16) (update str place (digit (num % 16)))
unfolding write_digits
write_step fuel place num str ne =
    let e : suc place - 1 ≡ place = omega arith in rw (eq_of_ne num 0 ne, e, low_digit num)

-- Writing the digits below place `place`, the lowest last.
write_digits_lem :
    (fuel place num : ℕ) (str : ℕ → ℕ)
    → place < fuel
    → num < 16 ^ place
    → ((k : ℕ) → k < place → str k ≡ 48)
    → (str' : ℕ → ℕ) × (write_digits fuel place num str ≡ some str')
      × ((k : ℕ) → k < place → str' k ≡ digit (num / 16 ^ (place - 1 - k) % 16))
      × ((k : ℕ) → place ≤ k → str' k ≡ str k)
unfolding write_digits
write_digits_lem zero place num str lt small zeros = absurd (omega arith)
write_digits_lem (suc fuel) zero num str lt small zeros =
    let e : num ≡ 0 = omega arith in (str, rw e, λ k lt'. absurd (omega arith), λ k le. refl)
write_digits_lem (suc fuel) (suc lower) num str lt small zeros = elim (ℕ_discrete num 0) [
  | yes e ↦
      (str, rw e, λ k lt'. rw e (zeros k lt' ∙ sym (zero_digit (suc lower - 1 - k))), λ k le. refl)
  | no ne ↦
      let (str', run, low, high) =
        write_digits_lem fuel lower (num / 16) (update str lower (digit (num % 16))) (omega arith)
          (omega (arith, pow-suc 16 lower)) (λ k lt'. ground (arith, zeros k (omega arith))) in
      (
        str',
        write_step fuel lower num str ne ∙ run,
        λ k lt'. elim (ℕ_discrete k lower) [
          | yes e ↦
              let e0 : suc lower - 1 - lower ≡ 0 = omega arith in
              let e1 : num / 1 ≡ num = omega arith in
              rw (e, e0, e1) (high lower (omega arith) ∙ rw (eq_self lower))
          | no ne' ↦
              let e0 : suc lower - 1 - k ≡ suc (lower - 1 - k) = omega arith in
              rw e0 (
                low k (omega arith)
                ∙ ap (λ (t : ℕ). digit (t % 16)) (digit_shift num (lower - 1 - k)))
        ],
        λ k le. high k (omega arith) ∙ rw (eq_of_ne k lower (λ e. omega arith)),
      )
]

-- The characters "0123456789ABCDEF".
abbrev pub hexadecimal : List ℕ
hexadecimal = 48 ∷ 49 ∷ 50 ∷ 51 ∷ 52 ∷ 53 ∷ 54 ∷ 55 ∷ 56 ∷ 57 ∷ 65 ∷ 66 ∷ 67 ∷ 68 ∷ 69 ∷ 70 ∷ []

-- The list holds the digits from one number on.
abbrev Digits : List ℕ → (from : ℕ) → Type 0
Digits [] from = Unit
Digits (x ∷ xs) from = (digit from ≡ x) × Digits xs (from + 1)

Digits-get_or :
    (xs : List ℕ) (from r : ℕ) → Digits xs from → r < length xs → digit (from + r) ≡ get_or xs r 0
Digits-get_or [] from r all lt = absurd (omega arith)
Digits-get_or (x ∷ xs) from zero all lt = let e : from + 0 ≡ from = omega arith in rw e all.0
Digits-get_or (x ∷ xs) from (suc r) all lt =
    let e : from + suc r ≡ from + 1 + r = omega arith in
    rw e (Digits-get_or xs (from + 1) r all.1 (omega arith))

hexadecimal-Digits : Digits hexadecimal 0
unfolding digit
hexadecimal-Digits = (
  refl,
  (
    refl,
    (
      refl,
      (
        refl,
        (
          refl,
          (
            refl,
            (refl, (refl, (refl, (refl, (refl, (refl, (refl, (refl, (refl, (refl, tt)))))))))),
          ),
        ),
      ),
    ),
  ),
)

pub digit_lem : (r : ℕ) → r < 16 → digit r ≡ get_or hexadecimal r 0
digit_lem r lt =
    let e : 0 + r ≡ r = omega arith in rw e at (Digits-get_or hexadecimal 0 r hexadecimal-Digits lt)

-- For a 64-bit number `puth` builds a string of its sixteen hexadecimal digits, the highest first, and a
-- zero at the end.
pub hex_string_lem :
    (num : ℕ) (str : ℕ → ℕ)
    → num < u64
    → (text : ℕ → ℕ) × (hex_string num str ≡ some text)
      × ((k : ℕ) → k < 16 → text k ≡ get_or hexadecimal (num / 16 ^ (15 - k) % 16) 0)
      × (text 16 ≡ 0)
unfolding hex_string
hex_string_lem num str lt =
    let start : ℕ → ℕ = update (clear_digits 16 0 str) 16 0 in
    let (text, run, digits, rest) =
      write_digits_lem 17 16 num start (omega arith) lt
        (λ k lt'. ground (arith, clear_digits_lem 16 0 str k)) in
    (
      text,
      run,
      λ k small. digits k small ∙ digit_lem (num / 16 ^ (15 - k) % 16) (omega arith),
      rest 16 (omega arith),
    )

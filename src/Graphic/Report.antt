-- ===== src/Graphic/Report.antt =====
-- Reports on the screen: calls of `puts` and `puth` one after the other, as the fault handlers make them.
use Prim.Native.String.{String}
use Prim.Native.Char.{code}
use native.Mathlib.Decide.{dec_lt}
use amaterasu.Base.{
  ℕ, zero, suc, ◌+◌, ◌-◌, ◌/◌, ◌%◌, ◌^◌, ◌≤◌, ◌<◌, ◌≡◌, ◌≢◌, refl, sym, ap, ◌∙◌, Option, none, some,
  List, [], ◌∷◌, ◌++◌, length, get_or, arith, eq_of_ne,
}
use amaterasu.Util.{u64}
use amaterasu.Graphic.{Screen, Font, putc, puts, puth, digit}
use amaterasu.Graphic.Hex.{hexadecimal, digit_lem, hex_string_lem}

-- The bytes of a string in the source.
abbrev pub codes : String → List ℕ
codes String.[] = []
codes (String.◌∷◌ c s) = code c ∷ codes s

-- `puts` of a constant string, or `puth` of a number.
pub data Call : Type 0 where
  put_string : String → Call
  put_number : ℕ → Call

module _ (font : Font) where
  -- The calls in their order. `stack` is what the array of `puth` holds when that many calls are left.
  unfoldable pub run_calls : (stack : ℕ → ℕ → ℕ) → List Call → Screen → Option Screen
  run_calls stack [] s = some s
  run_calls stack (put_string text ∷ calls) s =
      elim (puts (length (codes text) + 1) font (λ i. get_or (codes text) i 0) 0 s) [
        | none ↦ none
        | some s' ↦ run_calls stack calls s'
      ]
  run_calls stack (put_number num ∷ calls) s = elim (puth font num (stack (length calls)) s) [
    | none ↦ none
    | some s' ↦ run_calls stack calls s'
  ]

  -- Characters one after the other.
  abbrev pub print : List ℕ → Screen → Screen
  print [] s = s
  print (c ∷ cs) s = print cs (putc font c s)

print-append :
    (font : Font) (xs ys : List ℕ) (s : Screen)
    → print font (xs ++ ys) s ≡ print font ys (print font xs s)
print-append font [] ys s = refl
print-append font (x ∷ xs) ys s = print-append font xs ys (putc font x s)

-- The sixteen hexadecimal digits of a number, `places` of them from the place below.
abbrev pub hex_digits : (places num : ℕ) → List ℕ
hex_digits zero num = []
hex_digits (suc places) num = get_or hexadecimal (num / 16 ^ places % 16) 0 ∷ hex_digits places num

-- The text of a report, without the zeros that end its strings.
abbrev pub text_of : List Call → List ℕ
text_of [] = []
text_of (put_string text ∷ calls) = codes text ++ text_of calls
text_of (put_number num ∷ calls) = hex_digits 16 num ++ text_of calls

abbrev pub NoZero : List ℕ → Type 0
NoZero [] = Unit
NoZero (c ∷ cs) = (c ≢ 0) × NoZero cs

-- The strings have no zero inside, and the numbers have 64 bits.
abbrev pub Printable : List Call → Type 0
Printable [] = Unit
Printable (put_string text ∷ calls) = NoZero (codes text) × Printable calls
Printable (put_number num ∷ calls) = (num < u64) × Printable calls

-- `puts` from index `i` on, where a zero-terminated list stands.
puts_lem :
    (font : Font) (cs : List ℕ) (fuel i : ℕ) (str : ℕ → ℕ) (s : Screen)
    → length cs < fuel
    → NoZero cs
    → ((k : ℕ) → k ≤ length cs → str (i + k) ≡ get_or cs k 0)
    → puts fuel font str i s ≡ some (print font cs s)
unfolding puts
puts_lem font [] zero i str s lt ok same = absurd (omega arith)
puts_lem font [] (suc fuel) i str s lt ok same =
    let here : i + 0 ≡ i = omega arith in
    let e : str i ≡ 0 = rw here at (same 0 (omega arith)) in rw e
puts_lem font (c ∷ cs) zero i str s lt ok same = absurd (omega arith)
puts_lem font (c ∷ cs) (suc fuel) i str s lt ok same =
    let here : i + 0 ≡ i = omega arith in
    let e : str i ≡ c = rw here at (same 0 (omega arith)) in
    rw (e, eq_of_ne c 0 ok.0)
      (puts_lem font cs fuel (i + 1) str (putc font c s) (omega arith) ok.1 (λ k le.
        let next : i + 1 + k ≡ i + suc k = omega arith in rw next (same (suc k) (omega arith))))

digit-ne : (r : ℕ) → digit r ≢ 0
unfolding digit
digit-ne r e = ground arith

hexadecimal-ne : (r : ℕ) → r < 16 → get_or hexadecimal r 0 ≢ 0
hexadecimal-ne r lt e = digit-ne r (digit_lem r lt ∙ e)

hex_digits-length : (places num : ℕ) → length (hex_digits places num) ≡ places
hex_digits-length zero num = refl
hex_digits-length (suc places) num = ap suc (hex_digits-length places num)

hex_digits-NoZero : (places num : ℕ) → NoZero (hex_digits places num)
hex_digits-NoZero zero num = tt
hex_digits-NoZero (suc places) num =
    (hexadecimal-ne (num / 16 ^ places % 16) (omega arith), hex_digits-NoZero places num)

hex_digits-at :
    (places num k : ℕ)
    → k < places
    → get_or (hex_digits places num) k 0 ≡ get_or hexadecimal (num / 16 ^ (places - 1 - k) % 16) 0
hex_digits-at zero num k lt = absurd (omega arith)
hex_digits-at (suc places) num zero lt =
    let e : suc places - 1 - 0 ≡ places = omega arith in rw e refl
hex_digits-at (suc places) num (suc k) lt =
    let e : suc places - 1 - suc k ≡ places - 1 - k = omega arith in
    rw e (hex_digits-at places num k (omega arith))

hex_digits-end : (places num : ℕ) → get_or (hex_digits places num) places 0 ≡ 0
hex_digits-end zero num = refl
hex_digits-end (suc places) num = hex_digits-end places num

puth_lem :
    (font : Font) (num : ℕ) (str : ℕ → ℕ) (s : Screen)
    → num < u64
    → puth font num str s ≡ some (print font (hex_digits 16 num) s)
unfolding puth
puth_lem font num str s lt =
    let (text, run, digits, last) = hex_string_lem num str lt in
    rw (run, puth)
      (puts_lem font (hex_digits 16 num) 17 0 text s (omega arith) (hex_digits-NoZero 16 num)
        (λ k le. elim (dec_lt k 16) [
          | yes inside ↦
              let here : 0 + k ≡ k = omega arith in
              rw here (digits k inside ∙ sym (hex_digits-at 16 num k inside))
          | no outside ↦
              let e : k ≡ 16 = omega (arith, hex_digits-length 16 num) in
              rw e (last ∙ sym (hex_digits-end 16 num))
        ]))

-- The calls return, and print their text and nothing else, whatever the arrays of `puth` held.
pub run_calls_lem :
    (font : Font) (stack : ℕ → ℕ → ℕ) (calls : List Call) (s : Screen)
    → Printable calls
    → run_calls font stack calls s ≡ some (print font (text_of calls) s)
unfolding run_calls
run_calls_lem font stack [] s ok = refl
run_calls_lem font stack (put_string text ∷ calls) s ok =
    let first =
      puts_lem font (codes text) (length (codes text) + 1) 0 (λ i. get_or (codes text) i 0) s
        (omega arith) ok.0 (λ k le. let here : 0 + k ≡ k = omega arith in rw here refl) in
    rw (first, run_calls)
      (run_calls_lem font stack calls (print font (codes text) s) ok.1
        ∙ ap some (sym (print-append font (codes text) (text_of calls) s)))
run_calls_lem font stack (put_number num ∷ calls) s ok =
    rw (puth_lem font num (stack (length calls)) s ok.0, run_calls)
      (run_calls_lem font stack calls (print font (hex_digits 16 num) s) ok.1
        ∙ ap some (sym (print-append font (hex_digits 16 num) (text_of calls) s)))

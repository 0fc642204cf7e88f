-- ===== src/Machine/Views.antt =====
-- The two views of memory.
use amaterasu.Base.{ℕ, zero, suc, ◌+◌, ◌-◌, ◌*◌, ◌/◌, ◌%◌, ◌^◌, ◌<◌, ◌≡◌, ap, ◌∙◌, refl, arith}
use amaterasu.Util.{u64}
use amaterasu.Paging.{Memory}
use amaterasu.Machine.{words_of_bytes, bytes_of_words}

-- The bytes of a word at an aligned address, one after the other.
byte_at :
    (words : Memory) (a k : ℕ)
    → a % 8 ≡ 0
    → k < 8
    → bytes_of_words words (a + k) ≡ words a / 256 ^ k % 256
unfolding bytes_of_words
byte_at words a k aligned lt =
    let start : a + k - (a + k) % 8 ≡ a = omega arith in
    let place : (a + k) % 8 ≡ k = omega arith in rw (start, place) refl

-- A 64-bit word at an aligned address reads back from the bytes.
pub words_of_bytes-bytes_of_words :
    (words : Memory) (a : ℕ)
    → a % 8 ≡ 0
    → words a < u64
    → words_of_bytes (bytes_of_words words) a ≡ words a
unfolding words_of_bytes
words_of_bytes-bytes_of_words words a aligned small =
    let b = λ (k : ℕ) (lt : k < 8). byte_at words a k aligned lt in
    let zeroth : a + 0 ≡ a = omega arith in
    let b0 : bytes_of_words words a ≡ words a / 1 % 256 = rw zeroth at (b 0 (omega arith)) in
    let at5 : a + 4 + 1 ≡ a + 5 = omega arith in
    let at6 : a + 4 + 2 ≡ a + 6 = omega arith in
    let at7 : a + 4 + 2 + 1 ≡ a + 7 = omega arith in
    let at3 : a + 2 + 1 ≡ a + 3 = omega arith in
    rw (at7, at6, at5, at3)
      (rw
        (
          b0,
          b 1 (omega arith),
          b 2 (omega arith),
          b 3 (omega arith),
          b 4 (omega arith),
          b 5 (omega arith),
          b 6 (omega arith),
          b 7 (omega arith),
        )
        (omega arith))

module _ (memory : ℕ → ℕ) (at : ℕ) (bytes : (j : ℕ) → memory j < 256) where
  -- The word at an address from its two halves, and each half from its four bytes.
  abbrev low : ℕ
  low = memory at + 256 * memory (at + 1) + 65536 * (memory (at + 2) + 256 * memory (at + 3))

  abbrev high : ℕ
  high = memory (at + 4) + 256 * memory (at + 5) + 65536 * (memory (at + 6) + 256 * memory (at + 7))

  word_halves : words_of_bytes memory at ≡ low + 0x1_0000_0000 * high
  unfolding words_of_bytes
  word_halves =
      let at3 : at + 2 + 1 ≡ at + 3 = omega arith in
      let at5 : at + 4 + 1 ≡ at + 5 = omega arith in
      let at6 : at + 4 + 2 ≡ at + 6 = omega arith in
      let at7 : at + 4 + 2 + 1 ≡ at + 7 = omega arith in rw (at7, at6, at5, at3) refl

  low_lt : low < 2 ^ 32
  low_lt = omega (arith, bytes at, bytes (at + 1), bytes (at + 2), bytes (at + 3))

  -- Its bytes, from the lowest.
  nth_byte : (k : ℕ) → k < 8 → words_of_bytes memory at / 256 ^ k % 256 ≡ memory (at + k)
  nth_byte zero lt =
      let here : at + 0 ≡ at = omega arith in rw (word_halves, here) (omega (arith, bytes at))
  nth_byte (suc zero) lt = rw word_halves (omega (arith, bytes at, bytes (at + 1)))
  nth_byte (suc (suc zero)) lt =
      rw word_halves (omega (arith, bytes at, bytes (at + 1), bytes (at + 2)))
  nth_byte (suc (suc (suc zero))) lt =
      rw word_halves (omega (arith, bytes at, bytes (at + 1), bytes (at + 2), bytes (at + 3)))
  nth_byte (suc (suc (suc (suc zero)))) lt = rw word_halves (omega (arith, low_lt, bytes (at + 4)))
  nth_byte (suc (suc (suc (suc (suc zero))))) lt =
      rw word_halves (omega (arith, low_lt, bytes (at + 4), bytes (at + 5)))
  nth_byte (suc (suc (suc (suc (suc (suc zero)))))) lt =
      rw word_halves (omega (arith, low_lt, bytes (at + 4), bytes (at + 5), bytes (at + 6)))
  nth_byte (suc (suc (suc (suc (suc (suc (suc zero))))))) lt =
      rw word_halves
        (omega (arith, low_lt, bytes (at + 4), bytes (at + 5), bytes (at + 6), bytes (at + 7)))
  nth_byte (suc (suc (suc (suc (suc (suc (suc (suc k)))))))) lt = absurd (omega arith)

-- Bytes read through words are the bytes.
pub bytes_of_words-words_of_bytes :
    (memory : ℕ → ℕ)
    → ((j : ℕ) → memory j < 256)
    → (a : ℕ) → bytes_of_words (words_of_bytes memory) a ≡ memory a
unfolding bytes_of_words
bytes_of_words-words_of_bytes memory bytes a =
    let back : a - a % 8 + a % 8 ≡ a = omega arith in
    nth_byte memory (a - a % 8) bytes (a % 8) (omega arith) ∙ ap memory back

-- A 64-bit word at an aligned address reads back from its bytes, and bytes that are read as words and
-- taken apart again are the same bytes.
pub views_lem :
    (words : Memory) (memory : ℕ → ℕ)
    → ((j : ℕ) → memory j < 256)
    → (a b : ℕ) → a % 8 ≡ 0
    → words a < u64
    → (words_of_bytes (bytes_of_words words) a ≡ words a)
      × (bytes_of_words (words_of_bytes memory) b ≡ memory b)
views_lem words memory bytes a b aligned small = (
  words_of_bytes-bytes_of_words words a aligned small,
  bytes_of_words-words_of_bytes memory bytes b,
)

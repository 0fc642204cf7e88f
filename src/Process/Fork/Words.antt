-- ===== src/Process/Fork/Words.antt =====
-- Pages copied by their words.
use native.Mathlib.Decide.{ℕ_discrete}
use amaterasu.PhysicalMemory.Frames.{IsFrame}
use amaterasu.Process.PageTable.Built.{Outside}
use amaterasu.Base.{
  ◌≢◌, ◌==◌, false, eq_of_ne, ℕ, zero, suc, ◌+◌, ◌*◌, ◌≡◌, ◌<◌, ◌≤◌, ◌⊎◌, refl, ◌∙◌, arith, update,
}
use amaterasu.Paging.{Memory}
use amaterasu.Process.Fork.{copy_words}

pub copy_words-other :
    (rounds i dst src a : ℕ) (memory : Memory)
    → (a < dst + 8 * i) ⊎ (dst + 8 * (i + rounds) ≤ a)
    → copy_words rounds i dst src memory a ≡ memory a
unfolding copy_words
copy_words-other zero i dst src a memory out = refl
copy_words-other (suc rounds) i dst src a memory out =
    copy_words-other rounds (i + 1) dst src a (update memory (dst + 8 * i) (memory (src + 8 * i)))
      (omega arith)
    ∙ ground arith

-- The words of one page come from the other, which lies apart.
pub copy_words-copied :
    (rounds i dst src j : ℕ) (memory : Memory)
    → (dst + 8 * (i + rounds) ≤ src) ⊎ (src + 8 * (i + rounds) ≤ dst)
    → i ≤ j
    → j < i + rounds
    → copy_words rounds i dst src memory (dst + 8 * j) ≡ memory (src + 8 * j)
unfolding copy_words
copy_words-copied zero i dst src j memory apart lo hi = absurd (omega arith)
copy_words-copied (suc rounds) i dst src j memory apart lo hi =
    let memory' = update memory (dst + 8 * i) (memory (src + 8 * i)) in
    elim (ℕ_discrete j i) [
      | yes e ↦
          copy_words-other rounds (i + 1) dst src (dst + 8 * j) memory' (omega arith)
          ∙ rw e (ground arith)
      | no ne ↦
          copy_words-copied rounds (i + 1) dst src j memory' (omega arith) (omega arith)
            (omega arith)
          ∙ ground arith
    ]

ne_of_test : (x y : ℕ) → (x == y) ≡ false → x ≢ y
ne_of_test x y t e = ground arith

-- A word of one page lies outside another page.
pub page-Outside :
    (f g j : ℕ) → IsFrame f → IsFrame g → (f == g) ≡ false → j < 512 → Outside (f + 8 * j) g
page-Outside f g j ff gf ne lt = let d : f ≢ g = ne_of_test f g ne in omega arith

pub words_apart :
    (f g i j : ℕ)
    → IsFrame f
    → IsFrame g
    → (f == g) ≡ false
    → i < 512
    → j < 512
    → (f + 8 * i == g + 8 * j) ≡ false
words_apart f g i j ff gf ne li lj =
    let d : f ≢ g = ne_of_test f g ne in eq_of_ne (f + 8 * i) (g + 8 * j) (λ e. omega arith)

pub copy-other :
    (dst src f j : ℕ) (memory : Memory)
    → IsFrame dst
    → IsFrame f
    → (f == dst) ≡ false
    → j < 512
    → copy_words 512 0 dst src memory (f + 8 * j) ≡ memory (f + 8 * j)
copy-other dst src f j memory df ff ne lt =
    let d : f ≢ dst = ne_of_test f dst ne in
    copy_words-other 512 0 dst src (f + 8 * j) memory (omega arith)

pub copy-page :
    (dst src j : ℕ) (memory : Memory)
    → IsFrame dst
    → IsFrame src
    → (src == dst) ≡ false
    → j < 512
    → copy_words 512 0 dst src memory (dst + 8 * j) ≡ memory (src + 8 * j)
copy-page dst src j memory df sf ne lt =
    let d : src ≢ dst = ne_of_test src dst ne in
    copy_words-copied 512 0 dst src j memory (omega arith) (omega arith) (omega arith)

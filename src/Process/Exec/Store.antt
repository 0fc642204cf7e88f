-- ===== src/Process/Exec/Store.antt =====
-- Words and frames that are stored in bytes read back.
use amaterasu.Base.{
  ℕ, zero, suc, ◌+◌, ◌*◌, ◌/◌, ◌%◌, ◌^◌, ◌≡◌, ◌<◌, ◌≤◌, ◌⊎◌, refl, ap, sym, ◌∙◌, length, List, [],
  ◌∷◌, update, arith,
}
use amaterasu.Acpi.{word64}
use amaterasu.Process.Exec.{store_bytes, store_frame}

pub store_bytes-other :
    (count at v a : ℕ) (memory : ℕ → ℕ)
    → (a < at) ⊎ (at + count ≤ a)
    → store_bytes count at v memory a ≡ memory a
unfolding store_bytes
store_bytes-other zero at v a memory out = refl
store_bytes-other (suc count) at v a memory out =
    store_bytes-other count (at + 1) (v / 256) a (update memory at (v % 256)) (omega arith)
    ∙ ground arith

-- Byte `k` of a word.
abbrev digit256 : (k v : ℕ) → ℕ
digit256 zero v = v % 256
digit256 (suc k) v = digit256 k (v / 256)

store_bytes-byte :
    (count at v k : ℕ) (memory : ℕ → ℕ)
    → k < count
    → store_bytes count at v memory (at + k) ≡ digit256 k v
unfolding store_bytes
store_bytes-byte zero at v k memory lt = absurd (omega arith)
store_bytes-byte (suc count) at v zero memory lt =
    store_bytes-other count (at + 1) (v / 256) (at + 0) (update memory at (v % 256)) (omega arith)
    ∙ ground arith
store_bytes-byte (suc count) at v (suc k) memory lt =
    let shift : at + suc k ≡ at + 1 + k = omega arith in
    rw shift
      (store_bytes-byte count (at + 1) (v / 256) k (update memory at (v % 256)) (omega arith))

digits :
    (v : ℕ)
    → v < 2 ^ 64
    → digit256 0 v
        + 256 * digit256 1 v
        + 65536 * (digit256 2 v + 256 * digit256 3 v)
        + 0x1_0000_0000
          * (digit256 4 v + 256 * digit256 5 v + 65536 * (digit256 6 v + 256 * digit256 7 v))
      ≡ v
digits v lt = omega arith

-- A word by its bytes.
word64-bytes :
    (memory b : ℕ → ℕ) (at : ℕ)
    → ((k : ℕ) → k < 8 → memory (at + k) ≡ b k)
    → word64 memory at
      ≡ b 0
        + 256 * b 1
        + 65536 * (b 2 + 256 * b 3)
        + 0x1_0000_0000 * (b 4 + 256 * b 5 + 65536 * (b 6 + 256 * b 7))
word64-bytes memory b at h =
    let e0 : memory at ≡ b 0 = ap memory (omega arith) ∙ h 0 (omega arith) in
    let e1 : memory (at + 1) ≡ b 1 = h 1 (omega arith) in
    let e2 : memory (at + 2) ≡ b 2 = h 2 (omega arith) in
    let e3 : memory (at + 2 + 1) ≡ b 3 = ap memory (omega arith) ∙ h 3 (omega arith) in
    let e4 : memory (at + 4) ≡ b 4 = h 4 (omega arith) in
    let e5 : memory (at + 4 + 1) ≡ b 5 = ap memory (omega arith) ∙ h 5 (omega arith) in
    let e6 : memory (at + 4 + 2) ≡ b 6 = ap memory (omega arith) ∙ h 6 (omega arith) in
    let e7 : memory (at + 4 + 2 + 1) ≡ b 7 = ap memory (omega arith) ∙ h 7 (omega arith) in
    rw (e0, e1, e2, e3, e4, e5, e6, e7)

word64-frame :
    (memory' memory : ℕ → ℕ) (at : ℕ)
    → ((k : ℕ) → k < 8 → memory' (at + k) ≡ memory (at + k))
    → word64 memory' at ≡ word64 memory at
word64-frame memory' memory at h =
    word64-bytes memory' (λ k. memory (at + k)) at h
    ∙ sym (word64-bytes memory (λ k. memory (at + k)) at (λ k lt. refl))

store_bytes-word64 :
    (at v : ℕ) (memory : ℕ → ℕ) → v < 2 ^ 64 → word64 (store_bytes 8 at v memory) at ≡ v
store_bytes-word64 at v memory lt =
    word64-bytes (store_bytes 8 at v memory) (λ k. digit256 k v) at
      (λ k h. store_bytes-byte 8 at v k memory h)
    ∙ digits v lt

pub store_frame-other :
    (at a : ℕ) (ws : List ℕ) (memory : ℕ → ℕ)
    → (a < at) ⊎ (at + 8 * length ws ≤ a)
    → store_frame at ws memory a ≡ memory a
unfolding store_frame
store_frame-other at a [] memory out = refl
store_frame-other at a (w ∷ ws) memory out =
    store_frame-other (at + 8) a ws (store_bytes 8 at w memory) (omega arith)
    ∙ store_bytes-other 8 at w a memory (omega arith)

-- Word `i` of a list, 0 behind its end.
abbrev pub nth : List ℕ → ℕ → ℕ
nth [] i = 0
nth (w ∷ ws) zero = w
nth (w ∷ ws) (suc i) = nth ws i

pub store_frame-word64 :
    (at i : ℕ) (ws : List ℕ) (memory : ℕ → ℕ)
    → i < length ws
    → nth ws i < 2 ^ 64
    → word64 (store_frame at ws memory) (at + 8 * i) ≡ nth ws i
unfolding store_frame
store_frame-word64 at i [] memory lt small = absurd (omega arith)
store_frame-word64 at zero (w ∷ ws) memory lt small =
    let here : at + 8 * 0 ≡ at = omega arith in
    rw here (
      word64-frame (store_frame (at + 8) ws (store_bytes 8 at w memory)) (store_bytes 8 at w memory)
        at (λ k h. store_frame-other (at + 8) (at + k) ws (store_bytes 8 at w memory) (omega arith))
      ∙ store_bytes-word64 at w memory small)
store_frame-word64 at (suc i) (w ∷ ws) memory lt small =
    let next : at + 8 * suc i ≡ at + 8 + 8 * i = omega arith in
    rw next (store_frame-word64 (at + 8) i ws (store_bytes 8 at w memory) (omega arith) small)

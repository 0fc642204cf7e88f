-- ===== src/Fat/Directory.antt =====
-- The search of `GetFileInfo` in the root directory, against the entries of a FAT16 directory.
use native.Mathlib.Decide.{ℕ_discrete}
use native.Mathlib.Nat.{mul-add}
use amaterasu.Base.{
  ℕ, zero, suc, ◌+◌, ◌-◌, ◌*◌, ◌%◌, ◌^◌, ◌≤◌, ◌<◌, ◌≡◌, ◌≢◌, ◌⊎◌, inl, inr, refl, sym, ◌∙◌, true,
  false, none, some, arith, Bool-cases, eq_of_ne,
}
use mathlib.Core.Bool.{false≢true}
use amaterasu.Util.{strncmp}
use amaterasu.Util.Bytes.{strncmp-Agree}
use amaterasu.Fat.{File, Partition, matches, file_of, search_entries}

-- Entry `j` is in use, and its name begins with the name looked for.
pub record IsNamed (memory : ℕ → ℕ) (filename length buffer j : ℕ) : Type 0 where
  pub used : memory (buffer + 32 * j) ≢ 0
  pub name : (k : ℕ) → k < length → memory (filename + k) ≡ memory (buffer + 32 * j + k)

-- The first cluster and the size of a file as its entry holds them, the lowest byte first.
abbrev pub first_cluster : (memory : ℕ → ℕ) (entry : ℕ) → ℕ
first_cluster memory entry = memory (entry + 26) + 256 * memory (entry + 27)

abbrev pub file_size : (memory : ℕ → ℕ) (entry : ℕ) → ℕ
file_size memory entry =
    memory (entry + 28)
    + 256 * memory (entry + 29)
    + 65536 * memory (entry + 30)
    + 16777216 * memory (entry + 31)

-- The file starts at its first cluster, modulo 2 ^ 32; the clusters of the data region count from 2.
pub record IsFile (memory : ℕ → ℕ) (buffer j : ℕ) (p : Partition) (f : File) : Type 0 where
  pub start :
      let cluster = first_cluster memory (buffer + 32 * j) in
      2 ≤ cluster → f.start ≡ (p.data_start_lba + p.sectors_of_cluster * (cluster - 2)) % 2 ^ 32
  pub size : f.size ≡ file_size memory (buffer + 32 * j)

abbrev pub NoneNamed : (memory : ℕ → ℕ) (filename length buffer from to : ℕ) → Type 0
NoneNamed memory filename length buffer from to =
    (j : ℕ) → from ≤ j → j < to → ¬ IsNamed memory filename length buffer j

matches-IsNamed :
    (memory : ℕ → ℕ) (filename length buffer j : ℕ)
    → matches memory filename length buffer j ≡ true
    → IsNamed memory filename length buffer j
matches-IsNamed memory filename length buffer j m =
    let a : ℕ → ℕ = λ k. memory (filename + k) in
    let b : ℕ → ℕ = λ k. memory (buffer + 32 * j + k) in
    let same : strncmp a b length ≡ 0 = ground arith in
    record {
      used = λ e. ground arith;
      name = λ k lt. (strncmp-Agree a b length).0 same k (omega arith) (omega arith);
    }

IsNamed-matches :
    (memory : ℕ → ℕ) (filename length buffer j : ℕ)
    → IsNamed memory filename length buffer j
    → matches memory filename length buffer j ≡ true
IsNamed-matches memory filename length buffer j n =
    let a : ℕ → ℕ = λ k. memory (filename + k) in
    let b : ℕ → ℕ = λ k. memory (buffer + 32 * j + k) in
    let same : strncmp a b length ≡ 0 =
      (strncmp-Agree a b length).1 (λ k lo hi. n.name k (omega arith)) in
    rw (eq_of_ne (memory (buffer + 32 * j)) 0 n.used, same) refl

first_sector : (s c : ℕ) → 2 ≤ c → s * (c + (2 ^ 32 - 2)) ≡ s * (c - 2) + 2 ^ 32 * s
first_sector s c two =
    let e : c + (2 ^ 32 - 2) ≡ c - 2 + 2 ^ 32 = omega arith in
    rw e (omega (arith, mul-add s (c - 2) (2 ^ 32)))

file_of-IsFile :
    (memory : ℕ → ℕ) (buffer j : ℕ) (p : Partition)
    → IsFile memory buffer j p (file_of memory buffer j p)
file_of-IsFile memory buffer j p =
    let at = buffer + 32 * j in
    let s = p.sectors_of_cluster in
    let a26 : at + 26 + 1 ≡ at + 27 = omega arith in
    let a28 : at + 28 + 1 ≡ at + 29 = omega arith in
    let a30 : at + 28 + 2 ≡ at + 30 = omega arith in
    let a31 : at + 30 + 1 ≡ at + 31 = omega arith in
    record {
      start = λ two. rw a26 (omega (arith, first_sector s (first_cluster memory at) two));
      size = rw (a28, a30, a31) (omega arith);
    }

-- The search returns the file of the first entry that is in use and whose name begins with the name
-- looked for, with the start and the size that the entry holds, and no file if there is no such entry.
pub search_entries_lem :
    (rounds i : ℕ) (memory : ℕ → ℕ) (filename length buffer : ℕ) (p : Partition)
    → let found = search_entries rounds i memory filename length buffer p in
      ((found ≡ none) × NoneNamed memory filename length buffer i (i + rounds))
      ⊎ ((j : ℕ) × (f : File) × (i ≤ j)
          × (j < i + rounds)
          × (found ≡ some f)
          × IsFile memory buffer j p f
          × IsNamed memory filename length buffer j
          × NoneNamed memory filename length buffer i j)
unfolding search_entries
search_entries_lem zero i memory filename length buffer p =
    inl (refl, λ j lo hi. absurd (omega arith))
search_entries_lem (suc rounds) i memory filename length buffer p =
    elim (Bool-cases (matches memory filename length buffer i)) [
      | inl here ↦ inr (
        i,
        file_of memory buffer i p,
        omega arith,
        omega arith,
        rw here refl,
        file_of-IsFile memory buffer i p,
        matches-IsNamed memory filename length buffer i here,
        λ j lo hi. absurd (omega arith),
      )
      | inr no_here ↦
          rw no_here (elim (search_entries_lem rounds (i + 1) memory filename length buffer p) [
            | inl (run, later) ↦
                inl
                  (run, λ j lo hi. not_named j no_here (λ ne. later j (omega arith) (omega arith)))
            | inr (j, f, lo, hi, run, file, named, before) ↦ inr (
              j,
              f,
              omega arith,
              omega arith,
              run,
              file,
              named,
              λ k lo' hi'. not_named k no_here (λ ne. before k (omega arith) (omega arith)),
            )
          ])
    ]
  where
    not_named :
        (k : ℕ)
        → matches memory filename length buffer i ≡ false
        → (k ≢ i → ¬ IsNamed memory filename length buffer k)
        → ¬ IsNamed memory filename length buffer k
    not_named k no_here other = elim (ℕ_discrete k i) [
      | yes e ↦ λ n.
          let n' : IsNamed memory filename length buffer i = rw e at n in
          let m = IsNamed-matches memory filename length buffer i n' in false≢true (sym no_here ∙ m)
      | no ne ↦ other ne
    ]

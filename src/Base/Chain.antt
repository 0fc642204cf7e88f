-- ===== src/Base/Chain.antt =====
-- Doubly linked lists whose nodes are named by numbers: `pv` and `nx` are the links of each node,
-- and a null pointer is `none`.
use Prim.Native.Nat.{ℕ}
use mathlib.Core.Path.{◌≡◌, refl, ap, ◌∙◌, sym}
use mathlib.Core.Logic.{◌⊎◌, inl}
use mathlib.Core.Bool.{Bool, true, false, ◌||◌, false≢true}
use mathlib.Core.List.{List, [], ◌∷◌}
use mathlib.Core.Option.{Option, none, some}
use native.Mathlib.Omega.{arith}
use native.Mathlib.Decide.{ℕ_discrete}
use amaterasu.Base.Tests.{◌==◌, if◌then◌else◌, eq_self, eq_of_ne}

abbrev pub elem : ℕ → List ℕ → Bool
elem x [] = false
elem x (y ∷ ys) = (x == y) || elem x ys

abbrev pub erase : ℕ → List ℕ → List ℕ
erase x [] = []
erase x (y ∷ ys) = if x == y then ys else y ∷ erase x ys

abbrev pub Distinct : List ℕ → Type 0
Distinct [] = Unit {0}
Distinct (x ∷ xs) = (elem x xs ≡ false) × Distinct xs

abbrev pub points : Option ℕ → ℕ → Bool
points none q = false
points (some x) q = x == q

-- From `ptr` the `next` links lead through `xs` to null, and each `prev` link leads back.
abbrev pub Chain : (pv nx : ℕ → Option ℕ) (before ptr : Option ℕ) → List ℕ → Type 0
Chain pv nx before ptr [] = ptr ≡ none
Chain pv nx before ptr (x ∷ xs) = (ptr ≡ some x) × (pv x ≡ before) × Chain pv nx (some x) (nx x) xs

-- Only the links of its own nodes matter to a chain.
pub Chain-frame :
    (xs : List ℕ) (pv nx pv' nx' : ℕ → Option ℕ) (before ptr : Option ℕ)
    → ((q : ℕ) → elem q xs ≡ true → (pv' q ≡ pv q) × (nx' q ≡ nx q))
    → Chain pv nx before ptr xs
    → Chain pv' nx' before ptr xs
Chain-frame [] pv nx pv' nx' before ptr same c = c
Chain-frame (x ∷ xs) pv nx pv' nx' before ptr same c =
    let here : (pv' x ≡ pv x) × (nx' x ≡ nx x) = same x (ground arith) in
    (
      c.0,
      here.0 ∙ c.1,
      rw here.1 (Chain-frame xs pv nx pv' nx' (some x) (nx x) (λ q m. same q (ground arith)) c.2),
    )

-- A member of a list is not what the list does not hold.
pub apart : (x p q : ℕ) (xs : List ℕ) → elem p xs ≡ false → elem q xs ≡ true → (q == p) ≡ false
apart x p q xs out m = elim (ℕ_discrete q p) [
  | yes e ↦ absurd (false≢true (sym out ∙ rw (← e) m))
  | no ne ↦ ground arith
]

-- The links after a node is put before the node that was first.
abbrev pub push_prev : (pv : ℕ → Option ℕ) (front : Option ℕ) (p : ℕ) → ℕ → Option ℕ
push_prev pv front p q = if points front q then some p else if q == p then none else pv q

abbrev pub push_next : (nx : ℕ → Option ℕ) (front : Option ℕ) (p : ℕ) → ℕ → Option ℕ
push_next nx front p q = if q == p then front else nx q

pub Chain-push :
    (xs : List ℕ) (pv nx : ℕ → Option ℕ) (front : Option ℕ) (p : ℕ)
    → elem p xs ≡ false
    → Distinct xs
    → Chain pv nx none front xs
    → Chain (push_prev pv front p) (push_next nx front p) none (some p) (p ∷ xs)
Chain-push [] pv nx front p out d c = ground arith
Chain-push (x ∷ xs) pv nx front p out d c = (refl, ground arith, (ground arith, ground arith, rest))
  where
    rest : Chain (push_prev pv front p) (push_next nx front p) (some x) (push_next nx front p x) xs
    rest =
        let ne : (x == p) ≡ false = ground arith in
        rw ne (
          Chain-frame xs pv nx (push_prev pv front p) (push_next nx front p) (some x) (nx x)
            (λ q m. ground (arith, apart x p q xs, apart p x q xs)) c.2)

-- The links after a node is taken out.
abbrev pub unlink_prev : (pv nx : ℕ → Option ℕ) (p : ℕ) → ℕ → Option ℕ
unlink_prev pv nx p q = if q == p then none else if points (nx p) q then pv p else pv q

abbrev pub unlink_next : (pv nx : ℕ → Option ℕ) (p : ℕ) → ℕ → Option ℕ
unlink_next pv nx p q = if q == p then none else if points (pv p) q then nx p else nx q

pub first_prev :
    (xs : List ℕ) (pv nx : ℕ → Option ℕ) (before ptr : Option ℕ) (p : ℕ)
    → Chain pv nx before ptr xs
    → ptr ≡ some p
    → (pv p ≡ before) × (elem p xs ≡ true)
first_prev [] pv nx before ptr p c e = cc
first_prev (x ∷ xs) pv nx before ptr p c e =
    let same : x ≡ p = ground arith in rw (← same) (c.1, ground arith)

-- The link back of a node but the first leads into the chain.
pub prev_inside :
    (xs : List ℕ) (pv nx : ℕ → Option ℕ) (before ptr : Option ℕ) (p y : ℕ)
    → Chain pv nx before ptr xs
    → elem p xs ≡ true
    → pv p ≡ some y
    → (ptr ≡ some p) ⊎ (elem y xs ≡ true)
prev_inside [] pv nx before ptr p y c m e = cc
prev_inside (x ∷ xs) pv nx before ptr p y c m e = elim (ℕ_discrete p x) [
  | yes here ↦ inl (rw here c.0)
  | no past ↦ ground (
    arith,
    prev_inside xs pv nx (some x) (nx x) p y c.2 (ground arith) e,
    first_prev xs pv nx (some x) (nx x) p c.2,
  )
]

pub next_inside :
    (xs : List ℕ) (pv nx : ℕ → Option ℕ) (before ptr : Option ℕ) (p y : ℕ)
    → Chain pv nx before ptr xs
    → elem p xs ≡ true
    → nx p ≡ some y
    → elem y xs ≡ true
next_inside [] pv nx before ptr p y c m e = cc
next_inside (x ∷ xs) pv nx before ptr p y c m e = elim (ℕ_discrete p x) [
  | yes here ↦ ground (arith, first_prev xs pv nx (some x) (nx x) y c.2 (ap nx (sym here) ∙ e))
  | no past ↦ ground (arith, next_inside xs pv nx (some x) (nx x) p y c.2 (ground arith) e)
]

-- A node with no link back is the first.
pub prev_none :
    (xs : List ℕ) (pv nx : ℕ → Option ℕ) (before ptr : Option ℕ) (p : ℕ)
    → Chain pv nx before ptr xs
    → elem p xs ≡ true
    → pv p ≡ none
    → ptr ≡ some p
prev_none [] pv nx before ptr p c m e = cc
prev_none (x ∷ xs) pv nx before ptr p c m e = elim (ℕ_discrete p x) [
  | yes here ↦ rw here c.0
  | no past ↦
      let first = prev_none xs pv nx (some x) (nx x) p c.2 (ground arith) e in
      ground (arith, first_prev xs pv nx (some x) (nx x) p c.2 first)
]

pub elem-erase : (q p : ℕ) (xs : List ℕ) → elem q (erase p xs) ≡ true → elem q xs ≡ true
elem-erase q p [] m = m
elem-erase q p (x ∷ xs) m = ground (arith, elem-erase q p xs)

pub erase-Distinct : (p : ℕ) (xs : List ℕ) → Distinct xs → Distinct (erase p xs)
erase-Distinct p [] d = d
erase-Distinct p (x ∷ xs) d = elim (ℕ_discrete p x) [
  | yes here ↦ rw (here, eq_self x) d.1
  | no past ↦ rw (eq_of_ne p x past) (ground (arith, elem-erase x p xs), erase-Distinct p xs d.1)
]

-- The node before a chain is none of its nodes.
abbrev pub Outside : Option ℕ → List ℕ → Type 0
Outside before xs = (y : ℕ) → before ≡ some y → elem y xs ≡ false

unlink_first :
    (xs : List ℕ) (pv nx : ℕ → Option ℕ) (before : Option ℕ) (p : ℕ)
    → Chain pv nx before (some p) (p ∷ xs)
    → Distinct (p ∷ xs)
    → Outside before (p ∷ xs)
    → Chain (unlink_prev pv nx p) (unlink_next pv nx p) before (nx p) xs
unlink_first [] pv nx before p c d out = c.2
unlink_first (z ∷ zs) pv nx before p c d out = (
  c.2.0,
  ground (arith, c.2.0),
  rw stays (
      Chain-frame zs pv nx (unlink_prev pv nx p) (unlink_next pv nx p) (some z) (nx z)
        (λ q m. ground (arith, c.2.0, apart z p q zs, apart p z q zs, out q)) c.2.2),
)
  where
    stays : unlink_next pv nx p z ≡ nx z
    stays = ground (arith, out z)

link_back :
    (xs : List ℕ) (pv nx : ℕ → Option ℕ) (x p : ℕ) (ptr : Option ℕ)
    → Chain pv nx (some x) ptr xs
    → elem x xs ≡ false
    → elem p xs ≡ true
    → points (pv p) x ≡ points ptr p
link_back xs pv nx x p ptr c out m =
    ground (arith, first_prev xs pv nx (some x) ptr p c, prev_inside xs pv nx (some x) ptr p x c m)

pub Chain-unlink :
    (xs : List ℕ) (pv nx : ℕ → Option ℕ) (before ptr : Option ℕ) (p : ℕ)
    → Chain pv nx before ptr xs
    → Distinct xs
    → Outside before xs
    → elem p xs ≡ true
    → Chain
        (unlink_prev pv nx p)
        (unlink_next pv nx p)
        before
        (if points ptr p then nx p else ptr)
        (erase p xs)
Chain-unlink [] pv nx before ptr p c d out m = cc
Chain-unlink (x ∷ xs) pv nx before ptr p c d out m = elim (ℕ_discrete p x) [
  | yes here ↦ rw (here, c.0, eq_self x) (unlink_first xs pv nx before x (refl, c.1, c.2) d out)
  | no past ↦
      let ne : (p == x) ≡ false = ground arith in
      let ne' : (x == p) ≡ false = ground arith in
      let m' : elem p xs ≡ true = ground arith in
      let rest = Chain-unlink xs pv nx (some x) (nx x) p c.2 d.1 (λ y e. ground arith) m' in
      let back = link_back xs pv nx x p (nx x) c.2 d.0 m' in
      rw (c.0, ne, ne')
        (refl, ground (arith, next_inside xs pv nx (some x) (nx x) p x c.2 m'), rw back rest)
]

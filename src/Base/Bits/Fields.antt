-- ===== src/Base/Bits/Fields.antt =====
-- Bit fields of a 64-bit word: `get lo width w` reads one, `put lo width v w` assigns one.
use Prim.Native.Nat.{ℕ, ◌+◌, ◌*◌, ◌/◌, ◌%◌, ◌^◌}
use mathlib.Core.List.{List, [], ◌∷◌}

abbrev pub get : ℕ → ℕ → ℕ → ℕ
get lo width w = w / 2 ^ lo % 2 ^ width

abbrev pub put : ℕ → ℕ → ℕ → ℕ → ℕ
put lo width v w = w / 2 ^ (lo + width) * 2 ^ (lo + width) + v % 2 ^ width * 2 ^ lo + w % 2 ^ lo

-- Assignments to several fields: the place, the width and the value of each.
abbrev pub put_all : List (ℕ × ℕ × ℕ) → ℕ → ℕ
put_all [] w = w
put_all ((lo, width, v) ∷ fields) w = put_all fields (put lo width v w)

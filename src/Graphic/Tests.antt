-- ===== src/Graphic/Tests.antt =====
-- A number printed in hexadecimal digits.
use amaterasu.Base.{ℕ, ◌-◌, ◌/◌, ◌%◌, ◌^◌, ◌≡◌, ◌<◌, arith, some, get_or}
use amaterasu.Graphic.{hex_string}
use amaterasu.Graphic.Hex.{hexadecimal, hex_string_lem}

abbrev blank : ℕ → ℕ
blank k = 0

hex_string_lem_example :
    (text : ℕ → ℕ) × (hex_string 0xbeef blank ≡ some text)
    × ((k : ℕ) → k < 16 → text k ≡ get_or hexadecimal (0xbeef / 16 ^ (15 - k) % 16) 0)
    × (text 16 ≡ 0)
hex_string_lem_example = hex_string_lem 0xbeef blank (omega arith)

-- ===== src/Kbc/Tests.antt =====
-- Keys at concrete codes.
use amaterasu.Base.{ℕ, ◌≡◌, arith}
use amaterasu.Kbc.{calc_ascii_code, scan_code_at}
use amaterasu.Kbc.Keys.{plain_code, calc_ascii_code-scan_code}

abbrev behind : ℕ → ℕ
behind k = 0

calc_ascii_code-scan_code_example :
    calc_ascii_code (scan_code_at behind 30) 0 ≡ plain_code (scan_code_at behind 30)
calc_ascii_code-scan_code_example = calc_ascii_code-scan_code behind 30 (omega arith)

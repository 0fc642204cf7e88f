-- ===== src/Util/Tests.antt =====
-- Runs of util.c.
use amaterasu.Base.{
  ℕ, ◌≤◌, suc, ◌&&◌, ◌+◌, ◌%◌, ◌^◌, ◌≡◌, ◌<◌, ◌↔◌, some, arith, if◌then◌else◌, leb, ltb, ◌==◌,
}
use amaterasu.Util.{pow, log2, strncmp, memcpy, u64}
use amaterasu.Util.Power.{pow_lem, log2_total}
use amaterasu.Util.Bytes.{memcpy_lem, strncmp-Agree, Agree}

abbrev text : ℕ → ℕ
text k = if k == 3 then 0 else 65 + k

pow_lem_example : pow 3 5 ≡ some (3 ^ 5 % u64)
pow_lem_example = pow_lem 3 5 (omega arith)

log2_total_example : (k : ℕ) × (log2 10 ≡ some k) × (k < 64) × (2 ^ k ≤ 10) × (10 < 2 ^ suc k)
log2_total_example = log2_total 10 (omega arith) (omega arith)

memcpy_lem_example :
    memcpy 100 0 4 text 102 ≡ (if leb 100 102 && ltb 102 104 then text 2 else text 102)
memcpy_lem_example = memcpy_lem 100 0 4 102 text (omega arith)

strncmp-Agree_example : (strncmp text text 3 ≡ 0) ↔ Agree text text 0 3
strncmp-Agree_example = strncmp-Agree text text 3

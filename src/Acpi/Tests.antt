-- ===== src/Acpi/Tests.antt =====
-- A firmware table at 1000 with two entries: the table at 2000 and the one at 3000.
use amaterasu.Base.{ℕ, ◌≡◌, ◌<◌, ◌⊎◌, refl, ◌==◌, if◌then◌else◌}
use amaterasu.Util.{strncmp}
use amaterasu.Acpi.{entry, entry_num, find_sdt, find_entry}
use amaterasu.Acpi.Find.{HasSignature, find_sdt_lem}

abbrev memory : ℕ → ℕ
memory a =
    if a == 1004
    then 52
    else if a == 1036
    then 208
    else if a == 1037
    then 7
    else if a == 1044
    then 184
    else if a == 1045
    then 11
    else if a == 3000
    then 72
    else if a == 3001
    then 80
    else if a == 3002
    then 69
    else if a == 3003
    then 84
    else 0

-- "HPET"
abbrev hpet : ℕ → ℕ
hpet k = if k == 0 then 72 else if k == 1 then 80 else if k == 2 then 69 else 84

find_second : find_sdt memory 1000 hpet ≡ 3000
unfolding find_sdt find_entry strncmp
find_second = refl

find_sdt_lem_example :
    ((j : ℕ) × (j < entry_num memory 1000)
      × HasSignature memory 1000 hpet j
      × ((q : ℕ) → q < j → ¬ HasSignature memory 1000 hpet q)
      × (find_sdt memory 1000 hpet ≡ entry memory 1000 j))
    ⊎ (((q : ℕ) → q < entry_num memory 1000 → ¬ HasSignature memory 1000 hpet q)
        × (find_sdt memory 1000 hpet ≡ 0))
find_sdt_lem_example = find_sdt_lem memory 1000 hpet

-- ===== src/Ata/Init/Search.antt =====
-- What the search for drives of `ATAInit` keeps: whatever reads of ports and writes to the ports of the two
-- buses keep.
use amaterasu.Base.{
  ℕ, zero, suc, ◌+◌, ◌<◌, true, false, not, ◌&&◌, ◌||◌, Option, none, some, ◌==◌, if◌then◌else◌,
  update, arith, Bool-cases, inl, inr,
}
use amaterasu.X86.Ports.{Ports}
use amaterasu.Ata.{
  BusSelector, DriveSelector, status_register_bsy, status_register_drq, status_register_err,
}
use amaterasu.Ata.Init.{
  io_base, drive_byte, wait_idle, wait_data, identify_rest, ata_identify, discard_words, bus_of,
  drive_of, init_drives,
}

module _ (ports : Ports) (P : ports.Device → Type 0) where
  open ports use {Device, in_byte, in_short, out_byte}

  -- The device of a result satisfies `P`.
  abbrev pub After : {A : Type 0} → Option (A × Device) → Type 0
  After none = Unit
  After (some r) = P r.1

  module _ (reads : (port : ℕ) (d : Device) → P d → P (in_byte port d).1)
      (read_words : (port : ℕ) (d : Device) → P d → P (in_short port d).1)
      (writes : (bus : BusSelector) (k v : ℕ) (d : Device)
        → k < 8
        → P d
        → P (out_byte (io_base ports bus + k) v d)) where
    wait_idle-After :
        (fuel base status : ℕ) (d : Device) → P d → After (wait_idle ports fuel base status d)
    unfolding wait_idle
    wait_idle-After zero base status d p = tt
    wait_idle-After (suc fuel) base status d p =
        let next = in_byte (base + 7) d in
        elim (Bool-cases (status_register_bsy status == 0)) [
          | inl idle ↦ rw idle p
          | inr busy ↦ rw busy (wait_idle-After fuel base next.0 next.1 (reads (base + 7) d p))
        ]

    wait_data-After :
        (fuel base status : ℕ) (d : Device) → P d → After (wait_data ports fuel base status d)
    unfolding wait_data
    wait_data-After zero base status d p = tt
    wait_data-After (suc fuel) base status d p =
        let next = in_byte (base + 7) d in
        elim (Bool-cases ((status_register_drq status == 0) && (status_register_err status == 0))) [
          | inr ready ↦ rw ready p
          | inl waits ↦ rw waits (wait_data-After fuel base next.0 next.1 (reads (base + 7) d p))
        ]

    -- A step, and then the rest.
    bind-After :
        {A B : Type 0} (m : Option (A × Device)) (f : A → Device → Option (B × Device))
        → After m
        → ((a : A) (d : Device) → P d → After (f a d))
        → After (elim m as (λ _. Option (B × Device)) [ none ↦ none | some (a, d) ↦ f a d ])
    bind-After none f p rest = tt
    bind-After (some (a, d)) f p rest = rest a d p

    identify_rest-After :
        (fuel base status : ℕ) (d : Device) → P d → After (identify_rest ports fuel base status d)
    unfolding identify_rest
    identify_rest-After fuel base status d p =
        bind-After (wait_idle ports fuel base status d)
          (λ idle d1.
            let (lba_mid, d2) = in_byte (base + 4) d1 in
            let (lba_high, d3) = in_byte (base + 5) d2 in
            if not (lba_mid == 0)
            then some (false, d2)
            else if not (lba_high == 0)
            then some (false, d3)
            else elim (wait_data ports fuel base idle d3) [
              | none ↦ none
              | some (last, d4) ↦ some (status_register_err last == 0, d4)
            ])
          (wait_idle-After fuel base status d p)
          (λ idle d1 p1.
            let mid = in_byte (base + 4) d1 in
            let p2 = reads (base + 4) d1 p1 in
            let p3 = reads (base + 5) mid.1 p2 in
            elim (Bool-cases (mid.0 == 0)) [
              | inr other ↦ rw other p2
              | inl disk ↦ rw disk (
                  let high = in_byte (base + 5) mid.1 in
                  elim (Bool-cases (high.0 == 0)) [
                    | inr other ↦ rw other p3
                    | inl disk' ↦ rw disk' (
                        bind-After (wait_data ports fuel base idle high.1)
                          (λ last d4. some (status_register_err last == 0, d4))
                          (wait_data-After fuel base idle high.1 p3) (λ last d4 p4. p4))
                  ])
            ])

    ata_identify-After :
        (fuel : ℕ) (bus : BusSelector) (drive : DriveSelector) (d : Device)
        → P d
        → After (ata_identify ports fuel bus drive d)
    unfolding ata_identify
    ata_identify-After fuel bus drive d p =
        let base = io_base ports bus in
        let p1 = writes bus 6 (drive_byte ports drive) d (omega arith) p in
        let d1 = out_byte (base + 6) (drive_byte ports drive) d in
        let p2 = writes bus 2 0 d1 (omega arith) p1 in
        let d2 = out_byte (base + 2) 0 d1 in
        let p3 = writes bus 3 0 d2 (omega arith) p2 in
        let d3 = out_byte (base + 3) 0 d2 in
        let p4 = writes bus 4 0 d3 (omega arith) p3 in
        let d4 = out_byte (base + 4) 0 d3 in
        let p5 = writes bus 5 0 d4 (omega arith) p4 in
        let d5 = out_byte (base + 5) 0 d4 in
        let p6 = writes bus 7 0xec d5 (omega arith) p5 in
        let d6 = out_byte (base + 7) 0xec d5 in
        let p7 = reads (base + 7) d6 p6 in
        let first = in_byte (base + 7) d6 in
        elim (Bool-cases ((first.0 == 0x0) || (first.0 == 0xff))) [
          | inl absent ↦ rw absent p7
          | inr there ↦ rw there (identify_rest-After fuel base first.0 first.1 p7)
        ]

    discard_words-After :
        (rounds port : ℕ) (d : Device) → P d → P (discard_words ports rounds port d)
    unfolding discard_words
    discard_words-After zero port d p = p
    discard_words-After (suc rounds) port d p =
        discard_words-After rounds port (in_short port d).1 (read_words port d p)

    pub init_drives-After :
        (fuel rounds drive : ℕ) (valid : ℕ → ℕ) (d : Device)
        → P d
        → After (init_drives ports fuel rounds drive valid d)
    unfolding init_drives
    init_drives-After fuel zero drive valid d p = p
    init_drives-After fuel (suc rounds) drive valid d p =
        let bus = bus_of ports drive in
        bind-After (ata_identify ports fuel bus (drive_of ports drive) d)
          (λ active d1.
            if active
            then init_drives ports fuel rounds (drive + 1) (update valid drive 1)
                (discard_words ports 256 (io_base ports bus) d1)
            else init_drives ports fuel rounds (drive + 1) valid d1)
          (ata_identify-After fuel bus (drive_of ports drive) d p)
          (λ active d1 p1.
            elim active
              as (λ b. After (
                if b
                then init_drives ports fuel rounds (drive + 1) (update valid drive 1)
                    (discard_words ports 256 (io_base ports bus) d1)
                else init_drives ports fuel rounds (drive + 1) valid d1)) [
                  | true ↦
                      init_drives-After fuel rounds (drive + 1) (update valid drive 1)
                        (discard_words ports 256 (io_base ports bus) d1)
                        (discard_words-After 256 (io_base ports bus) d1 p1)
                  | false ↦ init_drives-After fuel rounds (drive + 1) valid d1 p1
                ])

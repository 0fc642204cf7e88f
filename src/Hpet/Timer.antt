-- ===== src/Hpet/Timer.antt =====
-- The timer after `HPETInit` and `HPETStartPeriodicTimer`, on a device that behaves as its specification
-- says.
use native.Mathlib.Nat.{div-add-mod, mod-lt}
use amaterasu.Base.{ℕ, ◌+◌, ◌*◌, ◌/◌, ◌%◌, ◌≡◌, ◌<◌, ◌≤◌, refl, ◌∙◌, arith}
use amaterasu.Base.Bits.Fields.{get}
use amaterasu.Util.{u64}
use amaterasu.Hpet.{
  Registers, us_to_fs, gcidr_offset, gcr_offset, mcr_offset, tnccr_offset, tncr_offset, enable_cnf,
  tn_val_set_cnf, stopped, periodic, change, init_registers, hpet_start_periodic_timer,
}

-- What the registers set in the device: whether the main counter runs and takes the legacy route; of the
-- first timer, the level trigger, the interrupt, the periodic mode, the mode of 32 bits, the interrupts by
-- messages, and whether the next write to the comparator sets the period; the period in clocks; and the
-- value from which the main counter runs, or where it stands.
pub record Settings : Type 0 where
  pub enabled : ℕ
  pub legacy : ℕ
  pub level : ℕ
  pub interrupts : ℕ
  pub repeats : ℕ
  pub narrow : ℕ
  pub messages : ℕ
  pub setting : ℕ
  pub count : ℕ
  pub from : ℕ

-- The settings of the first timer as the bits of its configuration hold them. Bit 6 always reads as 0, and
-- the other bits say what the device is able to do.
pub record Configures (tnccr : ℕ) (s : Settings) : Type 0 where
  pub level : get 1 1 tnccr ≡ s.level
  pub interrupts : get 2 1 tnccr ≡ s.interrupts
  pub repeats : get 3 1 tnccr ≡ s.repeats
  pub narrow : get 8 1 tnccr ≡ s.narrow
  pub messages : get 14 1 tnccr ≡ s.messages

-- The specification of the device, with a first timer that is able to be periodic. Reading changes no
-- setting. A write to a configuration changes its settings and nothing else. The comparator is set while
-- the bit for it is, which clears itself then; the main counter is set while it stands.
pub record Behaves (registers : Registers) (base : ℕ) : Type 0 where
  pub settings : registers.Timer → Settings
  pub reads : (a : ℕ) (t : registers.Timer) → settings (registers.read a t).1 ≡ settings t
  pub gcr_value :
      (t : registers.Timer)
      → let w = (registers.read (base + gcr_offset) t).0 in
        (get 0 1 w ≡ (settings t).enabled) × (get 1 1 w ≡ (settings t).legacy)
  pub gcr_set :
      (v : ℕ) (t : registers.Timer)
      → settings (registers.write (base + gcr_offset) v t)
        ≡ record (settings t) { enabled = get 0 1 v; legacy = get 1 1 v }
  pub tnccr_value :
      (t : registers.Timer) → Configures (registers.read (base + tnccr_offset) t).0 (settings t)
  pub tnccr_set :
      (v : ℕ) (t : registers.Timer)
      → settings (registers.write (base + tnccr_offset) v t) ≡ record (settings t) {
        level = get 1 1 v;
        interrupts = get 2 1 v;
        repeats = get 3 1 v;
        narrow = get 8 1 v;
        messages = get 14 1 v;
        setting = get 6 1 v;
      }
  pub tncr_set :
      (v : ℕ) (t : registers.Timer)
      → (settings t).repeats ≡ 1
      → (settings t).setting ≡ 1
      → settings (registers.write (base + tncr_offset) v t)
        ≡ record (settings t) { count = v; setting = 0 }
  pub mcr_set :
      (v : ℕ) (t : registers.Timer)
      → (settings t).enabled ≡ 0
      → settings (registers.write (base + mcr_offset) v t) ≡ record (settings t) { from = v }

-- The settings of a periodic timer that interrupts at edges, in its full width and in the legacy route.
abbrev periodic_settings : (enabled setting count from : ℕ) → Settings
periodic_settings enabled setting count from = record {
  enabled = enabled;
  legacy = 1;
  level = 0;
  interrupts = 1;
  repeats = 1;
  narrow = 0;
  messages = 0;
  setting = setting;
  count = count;
  from = from;
}

-- The timer runs from 0, and its count is that of the longest time of at most `us` microseconds.
pub record IsStarted (s : Settings) (period us : ℕ) : Type 0 where
  pub running : (s.enabled ≡ 1) × (s.legacy ≡ 1) × (s.from ≡ 0)
  pub repeating :
      (s.repeats ≡ 1) × (s.interrupts ≡ 1) × (s.level ≡ 0) × (s.narrow ≡ 0) × (s.messages ≡ 0)
  pub count : (s.count * period ≤ us * us_to_fs) × (us * us_to_fs < (s.count + 1) * period)

stopped_lem : (w : ℕ) → (get 0 1 (stopped w) ≡ 0) × (get 1 1 (stopped w) ≡ 1)
unfolding stopped
stopped_lem w = omega arith

enabled_lem :
    (w : ℕ) → get 1 1 w ≡ 1 → (get 0 1 (enable_cnf 1 w) ≡ 1) × (get 1 1 (enable_cnf 1 w) ≡ 1)
enabled_lem w h = omega arith

periodic_lem :
    (w count from : ℕ)
    → Configures (periodic w) (periodic_settings 0 0 count from) × (get 6 1 (periodic w) ≡ 0)
unfolding periodic
periodic_lem w count from = (
  record {
    level = omega arith;
    interrupts = omega arith;
    repeats = omega arith;
    narrow = omega arith;
    messages = omega arith;
  },
  omega arith,
)

val_set_lem :
    (w : ℕ) (s : Settings)
    → Configures w s
    → Configures (tn_val_set_cnf 1 w) s × (get 6 1 (tn_val_set_cnf 1 w) ≡ 1)
val_set_lem w s c = (
  record {
    level = omega (arith, c.level);
    interrupts = omega (arith, c.interrupts);
    repeats = omega (arith, c.repeats);
    narrow = omega (arith, c.narrow);
    messages = omega (arith, c.messages);
  },
  omega arith,
)

-- The quotient is the largest number of periods that the time holds.
quotient_lem :
    (n period : ℕ) → 0 < period → (n / period * period ≤ n) × (n < (n / period + 1) * period)
quotient_lem n period pos =
    let whole = div-add-mod n period in
    let rest : n % period < period = mod-lt n pos in
    (grind (arith, whole), grind (arith, whole, rest))

module _ (registers : Registers) (base : ℕ) (laws : Behaves registers base) where
  open registers use {Timer, read, write}
  open laws use {settings}

  -- A change of the general configuration to these bits.
  change-gcr :
      (set : ℕ → ℕ) (enabled legacy : ℕ) (t : Timer)
      → let w = (read (base + gcr_offset) t).0 in
        get 0 1 (set w) ≡ enabled
        → get 1 1 (set w) ≡ legacy
        → settings (change registers (base + gcr_offset) set t)
          ≡ record (settings t) { enabled = enabled; legacy = legacy }
  unfolding change
  change-gcr set enabled legacy t e l =
      let (w, t') = read (base + gcr_offset) t in
      rw (laws.gcr_set (set w) t', laws.reads (base + gcr_offset) t, e, l) refl

  -- A change of the first timer's configuration to that of `s`.
  change-tnccr :
      (set : ℕ → ℕ) (setting : ℕ) (s : Settings) (t : Timer)
      → let w = (read (base + tnccr_offset) t).0 in
        Configures (set w) s
        → get 6 1 (set w) ≡ setting
        → settings (change registers (base + tnccr_offset) set t) ≡ record (settings t) {
          level = s.level;
          interrupts = s.interrupts;
          repeats = s.repeats;
          narrow = s.narrow;
          messages = s.messages;
          setting = setting;
        }
  unfolding change
  change-tnccr set setting s t c six =
      let (w, t') = read (base + tnccr_offset) t in
      rw
        (
          laws.tnccr_set (set w) t',
          laws.reads (base + tnccr_offset) t,
          c.level,
          c.interrupts,
          c.repeats,
          c.narrow,
          c.messages,
          six,
        )
        refl

  -- After `HPETInit` the main counter stands.
  init-settings :
      (t : Timer)
      → settings (init_registers registers base t).1
        ≡ periodic_settings 0 0 (settings t).count (settings t).from
  unfolding init_registers
  init-settings t =
      let w = (read (base + gcr_offset) t).0 in
      let t1 = change registers (base + gcr_offset) stopped t in
      let t2 = (read (base + gcidr_offset) t1).1 in
      let w2 = (read (base + tnccr_offset) t2).0 in
      let s = settings t in
      let (stop, route) = stopped_lem w in
      let (c, six) = periodic_lem w2 s.count s.from in
      rw
        (
          change-tnccr periodic 0 (periodic_settings 0 0 s.count s.from) t2 c six,
          laws.reads (base + gcidr_offset) t1,
          change-gcr stopped 0 1 t stop route,
        )
        refl

  -- After `HPETStartPeriodicTimer` it runs from 0.
  start-settings :
      (us period count from : ℕ) (t : Timer)
      → settings t ≡ periodic_settings 0 0 count from
      → settings (
          hpet_start_periodic_timer registers us
            (record { hpet_base_address = base; hpet_clk_period = period })
            t)
        ≡ periodic_settings 1 0 (us * us_to_fs % u64 / period) 0
  unfolding hpet_start_periodic_timer
  start-settings us period count from t e =
      let n = us * us_to_fs % u64 / period in
      let w = (read (base + tnccr_offset) t).0 in
      let t1 = change registers (base + tnccr_offset) (tn_val_set_cnf 1) t in
      let t2 = write (base + tncr_offset) n t1 in
      let t3 = write (base + mcr_offset) 0 t2 in
      let w3 = (read (base + gcr_offset) t3).0 in
      let (c, six) = val_set_lem w (settings t) (laws.tnccr_value t) in
      let e1 : settings t1 ≡ periodic_settings 0 1 count from =
        change-tnccr (tn_val_set_cnf 1) 1 (settings t) t c six ∙ rw e refl in
      let e2 : settings t2 ≡ periodic_settings 0 0 n from =
        laws.tncr_set n t1 (rw e1 refl) (rw e1 refl) ∙ rw e1 refl in
      let e3 : settings t3 ≡ periodic_settings 0 0 n 0 =
        laws.mcr_set 0 t2 (rw e2 refl) ∙ rw e2 refl in
      let route : get 1 1 w3 ≡ 1 = (laws.gcr_value t3).1 ∙ rw e3 refl in
      let (on, kept) = enabled_lem w3 route in change-gcr (enable_cnf 1) 1 1 t3 on kept ∙ rw e3 refl

  -- On a device that behaves as its specification says, and where `us` microseconds in femtoseconds stay
  -- below 2 ^ 64 and the clock period that `HPETInit` reads is not 0: after `HPETInit` and
  -- `HPETStartPeriodicTimer` the main counter runs from 0 in the legacy route, and the first timer
  -- interrupts periodically, with the largest number of clock periods that `us` microseconds hold.
  pub hpet_start_periodic_timer-IsStarted :
      (us : ℕ) (t : Timer)
      → us * us_to_fs < u64
      → let (period, t1) = init_registers registers base t in
        0 < period
        → IsStarted
            (settings (
              hpet_start_periodic_timer registers us
                (record { hpet_base_address = base; hpet_clk_period = period })
                t1))
            period
            us
  hpet_start_periodic_timer-IsStarted us t small pos =
      let (period, t1) = init_registers registers base t in
      let s = settings t in
      let whole : us * us_to_fs % u64 ≡ us * us_to_fs = omega arith in
      rw (start-settings us period s.count s.from t1 (init-settings t), whole)
        (record {
          running = (refl, refl, refl);
          repeating = (refl, refl, refl, refl, refl);
          count = quotient_lem (us * us_to_fs) period pos;
        })

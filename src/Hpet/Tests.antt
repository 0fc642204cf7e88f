-- ===== src/Hpet/Tests.antt =====
-- A device whose registers are words in an array, and one with a clock of 10 nanoseconds that behaves as
-- the specification says.
use amaterasu.Base.{ℕ, ◌<◌, ◌≡◌, refl, true, arith, update, ◌==◌, if◌then◌else◌}
use amaterasu.Base.Bits.Fields.{get, put}
use amaterasu.Hpet.{Registers, hpet_start_periodic_timer, init_registers, change}
use amaterasu.Hpet.Timer.{
  Settings, Configures, Behaves, IsStarted, hpet_start_periodic_timer-IsStarted,
}

abbrev pub plain : Registers
plain = record { Timer = ℕ → ℕ; read = λ a t. (t a, t); write = λ a v t. update t a v }

-- The configurations, the period, the value from which the main counter runs, and whether the next write to
-- the comparator sets the period.
record Device : Type 0 where
  pub gcr : ℕ
  pub tnccr : ℕ
  pub count : ℕ
  pub from : ℕ
  pub setting : ℕ

-- The timer is able to be periodic and to be 64 bits wide. While the main counter runs, a write to it is
-- lost, as is one to the comparator while it is not set.
abbrev clock : Registers
clock = record {
  Timer = Device;
  read = λ a t. (
    if a == 4096
        then 42949672960000000
        else if a == 4112
        then t.gcr
        else if a == 4352
        then put 4 2 3 t.tnccr
        else 0,
    t,
  );
  write = λ a v t.
      if a == 4112
      then record t { gcr = v }
      else if a == 4352
      then record t { tnccr = put 6 1 0 v; setting = get 6 1 v }
      else if a == 4360
      then (if t.setting == 1 then record t { count = v; setting = 0 } else t)
      else if a == 4336
      then (if get 0 1 t.gcr == 0 then record t { from = v } else t)
      else t;
}

abbrev settings_of : Device → Settings
settings_of t = record {
  enabled = get 0 1 t.gcr;
  legacy = get 1 1 t.gcr;
  level = get 1 1 t.tnccr;
  interrupts = get 2 1 t.tnccr;
  repeats = get 3 1 t.tnccr;
  narrow = get 8 1 t.tnccr;
  messages = get 14 1 t.tnccr;
  setting = t.setting;
  count = t.count;
  from = t.from;
}

-- The bit that sets the comparator is not among the settings that are read.
cleared :
    (v : ℕ)
    → (get 1 1 (put 6 1 0 v) ≡ get 1 1 v)
      × (get 2 1 (put 6 1 0 v) ≡ get 2 1 v)
      × (get 3 1 (put 6 1 0 v) ≡ get 3 1 v)
      × (get 8 1 (put 6 1 0 v) ≡ get 8 1 v)
      × (get 14 1 (put 6 1 0 v) ≡ get 14 1 v)
cleared v = omega arith

abled : (t : Device) → Configures (put 4 2 3 t.tnccr) (settings_of t)
abled t = record {
  level = omega arith;
  interrupts = omega arith;
  repeats = omega arith;
  narrow = omega arith;
  messages = omega arith;
}

clock-Behaves : Behaves clock 4096
clock-Behaves = record {
  settings = settings_of;
  reads = λ a t. refl;
  gcr_value = λ t. (refl, refl);
  gcr_set = λ v t. refl;
  tnccr_value = abled;
  tnccr_set = λ v t. let (a, b, c, d, e) = cleared v in rw (a, b, c, d, e) refl;
  tncr_set = λ v t periodic set. rw set refl;
  mcr_set = λ v t stands. let off : (get 0 1 t.gcr == 0) ≡ true = rw stands refl in rw off refl;
}

abbrev any_state : Device
any_state = record { gcr = 1; tnccr = 0; count = 7; from = 9; setting = 0 }

abbrev period : ℕ
period = (init_registers clock 4096 any_state).0

period_some : 0 < period
unfolding init_registers change
period_some = omega arith

hpet_start_periodic_timer-IsStarted_example :
    IsStarted
      (clock-Behaves.settings (
        hpet_start_periodic_timer clock 5000
          (record { hpet_base_address = 4096; hpet_clk_period = period })
          (init_registers clock 4096 any_state).1))
      period
      5000
hpet_start_periodic_timer-IsStarted_example =
    hpet_start_periodic_timer-IsStarted clock 4096 clock-Behaves 5000 any_state (omega arith)
      period_some

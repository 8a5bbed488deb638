-- ===== src/Calibration.antt =====
-- src/tsc_calibration.rs: cycles, nanoseconds and Unix time. What a calibration measures is an
-- argument. The frequency that is cached as bits is the float itself. `fast_cycles_to_ns` is in
-- Execution, which calls it.
pub mod Order
use rust_hotpath_ipc.Prelude.Words.{add_u64, sub_u64}
use rust_hotpath_ipc.Prelude.{ℕ, ◌-◌, ◌%◌, ◌^◌, Bool, Option, none, some, List, [], ◌∷◌, ltb}
use rust_hotpath_ipc.Float.{F64}

pub record TscCalibration (A : Type 0) : Type 0 where
  pub cycles_per_ns : A
  pub ns_per_cycle : A
  pub epoch_tsc : ℕ
  pub epoch_unix_ns : ℕ
  pub last_calibration : ℕ
  pub cpu_frequency_hz : ℕ

-- The clock readings of a calibration, in its order: instants in ns, and the time since the Unix
-- epoch, which `none` is before.
pub record Readings : Type 0 where
  pub start_instant : ℕ
  pub start_tsc : ℕ
  pub end_instant : ℕ
  pub end_tsc : ℕ
  pub since_unix_epoch : Option ℕ
  pub epoch_tsc : ℕ
  pub last_instant : ℕ

-- `unwrap_or_default().as_nanos() as u64`.
unfoldable pub unix_ns : Option ℕ → ℕ
unix_ns none = 0
unix_ns (some ns) = ns % 2 ^ 64

-- The two statics: the calibration and the frequency for the fast path.
pub record Clock (A : Type 0) : Type 0 where
  pub calibration : TscCalibration A
  pub cycles_per_ns_cached : A

module _ (F : F64) where
  open F use {Float, num, mul, div, to_nat}

  -- `calibrate_with_duration`; both differences saturate.
  unfoldable pub calibrate : Readings → TscCalibration Float
  unfolding unix_ns
  calibrate r =
      let elapsed_ns = num (r.end_instant - r.start_instant) in
      let elapsed_cycles = num (r.end_tsc - r.start_tsc) in
      let cycles_per_ns = div elapsed_cycles elapsed_ns in
      record {
        cycles_per_ns = cycles_per_ns;
        ns_per_cycle = div elapsed_ns elapsed_cycles;
        epoch_tsc = r.epoch_tsc;
        epoch_unix_ns = unix_ns r.since_unix_epoch;
        last_calibration = r.last_instant;
        cpu_frequency_hz = to_nat (mul cycles_per_ns (num 1_000_000_000));
      }

  unfoldable pub cycles_to_ns : TscCalibration Float → ℕ → ℕ
  cycles_to_ns cal cycles = to_nat (mul (num cycles) cal.ns_per_cycle)

  unfoldable pub ns_to_cycles : TscCalibration Float → ℕ → ℕ
  ns_to_cycles cal ns = to_nat (mul (num ns) cal.cycles_per_ns)

  unfoldable pub tsc_to_unix_ns : TscCalibration Float → ℕ → ℕ
  unfolding cycles_to_ns
  tsc_to_unix_ns cal tsc =
      let elapsed_cycles = sub_u64 tsc cal.epoch_tsc in
      add_u64 cal.epoch_unix_ns (cycles_to_ns cal elapsed_cycles)

  unfoldable pub unix_ns_to_tsc : TscCalibration Float → ℕ → ℕ
  unfolding ns_to_cycles
  unix_ns_to_tsc cal unix_ns =
      let elapsed_ns = sub_u64 unix_ns cal.epoch_unix_ns in
      add_u64 cal.epoch_tsc (ns_to_cycles cal elapsed_ns)

  -- `now` is the reading of `elapsed()`.
  unfoldable pub needs_refresh : ℕ → TscCalibration Float → Bool
  needs_refresh now cal = ltb 60_000_000_000 (now - cal.last_calibration)

  -- The statics at their first use.
  unfoldable pub first_clock : Readings → Clock Float
  unfolding calibrate
  first_clock r =
      let cal = calibrate r in
      record { calibration = cal; cycles_per_ns_cached = cal.cycles_per_ns }

  unfoldable pub fast_tsc_to_unix_ns : Clock Float → ℕ → ℕ
  unfolding tsc_to_unix_ns
  fast_tsc_to_unix_ns clock tsc = tsc_to_unix_ns clock.calibration tsc

  unfoldable pub refresh_calibration : Readings → Clock Float → Clock Float
  unfolding calibrate
  refresh_calibration r clock =
      let new_cal = calibrate r in
      let clock' = record clock { cycles_per_ns_cached = new_cal.cycles_per_ns } in
      record clock' { calibration = new_cal }

  -- The rounds of the thread of `start_auto_refresh`.
  unfoldable pub auto_refresh : List Readings → Clock Float → Clock Float
  unfolding refresh_calibration
  auto_refresh [] clock = clock
  auto_refresh (r ∷ rs) clock = auto_refresh rs (refresh_calibration r clock)

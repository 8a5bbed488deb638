-- ===== src/Tests/ClockRuns.antt =====
-- Runs of the conversions between cycles and Unix time.
use rust_hotpath_ipc.Prelude.{
  ℕ, ◌+◌, ◌*◌, ◌/◌, ◌%◌, ◌^◌, ◌≤◌, ◌<◌, ◌≡◌, refl, true, some, [], ◌∷◌, arith,
}
use rust_hotpath_ipc.Prelude.Int.{pos, pos_part, ℤ}
use rust_hotpath_ipc.Float.{F64}
use rust_hotpath_ipc.Calibration.{
  TscCalibration, Readings, calibrate, cycles_to_ns, tsc_to_unix_ns, needs_refresh, first_clock,
  auto_refresh,
}
use rust_hotpath_ipc.Calibration.Order.{tsc_to_unix_ns-in_order}
use rust_hotpath_ipc.Tests.Data.{whole}

-- Whole numbers, in which a factor is a divisor: three cycles to a nanosecond.
abbrev thirds : F64
thirds = record whole { mul = λ x y. pos (pos_part x / 3) }

abbrev measured : TscCalibration ℤ
measured = record {
  cycles_per_ns = pos 3;
  ns_per_cycle = pos 3;
  epoch_tsc = 3_000;
  epoch_unix_ns = 1_700_000_000_000_000_000;
  last_calibration = 0;
  cpu_frequency_hz = 3_000_000_000;
}

-- A reading of 30 cycles before the epoch, and one of 30 after.
before_epoch : tsc_to_unix_ns thirds measured 2_970 ≡ 7_848_914_691_236_517_195
unfolding tsc_to_unix_ns
before_epoch = refl

after_epoch : tsc_to_unix_ns thirds measured 3_030 ≡ 1_700_000_000_000_000_010
unfolding tsc_to_unix_ns
after_epoch = refl

thirds_mono : (x y : ℕ) → x ≤ y → y < 2 ^ 64 → (x / 3) % 2 ^ 64 ≤ (y / 3) % 2 ^ 64
thirds_mono x y h k = omega arith

tsc_to_unix_ns-in_order_example :
    tsc_to_unix_ns thirds measured 3_030 ≤ tsc_to_unix_ns thirds measured 2_970
unfolding cycles_to_ns
tsc_to_unix_ns-in_order_example =
    tsc_to_unix_ns-in_order thirds measured thirds_mono (omega arith) 2_970 3_030 (omega arith)
      (omega arith) (omega arith)

abbrev readings : ℕ → Readings
readings t = record {
  start_instant = t;
  start_tsc = 2 * t;
  end_instant = t + 100;
  end_tsc = 2 * (t + 100);
  since_unix_epoch = some (1_000 + t);
  epoch_tsc = 2 * (t + 100);
  last_instant = t + 110;
}

refreshed :
    auto_refresh whole (readings 300 ∷ readings 500 ∷ []) (first_clock whole (readings 100))
    ≡ record { calibration = calibrate whole (readings 500); cycles_per_ns_cached = pos 2 }
unfolding auto_refresh first_clock
refreshed = refl

stale : needs_refresh whole 60_000_000_001 measured ≡ true
unfolding needs_refresh
stale = refl

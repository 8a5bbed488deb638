-- ===== src/Calibration/Order.antt =====
-- src/tsc_calibration.rs: the order of readings, as Unix times.
use rust_hotpath_ipc.Prelude.Words.{sub_u64}
use rust_hotpath_ipc.Prelude.{ℕ, ◌+◌, ◌-◌, ◌^◌, ◌≤◌, ◌<◌, ◌≡◌, ◌&&◌, arith, ltb, leb, if◌then◌else◌}
use rust_hotpath_ipc.Float.{F64}
use rust_hotpath_ipc.Calibration.{TscCalibration, cycles_to_ns, tsc_to_unix_ns}

-- Two readings as the calibration orders them: one before its epoch counts as after all others.
abbrev pub in_order : ℕ → ℕ → ℕ → ℕ × ℕ
in_order epoch a b = if ltb a epoch && leb epoch b then (b, a) else (a, b)

sub_u64-in_order :
    (epoch a b : ℕ)
    → epoch < 2 ^ 64
    → a ≤ b
    → b < 2 ^ 64
    → sub_u64 (in_order epoch a b).0 epoch ≤ sub_u64 (in_order epoch a b).1 epoch
sub_u64-in_order epoch a b e h k = ground arith

module _ (F : F64) where
  open F use {Float, num, mul, to_nat}

  module _ (cal : TscCalibration Float)
      (mono : (x y : ℕ)
        → x ≤ y
        → y < 2 ^ 64
        → to_nat (mul (num x) cal.ns_per_cycle) ≤ to_nat (mul (num y) cal.ns_per_cycle))
      (room : cal.epoch_unix_ns + cycles_to_ns F cal (2 ^ 64 - 1) < 2 ^ 64) where
    cycles_to_ns_mono : (x y : ℕ) → x ≤ y → y < 2 ^ 64 → cycles_to_ns F cal x ≤ cycles_to_ns F cal y
    unfolding cycles_to_ns
    cycles_to_ns_mono x y h k = mono x y h k

    tsc_to_unix_ns-sub_u64 :
        (tsc : ℕ)
        → tsc_to_unix_ns F cal tsc
          ≡ cal.epoch_unix_ns + cycles_to_ns F cal (sub_u64 tsc cal.epoch_tsc)
    unfolding tsc_to_unix_ns cycles_to_ns
    tsc_to_unix_ns-sub_u64 tsc =
        let small : sub_u64 tsc cal.epoch_tsc < 2 ^ 64 = omega arith in
        omega (
          arith,
          mono (sub_u64 tsc cal.epoch_tsc) (2 ^ 64 - 1) (omega (arith, small)) (omega arith),
        )

    tsc_to_unix_ns_ordered :
        (x y : ℕ)
        → sub_u64 x cal.epoch_tsc ≤ sub_u64 y cal.epoch_tsc
        → tsc_to_unix_ns F cal x ≤ tsc_to_unix_ns F cal y
    tsc_to_unix_ns_ordered x y h = omega (
      arith,
      tsc_to_unix_ns-sub_u64 x,
      tsc_to_unix_ns-sub_u64 y,
      cycles_to_ns_mono (sub_u64 x cal.epoch_tsc) (sub_u64 y cal.epoch_tsc) h (omega arith),
    )

    -- Of two readings that are both before the epoch of the calibration, or both not, the later has
    -- the later Unix time, or the same; but one before the epoch has no earlier Unix time than one
    -- from the epoch on. It is provided that scaling a count of cycles keeps the order, and that the
    -- longest count ends before 2^64 ns of Unix time.
    pub tsc_to_unix_ns-in_order :
        (a b : ℕ)
        → cal.epoch_tsc < 2 ^ 64
        → a ≤ b
        → b < 2 ^ 64
        → tsc_to_unix_ns F cal (in_order cal.epoch_tsc a b).0
          ≤ tsc_to_unix_ns F cal (in_order cal.epoch_tsc a b).1
    tsc_to_unix_ns-in_order a b e h k =
        tsc_to_unix_ns_ordered _ _ (sub_u64-in_order cal.epoch_tsc a b e h k)

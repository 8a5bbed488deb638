-- ===== src/Latency.antt =====
-- src/latency_window.rs: the windows that collect latency samples, and what is reported of a batch.
-- `sent` is what went into the channel, oldest first. `now` and `later` are readings of the monotonic
-- clock in ns: the one of `elapsed()`, and the one of `Instant::now()` in `flush`.
pub mod Collected
pub mod Floor
use rust_hotpath_ipc.Prelude.{
  ◌>>=◌, ℕ, zero, suc, ◌+◌, ◌-◌, ◌%◌, ◌^◌, min, Bool, true, false, ◌||◌, Option, none, some, List,
  [], ◌∷◌, ◌++◌, ltb, leb, ◌==◌, if◌then◌else◌, length, get_elem?,
}
use rust_hotpath_ipc.Float.{F64}

abbrev pub warmup_samples : ℕ
warmup_samples = 200

abbrev pub flush_samples : ℕ
flush_samples = 2_000

abbrev pub flush_interval : ℕ
flush_interval = 1_500_000_000

pub record LatencyWindow : Type 0 where
  pub buf : List ℕ
  pub seen : ℕ
  pub last_flush : ℕ
  pub sent : List (List ℕ)

-- `LatencyReporter::window`.
abbrev pub new_window : ℕ → LatencyWindow
new_window now = record { buf = []; seen = 0; last_flush = now; sent = [] }

-- `LatencyWindow::flush`.
unfoldable pub flush : ℕ → LatencyWindow → LatencyWindow
flush later w = elim w.buf [
  | [] ↦ record w { last_flush = later }
  | x ∷ xs ↦ record w { sent = w.sent ++ (x ∷ xs) ∷ []; buf = []; last_flush = later }
]

-- `LatencyWindow::push`.
unfoldable pub push : ℕ → ℕ → ℕ → LatencyWindow → LatencyWindow
unfolding flush
push ns now later w =
    let seen = (w.seen + 1) % 2 ^ 64 in
    let w' = record w { seen = seen; buf = w.buf ++ ns ∷ [] } in
    if leb seen warmup_samples
    then record w { seen = seen }
    else if leb flush_samples (length w'.buf) || leb flush_interval (now - w.last_flush)
    then flush later w'
    else w'

-- The fold of `calibrate_rdtsc_floor` over its pairs of readings.
unfoldable pub floor_from : ℕ → List (ℕ × ℕ) → ℕ
floor_from floor [] = floor
floor_from floor ((a, b) ∷ more) =
    let d = b - a in floor_from (if ltb d floor then d else floor) more

unfoldable pub calibrate_rdtsc_floor : List (ℕ × ℕ) → ℕ
unfolding floor_from
calibrate_rdtsc_floor readings =
    let floor = floor_from (2 ^ 64 - 1) readings in if floor == 2 ^ 64 - 1 then 0 else floor

-- `sort_unstable` on numbers.
unfoldable pub insert : ℕ → List ℕ → List ℕ
insert x [] = x ∷ []
insert x (y ∷ ys) = if leb x y then x ∷ y ∷ ys else y ∷ insert x ys

unfoldable pub sort : List ℕ → List ℕ
unfolding insert
sort [] = []
sort (x ∷ xs) = insert x (sort xs)

-- What `report` prints.
pub record Summary : Type 0 where
  pub n : ℕ
  pub min : ℕ
  pub p50 : ℕ
  pub p99 : ℕ
  pub p999 : ℕ

module _ (F : F64) where
  open F use {Float, num, decimal, mul, div, ceil, to_nat}

  unfoldable pub percentile_index : ℕ → Float → ℕ
  percentile_index n pct =
      if n == 0 then 0 else min (to_nat (ceil (mul (div pct (num 100)) (num n))) - 1) (n - 1)

  -- Of the sorted samples: the outer `none` is an index out of range, the inner one no samples.
  unfoldable pub report : List ℕ → Option (Option Summary)
  unfolding sort percentile_index
  report [] = some none
  report (x ∷ xs) = do
    let samples = sort (x ∷ xs)
    let n = length samples
    least ← get_elem? samples 0
    p50 ← get_elem? samples (percentile_index n (num 50))
    p99 ← get_elem? samples (percentile_index n (num 99))
    p999 ← get_elem? samples (percentile_index n (decimal 999 1))
    some (some (record { n = n; min = least; p50 = p50; p99 = p99; p999 = p999 }))

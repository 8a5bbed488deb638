-- ===== src/Execution.antt =====
-- src/bin/execution.rs: the loop that books fills, less its wiring and what it prints.
-- `order_ctx`, a `HashMap`, is the function that `get` computes. `now` and `later` are the clock
-- readings of the latency window.
pub mod Booked
pub mod Loop
use rust_hotpath_ipc.Prelude.Words.{add_u64}
use rust_hotpath_ipc.Prelude.{
  ℕ, zero, suc, ◌+◌, ◌-◌, ◌%◌, ◌^◌, Bool, true, false, ◌&&◌, ◌||◌, not, Option, none, some, List,
  [], ◌∷◌, ltb, leb, ◌==◌, if◌then◌else◌,
}
use rust_hotpath_ipc.Prelude.Int.{ℤ}
use rust_hotpath_ipc.Float.{F64}
use rust_hotpath_ipc.Messages.{OrderCommand, ExecutionReport}
use rust_hotpath_ipc.Latency.{LatencyWindow, push}

pub record Execution (A : Type 0) : Type 0 where
  pub running : Bool
  pub order_ctx : ℕ → Option (ℕ × ℕ)
  pub position : A
  pub cash : A
  pub last_price : A
  pub fills : ℕ
  pub completed_orders : ℕ
  pub win_tick_to_fill : LatencyWindow

-- `order_ctx.insert(cmd.order_id, (cmd.origin_ts, cmd.side))`, for each order that waits.
unfoldable pub see_order : {A : Type 0} → OrderCommand → Execution A → Execution A
see_order cmd s = record s {
  order_ctx = λ id. if id == cmd.order_id then some (cmd.origin_ts, cmd.side) else s.order_ctx id;
}

unfoldable pub see_orders : {A : Type 0} → List OrderCommand → Execution A → Execution A
see_orders [] s = s
see_orders (cmd ∷ cmds) s = see_orders cmds (see_order cmd s)

module _ (F : F64) (cycles_per_ns : F.Float) where
  open F use {Float, num, add, sub, mul, div, to_nat}

  -- `tsc_calibration::fast_cycles_to_ns`, at the calibration that is cached.
  unfoldable pub fast_cycles_to_ns : ℕ → ℕ
  fast_cycles_to_ns cycles = to_nat (mul (num cycles) (div (num 1) cycles_per_ns))

  abbrev pub unscaled : Float → Float
  unscaled x = div x (num 100_000_000)

  -- The position and the cash after a fill.
  unfoldable pub account : ℕ → ExecutionReport → Execution Float → Execution Float
  account side r s =
      let price = unscaled (F.of_int r.executed_price) in
      let qty = unscaled (num r.executed_quantity) in
      let fee = unscaled (F.of_int r.commission) in
      let s' = record s { last_price = price; fills = add_u64 s.fills 1 } in
      if side == 0
      then record s' { position = add s.position qty; cash = sub s.cash (add (mul price qty) fee) }
      else record s' { position = sub s.position qty; cash = add s.cash (sub (mul price qty) fee) }

  abbrev pub sample : ℕ → ℕ → ℕ → ExecutionReport → LatencyWindow → LatencyWindow
  unfolding fast_cycles_to_ns push
  sample now later origin_ts r w =
      if not (origin_ts == 0) && ltb origin_ts r.timestamp_ns
      then push (fast_cycles_to_ns (r.timestamp_ns - origin_ts)) now later w
      else w

  -- `if report.status == 2`: the order is done.
  unfoldable pub complete : ℕ → ℕ → ℕ → ℕ → ExecutionReport → Execution Float → Execution Float
  unfolding sample
  complete max_fills now later origin_ts r s =
      let done = add_u64 s.completed_orders 1 in
      record s {
        win_tick_to_fill = sample now later origin_ts r s.win_tick_to_fill;
        order_ctx = λ id. if id == r.order_id then none else s.order_ctx id;
        completed_orders = done;
        running = s.running && not (not (max_fills == 0) && leb max_fills done);
      }

  -- A report of an order whose context is known.
  unfoldable pub book_fill : ℕ → ℕ → ℕ → ℕ → ℕ → ExecutionReport → Execution Float → Execution Float
  unfolding account complete
  book_fill max_fills now later origin_ts side r s =
      let s' = account side r s in
      if r.status == 2 then complete max_fills now later origin_ts r s' else s'

  -- One report: only partial and terminal fills of known orders count.
  unfoldable pub on_report : ℕ → ℕ → ℕ → ExecutionReport → Execution Float → Execution Float
  unfolding book_fill
  on_report max_fills now later r s =
      if not (r.status == 1) && not (r.status == 2) then s else elim (s.order_ctx r.order_id) [
        | none ↦ s
        | some (origin_ts, side) ↦ book_fill max_fills now later origin_ts side r s
      ]

  abbrev pub new_execution : ℕ → Execution Float
  new_execution now = record {
    running = true;
    order_ctx = λ _. none;
    position = num 0;
    cash = num 0;
    last_price = num 0;
    fills = 0;
    completed_orders = 0;
    win_tick_to_fill = record { buf = []; seen = 0; last_flush = now; sent = [] };
  }

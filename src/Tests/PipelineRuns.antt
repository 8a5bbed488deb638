-- ===== src/Tests/PipelineRuns.antt =====
-- The processes on small inputs.
use rust_hotpath_ipc.Prelude.{
  ℕ, ◌+◌, ◌-◌, ◌^◌, ◌≤◌, ◌<◌, ◌≡◌, ◌⊎◌, inl, inr, refl, Bool, true, false, Option, none, some, List,
  [], ◌∷◌, arith, length, drop, ◌==◌, if◌then◌else◌,
}
use rust_hotpath_ipc.Prelude.Int.{ℤ, pos, ◌+ℤ◌, ◌-ℤ◌}
use rust_hotpath_ipc.Messages.{OrderCommand, ExecutionReport}
use rust_hotpath_ipc.OrderBook.{Fill, opposite}
use rust_hotpath_ipc.OrderBook.Line.{line}
use rust_hotpath_ipc.OrderBook.Trades.{volume}
use rust_hotpath_ipc.Exchange.{
  Exchange, Published, start, order_of, match_strategy_order, publish_fills,
  publish_strategy_maker_fills,
}
use rust_hotpath_ipc.Exchange.Rounds.{IsSound, turns, start-turns}
use rust_hotpath_ipc.Exchange.Reports.{ReportsFrom, executed, publish_fills-match_strategy_order}
use rust_hotpath_ipc.Strategy.{StrategyConfig, new_strategy}
use rust_hotpath_ipc.Vm.{Op, run}
use rust_hotpath_ipc.Trader.{
  Settings, Trader, Arrival, new_trader, trading, on_tick, heartbeat, decision, trade_on,
}
use rust_hotpath_ipc.Trader.Risk.{IsSane, Exposes, Numbered}
use rust_hotpath_ipc.Trader.Limits.{new_trader-limits}
use rust_hotpath_ipc.Execution.{Execution, new_execution}
use rust_hotpath_ipc.Execution.Booked.{
  position_after, cash_after, on_reports, on_reports-ReportsFrom,
  on_reports-publish_strategy_maker_fills,
}
use rust_hotpath_ipc.Latency.{new_window, calibrate_rdtsc_floor, report, Summary}
use rust_hotpath_ipc.Latency.Collected.{Sample, collected, pushes, new_window-collected}
use rust_hotpath_ipc.Latency.Floor.{
  BelowAll, Attained, calibrate_rdtsc_floor-least, Reported, report-Reported,
}
use rust_hotpath_ipc.Tests.Data.{
  whole, to_nat-small, two_sided, two_sided-SidesAreValid, buy_command, tick_at,
}

abbrev clock : ℕ → ℕ
clock n = 1_000 + n

-- One turn with an order and a participant round, and one with neither.
abbrev inputs : List (List OrderCommand × Bool)
inputs = ((buy_command ∷ []), true) ∷ ([], false) ∷ []

start-turns_example :
    (x : Exchange ℤ) × (x' : Exchange ℤ) × (outs : List Published) × (start whole clock 42 (pos 6)
      ≡ some x)
    × (turns whole to_nat-small clock inputs x ≡ some (x', outs))
    × IsSound x'.book
    × (length outs ≡ 2)
start-turns_example =
    start-turns whole to_nat-small clock 42 (pos 6) inputs ((omega arith, tt), (tt, tt))

publish_fills-match_strategy_order_example :
    let r = match_strategy_order buy_command [] two_sided in
    let rs = publish_fills whole clock 0 (pos 1) r.1 in
    let other = opposite (order_of buy_command).side in
    ReportsFrom 9 10 rs
    × (volume (line other two_sided) ≡ executed rs + volume (line other r.0))
    × (length rs ≡ length r.1)
publish_fills-match_strategy_order_example =
    publish_fills-match_strategy_order whole clock (pos 1) buy_command two_sided 0 refl
      two_sided-SidesAreValid

abbrev settings : Settings
settings = record {
  passive = false;
  max_position = pos 3;
  max_orders = 5;
  order_qty = 100_000_000;
  position_delta = pos 1;
}

settings-IsSane : IsSane settings 3 1
settings-IsSane = record { max_position = refl; position_delta = refl; room = omega arith }

abbrev config : StrategyConfig ℤ
config = record {
  fast_ema_period = 1;
  slow_ema_period = 3;
  momentum_lookback = 1;
  reversion_window = 2;
  weight_trend = pos 0;
  weight_momentum = pos 1;
  weight_reversion = pos 0;
  threshold = pos 0;
  momentum_bps_full_scale = pos 25;
  cooldown_ticks = 0;
}

-- A compiled program that buys at every price above 0.
abbrev eager : Trader ℤ
eager =
    new_trader whole (new_strategy whole config)
      (some (record { prog = Op.push_price ∷ Op.buy ∷ []; state = []; stack = [] }))

abbrev arrival : Arrival
arrival = record { tick = tick_at 700_000_000; t1 = 90; over_time = false }

-- The fourth order would breach the limit of 3.
three_sent :
    (end : Trader ℤ) × (cmds : List OrderCommand) × (trading whole settings
        (arrival ∷ arrival ∷ arrival ∷ arrival ∷ [])
        eager
      ≡ some (end, cmds))
    × (length cmds ≡ 3)
unfolding trading on_tick heartbeat decision trade_on run new_strategy ◌+ℤ◌ ◌-ℤ◌
three_sent = (_, _, refl, refl)

new_trader-limits_example :
    Exposes 3 1 (pos 0) three_sent.1
    × Numbered 0 three_sent.1
    × ((settings.max_orders ≡ 0) ⊎ (length three_sent.1 ≤ 5))
new_trader-limits_example =
    new_trader-limits whole settings 3 1 (arrival ∷ arrival ∷ arrival ∷ arrival ∷ [])
      (new_strategy whole config)
      (some (record { prog = Op.push_price ∷ Op.buy ∷ []; state = []; stack = [] })) three_sent.0
      three_sent.1 settings-IsSane (omega arith) three_sent.2

abbrev report_of : ℕ → ℕ → ℕ → ExecutionReport
report_of status done left = record {
  timestamp_ns = 100;
  order_id = 9;
  exchange_order_id = 9;
  executed_price = pos 100;
  executed_quantity = done;
  remaining_quantity = left;
  commission = pos 0;
  status = status;
  reject_reason = 0;
}

-- The loop has seen the command of order 9.
abbrev attached : Execution ℤ
attached = record (new_execution whole (pos 3) 0) {
  order_ctx = λ id. if id == 9 then some (77, 0) else none;
}

on_reports-ReportsFrom_example :
    let rs = report_of 1 4 6 ∷ report_of 2 6 0 ∷ [] in
    let s' = on_reports whole (pos 3) 0 5 6 rs attached in
    (s'.fills ≡ 0 + 2)
    × (s'.position ≡ position_after whole (pos 3) 0 5 6 0 rs attached.position)
    × (s'.cash ≡ cash_after whole (pos 3) 0 5 6 0 rs attached.cash)
    × ((executed rs ≡ 10) × (s'.order_ctx 9 ≡ none) × (s'.completed_orders ≡ 0 + 1)
        ⊎ (executed rs < 10) × (s'.order_ctx 9 ≡ some (77, 0)) × (s'.completed_orders ≡ 0))
on_reports-ReportsFrom_example =
    on_reports-ReportsFrom whole (pos 3) 0 5 6 9 10 (report_of 1 4 6 ∷ report_of 2 6 0 ∷ [])
      attached 77 0 (refl, refl, inr (refl, omega arith), (refl, refl, inl (refl, refl), tt))
      (omega arith, (omega arith, tt)) (omega arith) refl (omega arith) (omega arith)

-- A synthetic taker took part of order 9, and another the rest.
abbrev maker_fill : ℕ → Fill
maker_fill n = record {
  taker_order_id = 2 ^ 63 + 1;
  maker_order_id = 9;
  price_ticks = pos 100;
  quantity = n;
  taker_origin_ts = 0;
  taker_remaining_after = 0;
  taker_is_synthetic = true;
  maker_is_synthetic = false;
}

on_reports-publish_strategy_maker_fills_example :
    on_reports whole
      (pos 3)
      0
      5
      6
      (publish_strategy_maker_fills whole clock 0 (pos 1) (maker_fill 4 ∷ maker_fill 6 ∷ []))
      attached
    ≡ on_reports whole
        (pos 3)
        0
        5
        6
        (publish_strategy_maker_fills whole clock 0 (pos 1) (maker_fill 4 ∷ []))
        attached
on_reports-publish_strategy_maker_fills_example =
    on_reports-publish_strategy_maker_fills whole (pos 3) 0 5 6 clock 0 (pos 1) (maker_fill 4)
      (maker_fill 6) attached refl refl refl

abbrev sample : ℕ → Sample
sample ns = record { ns = ns; now = 10; later = 11 }

new_window-collected_example :
    (collected (pushes (sample 30 ∷ sample 31 ∷ []) (new_window 0)) ≡ drop 200 (30 ∷ 31 ∷ []))
    × (length (pushes (sample 30 ∷ sample 31 ∷ []) (new_window 0)).buf < 2_000)
new_window-collected_example = new_window-collected 0 (sample 30 ∷ sample 31 ∷ []) (omega arith)

abbrev readings : List (ℕ × ℕ)
readings = (10, 35) ∷ (40, 64) ∷ (70, 99) ∷ []

floor_24 : calibrate_rdtsc_floor readings ≡ 24
unfolding calibrate_rdtsc_floor
floor_24 = refl

calibrate_rdtsc_floor-least_example :
    let floor = calibrate_rdtsc_floor readings in
    BelowAll floor readings
    × (Attained floor readings ⊎ ((floor ≡ 0) × BelowAll (2 ^ 64 - 1) readings))
calibrate_rdtsc_floor-least_example = calibrate_rdtsc_floor-least readings

abbrev latencies : List ℕ
latencies = 30 ∷ 20 ∷ 25 ∷ []

report-Reported_example :
    (s : Option Summary) × (report whole latencies ≡ some s) × Reported whole latencies s
report-Reported_example = report-Reported whole latencies

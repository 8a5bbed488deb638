-- ===== src/Trader/Setup.antt =====
-- src/bin/strategy.rs: what `main` sets up before its loop, and the two together. A panic is `none`.
use rust_hotpath_ipc.Prelude.{◌>>=◌, Bool, false, Option, none, some, List}
use rust_hotpath_ipc.Prelude.Int.{pos, max_ℤ}
use rust_hotpath_ipc.Prelude.Text.{Text, codes, text_eq}
use rust_hotpath_ipc.Float.{F64}
use rust_hotpath_ipc.Messages.{OrderCommand}
use rust_hotpath_ipc.Runtime.{Env, env_or, parse_u64, parse_i64}
use rust_hotpath_ipc.Json.{Parsed}
use rust_hotpath_ipc.Graph.{parse}
use rust_hotpath_ipc.Compiler.{GraphSpec, Lowered, compile}
use rust_hotpath_ipc.Vm.{Op, Vm, new_vm}
use rust_hotpath_ipc.Strategy.{StrategyConfig, default_config, new_strategy}
use rust_hotpath_ipc.Trader.{Settings, Arrival, Trader, load, new_trader, trading}

-- `env::var(..).map(|v| v == "1").unwrap_or(false)`.
unfoldable pub is_passive : Env → Bool
unfolding text_eq
is_passive env = elim (env (codes "PASSIVE")) [ none ↦ false | some v ↦ text_eq v (codes "1") ]

module _ (F : F64) where
  open F use {Float}

  -- A program that is not empty runs; on an error the strategy is the hand-written one.
  unfoldable pub machine_of : Lowered (List (Op Float)) → Option (Option (Vm Float))
  unfolding new_vm
  machine_of (Lowered.ok prog) = some (load F (new_vm F prog))
  machine_of (Lowered.err _) = some none
  machine_of _ = none

  unfoldable pub load_graph : Parsed (GraphSpec Float) → Option (Option (Vm Float))
  unfolding machine_of
  load_graph (Parsed.ok spec _) = machine_of (compile F spec)
  load_graph (Parsed.err _) = some none
  load_graph Parsed.stuck = none

-- `parse_f64` is `str::parse::<f64>`, and `read_file` is `fs::read_to_string(..).ok()`.
module _ (F : F64) (parse_f64 : Text → Option F.Float) (env : Env) where
  open F use {Float, num, mul, ceil, to_nat, to_int}

  -- Any knob that is not set, or is not a number, keeps its default.
  unfoldable pub config : StrategyConfig Float
  unfolding env_or parse_u64 default_config
  config =
      let c = default_config F in
      record c {
        threshold = env_or parse_f64 env (codes "THRESHOLD") c.threshold;
        weight_trend = env_or parse_f64 env (codes "WEIGHT_TREND") c.weight_trend;
        weight_momentum = env_or parse_f64 env (codes "WEIGHT_MOMENTUM") c.weight_momentum;
        weight_reversion = env_or parse_f64 env (codes "WEIGHT_REVERSION") c.weight_reversion;
        cooldown_ticks = env_or parse_u64 env (codes "COOLDOWN") c.cooldown_ticks;
        fast_ema_period = env_or parse_u64 env (codes "FAST_EMA") c.fast_ema_period;
        slow_ema_period = env_or parse_u64 env (codes "SLOW_EMA") c.slow_ema_period;
      }

  unfoldable pub settings : Settings
  unfolding env_or parse_u64 parse_i64 is_passive
  settings =
      let order_units = env_or parse_f64 env (codes "ORDER_UNITS") (num 1) in
      record {
        passive = is_passive env;
        max_position = env_or parse_i64 env (codes "MAX_POSITION") (pos 3);
        max_orders = env_or parse_u64 env (codes "MAX_ORDERS") 0;
        order_qty = to_nat (mul order_units (num 100_000_000));
        position_delta = max_ℤ (to_int (ceil order_units)) (pos 1);
      }

  -- The text of the graph, if `STRATEGY_JSON` is set and names a file that can be read.
  unfoldable pub load_text : Option Text → Option (Option (Vm Float))
  unfolding load_graph
  load_text none = some none
  load_text (some json) = load_graph F (parse parse_f64 json)

  unfoldable pub machine : (Text → Option Text) → Option (Option (Vm Float))
  unfolding load_text
  machine read_file = load_text (env (codes "STRATEGY_JSON") >>= read_file)

  -- The setup, and then the loop over the ticks that arrive.
  unfoldable pub main :
      (Text → Option Text) → List Arrival → Option (Trader Float × List OrderCommand)
  unfolding config settings machine trading
  main read_file arrivals = do
    vm ← machine read_file
    trading F settings arrivals (new_trader F (new_strategy F config) vm)

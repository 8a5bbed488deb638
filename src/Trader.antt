-- ===== src/Trader.antt =====
-- src/bin/strategy.rs: the loop of the strategy process, less its wiring and what it prints; the
-- latency windows are in Windows. A panic is `none`. `over_time` is whether the time cap is reached
-- at a heartbeat.
pub mod Risk
pub mod Limits
pub mod Setup
pub mod Starts
pub mod Total
pub mod Windows
use rust_hotpath_ipc.Prelude.Words.{add_u64, wrap_i64}
use rust_hotpath_ipc.Prelude.{
  ◌>>=◌, ℕ, zero, suc, ◌+◌, ◌-◌, ◌%◌, ◌^◌, max, Bool, true, false, ◌&&◌, ◌||◌, not, Option, none,
  some, List, [], ◌∷◌, ◌++◌, ltb, leb, ◌==◌, if◌then◌else◌,
}
use rust_hotpath_ipc.Prelude.Int.{ℤ, pos, negsuc, ◌+ℤ◌, ◌-ℤ◌, ltb_ℤ, eqb_ℤ}
use rust_hotpath_ipc.Float.{F64}
use rust_hotpath_ipc.Messages.{OrderCommand, MarketTick}
use rust_hotpath_ipc.Strategy.{Side, Decision, Strategy, signals, on_price}
use rust_hotpath_ipc.Vm.{Vm, VmDecision, run}

-- What `main` reads from the environment before the loop.
pub record Settings : Type 0 where
  pub passive : Bool
  pub max_position : ℤ
  pub max_orders : ℕ
  pub order_qty : ℕ
  pub position_delta : ℤ

-- The locals of the loop.
pub record Trader (A : Type 0) : Type 0 where
  pub running : Bool
  pub strat : Strategy A
  pub vm : Option (Vm A)
  pub ticks_seen : ℕ
  pub orders_sent : ℕ
  pub order_id : ℕ
  pub position : ℤ
  pub suppressed : ℕ

-- A tick that was received, the clock reading of an order that it leads to, and the time cap.
pub record Arrival : Type 0 where
  pub tick : MarketTick
  pub t1 : ℕ
  pub over_time : Bool

-- `bytecode::to_side`.
unfoldable pub to_side : {A : Type 0} → VmDecision A → Option (Side × A)
to_side (VmDecision.buy s) = some (Side.buy, s)
to_side (VmDecision.sell s) = some (Side.sell, s)
to_side VmDecision.hold = none

unfoldable pub side_of_decision : {A : Type 0} → Decision A → Option (Side × A)
side_of_decision (Decision.trade side score) = some (side, score)
side_of_decision Decision.hold = none

abbrev pub delta_of : Settings → Side → ℤ
delta_of c Side.buy = c.position_delta
delta_of c Side.sell = wrap_i64 (pos 0 -ℤ c.position_delta)

abbrev pub u8_of : Side → ℕ
u8_of Side.buy = 0
u8_of Side.sell = 1

-- The near touch, and the last price if it is not there yet.
abbrev pub touch_of : MarketTick → Side → ℤ
touch_of tick side =
    let touch : ℤ = elim side [ Side.buy ↦ tick.bid | Side.sell ↦ tick.ask ] in
    if eqb_ℤ touch (pos 0) then tick.price else touch

unfoldable pub command : Settings → Arrival → Side → ℕ → OrderCommand
command c a side order_id = record {
  timestamp_ns = a.t1;
  order_id = order_id;
  price_ticks = if c.passive then touch_of a.tick side else a.tick.price;
  quantity = c.order_qty;
  origin_ts = a.tick.timestamp_ns;
  symbol_id = a.tick.symbol_id;
  user_id = 1;
  side = u8_of side;
  order_type = if c.passive then 1 else 0;
  action = 0;
  flags = 0;
  exchange_id = a.tick.exchange_id;
  priority = 0;
}

-- The pre-trade risk check.
abbrev pub breaches : Settings → ℤ → Bool
breaches c new_position =
    ltb_ℤ c.max_position new_position || ltb_ℤ new_position (wrap_i64 (pos 0 -ℤ c.max_position))

-- `if let Some((side, score)) = trade`.
unfoldable pub trade_on :
    {A : Type 0}
    → Settings
    → Arrival
    → Option (Side × A)
    → Trader A
    → Trader A × Option OrderCommand
unfolding command
trade_on c a none s = (s, none)
trade_on c a (some (side, score)) s =
    let new_position = wrap_i64 (s.position +ℤ delta_of c side) in
    let order_id = add_u64 s.order_id 1 in
    let orders_sent = add_u64 s.orders_sent 1 in
    if breaches c new_position then (record s { suppressed = add_u64 s.suppressed 1 }, none) else (
      record s {
        position = new_position;
        order_id = order_id;
        orders_sent = orders_sent;
        running = s.running && not (not (c.max_orders == 0) && leb c.max_orders orders_sent);
      },
      some (command c a side order_id),
    )

abbrev pub also : Option OrderCommand → List OrderCommand → List OrderCommand
also none more = more
also (some cmd) more = cmd ∷ more

module _ (F : F64) where
  open F use {Float, num, div}

  -- The heartbeat: the signals are printed, and the time cap is checked.
  unfoldable pub heartbeat : Arrival → Trader Float → Option (Trader Float)
  heartbeat a s =
      if s.ticks_seen % 50_000 == 0
      then (signals F s.strat >>= λ _. some (record s { running = s.running && not a.over_time }))
      else some s

  -- The decision, of the compiled strategy if there is one and else of the hand-written one.
  unfoldable pub decision : Float → Trader Float → Option (Trader Float × Option (Side × Float))
  unfolding to_side side_of_decision
  decision price s = elim s.vm [
    | some vm ↦ run F price vm >>= λ (vm', d). some (record s { vm = some vm' }, to_side d)
    | none ↦ on_price F price s.strat >>= λ (strat, d).
        some (record s { strat = strat }, side_of_decision d)
  ]

  -- `vm.is_empty()`, after a strategy graph is compiled: an empty program is not used.
  abbrev pub load : Vm Float → Option (Vm Float)
  load vm = elim vm.prog [ [] ↦ none | _ ∷ _ ↦ some vm ]

  -- One turn of the loop, of a tick that was received.
  unfoldable pub on_tick :
      Settings → Arrival → Trader Float → Option (Trader Float × Option OrderCommand)
  on_tick c a s = do
    s1 ← heartbeat a (record s { ticks_seen = add_u64 s.ticks_seen 1 })
    (s2, trade) ← decision (div (F.of_int a.tick.price) (num 100_000_000)) s1
    some (trade_on c a trade s2)

  -- `while running.load(..)`, over the ticks that arrive.
  unfoldable pub trading :
      Settings → List Arrival → Trader Float → Option (Trader Float × List OrderCommand)
  trading c [] s = some (s, [])
  trading c (a ∷ as') s =
      if s.running
      then (on_tick c a s >>= λ (s', sent).
          trading c as' s' >>= λ (s'', more). some (s'', also sent more))
      else some (s, [])

  abbrev pub new_trader : Strategy Float → Option (Vm Float) → Trader Float
  new_trader strat vm = record {
    running = true;
    strat = strat;
    vm = vm;
    ticks_seen = 0;
    orders_sent = 0;
    order_id = 0;
    position = pos 0;
    suppressed = 0;
  }

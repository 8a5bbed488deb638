-- ===== src/Strategy.antt =====
-- src/strategy.rs: the hand-written composite strategy.
-- A `VecDeque` is a list, front first, and its `back` is `last`. A panic is `none`. `&mut self` is passed in and returned.
pub mod Cooldown
pub mod Total
use rust_hotpath_ipc.Prelude.{
  last, ◌>>=◌, ℕ, zero, suc, ◌+◌, ◌-◌, ◌%◌, ◌^◌, Bool, true, false, Option, none, some, List, [],
  ◌∷◌, ◌++◌, ltb, leb, if◌then◌else◌, length,
}
use rust_hotpath_ipc.Float.{F64, clamp_unit}

pub data Side : Type 0 where
  buy sell : Side

pub data Decision (A : Type 0) : Type 0 where
  trade : Side → A → Decision A
  hold : Decision A

pub record StrategyConfig (A : Type 0) : Type 0 where
  pub fast_ema_period : ℕ
  pub slow_ema_period : ℕ
  pub momentum_lookback : ℕ
  pub reversion_window : ℕ
  pub weight_trend : A
  pub weight_momentum : A
  pub weight_reversion : A
  pub threshold : A
  pub momentum_bps_full_scale : A
  pub cooldown_ticks : ℕ

pub record Ema (A : Type 0) : Type 0 where
  pub alpha : A
  pub value : A
  pub initialized : Bool

pub record Strategy (A : Type 0) : Type 0 where
  pub cfg : StrategyConfig A
  pub fast : Ema A
  pub slow : Ema A
  pub momentum_buf : List A
  pub window : List A
  pub window_sum : A
  pub window_sum_sq : A
  pub ticks_seen : ℕ
  pub last_trade_tick : Option ℕ
  pub last_side : Option Side

-- `prev == side`.
abbrev pub same_side : Side → Side → Bool
same_side Side.buy Side.buy = true
same_side Side.sell Side.sell = true
same_side _ _ = false

-- `while buf.len() > bound { buf.pop_front() }`.
unfoldable pub trim : {A : Type 0} → ℕ → List A → List A
trim bound [] = []
trim bound (x ∷ xs) = if ltb bound (length (x ∷ xs)) then trim bound xs else x ∷ xs

-- The same for the window, with its two sums.
pub record Window (A : Type 0) : Type 0 where
  pub prices : List A
  pub sum : A
  pub sum_sq : A

module _ (F : F64) where
  open F use {Float, num, decimal, neg, add, sub, mul, div, sqrt, tanh, lt, le, same}

  -- `StrategyConfig::default`.
  unfoldable pub default_config : StrategyConfig Float
  default_config = record {
    fast_ema_period = 12;
    slow_ema_period = 48;
    momentum_lookback = 16;
    reversion_window = 64;
    weight_trend = decimal 5 1;
    weight_momentum = decimal 3 1;
    weight_reversion = decimal 2 1;
    threshold = decimal 35 2;
    momentum_bps_full_scale = num 25;
    cooldown_ticks = 32;
  }

  -- `Ema::new` and `Ema::update`.
  unfoldable pub new_ema : ℕ → Ema Float
  new_ema period = record {
    alpha = div (num 2) (add (num period) (num 1));
    value = num 0;
    initialized = false;
  }

  unfoldable pub update_ema : Float → Ema Float → Ema Float
  update_ema x e =
      if e.initialized
      then record e { value = add e.value (mul e.alpha (sub x e.value)) }
      else record e { value = x; initialized = true }

  -- `Strategy::new`.
  unfoldable pub new_strategy : StrategyConfig Float → Strategy Float
  unfolding new_ema
  new_strategy cfg = record {
    cfg = cfg;
    fast = new_ema cfg.fast_ema_period;
    slow = new_ema cfg.slow_ema_period;
    momentum_buf = [];
    window = [];
    window_sum = num 0;
    window_sum_sq = num 0;
    ticks_seen = 0;
    last_trade_tick = none;
    last_side = none;
  }

  unfoldable pub trim_window : ℕ → List Float → Float → Float → Window Float
  trim_window bound [] sum sum_sq = record { prices = []; sum = sum; sum_sq = sum_sq }
  trim_window bound (old ∷ xs) sum sum_sq =
      if ltb bound (length (old ∷ xs))
      then trim_window bound xs (sub sum old) (sub sum_sq (mul old old))
      else record { prices = old ∷ xs; sum = sum; sum_sq = sum_sq }

  -- The first part of `on_price`: all the rolling state.
  unfoldable pub roll : Float → Strategy Float → Strategy Float
  unfolding update_ema trim trim_window
  roll price s =
      let w =
        trim_window s.cfg.reversion_window (s.window ++ price ∷ []) (add s.window_sum price)
          (add s.window_sum_sq (mul price price)) in
      record s {
        ticks_seen = (s.ticks_seen + 1) % 2 ^ 64;
        fast = update_ema price s.fast;
        slow = update_ema price s.slow;
        momentum_buf = trim (s.cfg.momentum_lookback + 1) (s.momentum_buf ++ price ∷ []);
        window = w.prices;
        window_sum = w.sum;
        window_sum_sq = w.sum_sq;
      }

  unfoldable pub trend_signal : Strategy Float → Float
  trend_signal s =
      if s.slow.initialized
      then if same s.slow.value (num 0)
        then num 0
        else tanh (mul (div (sub s.fast.value s.slow.value) s.slow.value) (num 200))
      else num 0

  -- The reading of `momentum_signal` from the oldest price and the latest.
  abbrev pub momentum_of : StrategyConfig Float → Float → Float → Float
  momentum_of cfg past now =
      if same past (num 0)
      then num 0
      else clamp_unit F
          (div (mul (div (sub now past) past) (num 10_000)) cfg.momentum_bps_full_scale)

  -- `momentum_buf[0]` and `momentum_buf.back().unwrap()` of an empty buffer panic.
  abbrev pub momentum_reading : StrategyConfig Float → List Float → Option Float
  momentum_reading cfg buf =
      if leb (length buf) cfg.momentum_lookback then some (num 0) else elim buf [
        | [] ↦ none
        | past ∷ later ↦ last (past ∷ later) >>= λ now. some (momentum_of cfg past now)
      ]

  unfoldable pub momentum_signal : Strategy Float → Option Float
  momentum_signal s = momentum_reading s.cfg s.momentum_buf

  abbrev pub mean_of : Strategy Float → Float
  mean_of s = div s.window_sum (num (length s.window))

  abbrev pub var_of : Strategy Float → Float
  var_of s = sub (div s.window_sum_sq (num (length s.window))) (mul (mean_of s) (mean_of s))

  unfoldable pub reversion_signal : Strategy Float → Option Float
  reversion_signal s =
      if ltb (length s.window) s.cfg.reversion_window
      then some (num 0)
      else if le (var_of s) (decimal 1 12)
      then some (num 0)
      else last s.window >>= λ latest.
          some (clamp_unit F (div (neg (div (sub latest (mean_of s)) (sqrt (var_of s)))) (num 2)))

  unfoldable pub signals : Strategy Float → Option (Float × Float × Float)
  unfolding trend_signal momentum_signal reversion_signal
  signals s = do
    momentum ← momentum_signal s
    reversion ← reversion_signal s
    some (trend_signal s, momentum, reversion)

  unfoldable pub cooldown_ok : Side → Strategy Float → Bool
  cooldown_ok side s = elim s.last_side [
    | none ↦ true
    | some prev ↦ elim s.last_trade_tick [
      | none ↦ true
      | some t ↦ if same_side prev side then leb s.cfg.cooldown_ticks (s.ticks_seen - t) else true
    ]
  ]

  -- The blended score, where the weights have a positive sum.
  unfoldable pub score_of : StrategyConfig Float → Float → Float → Float → Float
  score_of cfg trend momentum reversion =
      div
        (add (add (mul cfg.weight_trend trend) (mul cfg.weight_momentum momentum))
          (mul cfg.weight_reversion reversion))
        (add (add cfg.weight_trend cfg.weight_momentum) cfg.weight_reversion)

  unfoldable pub side_of_score : StrategyConfig Float → Float → Option Side
  side_of_score cfg score =
      if le cfg.threshold score
      then some Side.buy
      else if le score (neg cfg.threshold)
      then some Side.sell
      else none

  -- `match side`: a trade is noted, and anything else holds.
  unfoldable pub take : Option Side → Float → Strategy Float → Strategy Float × Decision Float
  unfolding cooldown_ok
  take none score s = (s, Decision.hold)
  take (some side) score s =
      if cooldown_ok side s
      then (
        record s { last_trade_tick = some s.ticks_seen; last_side = some side },
        Decision.trade side score,
      )
      else (s, Decision.hold)

  -- The second part of `on_price`: what is made of the signals.
  unfoldable pub blend : Strategy Float → Float × Float × Float → Strategy Float × Decision Float
  unfolding score_of side_of_score take
  blend s (trend, momentum, reversion) =
      let w = add (add s.cfg.weight_trend s.cfg.weight_momentum) s.cfg.weight_reversion in
      let score = score_of s.cfg trend momentum reversion in
      if le w (num 0) then (s, Decision.hold) else take (side_of_score s.cfg score) score s

  unfoldable pub decide : Strategy Float → Option (Strategy Float × Decision Float)
  unfolding signals blend
  decide s = signals s >>= λ three. some (blend s three)

  unfoldable pub on_price : Float → Strategy Float → Option (Strategy Float × Decision Float)
  unfolding roll decide
  on_price price s = decide (roll price s)

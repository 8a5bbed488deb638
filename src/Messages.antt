-- ===== src/Messages.antt =====
-- src/hot_path.rs: the messages on the bus, less their padding.
use rust_hotpath_ipc.Prelude.{ℕ}
use rust_hotpath_ipc.Prelude.Int.{ℤ}

pub record OrderCommand : Type 0 where
  pub timestamp_ns : ℕ
  pub order_id : ℕ
  pub price_ticks : ℤ
  pub quantity : ℕ
  pub origin_ts : ℕ
  pub symbol_id : ℕ
  pub user_id : ℕ
  pub side : ℕ
  pub order_type : ℕ
  pub action : ℕ
  pub flags : ℕ
  pub exchange_id : ℕ
  pub priority : ℕ

pub record MarketTick : Type 0 where
  pub timestamp_ns : ℕ
  pub symbol_id : ℕ
  pub exchange_id : ℕ
  pub tick_type : ℕ
  pub price : ℤ
  pub quantity : ℕ
  pub bid : ℤ
  pub ask : ℤ
  pub volume_24h : ℕ
  pub sequence : ℕ

pub record ExecutionReport : Type 0 where
  pub timestamp_ns : ℕ
  pub order_id : ℕ
  pub exchange_order_id : ℕ
  pub executed_price : ℤ
  pub executed_quantity : ℕ
  pub remaining_quantity : ℕ
  pub commission : ℤ
  pub status : ℕ
  pub reject_reason : ℕ

pub record OrderBookSnapshot : Type 0 where
  pub timestamp_ns : ℕ
  pub symbol_id : ℕ
  pub exchange_id : ℕ
  pub depth : ℕ
  pub best_bid : ℤ
  pub best_ask : ℤ
  pub bid_size : ℕ
  pub ask_size : ℕ
  pub mid_price : ℤ
  pub spread : ℤ

-- ===== src/Exchange.antt =====
-- src/bin/exchange.rs: the exchange process, less its wiring to the bus and its participants.
-- `rdtsc n` is the `n`-th reading of the clock. What `send` publishes is returned as a list. A panic
-- is `none`. `&mut self` and `&mut Book` are passed in and returned.
pub mod Rounds
pub mod Reports
pub mod Pacing
use Prim.Native.Nat.{bit_or, bit_xor}
use rust_hotpath_ipc.Prelude.Words.{wrap_i64}
use rust_hotpath_ipc.Prelude.{
  last, ◌>>=◌, ℕ, zero, suc, ◌+◌, ◌-◌, ◌*◌, ◌/◌, ◌%◌, ◌^◌, min, Bool, true, false, ◌&&◌, ◌||◌, not,
  Option, none, some, List, [], ◌∷◌, ◌++◌, ltb, leb, ◌==◌, if◌then◌else◌, is_some, length,
  get_elem?, set,
}
use rust_hotpath_ipc.Prelude.Int.{max_ℤ, ℤ, pos, negsuc, ◌+ℤ◌, ◌-ℤ◌, ltb_ℤ, eqb_ℤ}
use rust_hotpath_ipc.Float.{F64}
use rust_hotpath_ipc.Messages.{OrderCommand, MarketTick, ExecutionReport, OrderBookSnapshot}
use rust_hotpath_ipc.OrderBook.{
  Side, from_u8, Fill, Book, new_book, Order, submit, cancel, is_resting, best_bid, best_ask,
  bid_level_count, size_at,
}
use rust_hotpath_ipc.Participants.{Participants, Floor, new_participants, act, scale}

module _ (F : F64) where
  open F use {Float, num, mul, div, to_int}

  -- `fee * SCALE` of a fill.
  abbrev pub commission : Float → Fill → ℤ
  commission fee_bps f =
      let px = div (F.of_int f.price_ticks) (scale F) in
      let qty = div (num f.quantity) (scale F) in
      to_int (mul (mul (mul px qty) (div fee_bps (num 10_000))) (scale F))

  -- One report per fill of the strategy's own order as the taker.
  unfoldable pub publish_fills : (ℕ → ℕ) → ℕ → Float → List Fill → List ExecutionReport
  publish_fills rdtsc n fee_bps [] = []
  publish_fills rdtsc n fee_bps (f ∷ fs) =
      if f.taker_is_synthetic
      then publish_fills rdtsc n fee_bps fs
      else record {
        timestamp_ns = rdtsc n;
        order_id = f.taker_order_id;
        exchange_order_id = f.taker_order_id;
        executed_price = f.price_ticks;
        executed_quantity = f.quantity;
        remaining_quantity = f.taker_remaining_after;
        commission = commission fee_bps f;
        status = if f.taker_remaining_after == 0 then 2 else 1;
        reject_reason = 0;
      }
        ∷ publish_fills rdtsc (n + 1) fee_bps fs

  -- One report per fill whose maker is the strategy's.
  unfoldable pub publish_strategy_maker_fills :
      (ℕ → ℕ) → ℕ → Float → List Fill → List ExecutionReport
  publish_strategy_maker_fills rdtsc n fee_bps [] = []
  publish_strategy_maker_fills rdtsc n fee_bps (f ∷ fs) =
      if f.maker_is_synthetic
      then publish_strategy_maker_fills rdtsc n fee_bps fs
      else record {
        timestamp_ns = rdtsc n;
        order_id = f.maker_order_id;
        exchange_order_id = f.maker_order_id;
        executed_price = f.price_ticks;
        executed_quantity = f.quantity;
        remaining_quantity = 0;
        commission = commission fee_bps f;
        status = 2;
        reject_reason = 0;
      }
        ∷ publish_strategy_maker_fills rdtsc (n + 1) fee_bps fs

-- The order that a command asks for.
abbrev pub order_of : OrderCommand → Order
unfolding from_u8
order_of cmd = record {
  order_id = cmd.order_id;
  side = from_u8 cmd.side;
  is_limit = cmd.order_type == 1;
  limit_px = cmd.price_ticks;
  quantity = cmd.quantity;
  origin_ts = cmd.origin_ts;
  is_synthetic = false;
}

-- `match_strategy_order`: the book and the fills after it.
unfoldable pub match_strategy_order : OrderCommand → List Fill → Book → Book × List Fill
match_strategy_order cmd fills b =
    let b' = if cmd.action == 2 then (cancel cmd.order_id b).0 else b in
    let r = submit (order_of cmd) fills b' in
    if cmd.action == 1 then ((cancel cmd.order_id b).0, fills) else (r.book, r.fills)

abbrev pub half : ℤ → ℤ
half (pos n) = pos (n / 2)
half (negsuc n) = pos 0 -ℤ pos (suc n / 2)

abbrev pub price_or_zero : Option ℤ → ℤ
price_or_zero none = pos 0
price_or_zero (some p) = p

unfoldable pub mid_of : ℤ → ℤ → ℤ
mid_of bid ask =
    if ltb_ℤ (pos 0) bid && ltb_ℤ (pos 0) ask then half (wrap_i64 (bid +ℤ ask)) else max_ℤ bid ask

-- The locals of `main` that the third part of the loop reads and writes.
pub record TopOfBook : Type 0 where
  pub seq : ℕ
  pub last_bid : ℤ
  pub last_ask : ℤ

-- `if bid != last_bid || ask != last_ask`: a tick and a snapshot, with the new locals.
unfoldable pub publish_top :
    ℕ → Book → TopOfBook → TopOfBook × Option (MarketTick × OrderBookSnapshot)
unfolding mid_of bid_level_count size_at
publish_top now b top =
    let bid = price_or_zero (best_bid b) in
    let ask = price_or_zero (best_ask b) in
    let seq = (top.seq + 1) % 2 ^ 64 in
    let tick : MarketTick = record {
      timestamp_ns = now;
      symbol_id = 1;
      exchange_id = 1;
      tick_type = 0;
      price = mid_of bid ask;
      quantity = 100_000_000;
      bid = bid;
      ask = ask;
      volume_24h = 0;
      sequence = seq;
    } in
    let snap : OrderBookSnapshot = record {
      timestamp_ns = now;
      symbol_id = 1;
      exchange_id = 1;
      depth = min (bid_level_count b) 255;
      best_bid = bid;
      best_ask = ask;
      bid_size = size_at Side.buy bid b;
      ask_size = size_at Side.sell ask b;
      mid_price = mid_of bid ask;
      spread = max_ℤ (wrap_i64 (ask -ℤ bid)) (pos 0);
    } in
    if not (eqb_ℤ bid top.last_bid) || not (eqb_ℤ ask top.last_ask)
    then (record { seq = seq; last_bid = bid; last_ask = ask }, some (tick, snap))
    else (top, none)

-- The state of the loop of `main`, with the number of clock readings so far.
pub record Exchange (A : Type 0) : Type 0 where
  pub participants : Participants A
  pub book : Book
  pub top : TopOfBook
  pub reads : ℕ

abbrev pub no_top : TopOfBook
no_top = record { seq = 0; last_bid = pos 0; last_ask = pos 0 }

-- What a turn of the loop publishes.
pub record Published : Type 0 where
  pub reports : List ExecutionReport
  pub market : Option (MarketTick × OrderBookSnapshot)

module _ (F : F64) (rdtsc : ℕ → ℕ) where
  open F use {Float, num}

  -- `while let Some(sample) = orders.receive()?`: the orders that wait, each into cleared fills.
  unfoldable pub match_orders : List OrderCommand → ℕ → Book → Book × ℕ × List ExecutionReport
  match_orders [] n b = (b, n, [])
  match_orders (cmd ∷ cmds) n b =
      let (b', fills) = match_strategy_order cmd [] b in
      let out = publish_fills F rdtsc n (num 1) fills in
      let (b'', n', more) = match_orders cmds (n + length out) b' in (b'', n', out ++ more)

  -- The paced part of a turn.
  unfoldable pub participate :
      Participants Float → Book → ℕ → Option (Floor Float × ℕ × List ExecutionReport)
  participate p b n = do
    w ← act F (record { participants = p; book = b; sink = [] })
    let out = publish_strategy_maker_fills F rdtsc n (num 1) w.sink
    some (w, n + length out, out)

  abbrev pub paced :
      Bool → Participants Float → Book → ℕ → Option (Floor Float × ℕ × List ExecutionReport)
  paced true p b n = participate p b n
  paced false p b n = some (record { participants = p; book = b; sink = [] }, n, [])

  -- The end of a turn: the top of book is published if it moved, and only then the clock is read.
  unfoldable pub finish_turn :
      List ExecutionReport
      → TopOfBook
      → Floor Float × ℕ × List ExecutionReport
      → Exchange Float × Published
  finish_turn out top (w, n, more) =
      let (top', market) = publish_top (rdtsc n) w.book top in
      (
        record {
          participants = w.participants;
          book = w.book;
          top = top';
          reads = if is_some market then n + 1 else n;
        },
        record { reports = out ++ more; market = market },
      )

  -- A turn of the loop: the orders that wait, a participant round if one is due, the top of book.
  unfoldable pub turn :
      List OrderCommand → Bool → Exchange Float → Option (Exchange Float × Published)
  turn cmds due x =
      let (b, n, out) = match_orders cmds x.reads x.book in
      paced due x.participants b n >>= λ r. some (finish_turn out x.top r)

  -- `for _ in 0..64`: the rounds that prime the book, whose fills are not reported.
  unfoldable pub prime : ℕ → Participants Float → Book → Option (Floor Float)
  prime zero p b = some (record { participants = p; book = b; sink = [] })
  prime (suc k) p b = do
    w ← act F (record { participants = p; book = b; sink = [] })
    prime k w.participants w.book

  unfoldable pub start : ℕ → Float → Option (Exchange Float)
  start seed vol = do
    w ← prime 64 (new_participants F seed vol) new_book
    some (record { participants = w.participants; book = w.book; top = no_top; reads = 0 })

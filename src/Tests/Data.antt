-- ===== src/Tests/Data.antt =====
-- A float instance over the integers, a book, orders and messages.
use rust_hotpath_ipc.Prelude.{
  ℕ, ◌+◌, ◌/◌, ◌%◌, ◌^◌, ◌<◌, refl, true, false, Option, none, some, [], ◌∷◌, arith, ◌==◌,
  if◌then◌else◌,
}
use rust_hotpath_ipc.Prelude.Int.{
  ℤ, pos, negsuc, ◌+ℤ◌, ◌-ℤ◌, ◌*ℤ◌, leb_ℤ, ltb_ℤ, eqb_ℤ, pos_part, neg_part,
}
use rust_hotpath_ipc.Prelude.Text.{Text, codes}
use rust_hotpath_ipc.Float.{F64}
use rust_hotpath_ipc.OrderBook.{Side, RestingOrder, PriceLevel, Book, Order}
use rust_hotpath_ipc.OrderBook.Valid.{SidesAreValid}
use rust_hotpath_ipc.OrderBook.Uncrossed.{IsUncrossed}
use rust_hotpath_ipc.Messages.{OrderCommand, MarketTick}

abbrev div_ℤ : ℤ → ℤ → ℤ
div_ℤ (pos a) b = pos (a / pos_part b)
div_ℤ (negsuc a) b = pos 0 -ℤ pos ((a + 1) / pos_part b)

-- Whole numbers stand for the floats: a fraction is cut off.
abbrev pub whole : F64
whole = record {
  Float = ℤ;
  num = pos;
  decimal = λ m k. pos 0;
  of_int = λ x. x;
  neg = λ x. pos 0 -ℤ x;
  add = λ x y. x +ℤ y;
  sub = λ x y. x -ℤ y;
  mul = λ x y. x *ℤ y;
  div = div_ℤ;
  sqrt = λ x. x;
  tanh = λ x. x;
  ln = λ x. pos 0;
  cos = λ x. pos 1;
  tau = pos 6;
  ceil = λ x. x;
  abs = λ x. pos (pos_part x + neg_part x);
  lt = ltb_ℤ;
  le = leb_ℤ;
  same = eqb_ℤ;
  to_nat = λ x. pos_part x % 2 ^ 64;
  to_int = λ x. x;
}

pub to_nat-small : (x : ℤ) → pos_part x % 2 ^ 64 < 2 ^ 64
to_nat-small x = omega arith

abbrev pub resting : ℕ → ℕ → RestingOrder
resting id n = record { order_id = id; remaining = n; is_synthetic = true }

abbrev level_1 : PriceLevel
level_1 = record { total_size = 8; queue = resting 1 5 ∷ resting 2 3 ∷ [] }

abbrev level_2 : PriceLevel
level_2 = record { total_size = 4; queue = resting 3 4 ∷ [] }

abbrev level_3 : PriceLevel
level_3 = record { total_size = 6; queue = resting 4 6 ∷ [] }

abbrev at_test : ℕ → Option (Side × ℤ)
at_test id =
    if id == 1
    then some (Side.sell, pos 100)
    else if id == 2
    then some (Side.sell, pos 100)
    else if id == 3
    then some (Side.sell, pos 101)
    else if id == 4
    then some (Side.buy, pos 99)
    else none

-- Asks of 5 and 3 at 100 and of 4 at 101, and a bid of 6 at 99.
abbrev pub two_sided : Book
two_sided = record {
  bids = (pos 99, level_3) ∷ [];
  asks = (pos 100, level_1) ∷ (pos 101, level_2) ∷ [];
  locate = at_test;
}

pub two_sided-SidesAreValid : SidesAreValid two_sided
two_sided-SidesAreValid = record {
  bids = record {
    sorted = (tt, tt);
    sized = (refl, record { cached = refl; working = (omega arith, omega arith, tt) }, tt);
  };
  asks = record {
    sorted = ((refl, tt), (tt, tt));
    sized = (
      refl,
      record {
        cached = refl;
        working = (omega arith, omega arith, (omega arith, omega arith, tt));
      },
      (refl, record { cached = refl; working = (omega arith, omega arith, tt) }, tt),
    );
  };
}

pub two_sided-IsUncrossed : IsUncrossed two_sided
two_sided-IsUncrossed = refl

-- A limit order to buy 10 at up to 100: it takes both offers at 100 and rests the other 2.
abbrev pub buy_10 : Order
buy_10 = record {
  order_id = 9;
  side = Side.buy;
  is_limit = true;
  limit_px = pos 100;
  quantity = 10;
  origin_ts = 77;
  is_synthetic = false;
}

abbrev pub buy_command : OrderCommand
buy_command = record {
  timestamp_ns = 80;
  order_id = 9;
  price_ticks = pos 100;
  quantity = 10;
  origin_ts = 77;
  symbol_id = 1;
  user_id = 1;
  side = 0;
  order_type = 1;
  action = 0;
  flags = 0;
  exchange_id = 1;
  priority = 0;
}

abbrev pub tick_at : ℕ → MarketTick
tick_at px = record {
  timestamp_ns = 70;
  symbol_id = 1;
  exchange_id = 1;
  tick_type = 0;
  price = pos px;
  quantity = 100_000_000;
  bid = pos px;
  ask = pos (px + 1);
  volume_24h = 0;
  sequence = 1;
}

-- A graph that a price above 0 makes buy.
abbrev pub drawn : Text
drawn =
    codes
      "{\"canvas\":{\"nodes\":[{\"id\":\"p\",\"type\":\"data_source\"},{\"id\":\"b\",\"type\":\"buy_signal\"}],\"connections\":[{\"from\":\"p\",\"to\":\"b\"}]}}"

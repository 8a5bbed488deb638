-- ===== src/BookState.antt =====
-- src/order_book.rs: the state of the limit order book, its queries and the small steps on it.
-- A side of the book, a `BTreeMap<i64, PriceLevel>`, is the list of its entries in the order in
-- which the matcher walks it: asks by rising price (`keys().next()` first), bids by falling price
-- (`keys().next_back()` first). `locate`, a `HashMap`, is the function that `get` computes.
use rust_hotpath_ipc.Prelude.{
  ℕ, Bool, Option, none, some, List, [], ◌∷◌, ◌==◌, if◌then◌else◌, length, is_some,
}
use rust_hotpath_ipc.Prelude.Int.{ℤ, ltb_ℤ, eqb_ℤ}

pub data Side : Type 0 where
  buy sell : Side

-- `Side::from_u8`.
unfoldable pub from_u8 : ℕ → Side
from_u8 v = if v == 0 then Side.buy else Side.sell

abbrev pub opposite : Side → Side
opposite Side.buy = Side.sell
opposite Side.sell = Side.buy

pub record RestingOrder : Type 0 where
  pub order_id : ℕ
  pub remaining : ℕ
  pub is_synthetic : Bool

pub record PriceLevel : Type 0 where
  pub total_size : ℕ
  pub queue : List RestingOrder

-- `PriceLevel::new`.
abbrev pub new_level : PriceLevel
new_level = record { total_size = 0; queue = [] }

pub record Fill : Type 0 where
  pub taker_order_id : ℕ
  pub maker_order_id : ℕ
  pub price_ticks : ℤ
  pub quantity : ℕ
  pub taker_origin_ts : ℕ
  pub taker_remaining_after : ℕ
  pub taker_is_synthetic : Bool
  pub maker_is_synthetic : Bool

pub data Reject : Type 0 where
  no_liquidity : Reject

pub data Outcome : Type 0 where
  filled : Outcome
  rested : ℕ → Outcome
  rejected : Reject → Outcome
  cancelled : Outcome
  cancel_rejected : Outcome

abbrev pub Levels : Type 0
Levels = List (ℤ × PriceLevel)

pub record Book : Type 0 where
  pub bids : Levels
  pub asks : Levels
  pub locate : ℕ → Option (Side × ℤ)

-- `Book::new`.
abbrev pub new_book : Book
new_book = record { bids = []; asks = []; locate = λ _. none }

-- Whether the matcher meets price `p` before price `q` on a side: the key order of the map.
abbrev pub before : Side → ℤ → ℤ → Bool
before Side.buy p q = ltb_ℤ q p
before Side.sell p q = ltb_ℤ p q

-- `if side == Side::Buy { &self.bids } else { &self.asks }`, to read and to write.
abbrev pub levels_of : Side → Book → Levels
levels_of Side.buy b = b.bids
levels_of Side.sell b = b.asks

abbrev pub with_levels : Side → Levels → Book → Book
with_levels Side.buy ls b = record b { bids = ls }
with_levels Side.sell ls b = record b { asks = ls }

-- `BTreeMap::get`, `insert` and `remove`, and the first key in walking order.
unfoldable pub get_level : ℤ → Levels → Option PriceLevel
get_level px [] = none
get_level px ((p, l) ∷ ls) = if eqb_ℤ p px then some l else get_level px ls

unfoldable pub put_level : Side → ℤ → PriceLevel → Levels → Levels
put_level s px l [] = (px, l) ∷ []
put_level s px l ((p, k) ∷ ls) =
    if eqb_ℤ p px
    then (px, l) ∷ ls
    else if before s px p
    then (px, l) ∷ (p, k) ∷ ls
    else (p, k) ∷ put_level s px l ls

unfoldable pub delete_level : ℤ → Levels → Levels
delete_level px [] = []
delete_level px ((p, l) ∷ ls) = if eqb_ℤ p px then ls else (p, l) ∷ delete_level px ls

abbrev pub best_key : Levels → Option ℤ
best_key [] = none
best_key ((p, _) ∷ _) = some p

abbrev pub best_bid : Book → Option ℤ
best_bid b = best_key b.bids

abbrev pub best_ask : Book → Option ℤ
best_ask b = best_key b.asks

-- `best_of`.
abbrev pub best_of : Side → Book → Option ℤ
best_of Side.buy b = best_bid b
best_of Side.sell b = best_ask b

abbrev pub size_or_zero : Option PriceLevel → ℕ
size_or_zero none = 0
size_or_zero (some l) = l.total_size

unfoldable pub size_at : Side → ℤ → Book → ℕ
unfolding get_level
size_at s px b = size_or_zero (get_level px (levels_of s b))

unfoldable pub bid_level_count : Book → ℕ
bid_level_count b = length b.bids

unfoldable pub is_resting : ℕ → Book → Bool
is_resting id b = is_some (b.locate id)

-- `level_mut`: the level at a price, or a new one. What the caller does to it is written back by
-- `put_level`.
abbrev pub or_new : Option PriceLevel → PriceLevel
or_new none = new_level
or_new (some l) = l

unfoldable pub level_mut : Side → ℤ → Book → PriceLevel
unfolding get_level
level_mut s px b = or_new (get_level px (levels_of s b))

-- `locate.insert` and `locate.remove`.
unfoldable pub insert_location : ℕ → Side × ℤ → Book → Book
insert_location id at b = record b { locate = λ j. if j == id then some at else b.locate j }

unfoldable pub remove_location : ℕ → Book → Book
remove_location id b = record b { locate = λ j. if j == id then none else b.locate j }

unfoldable pub remove_locations : List ℕ → Book → Book
unfolding remove_location
remove_locations [] b = b
remove_locations (id ∷ ids) b = remove_locations ids (remove_location id b)

-- ===== src/OrderBook.antt =====
-- src/order_book.rs: the matcher. `submit` crosses the other side and rests or rejects the remainder,
-- and `cancel` takes an order out. The state of the book, passed on here, is in BookState. A `u64`
-- sum wraps as in the release profile. `fills: &mut Vec<Fill>` is passed in and returned.
pub mod Line
pub mod Sides
pub mod Refine
pub mod Done
pub mod Invariant
pub mod Valid
pub mod Recedes
pub mod Uncrossed
pub mod Market
pub mod Submit
pub mod Trades
pub mod Fills
pub mod Cancel
pub mod Queued
pub mod Indexed
pub use rust_hotpath_ipc.BookState.{
  Side, opposite, RestingOrder, PriceLevel, new_level, Fill, Reject, Outcome, Levels, Book,
  new_book, before, levels_of, with_levels, best_key, best_bid, best_ask, best_of, size_or_zero,
  or_new,
}
unfoldable pub use rust_hotpath_ipc.BookState.{
  from_u8, get_level, put_level, delete_level, size_at, bid_level_count, is_resting, level_mut,
  insert_location, remove_location, remove_locations,
}
use rust_hotpath_ipc.Prelude.Words.{sub_u64, add_u64}
use rust_hotpath_ipc.Prelude.{
  ℕ, zero, suc, ◌+◌, ◌-◌, ◌%◌, ◌^◌, min, Bool, true, false, Option, none, some, List, [], ◌∷◌, ◌++◌,
  ◌==◌, if◌then◌else◌, length, is_some,
}
use rust_hotpath_ipc.Prelude.Int.{ℤ, leb_ℤ, ltb_ℤ, eqb_ℤ}

-- The arguments of `submit`, but for the book and the fills.
pub record Order : Type 0 where
  pub order_id : ℕ
  pub side : Side
  pub is_limit : Bool
  pub limit_px : ℤ
  pub quantity : ℕ
  pub origin_ts : ℕ
  pub is_synthetic : Bool

-- What the inner loop leaves: the taker's remainder, the level, the fills, the makers that filled.
pub record Progress : Type 0 where
  pub remaining : ℕ
  pub level : PriceLevel
  pub fills : List Fill
  pub cleared_makers : List ℕ

unfoldable pub fill_of : Order → ℤ → RestingOrder → ℕ → Fill
fill_of t px maker remaining = record {
  taker_order_id = t.order_id;
  maker_order_id = maker.order_id;
  price_ticks = px;
  quantity = min remaining maker.remaining;
  taker_origin_ts = t.origin_ts;
  taker_remaining_after = remaining - min remaining maker.remaining;
  taker_is_synthetic = t.is_synthetic;
  maker_is_synthetic = maker.is_synthetic;
}

-- A filled maker is popped and noted.
abbrev pub pop_front : Fill → Progress → ℕ → Progress
pop_front f p id = record p { fills = f ∷ p.fills; cleared_makers = id ∷ p.cleared_makers }

-- `while remaining > 0`, over the queue from its front. A maker that is left with quantity leaves
-- the taker with none, so that the loop ends there.
unfoldable pub consume : Order → ℤ → ℕ → ℕ → List RestingOrder → Progress
unfolding fill_of
consume t px remaining total [] = record {
  remaining = remaining;
  level = record { total_size = total; queue = [] };
  fills = [];
  cleared_makers = [];
}
consume t px remaining total (maker ∷ behind) =
    let fill_qty = min remaining maker.remaining in
    let after = consume t px (remaining - fill_qty) (sub_u64 total fill_qty) behind in
    if remaining == 0
    then record {
      remaining = remaining;
      level = record { total_size = total; queue = maker ∷ behind };
      fills = [];
      cleared_makers = [];
    }
    else if maker.remaining - fill_qty == 0
    then pop_front (fill_of t px maker remaining) after maker.order_id
    else record {
      remaining = remaining - fill_qty;
      level = record {
        total_size = sub_u64 total fill_qty;
        queue = record maker { remaining = maker.remaining - fill_qty } ∷ behind;
      };
      fills = fill_of t px maker remaining ∷ [];
      cleared_makers = [];
    }

-- A limit order crosses only while the price is acceptable.
abbrev pub acceptable : Order → ℤ → Bool
acceptable t best_px =
    if t.is_limit
    then elim t.side [ Side.buy ↦ leb_ℤ best_px t.limit_px | Side.sell ↦ leb_ℤ t.limit_px best_px ]
    else true

abbrev pub is_empty : List RestingOrder → Bool
is_empty [] = true
is_empty (_ ∷ _) = false

-- One round of the crossing loop at the best price: the inner loop, then `locate` and the level.
unfoldable pub settle : Order → ℤ → Progress → Book → Book
unfolding put_level delete_level remove_locations
settle t px p b =
    let opp = opposite t.side in
    let ls = levels_of opp b in
    let b' = remove_locations p.cleared_makers b in
    with_levels opp
      (if is_empty p.level.queue then delete_level px ls else put_level opp px p.level ls) b'

unfoldable pub cross_level : Order → ℤ → ℕ → Book → Progress
unfolding consume level_mut
cross_level t px remaining b =
    let l = level_mut (opposite t.side) px b in consume t px remaining l.total_size l.queue

pub record Crossed : Type 0 where
  pub book : Book
  pub remaining : ℕ
  pub fills : List Fill

-- The crossing loop, with fuel.
unfoldable pub cross : ℕ → Order → ℕ → Book → Crossed
unfolding cross_level settle
cross zero t remaining b = record { book = b; remaining = remaining; fills = [] }
cross (suc fuel) t remaining b = elim (remaining == 0) [
  | true ↦ record { book = b; remaining = remaining; fills = [] }
  | false ↦ elim (best_of (opposite t.side) b) [
    | none ↦ record { book = b; remaining = remaining; fills = [] }
    | some best_px ↦ elim (acceptable t best_px) [
      | false ↦ record { book = b; remaining = remaining; fills = [] }
      | true ↦
          let p = cross_level t best_px remaining b in
          let c = cross fuel t p.remaining (settle t best_px p b) in
          record c { fills = p.fills ++ c.fills }
    ]
  ]
]

-- The remainder of a limit order joins the back of its own level.
unfoldable pub rest : Order → ℕ → Book → Book
unfolding put_level level_mut insert_location
rest t remaining b =
    let l = level_mut t.side t.limit_px b in
    let o : RestingOrder = record {
      order_id = t.order_id;
      remaining = remaining;
      is_synthetic = t.is_synthetic;
    } in
    let l' : PriceLevel = record {
      total_size = add_u64 l.total_size remaining;
      queue = l.queue ++ o ∷ [];
    } in
    insert_location t.order_id (t.side, t.limit_px)
      (with_levels t.side (put_level t.side t.limit_px l' (levels_of t.side b)) b)

pub record Submitted : Type 0 where
  pub book : Book
  pub fills : List Fill
  pub outcome : Outcome

-- One more round than there are levels to cross: `cross-IsDone` has why that is enough.
abbrev pub rounds : Order → Book → ℕ
rounds t b = suc (length (levels_of (opposite t.side) b))

-- The end of `submit`: rest or reject the remainder.
unfoldable pub finish : Order → List Fill → Crossed → Submitted
unfolding rest level_mut
finish t fills c =
    if c.remaining == 0
    then record { book = c.book; fills = fills ++ c.fills; outcome = Outcome.filled }
    else if t.is_limit
    then record {
      book = rest t c.remaining c.book;
      fills = fills ++ c.fills;
      outcome = Outcome.rested (level_mut t.side t.limit_px c.book).total_size;
    }
    else record {
      book = c.book;
      fills = fills ++ c.fills;
      outcome = Outcome.rejected Reject.no_liquidity;
    }

unfoldable pub submit : Order → List Fill → Book → Submitted
unfolding cross finish
submit t fills b = finish t fills (cross (rounds t b) t t.quantity b)

-- `queue.iter().position(..)` and `queue.remove(pos)`: the first order of that id, and the others.
unfoldable pub remove_order : ℕ → List RestingOrder → Option (RestingOrder × List RestingOrder)
remove_order id [] = none
remove_order id (o ∷ q) =
    if o.order_id == id
    then some (o, q)
    else elim (remove_order id q) [ none ↦ none | some (r, q') ↦ some (r, o ∷ q') ]

unfoldable pub without : ℕ → PriceLevel → PriceLevel
unfolding remove_order
without id l = elim (remove_order id l.queue) [
  | none ↦ l
  | some (r, q) ↦ record { total_size = sub_u64 l.total_size r.remaining; queue = q }
]

unfoldable pub cancel_at : ℕ → Side → ℤ → Book → Book
unfolding without put_level delete_level level_mut remove_location
cancel_at id s px b =
    let l = without id (level_mut s px b) in
    let ls = levels_of s b in
    with_levels s (if is_empty l.queue then delete_level px ls else put_level s px l ls)
      (remove_location id b)

unfoldable pub cancel : ℕ → Book → Book × Outcome
unfolding cancel_at
cancel id b = elim (b.locate id) [
  | none ↦ (b, Outcome.cancel_rejected)
  | some (s, px) ↦ (cancel_at id s px b, Outcome.cancelled)
]

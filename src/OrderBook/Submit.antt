-- ===== src/OrderBook/Submit.antt =====
-- `submit` of src/order_book.rs and its specification on the abstract market.
use rust_hotpath_ipc.Prelude.{
  ℕ, ◌%◌, ◌^◌, ◌<◌, ◌≡◌, refl, sym, ap, ap₂, ◌∙◌, true, false, Option, none, some, List, ◌++◌,
  arith, ◌==◌, if◌then◌else◌,
}
use rust_hotpath_ipc.Prelude.Int.{ℤ}
use rust_hotpath_ipc.OrderBook.{
  Side, opposite, RestingOrder, PriceLevel, Fill, Order, Book, levels_of, get_level, level_mut,
  or_new, Crossed, cross, rest, Submitted, submit, rounds,
}
use rust_hotpath_ipc.OrderBook.Sides.{levels_of-rest, other_levels-rest}
use rust_hotpath_ipc.OrderBook.Done.{finish_cases}
use rust_hotpath_ipc.OrderBook.Refine.{cross-Agrees, Agrees}
use rust_hotpath_ipc.OrderBook.Invariant.{SideIsValid}
use rust_hotpath_ipc.OrderBook.Line.{line_of, line, Swept, sweep}
use rust_hotpath_ipc.OrderBook.Valid.{SidesAreValid, side_of, AllSized-NoEmpty}
use rust_hotpath_ipc.OrderBook.Market.{enqueue, depth, line_of-put_level, get_level-depth}
use rust_hotpath_ipc.OrderBook.{size_at, size_or_zero, Outcome, Reject}

abbrev pub Offers : Type 0
Offers = List (ℤ × RestingOrder)

pub record Market : Type 0 where
  pub bids : Offers
  pub asks : Offers

abbrev pub offers : Side → Market → Offers
offers Side.buy m = m.bids
offers Side.sell m = m.asks

-- The market with these offers on a side and those on the other.
abbrev pub market_of : Side → Offers → Offers → Market
market_of Side.buy own other = record { bids = own; asks = other }
market_of Side.sell own other = record { bids = other; asks = own }

abbrev pub view : Book → Market
view b = record { bids = line Side.buy b; asks = line Side.sell b }

pub record Answer : Type 0 where
  pub market : Market
  pub fills : List Fill
  pub outcome : Outcome

abbrev pub resting : Order → ℕ → RestingOrder
resting t remaining = record {
  order_id = t.order_id;
  remaining = remaining;
  is_synthetic = t.is_synthetic;
}

-- What is left of an order joins its own side's line if it is a limit order, and is rejected if not.
unfoldable pub finish_spec : Order → Offers → Swept → Answer
unfolding enqueue depth
finish_spec t own s =
    if s.remaining == 0
    then record { market = market_of t.side own s.line; fills = s.fills; outcome = Outcome.filled }
    else if t.is_limit
    then record {
      market = market_of t.side (enqueue t.side t.limit_px (resting t s.remaining) own) s.line;
      fills = s.fills;
      outcome = Outcome.rested (depth t.limit_px own % 2 ^ 64);
    }
    else record {
      market = market_of t.side own s.line;
      fills = s.fills;
      outcome = Outcome.rejected Reject.no_liquidity;
    }

-- What a venue with price-time priority does with an order: it takes offers off the front of the
-- other side's line, then sees to what is left.
unfoldable pub submit_spec : Order → Market → Answer
unfolding finish_spec sweep
submit_spec t m = finish_spec t (offers t.side m) (sweep t t.quantity (offers (opposite t.side) m))

pub offers-view : (s : Side) (b : Book) → offers s (view b) ≡ line s b
offers-view Side.buy b = refl
offers-view Side.sell b = refl

view-market_of :
    (s : Side) (b : Book) {own other : Offers}
    → line s b ≡ own
    → line (opposite s) b ≡ other
    → view b ≡ market_of s own other
view-market_of Side.buy b h k = λ i. record { bids = h i; asks = k i }
view-market_of Side.sell b h k = λ i. record { bids = k i; asks = h i }

-- The code's result against the specification's, `earlier` being the fills passed in.
pub record Implements (r : Submitted) (earlier : List Fill) (a : Answer) : Type 0 where
  pub market : view r.book ≡ a.market
  pub fills : r.fills ≡ earlier ++ a.fills
  pub outcome : r.outcome ≡ a.outcome

module _ (t : Order) (own : Offers) (s : Swept) where
  pub spec_filled :
      s.remaining ≡ 0
      → finish_spec t own s
        ≡ record { market = market_of t.side own s.line; fills = s.fills; outcome = Outcome.filled }
  unfolding finish_spec
  spec_filled h = simp h

  module _ (left : 0 < s.remaining) where
    pub spec_rejected :
        t.is_limit ≡ false
        → finish_spec t own s ≡ record {
          market = market_of t.side own s.line;
          fills = s.fills;
          outcome = Outcome.rejected Reject.no_liquidity;
        }
    unfolding finish_spec
    spec_rejected market =
        let more : (s.remaining == 0) ≡ false = ground arith in simp (more, market)

    pub spec_rested :
        t.is_limit ≡ true
        → finish_spec t own s ≡ record {
          market = market_of t.side (enqueue t.side t.limit_px (resting t s.remaining) own) s.line;
          fills = s.fills;
          outcome = Outcome.rested (depth t.limit_px own % 2 ^ 64);
        }
    unfolding finish_spec
    spec_rested limit = let more : (s.remaining == 0) ≡ false = ground arith in simp (more, limit)

-- Resting an order is joining the line of its side.
line-rest :
    (t : Order) (remaining : ℕ) (b : Book)
    → SideIsValid t.side (levels_of t.side b)
    → line t.side (rest t remaining b)
      ≡ enqueue t.side t.limit_px (resting t remaining) (line t.side b)
line-rest t remaining b v =
    ap line_of (levels_of-rest t remaining b)
    ∙ line_of-put_level t.side t.limit_px (resting t remaining) _ _ (levels_of t.side b)
        (unfold level_mut in refl) v.sorted (AllSized-NoEmpty _ v.sized)

size_ahead :
    (s : Side) (px : ℤ) (b : Book)
    → SideIsValid s (levels_of s b)
    → (level_mut s px b).total_size ≡ depth px (line s b) % 2 ^ 64
unfolding level_mut
size_ahead s px b v = get_level-depth s px (levels_of s b) v

-- The size that the book shows at a price is the sum of what rests there, as a `u64`.
pub size_at-depth :
    (s : Side) (px : ℤ) (b : Book) → SidesAreValid b → size_at s px b ≡ depth px (line s b) % 2 ^ 64
unfolding size_at
size_at-depth s px b v =
    size_or_zero-or_new (get_level px (levels_of s b))
    ∙ get_level-depth s px (levels_of s b) (side_of s v)
  where
    size_or_zero-or_new : (o : Option PriceLevel) → size_or_zero o ≡ (or_new o).total_size
    size_or_zero-or_new none = refl
    size_or_zero-or_new (some l) = refl

-- On a valid book `submit` gives the market, the fills and the outcome that the specification gives:
-- the best price first, and first come first served within a price.
pub submit-Implements :
    (t : Order) (fills : List Fill) (b : Book)
    → SidesAreValid b
    → Implements (submit t fills b) fills (submit_spec t (view b))
unfolding submit submit_spec
submit-Implements t fills b v =
    rw (offers-view, offers-view)
      (finish_cases (λ r. Implements r fills (finish_spec t (line t.side b) s)) t fills c
        (λ done. rw (spec_filled t _ s (sym a.remaining ∙ done)) (record {
          market = view-market_of t.side c.book own_line a.line_left;
          fills = ap (◌++◌ fills) a.fills;
          outcome = refl;
        }))
        (λ left market. rw (spec_rejected t _ s (rw a.remaining at left) market) (record {
          market = view-market_of t.side c.book own_line a.line_left;
          fills = ap (◌++◌ fills) a.fills;
          outcome = refl;
        }))
        (λ left limit. rw (spec_rested t _ s (rw a.remaining at left) limit) (record {
          market =
              view-market_of t.side (rest t c.remaining c.book)
                (line-rest t c.remaining c.book own_valid
                  ∙ ap₂ (λ r l. enqueue t.side t.limit_px (resting t r) l) a.remaining own_line)
                (ap line_of (other_levels-rest t c.remaining c.book) ∙ a.line_left);
          fills = ap (◌++◌ fills) a.fills;
          outcome = ap Outcome.rested (
              size_ahead t.side t.limit_px c.book own_valid
              ∙ ap (λ l. depth t.limit_px l % 2 ^ 64) own_line);
        })))
  where
    c : Crossed
    c = cross (rounds t b) t t.quantity b

    s : Swept
    s = sweep t t.quantity (line (opposite t.side) b)

    a : Agrees t b c s
    a =
        cross-Agrees (rounds t b) t t.quantity b _ refl
          (AllSized-NoEmpty _ (side_of (opposite t.side) v).sized) (omega arith)

    own_line : line t.side c.book ≡ line t.side b
    own_line = ap line_of a.own_levels

    own_valid : SideIsValid t.side (levels_of t.side c.book)
    own_valid = rw a.own_levels (side_of t.side v)

-- ===== src/Tests/BookRuns.antt =====
-- The order book on a small book.
use rust_hotpath_ipc.Prelude.{
  ◌+◌, ◌%◌, ◌^◌, ◌≡◌, ◌⊎◌, refl, true, false, some, List, [], ◌∷◌, arith,
}
use rust_hotpath_ipc.Prelude.Int.{pos}
use rust_hotpath_ipc.OrderBook.{
  Side, Order, Outcome, new_book, level_mut, submit, cancel, cross, rounds, size_at, best_bid,
}
use rust_hotpath_ipc.OrderBook.Line.{line}
use rust_hotpath_ipc.OrderBook.Queued.{queued}
use rust_hotpath_ipc.OrderBook.Indexed.{Request, history, history-queued}
use rust_hotpath_ipc.OrderBook.Done.{IsDone, cross-IsDone}
use rust_hotpath_ipc.OrderBook.Valid.{SidesAreValid, submit-SidesAreValid, cancel-SidesAreValid}
use rust_hotpath_ipc.OrderBook.Uncrossed.{IsUncrossed, submit-IsUncrossed, cancel-IsUncrossed}
use rust_hotpath_ipc.OrderBook.Market.{depth}
use rust_hotpath_ipc.OrderBook.Submit.{
  Implements, submit_spec, view, submit-Implements, size_at-depth,
}
use rust_hotpath_ipc.OrderBook.Trades.{volume, traded, FillsFrom, PricesFrom}
use rust_hotpath_ipc.OrderBook.Fills.{submit-conserves, submit-FillsFrom, submit-PricesFrom}
use rust_hotpath_ipc.OrderBook.Cancel.{IsCancelled, cancel-IsCancelled}
use rust_hotpath_ipc.Tests.Data.{two_sided, two_sided-SidesAreValid, two_sided-IsUncrossed, buy_10}

-- The order trades 5 and 3 and then joins the bids with 2.
traded_8 : traded (submit buy_10 [] two_sided).fills ≡ 8
unfolding submit
traded_8 = refl

rested_2 : (submit buy_10 [] two_sided).outcome ≡ Outcome.rested 0
unfolding submit
rested_2 = refl

best_100 : best_bid (submit buy_10 [] two_sided).book ≡ some (pos 100)
unfolding submit
best_100 = refl

cancel_twice : (cancel 3 (cancel 3 two_sided).0).1 ≡ Outcome.cancel_rejected
unfolding cancel
cancel_twice = refl

submit-Implements_example :
    Implements (submit buy_10 [] two_sided) [] (submit_spec buy_10 (view two_sided))
submit-Implements_example = submit-Implements buy_10 [] two_sided two_sided-SidesAreValid

submit-IsUncrossed_example : IsUncrossed (submit buy_10 [] two_sided).book
submit-IsUncrossed_example =
    submit-IsUncrossed buy_10 [] two_sided two_sided-SidesAreValid two_sided-IsUncrossed

submit-SidesAreValid_example : SidesAreValid (submit buy_10 [] two_sided).book
submit-SidesAreValid_example =
    submit-SidesAreValid buy_10 [] two_sided (omega arith) two_sided-SidesAreValid

submit-conserves_example :
    let r = submit buy_10 [] two_sided in
    (volume (line Side.sell two_sided) ≡ traded r.fills + volume (line Side.sell r.book))
    × ((◌≡◌ true true)
          × (traded r.fills + volume (line Side.buy r.book) ≡ volume (line Side.buy two_sided) + 10)
        ⊎ (true ≡ false) × (line Side.buy r.book ≡ line Side.buy two_sided))
submit-conserves_example = submit-conserves buy_10 two_sided two_sided-SidesAreValid

submit-FillsFrom_example : FillsFrom buy_10 10 (submit buy_10 [] two_sided).fills
submit-FillsFrom_example = submit-FillsFrom buy_10 two_sided two_sided-SidesAreValid

submit-PricesFrom_example : PricesFrom buy_10 (pos 100) (submit buy_10 [] two_sided).fills
submit-PricesFrom_example =
    submit-PricesFrom buy_10 two_sided two_sided-SidesAreValid (pos 100) refl

cross-IsDone_example : IsDone buy_10 (cross (rounds buy_10 two_sided) buy_10 10 two_sided)
cross-IsDone_example = cross-IsDone buy_10 10 two_sided

cancel-SidesAreValid_example : SidesAreValid (cancel 1 two_sided).0
cancel-SidesAreValid_example = cancel-SidesAreValid 1 two_sided two_sided-SidesAreValid

cancel-IsUncrossed_example : IsUncrossed (cancel 1 two_sided).0
cancel-IsUncrossed_example =
    cancel-IsUncrossed 1 two_sided two_sided-SidesAreValid two_sided-IsUncrossed

size_at-depth_example :
    size_at Side.sell (pos 100) two_sided ≡ depth (pos 100) (line Side.sell two_sided) % 2 ^ 64
size_at-depth_example = size_at-depth Side.sell (pos 100) two_sided two_sided-SidesAreValid

cancel-IsCancelled_example :
    IsCancelled 1 Side.sell (pos 100) two_sided (cancel 1 two_sided)
    × (cancel 1 (cancel 1 two_sided).0 ≡ ((cancel 1 two_sided).0, Outcome.cancel_rejected))
cancel-IsCancelled_example =
    cancel-IsCancelled 1 Side.sell (pos 100) two_sided two_sided-SidesAreValid refl

-- A bid of 10, a sale of 4 to it, and a cancel of an order that is not there.
abbrev sell_4 : Order
sell_4 = record buy_10 { order_id = 10; side = Side.sell; quantity = 4 }

abbrev requests : List Request
requests = Request.place buy_10 ∷ Request.place sell_4 ∷ Request.withdraw 3 ∷ []

bid_waits : (history requests new_book).locate 9 ≡ some (Side.buy, pos 100)
unfolding history submit cancel
bid_waits = refl

history-queued_example :
    queued 9 (level_mut Side.buy (pos 100) (history requests new_book)).queue ≡ true
history-queued_example = history-queued requests 9 Side.buy (pos 100) bid_waits

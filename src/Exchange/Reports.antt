-- ===== src/Exchange/Reports.antt =====
-- The execution reports that src/bin/exchange.rs publishes for an order of the strategy.
use rust_hotpath_ipc.Prelude.{
  ℕ, suc, ◌+◌, ◌<◌, ◌≡◌, ◌⊎◌, refl, sym, ap, ◌∙◌, false, List, [], ◌∷◌, arith, ◌==◌, ==_iff,
  if◌then◌else◌, length, Bool-cases, inl, inr,
}
use rust_hotpath_ipc.Float.{F64}
use rust_hotpath_ipc.Messages.{OrderCommand, ExecutionReport}
use rust_hotpath_ipc.OrderBook.{Fill, Book, Order, submit, opposite}
use rust_hotpath_ipc.OrderBook.Line.{line}
use rust_hotpath_ipc.OrderBook.Valid.{SidesAreValid}
use rust_hotpath_ipc.OrderBook.Trades.{volume, traded, FillsFrom}
use rust_hotpath_ipc.OrderBook.Fills.{submit-FillsFrom, submit-conserves}
use rust_hotpath_ipc.Exchange.{publish_fills, order_of, match_strategy_order}

-- The reports of an order of which `open` was left: each is about that order, and says what is left
-- after it and, by its status, whether that is nothing.
abbrev pub ReportsFrom : ℕ → ℕ → List ExecutionReport → Type 0
ReportsFrom id open_qty [] = Unit
ReportsFrom id open_qty (r ∷ rs) =
    (r.order_id ≡ id)
    × (r.executed_quantity + r.remaining_quantity ≡ open_qty)
    × (((r.status ≡ 2) × (r.remaining_quantity ≡ 0))
        ⊎ ((r.status ≡ 1) × (0 < r.remaining_quantity)))
    × ReportsFrom id r.remaining_quantity rs

abbrev pub executed : List ExecutionReport → ℕ
executed [] = 0
executed (r ∷ rs) = r.executed_quantity + executed rs

module _ (F : F64) (rdtsc : ℕ → ℕ) (fee_bps : F.Float) where
  publish_fills-ReportsFrom :
      (t : Order) (n open_qty : ℕ) (fs : List Fill)
      → t.is_synthetic ≡ false
      → FillsFrom t open_qty fs
      → let rs = publish_fills F rdtsc n fee_bps fs in
        ReportsFrom t.order_id open_qty rs × (executed rs ≡ traded fs) × (length rs ≡ length fs)
  unfolding publish_fills
  publish_fills-ReportsFrom t n open_qty [] real h = (tt, refl, refl)
  publish_fills-ReportsFrom t n open_qty (f ∷ fs) real (q, id, stamp, mine, more) =
      let (rest, sum, size) =
        publish_fills-ReportsFrom t (n + 1) f.taker_remaining_after fs real more in
      let own : f.taker_is_synthetic ≡ false = mine ∙ real in
      rw own
        ((id, q, status f.taker_remaining_after, rest), ap (λ k. f.quantity + k) sum, ap suc size)
    where
      status :
          (left : ℕ)
          → ((◌≡◌ {A = ℕ} (if left == 0 then 2 else 1) 2) × (left ≡ 0))
            ⊎ ((◌≡◌ {A = ℕ} (if left == 0 then 2 else 1) 1) × (0 < left))
      status left = elim (Bool-cases (left == 0)) [
        | inl eq-nil-all_children ↦
            rw eq-nil-all_children (inl (refl, (==_iff left 0).0 eq-nil-all_children))
        | inr more_left ↦ rw more_left (inr (refl, ground arith))
      ]

  -- A new order of the strategy, matched on a valid book, is reported fill by fill: each report is
  -- about the order, what it executed and what it leaves make up what was left before it, from the
  -- order's quantity on, its status is 2 when it leaves nothing and 1 otherwise, and the reports
  -- execute together what the other side of the book lost.
  pub publish_fills-match_strategy_order :
      (cmd : OrderCommand) (b : Book) (n : ℕ)
      → cmd.action ≡ 0
      → SidesAreValid b
      → let (b', fills) = match_strategy_order cmd [] b in
        let rs = publish_fills F rdtsc n fee_bps fills in
        let other = opposite (order_of cmd).side in
        ReportsFrom cmd.order_id cmd.quantity rs
        × (volume (line other b) ≡ executed rs + volume (line other b'))
        × (length rs ≡ length fills)
  unfolding match_strategy_order order_of
  publish_fills-match_strategy_order cmd b n new v =
      let t = order_of cmd in
      let (reports, sum, size) =
        publish_fills-ReportsFrom t n t.quantity (submit t [] b).fills refl
          (submit-FillsFrom t b v) in
      let (lost, own) = submit-conserves t b v in
      rw new (
        reports,
        lost ∙ ap (λ k. k + volume (line (opposite t.side) (submit t [] b).book)) (sym sum),
        size,
      )

-- ===== src/Execution/Booked.antt =====
-- Which reports of src/bin/exchange.rs are booked by src/bin/execution.rs.
use rust_hotpath_ipc.Prelude.Words.{add_u64}
use rust_hotpath_ipc.Prelude.{
  ℕ, ◌+◌, ◌^◌, ◌<◌, ◌≡◌, ◌⊎◌, refl, sym, ap, ◌∙◌, true, false, ◌&&◌, not, none, some, List, [], ◌∷◌,
  arith, ◌==◌, if◌then◌else◌, length, Bool-cases, Option-cases, inl, inr,
}
use rust_hotpath_ipc.Float.{F64}
use rust_hotpath_ipc.Messages.{ExecutionReport}
use rust_hotpath_ipc.OrderBook.{Fill}
use rust_hotpath_ipc.Exchange.{commission, publish_strategy_maker_fills}
use rust_hotpath_ipc.Exchange.Reports.{ReportsFrom, executed}
use rust_hotpath_ipc.Execution.{Execution, unscaled, account, complete, book_fill, on_report}

-- No report is of nothing.
abbrev pub AllWorking : List ExecutionReport → Type 0
AllWorking [] = Unit
AllWorking (r ∷ rs) = (0 < r.executed_quantity) × AllWorking rs

module _ (F : F64) (cycles_per_ns : F.Float) (max_fills now later : ℕ) where
  open F use {Float, num, add, sub, mul}

  -- The loop over the reports that arrive, whether or not it is to stop after them.
  unfoldable pub on_reports : List ExecutionReport → Execution Float → Execution Float
  on_reports [] s = s
  on_reports (r ∷ rs) s = on_reports rs (on_report F cycles_per_ns max_fills now later r s)

  -- The signed quantity and cash flow of a fill, and of the fills of one side in a row: a buy adds
  -- its quantity and pays price times quantity and the fee, a sale gives the quantity and gets the
  -- rest.
  abbrev qty_of : ExecutionReport → Float
  qty_of r = unscaled F cycles_per_ns (num r.executed_quantity)

  abbrev value_of : ExecutionReport → Float
  value_of r = mul (unscaled F cycles_per_ns (F.of_int r.executed_price)) (qty_of r)

  abbrev fee_of : ExecutionReport → Float
  fee_of r = unscaled F cycles_per_ns (F.of_int r.commission)

  abbrev pub position_after : ℕ → List ExecutionReport → Float → Float
  position_after side [] x = x
  position_after side (r ∷ rs) x =
      position_after side rs (if side == 0 then add x (qty_of r) else sub x (qty_of r))

  abbrev pub cash_after : ℕ → List ExecutionReport → Float → Float
  cash_after side [] x = x
  cash_after side (r ∷ rs) x = cash_after side rs (
      if side == 0
      then sub x (add (value_of r) (fee_of r))
      else add x (sub (value_of r) (fee_of r)))

  -- What a report of an order that is known, with status 1 or 2, does.
  record Books (side : ℕ) (r : ExecutionReport) (s s' : Execution Float) : Type 0 where
    fills : s'.fills ≡ add_u64 s.fills 1
    position : s'.position ≡ position_after side (r ∷ []) s.position
    cash : s'.cash ≡ cash_after side (r ∷ []) s.cash
    kept : r.status ≡ 1 → (s'.order_ctx ≡ s.order_ctx) × (s'.completed_orders ≡ s.completed_orders)
    dropped :
        r.status ≡ 2
        → (s'.order_ctx r.order_id ≡ none) × (s'.completed_orders ≡ add_u64 s.completed_orders 1)

  account-keeps :
      (side : ℕ) (r : ExecutionReport) (s : Execution Float)
      → let s' = account F cycles_per_ns side r s in
        (s'.fills ≡ add_u64 s.fills 1)
        × (s'.order_ctx ≡ s.order_ctx)
        × (s'.completed_orders ≡ s.completed_orders)
        × (s'.position ≡ position_after side (r ∷ []) s.position)
        × (s'.cash ≡ cash_after side (r ∷ []) s.cash)
  unfolding account
  account-keeps side r s = elim (Bool-cases (side == 0)) [
    | inl buy ↦ rw buy (refl, refl, refl, refl, refl)
    | inr sell ↦ rw sell (refl, refl, refl, refl, refl)
  ]

  on_report_known :
      (r : ExecutionReport) (s : Execution Float) (origin_ts side : ℕ)
      → s.order_ctx r.order_id ≡ some (origin_ts, side)
      → (not (r.status == 1) && not (r.status == 2)) ≡ false
      → on_report F cycles_per_ns max_fills now later r s
        ≡ book_fill F cycles_per_ns max_fills now later origin_ts side r s
  unfolding on_report
  on_report_known r s origin_ts side known counts = rw (counts, known) refl

  book_fill_partial :
      (r : ExecutionReport) (s : Execution Float) (origin_ts side : ℕ)
      → (r.status == 2) ≡ false
      → book_fill F cycles_per_ns max_fills now later origin_ts side r s
        ≡ account F cycles_per_ns side r s
  unfolding book_fill
  book_fill_partial r s origin_ts side h = rw h refl

  book_fill_terminal :
      (r : ExecutionReport) (s : Execution Float) (origin_ts side : ℕ)
      → (r.status == 2) ≡ true
      → book_fill F cycles_per_ns max_fills now later origin_ts side r s
        ≡ complete F cycles_per_ns max_fills now later origin_ts r
            (account F cycles_per_ns side r s)
  unfolding book_fill
  book_fill_terminal r s origin_ts side h = rw h refl

  complete-drops :
      (origin_ts : ℕ) (r : ExecutionReport) (s : Execution Float)
      → (complete F cycles_per_ns max_fills now later origin_ts r s).order_ctx r.order_id ≡ none
  unfolding complete
  complete-drops origin_ts r s = ground arith

  complete-counts :
      (origin_ts : ℕ) (r : ExecutionReport) (s : Execution Float)
      → let s' = complete F cycles_per_ns max_fills now later origin_ts r s in
        (s'.fills ≡ s.fills)
        × (s'.completed_orders ≡ add_u64 s.completed_orders 1)
        × (s'.position ≡ s.position)
        × (s'.cash ≡ s.cash)
  unfolding complete
  complete-counts origin_ts r s = (refl, refl, refl, refl)

  tests : (st : ℕ) → (st ≡ 1) ⊎ (st ≡ 2) → (not (st == 1) && not (st == 2)) ≡ false
  tests st (inl h) = rw h refl
  tests st (inr h) = rw h refl

  on_report-Books :
      (r : ExecutionReport) (s : Execution Float) (origin_ts side : ℕ)
      → (r.status ≡ 1) ⊎ (r.status ≡ 2)
      → s.order_ctx r.order_id ≡ some (origin_ts, side)
      → Books side r s (on_report F cycles_per_ns max_fills now later r s)
  on_report-Books r s origin_ts side h known =
      let (n, c, d, p, q) = account-keeps side r s in
      rw (on_report_known r s origin_ts side known (tests r.status h)) (elim h [
        | inl partial ↦
            let not_2 : (r.status == 2) ≡ false = ground arith in
            rw (book_fill_partial r s origin_ts side not_2) (record {
              fills = n;
              position = p;
              cash = q;
              kept = λ _. (c, d);
              dropped = λ k. absurd (omega arith);
            })
        | inr terminal ↦
            let is_2 : (r.status == 2) ≡ true = ground arith in
            let booked = account F cycles_per_ns side r s in
            let (m, e, p', q') = complete-counts origin_ts r booked in
            rw (book_fill_terminal r s origin_ts side is_2) (record {
              fills = m ∙ n;
              position = p' ∙ p;
              cash = q' ∙ q;
              kept = λ k. absurd (omega arith);
              dropped = λ _. (complete-drops origin_ts r booked, e ∙ ap (λ k. add_u64 k 1) d);
            })
      ])

  on_report_unknown :
      (r : ExecutionReport) (s : Execution Float)
      → s.order_ctx r.order_id ≡ none
      → on_report F cycles_per_ns max_fills now later r s ≡ s
  unfolding on_report
  on_report_unknown r s h = elim (Bool-cases (not (r.status == 1) && not (r.status == 2))) [
    | inl other ↦ rw other refl
    | inr counts ↦ rw (counts, h) refl
  ]

  terminal-gone :
      (r : ExecutionReport) (s : Execution Float)
      → r.status ≡ 2
      → (on_report F cycles_per_ns max_fills now later r s).order_ctx r.order_id ≡ none
  terminal-gone r s h = elim (Option-cases (s.order_ctx r.order_id)) [
    | inl unknown ↦ rw (on_report_unknown r s unknown) unknown
    | inr ((origin_ts, side), known) ↦
        let b = on_report-Books r s origin_ts side (inr h) known in
        let (gone, counted) = b.dropped h in gone
  ]

  nothing_left :
      (id : ℕ) (rs : List ExecutionReport) → ReportsFrom id 0 rs → AllWorking rs → rs ≡ []
  nothing_left id [] w a = refl
  nothing_left id (r ∷ rs) w a = absurd (let q = w.1 in let p = a.0 in omega arith)

  -- Reports of one order that chain from `open_qty` on, which is not nothing: each is of something,
  -- states what remains after it, and is terminal exactly if nothing remains. If the order is known,
  -- every one of them is counted and moves the position and the cash by its fill, on the side of the
  -- order; if they leave nothing, the order's context is dropped and it counts as completed, and
  -- otherwise the context is kept. It is provided that no counter is at its end.
  pub on_reports-ReportsFrom :
      (id open_qty : ℕ) (rs : List ExecutionReport) (s : Execution Float) (origin_ts side : ℕ)
      → ReportsFrom id open_qty rs
      → AllWorking rs
      → 0 < open_qty
      → s.order_ctx id ≡ some (origin_ts, side)
      → s.fills + length rs < 2 ^ 64
      → s.completed_orders + 1 < 2 ^ 64
      → let s' = on_reports rs s in
        (s'.fills ≡ s.fills + length rs)
        × (s'.position ≡ position_after side rs s.position)
        × (s'.cash ≡ cash_after side rs s.cash)
        × ((executed rs ≡ open_qty)
              × (s'.order_ctx id ≡ none)
              × (s'.completed_orders ≡ s.completed_orders + 1)
            ⊎ (executed rs < open_qty)
              × (s'.order_ctx id ≡ some (origin_ts, side))
              × (s'.completed_orders ≡ s.completed_orders))
  unfolding on_reports
  on_reports-ReportsFrom id open_qty [] s origin_ts side w a more known h k =
      (omega arith, refl, refl, inr (more, known, refl))
  on_reports-ReportsFrom id open_qty (r ∷ rs) s origin_ts side
        (about, sum, inl (terminal, eq-nil-all_children), rest) a more known h k =
      let b = on_report-Books r s origin_ts side (inr terminal) (rw about known) in
      let (gone, counted) = b.dropped terminal in
      let no_more = nothing_left id rs (rw eq-nil-all_children at rest) a.1 in
      let n = b.fills in
      rw no_more
        (omega arith, b.position, b.cash, inl (omega arith, rw (sym about) gone, omega arith))
  on_reports-ReportsFrom id open_qty (r ∷ rs) s origin_ts side
        (about, sum, inr (partial, some_left), rest) a more known h k =
      let b = on_report-Books r s origin_ts side (inl partial) (rw about known) in
      let (kept, same) = b.kept partial in
      let n = b.fills in
      let s1 = on_report F cycles_per_ns max_fills now later r s in
      let (all, at, paid, end) =
        on_reports-ReportsFrom id r.remaining_quantity rs s1 origin_ts side rest a.1 some_left
          (ap (λ f. f id) kept ∙ known) (omega arith) (omega arith) in
      (
        omega arith,
        at ∙ ap (position_after side rs) b.position,
        paid ∙ ap (cash_after side rs) b.cash,
        elim end [
          | inl (full, gone, done) ↦ inl (omega arith, gone, omega arith)
          | inr (less, there, same') ↦ inr (omega arith, there, omega arith)
        ],
      )

  -- Two fills of one resting order of the strategy are both reported as terminal, so that the loop
  -- books at most the first: after it, the report of the second changes nothing, whatever it filled.
  pub on_reports-publish_strategy_maker_fills :
      (rdtsc : ℕ → ℕ) (n : ℕ) (fee_bps : Float) (f g : Fill) (s : Execution Float)
      → f.maker_is_synthetic ≡ false
      → g.maker_is_synthetic ≡ false
      → g.maker_order_id ≡ f.maker_order_id
      → on_reports (publish_strategy_maker_fills F rdtsc n fee_bps (f ∷ g ∷ [])) s
        ≡ on_reports (publish_strategy_maker_fills F rdtsc n fee_bps (f ∷ [])) s
  unfolding on_reports publish_strategy_maker_fills
  on_reports-publish_strategy_maker_fills rdtsc n fee_bps f g s mine also same =
      rw (mine, also)
        (on_report_unknown _ _ (
          rw same (
            terminal-gone
              (record {
                timestamp_ns = rdtsc n;
                order_id = f.maker_order_id;
                exchange_order_id = f.maker_order_id;
                executed_price = f.price_ticks;
                executed_quantity = f.quantity;
                remaining_quantity = 0;
                commission = commission F fee_bps f;
                status = 2;
                reject_reason = 0;
              })
              s refl)))

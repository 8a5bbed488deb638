-- ===== src/OrderBook/Fills.antt =====
-- The fills of `submit` in src/order_book.rs: their quantities, their prices, and what they leave.
use rust_hotpath_ipc.Prelude.{
  ◌+◌, ◌<◌, ◌≡◌, refl, sym, ap, subst, ◌∙◌, ◌⊎◌, inl, inr, true, false, some, [], arith, ◌==◌,
  Bool-cases, ==_iff,
}
use rust_hotpath_ipc.Prelude.Int.{ℤ}
use rust_hotpath_ipc.OrderBook.{opposite, Order, Book, levels_of, best_of, submit}
use rust_hotpath_ipc.OrderBook.Sides.{best_of-best_key}
use rust_hotpath_ipc.OrderBook.Line.{line, Swept, sweep}
use rust_hotpath_ipc.OrderBook.Valid.{SidesAreValid, side_of}
use rust_hotpath_ipc.OrderBook.Market.{enqueue}
use rust_hotpath_ipc.OrderBook.Submit.{
  Offers, view, offers, submit-Implements, submit_spec, finish_spec, Answer, resting, offers-view,
  spec_filled, spec_rejected, spec_rested,
}
use rust_hotpath_ipc.OrderBook.Trades.{
  volume, traded, sweep-traded, FillsFrom, sweep-FillsFrom, PricesFrom, sweep-PricesFrom,
  best-OffersFrom, volume-enqueue, offers-market_of,
}

-- What the specification does with what is left: only the own side of a limit order changes.
record Finished (t : Order) (own : Offers) (s : Swept) (a : Answer) : Type 0 where
  other_line : offers (opposite t.side) a.market ≡ s.line
  new_fills : a.fills ≡ s.fills
  limit : t.is_limit ≡ true → volume (offers t.side a.market) ≡ volume own + s.remaining
  market : t.is_limit ≡ false → offers t.side a.market ≡ own

finish_spec-Finished :
    (t : Order) (own : Offers) (s : Swept) → Finished t own s (finish_spec t own s)
finish_spec-Finished t own s = elim (Bool-cases (s.remaining == 0)) [
  | inl done ↦
      let eq-nil-all_children : s.remaining ≡ 0 = (==_iff _ _).0 done in
      let (mine, theirs) = offers-market_of t.side own s.line in
      rw (spec_filled t own s eq-nil-all_children) (record {
        other_line = theirs;
        new_fills = refl;
        limit = λ _. ap volume mine ∙ omega arith;
        market = λ _. mine;
      })
  | inr more ↦
      let left : 0 < s.remaining = ground arith in
      elim (Bool-cases t.is_limit) [
        | inr k ↦
            let (mine, theirs) = offers-market_of t.side own s.line in
            rw (spec_rejected t own s left k) (record {
              other_line = theirs;
              new_fills = refl;
              limit = λ h. cc;
              market = λ _. mine;
            })
        | inl k ↦
            let joined = enqueue t.side t.limit_px (resting t s.remaining) own in
            let (mine, theirs) = offers-market_of t.side joined s.line in
            rw (spec_rested t own s left k) (record {
              other_line = theirs;
              new_fills = refl;
              limit = λ _. ap volume mine ∙ volume-enqueue t.side t.limit_px _ own;
              market = λ h. cc;
            })
      ]
]

-- What `submit` leaves, in terms of the reference matcher.
submit-Finished :
    (t : Order) (b : Book)
    → SidesAreValid b
    → let r = submit t [] b in
      let s = sweep t t.quantity (line (opposite t.side) b) in
      Finished t
        (line t.side b)
        s
        (record { market = view r.book; fills = r.fills; outcome = r.outcome })
submit-Finished t b v =
    let i = submit-Implements t [] b v in
    let f =
      finish_spec-Finished t (line t.side b) (sweep t t.quantity (line (opposite t.side) b)) in
    let spec = finish_spec_view t b in
    record {
      other_line =
          ap (λ m. offers (opposite t.side) m) (i.market ∙ ap (λ a. a.market) spec) ∙ f.other_line;
      new_fills = i.fills ∙ ap (λ a. a.fills) spec ∙ f.new_fills;
      limit =
          λ h. ap (λ m. volume (offers t.side m)) (i.market ∙ ap (λ a. a.market) spec) ∙ f.limit h;
      market = λ h. ap (λ m. offers t.side m) (i.market ∙ ap (λ a. a.market) spec) ∙ f.market h;
    }
  where
    finish_spec_view :
        (t : Order) (b : Book)
        → submit_spec t (view b)
          ≡ finish_spec t (line t.side b) (sweep t t.quantity (line (opposite t.side) b))
    finish_spec_view t b = unfold submit_spec in rw (offers-view, offers-view) refl

module _ (t : Order) (b : Book) (v : SidesAreValid b) where
  -- On a valid book, what an order trades leaves the other side, and its own side gains what it did
  -- not trade if it is a limit order, and nothing if not.
  pub submit-conserves :
      let r = submit t [] b in
      (volume (line (opposite t.side) b) ≡ traded r.fills + volume (line (opposite t.side) r.book))
      × ((t.is_limit ≡ true)
            × (traded r.fills + volume (line t.side r.book) ≡ volume (line t.side b) + t.quantity)
          ⊎ (t.is_limit ≡ false) × (line t.side r.book ≡ line t.side b))
  submit-conserves =
      let f = submit-Finished t b v in
      let (spent, gained) = sweep-traded t t.quantity (line (opposite t.side) b) in
      let e = ap traded f.new_fills in
      let other =
        ap volume (sym (offers-view (opposite t.side) (submit t [] b).book) ∙ f.other_line) in
      let own = ap volume (sym (offers-view t.side (submit t [] b).book)) in
      (
        omega arith,
        elim (Bool-cases t.is_limit) [
          | inl h ↦ inl (h, (let k = f.limit h in omega arith))
          | inr h ↦ inr (h, sym (offers-view t.side (submit t [] b).book) ∙ f.market h)
        ],
      )

  -- On a valid book each fill of an order is for the order's id, stamp and origin, and its remaining
  -- quantity is what was left before it less what it traded, from the order's quantity on.
  pub submit-FillsFrom : FillsFrom t t.quantity (submit t [] b).fills
  submit-FillsFrom =
      let f = submit-Finished t b v in
      subst (FillsFrom t t.quantity) (sym f.new_fills) (sweep-FillsFrom t t.quantity _)

  -- On a valid book the fills of an order are at acceptable prices, none empty, from the best price
  -- of the other side on and never at a better price than the fill before.
  pub submit-PricesFrom :
      (px : ℤ) → best_of (opposite t.side) b ≡ some px → PricesFrom t px (submit t [] b).fills
  submit-PricesFrom px best =
      let f = submit-Finished t b v in
      let opp = opposite t.side in
      subst (PricesFrom t px) (sym f.new_fills) (
        sweep-PricesFrom t px t.quantity _ (
          best-OffersFrom opp px (levels_of opp b) (sym (best_of-best_key opp b) ∙ best)
            (side_of opp v)))

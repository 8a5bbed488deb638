-- ===== src/OrderBook/Trades.antt =====
-- What the reference matcher trades, and the quantities and prices of its fills.
use rust_hotpath_ipc.Prelude.{
  ℕ, ◌+◌, ◌-◌, ◌<◌, ◌≡◌, refl, inl, inr, true, false, some, List, [], ◌∷◌, ◌++◌, arith, min, ◌==◌,
  Bool-cases,
}
use rust_hotpath_ipc.Prelude.Int.{ℤ}
use rust_hotpath_ipc.OrderBook.{
  Side, opposite, RestingOrder, Fill, Order, Levels, before, best_key, acceptable, is_empty,
}
use rust_hotpath_ipc.OrderBook.Invariant.{AllWorse, AllWorking, SideIsValid}
use rust_hotpath_ipc.OrderBook.Line.{at_price, line_of, sweep}
use rust_hotpath_ipc.OrderBook.Market.{enqueue}
use rust_hotpath_ipc.OrderBook.Submit.{Offers, offers, market_of}

abbrev pub volume : Offers → ℕ
volume [] = 0
volume ((_, o) ∷ r) = o.remaining + volume r

abbrev pub traded : List Fill → ℕ
traded [] = 0
traded (f ∷ fs) = f.quantity + traded fs

-- The taker's quantity is what it traded and what is left; the line loses what was traded.
pub sweep-traded :
    (t : Order) (remaining : ℕ) (r : Offers)
    → let s = sweep t remaining r in
      (traded s.fills + s.remaining ≡ remaining) × (volume r ≡ traded s.fills + volume s.line)
unfolding sweep
sweep-traded t remaining [] = (omega arith, omega arith)
sweep-traded t remaining ((px, o) ∷ r) =
    ground (arith, sweep-traded t (remaining - min remaining o.remaining) r)

-- Each fill is against what was left, leaves the rest of it, and carries the taker's id and stamp.
abbrev pub FillsFrom : Order → ℕ → List Fill → Type 0
FillsFrom t remaining [] = Unit
FillsFrom t remaining (f ∷ fs) =
    (f.quantity + f.taker_remaining_after ≡ remaining)
    × (f.taker_order_id ≡ t.order_id)
    × (f.taker_origin_ts ≡ t.origin_ts)
    × (f.taker_is_synthetic ≡ t.is_synthetic)
    × FillsFrom t f.taker_remaining_after fs

pub sweep-FillsFrom :
    (t : Order) (remaining : ℕ) (r : Offers) → FillsFrom t remaining (sweep t remaining r).fills
unfolding sweep
sweep-FillsFrom t remaining [] = tt
sweep-FillsFrom t remaining ((px, o) ∷ r) =
    ground (arith, sweep-FillsFrom t (remaining - min remaining o.remaining) r)

-- Offers from price `px` on: no price is better than the one before, and each offer is for something.
abbrev OffersFrom : Side → ℤ → Offers → Type 0
OffersFrom s px [] = Unit
OffersFrom s px ((p, o) ∷ r) = (before s p px ≡ false) × (0 < o.remaining) × OffersFrom s p r

-- Fills from price `px` on: none is empty, none at a price that the taker refuses, and no price is
-- better than the one before.
abbrev pub PricesFrom : Order → ℤ → List Fill → Type 0
PricesFrom t px [] = Unit
PricesFrom t px (f ∷ fs) =
    (before (opposite t.side) f.price_ticks px ≡ false)
    × (acceptable t f.price_ticks ≡ true)
    × (0 < f.quantity)
    × PricesFrom t f.price_ticks fs

pub sweep-PricesFrom :
    (t : Order) (px : ℤ) (remaining : ℕ) (r : Offers)
    → OffersFrom (opposite t.side) px r
    → PricesFrom t px (sweep t remaining r).fills
unfolding sweep
sweep-PricesFrom t px remaining [] w = tt
sweep-PricesFrom t px remaining ((p, o) ∷ r) w =
    let later = sweep-PricesFrom t p (remaining - min remaining o.remaining) r w.2 in
    elim (Bool-cases (remaining == 0)) [
      | inl done ↦ rw done tt
      | inr more ↦
          let some_taken : 0 < min remaining o.remaining = ground (arith, w.1) in
          elim (Bool-cases (acceptable t p)) [
            | inr no_deal ↦ rw (more, no_deal) tt
            | inl deal ↦ elim (Bool-cases (o.remaining - min remaining o.remaining == 0)) [
              | inl gone ↦ simp (more, deal, gone) (w.0, refl, some_taken, later)
              | inr left ↦ simp (more, deal, left) (w.0, refl, some_taken, tt)
            ]
          ]
    ]

not_before_self : (s : Side) (a : ℤ) → before s a a ≡ false
not_before_self Side.buy a = ground arith
not_before_self Side.sell a = ground arith

not_before_asym : (s : Side) (a b : ℤ) → before s a b ≡ true → before s b a ≡ false
not_before_asym Side.buy a b h = ground arith
not_before_asym Side.sell a b h = ground arith

at_price-OffersFrom :
    (s : Side) (px p : ℤ) (q : List RestingOrder) (r : Offers)
    → before s p px ≡ false
    → is_empty q ≡ false
    → AllWorking q
    → OffersFrom s p r
    → OffersFrom s px (at_price p q ++ r)
at_price-OffersFrom s px p [] r h full w k = cc
at_price-OffersFrom s px p (o ∷ []) r h full w k = (h, w.0, k)
at_price-OffersFrom s px p (o ∷ o' ∷ q) r h full w k =
    (h, w.0, at_price-OffersFrom s p p (o' ∷ q) r (not_before_self s p) refl w.2 k)

line_of-OffersFrom :
    (s : Side) (px : ℤ) (ls : Levels)
    → AllWorse s px ls
    → SideIsValid s ls
    → OffersFrom s px (line_of ls)
line_of-OffersFrom s px [] w v = tt
line_of-OffersFrom s px ((p, l) ∷ ls) w v =
    at_price-OffersFrom s px p l.queue (line_of ls) (not_before_asym s px p w.0) v.sized.0
      v.sized.1.working
      (line_of-OffersFrom s p ls v.sorted.0 (record { sorted = v.sorted.1; sized = v.sized.2 }))

pub best-OffersFrom :
    (s : Side) (px : ℤ) (ls : Levels)
    → best_key ls ≡ some px
    → SideIsValid s ls
    → OffersFrom s px (line_of ls)
best-OffersFrom s px [] e v = tt
best-OffersFrom s px ((p, l) ∷ ls) e v =
    let same : p ≡ px = cc e in
    rw (← same) (
      at_price-OffersFrom s p p l.queue (line_of ls) (not_before_self s p) v.sized.0
        v.sized.1.working
        (line_of-OffersFrom s p ls v.sorted.0 (record { sorted = v.sorted.1; sized = v.sized.2 })))

pub volume-enqueue :
    (s : Side) (px : ℤ) (o : RestingOrder) (r : Offers)
    → volume (enqueue s px o r) ≡ volume r + o.remaining
unfolding enqueue
volume-enqueue s px o [] = omega arith
volume-enqueue s px o ((p, k) ∷ r) = ground (arith, volume-enqueue s px o r)

pub offers-market_of :
    (s : Side) (own other : Offers)
    → (offers s (market_of s own other) ≡ own)
      × (offers (opposite s) (market_of s own other) ≡ other)
offers-market_of Side.buy own other = (refl, refl)
offers-market_of Side.sell own other = (refl, refl)

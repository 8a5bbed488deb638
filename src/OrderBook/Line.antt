-- ===== src/OrderBook/Line.antt =====
-- A side of the book as one line of resting orders, in the order in which the matcher meets them,
-- and a reference matcher over that line, to which src/order_book.rs is compared.
use rust_hotpath_ipc.Prelude.Words.{sub_u64}
use rust_hotpath_ipc.Prelude.{
  ℕ, ◌-◌, ◌≤◌, ◌≡◌, refl, ap, inl, inr, true, false, List, [], ◌∷◌, ◌++◌, map, arith, min, ◌==◌,
  if◌then◌else◌, Bool-cases,
}
use rust_hotpath_ipc.Prelude.Int.{ℤ}
use rust_hotpath_ipc.OrderBook.{
  Side, RestingOrder, Fill, Order, Levels, Book, levels_of, fill_of, consume, acceptable, is_empty,
}

abbrev pub at_price : ℤ → List RestingOrder → List (ℤ × RestingOrder)
at_price px = map λ o. (px, o)

-- Best price first, and first come first within a price.
abbrev pub line_of : Levels → List (ℤ × RestingOrder)
line_of [] = []
line_of ((px, l) ∷ ls) = at_price px l.queue ++ line_of ls

abbrev pub line : Side → Book → List (ℤ × RestingOrder)
line s b = line_of (levels_of s b)

pub record Swept : Type 0 where
  pub remaining : ℕ
  pub line : List (ℤ × RestingOrder)
  pub fills : List Fill
  pub gone : List ℕ

abbrev pub then_fill : Fill → ℕ → Swept → Swept
then_fill f id s = record s { fills = f ∷ s.fills; gone = id ∷ s.gone }

abbrev pub swept_none : ℕ → List (ℤ × RestingOrder) → Swept
swept_none remaining r = record { remaining = remaining; line = r; fills = []; gone = [] }

-- The reference matcher: take orders off the front of the line while the taker wants more and the
-- price is acceptable; the last one may be taken in part.
unfoldable pub sweep : Order → ℕ → List (ℤ × RestingOrder) → Swept
unfolding fill_of
sweep t remaining [] = swept_none remaining []
sweep t remaining ((px, o) ∷ r) =
    let after = sweep t (remaining - min remaining o.remaining) r in
    if remaining == 0
    then swept_none remaining ((px, o) ∷ r)
    else if acceptable t px
    then if o.remaining - min remaining o.remaining == 0
      then then_fill (fill_of t px o remaining) o.order_id after
      else record {
        remaining = remaining - min remaining o.remaining;
        line = (px, record o { remaining = o.remaining - min remaining o.remaining }) ∷ r;
        fills = fill_of t px o remaining ∷ [];
        gone = [];
      }
    else swept_none remaining ((px, o) ∷ r)

pub sweep_done :
    (t : Order) (remaining : ℕ) (r : List (ℤ × RestingOrder))
    → (remaining == 0) ≡ true
    → sweep t remaining r ≡ swept_none remaining r
unfolding sweep
sweep_done t remaining [] h = refl
sweep_done t remaining ((px, o) ∷ r) h = rw h

pub sweep_refused :
    (t : Order) (remaining : ℕ) (px : ℤ) (q : List RestingOrder) (r : List (ℤ × RestingOrder))
    → is_empty q ≡ false
    → (remaining == 0) ≡ false
    → acceptable t px ≡ false
    → sweep t remaining (at_price px q ++ r) ≡ swept_none remaining (at_price px q ++ r)
unfolding sweep
sweep_refused t remaining px [] r h more no_deal = cc
sweep_refused t remaining px (o ∷ q) r h more no_deal = rw (more, no_deal)

-- A round at one level does what the reference matcher does with that level's orders.
pub consume-sweep :
    (t : Order) (px : ℤ) (remaining total : ℕ) (q : List RestingOrder) (r : List (ℤ × RestingOrder))
    → acceptable t px ≡ true
    → let p = consume t px remaining total q in
      let s = sweep t p.remaining (at_price px p.level.queue ++ r) in
      sweep t remaining (at_price px q ++ r)
      ≡ record s { fills = p.fills ++ s.fills; gone = p.cleared_makers ++ s.gone }
unfolding consume sweep
consume-sweep t px remaining total [] r ok = refl
consume-sweep t px remaining total (o ∷ q) r ok = elim (Bool-cases (remaining == 0)) [
  | inl done ↦ rw (done, done)
  | inr more ↦ elim (Bool-cases (o.remaining - min remaining o.remaining == 0)) [
    | inl gone ↦
        rw (more, ok, gone)
          (ap (then_fill (fill_of t px o remaining) o.order_id)
            (consume-sweep t px (remaining - min remaining o.remaining) _ q r ok))
    | inr left ↦
        let served : (remaining - min remaining o.remaining == 0) ≡ true = ground arith in
        rw (more, ok, left, served)
  ]
]

-- The taker stops inside a level only when it has nothing left.
pub consume-stops :
    (t : Order) (px : ℤ) (remaining total : ℕ) (q : List RestingOrder)
    → let p = consume t px remaining total q in is_empty p.level.queue ≡ false → p.remaining ≡ 0
unfolding consume
consume-stops t px remaining total [] h = cc
consume-stops t px remaining total (o ∷ q) h = ground (
  arith,
  consume-stops t px (remaining - min remaining o.remaining)
      (sub_u64 total (min remaining o.remaining)) q,
)

pub is_empty-eq : (q : List RestingOrder) → is_empty q ≡ true → q ≡ []
is_empty-eq [] h = refl
is_empty-eq (o ∷ q) h = cc

pub sweep-remaining-le :
    (t : Order) (remaining : ℕ) (r : List (ℤ × RestingOrder))
    → (sweep t remaining r).remaining ≤ remaining
unfolding sweep
sweep-remaining-le t remaining [] = omega arith
sweep-remaining-le t remaining ((px, o) ∷ r) =
    ground (arith, sweep-remaining-le t (remaining - min remaining o.remaining) r)

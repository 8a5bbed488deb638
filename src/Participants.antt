-- ===== src/Participants.antt =====
-- src/bin/exchange.rs, its synthetic participants: the generator and a round of their activity on
-- the book. A panic is `none`. `&mut self` and `&mut Book` are passed in and returned.
use Prim.Native.Nat.{bit_or, bit_xor}
use rust_hotpath_ipc.Prelude.{
  last, ◌>>=◌, ℕ, ◌+◌, ◌-◌, ◌*◌, ◌/◌, ◌%◌, ◌^◌, Bool, true, false, Option, some, List, [], ◌∷◌,
  ◌++◌, ◌==◌, if◌then◌else◌, length, get_elem?, set,
}
use rust_hotpath_ipc.Prelude.Int.{ℤ, pos}
use rust_hotpath_ipc.Float.{F64}
use rust_hotpath_ipc.OrderBook.{Side, Fill, Book, Order, submit, cancel, is_resting}

-- `Rng`: its state, and each draw with the state after it.
unfoldable pub new_rng : ℕ → ℕ
new_rng seed = bit_or seed 1

unfoldable pub next_u64 : ℕ → ℕ × ℕ
next_u64 x =
    let x1 = bit_xor x (x / 2 ^ 12) in
    let x2 = bit_xor x1 (x1 * 2 ^ 25 % 2 ^ 64) in
    let x3 = bit_xor x2 (x2 / 2 ^ 27) in (x3 * 0x2545F4914F6CDD1D % 2 ^ 64, x3)

unfoldable pub below : ℕ → ℕ → ℕ × ℕ
unfolding next_u64
below n rng = if n == 0 then (0, rng) else let (x, rng') = next_u64 rng in (x % n, rng')

abbrev pub synthetic_bit : ℕ
synthetic_bit = 2 ^ 63

pub record Participants (A : Type 0) : Type 0 where
  pub rng : ℕ
  pub fair_value : A
  pub vol : A
  pub drift : A
  pub regime_left : ℕ
  pub next_syn_id : ℕ
  pub live : List ℕ

-- `Participants::new_syn_id`.
unfoldable pub new_syn_id : {A : Type 0} → Participants A → ℕ × Participants A
new_syn_id p =
    (bit_or synthetic_bit p.next_syn_id, record p { next_syn_id = (p.next_syn_id + 1) % 2 ^ 64 })

-- `Vec::swap_remove`: the last element takes the place of the one that is removed.
abbrev pub but_last : {A : Type 0} → List A → List A
but_last [] = []
but_last (_ ∷ []) = []
but_last (x ∷ y ∷ ys) = x ∷ but_last (y ∷ ys)

unfoldable pub swap_remove : {A : Type 0} → ℕ → List A → Option (A × List A)
swap_remove i xs = do x ← get_elem? xs i; l ← last xs; some (x, but_last (set xs i l))

-- `live.retain(|id| book.is_resting(*id))`.
unfoldable pub retain_resting : Book → List ℕ → List ℕ
unfolding is_resting
retain_resting b [] = []
retain_resting b (id ∷ ids) =
    let rest = retain_resting b ids in if is_resting id b then id ∷ rest else rest

-- A round under way: the participants, the book and the fills so far.
pub record Floor (A : Type 0) : Type 0 where
  pub participants : Participants A
  pub book : Book
  pub sink : List Fill

module _ (F : F64) where
  open F use {Float, num, decimal, neg, add, sub, mul, div, sqrt, ln, cos, tau, lt, to_nat, to_int}

  abbrev pub scale : Float
  scale = num 100_000_000

  unfoldable pub unit : ℕ → Float × ℕ
  unfolding next_u64
  unit rng = let (x, rng') = next_u64 rng in (div (num (x / 2 ^ 11)) (num (2 ^ 53)), rng')

  -- `f64::max` with a literal: a NaN gives the literal.
  unfoldable pub normal : ℕ → Float × ℕ
  unfolding unit
  normal rng =
      let (u, rng') = unit rng in
      let u1 = if lt (decimal 1 12) u then u else decimal 1 12 in
      let (u2, rng'') = unit rng' in
      (mul (sqrt (mul (neg (num 2)) (ln u1))) (cos (mul tau u2)), rng'')

  -- `Participants::new`.
  unfoldable pub new_participants : ℕ → Float → Participants Float
  unfolding new_rng
  new_participants seed vol = record {
    rng = new_rng seed;
    fair_value = num 50_000;
    vol = vol;
    drift = num 0;
    regime_left = 0;
    next_syn_id = 1;
    live = [];
  }

  abbrev strength : Float → Float
  strength u = add (decimal 15 2) (mul (decimal 25 2) u)

  -- A new regime, when the last one is over.
  unfoldable pub new_regime : Participants Float → Participants Float
  unfolding unit below
  new_regime p =
      let (roll, r1) = unit p.rng in
      let (u, r2) = unit r1 in
      let (drift, r3) : Float × ℕ =
        if lt roll (decimal 35 2)
        then (mul p.vol (strength u), r2)
        else if lt roll (decimal 70 2)
        then (mul (neg p.vol) (strength u), r2)
        else (num 0, r1) in
      let (extra, r4) = below 6_000 r3 in
      record p { rng = r4; drift = drift; regime_left = 2_000 + extra }

  -- `Participants::step_fair_value`.
  unfoldable pub step_fair_value : Participants Float → Participants Float
  unfolding new_regime normal
  step_fair_value p =
      let q = if p.regime_left == 0 then new_regime p else p in
      let pull = mul (sub (num 50_000) q.fair_value) (decimal 5 4) in
      let (z, rng) = normal q.rng in
      let v = add q.fair_value (add (add q.drift pull) (mul q.vol z)) in
      record q {
        rng = rng;
        regime_left = q.regime_left - 1;
        fair_value = if lt v (num 1) then num 1 else v;
      }

  abbrev pub to_ticks : Float → ℤ
  to_ticks px = to_int (mul px scale)

  abbrev pub units : ℕ → ℕ
  units n = to_nat (mul (num (1 + n)) scale)

  -- A synthetic order: every one has no origin and is marked synthetic.
  abbrev pub synthetic : ℕ → Side → Bool → ℤ → ℕ → Order
  synthetic id side is_limit px sz = record {
    order_id = id;
    side = side;
    is_limit = is_limit;
    limit_px = px;
    quantity = sz;
    origin_ts = 0;
    is_synthetic = true;
  }

  abbrev pub place : Order → Floor Float → Floor Float
  place t w = let r = submit t w.sink w.book in record w { book = r.book; sink = r.fills }

  -- One side of the quote, which is then live.
  unfoldable pub quote : Side → ℤ → ℕ → Floor Float → Floor Float
  unfolding new_syn_id
  quote side px sz w =
      let (id, p) = new_syn_id w.participants in
      place (synthetic id side true px sz)
        (record w { participants = record p { live = p.live ++ id ∷ [] } })

  -- The first part of `act`: a fresh two-sided quote around the fair value.
  unfoldable pub quotes : Floor Float → Floor Float
  unfolding below
  quotes w =
      let p = w.participants in
      let (k, r1) = below 3 p.rng in
      let half_spread = mul (num 1) (add (num 1) (num k)) in
      let (m, r2) = below 4 r1 in
      let (n, r3) = below 4 r2 in
      quote Side.sell (to_ticks (add p.fair_value half_spread)) (units n) (
        quote Side.buy (to_ticks (sub p.fair_value half_spread)) (units m)
          (record w { participants = record p { rng = r3 } }))

  -- The order at a drawn place of `live` is cancelled.
  unfoldable pub cancel_at_random : ℕ → Floor Float → Option (Floor Float)
  cancel_at_random rng w = do
    let p = w.participants
    (id, live) ← swap_remove (below (length p.live) rng).0 p.live
    some (record w {
      participants = record p { rng = (below (length p.live) rng).1; live = live };
      book = (cancel id w.book).0;
    })

  -- Now and then an older synthetic order is cancelled. With none, nothing is drawn.
  unfoldable pub cancel_one : Floor Float → Option (Floor Float)
  cancel_one w =
      let p = w.participants in
      if length p.live == 0
      then some w
      else if lt (unit p.rng).0 (decimal 5 1)
      then cancel_at_random (unit p.rng).1 w
      else some (record w { participants = record p { rng = (unit p.rng).1 } })

  -- Now and then a synthetic taker crosses the spread.
  unfoldable pub taker : Floor Float → Floor Float
  unfolding unit below new_syn_id
  taker w =
      let (u, r1) = unit w.participants.rng in
      let (id, p) = new_syn_id (record (w.participants) { rng = r1 }) in
      let (n, r2) = below 3 r1 in
      let (v, r3) = unit r2 in
      let side = if lt v (decimal 5 1) then Side.buy else Side.sell in
      if lt u (decimal 25 2)
      then place (synthetic id side false (pos 0) (units n))
          (record w { participants = record p { rng = r3 } })
      else record w { participants = record (w.participants) { rng = r1 } }

  unfoldable pub prune : Floor Float → Floor Float
  unfolding retain_resting
  prune w =
      let p = w.participants in
      record w { participants = record p { live = retain_resting w.book p.live } }

  -- `Participants::act`, whose result is always `true`.
  unfoldable pub act : Floor Float → Option (Floor Float)
  act w = do
    w' ← cancel_one (quotes (record w { participants = step_fair_value w.participants }))
    some (prune (taker w'))

-- ===== src/Vm/Momentum.antt =====
-- src/bytecode.rs and src/strategy.rs: the momentum of the machine, on a ring buffer, against that
-- of the hand-written strategy, on a deque.
use rust_hotpath_ipc.Prelude.{
  ◌>>=◌, ℕ, ◌+◌, ◌≡◌, refl, sym, false, inl, inr, Bool-cases, Option-cases, Option, some, List, [],
  ◌∷◌, ◌++◌, arith, leb, length, length-append, replicate, length-replicate, last,
}
use rust_hotpath_ipc.Float.{F64, clamp_unit}
use rust_hotpath_ipc.Vm.{IndState, momentum_signal, momentum_update}
use rust_hotpath_ipc.Strategy
use rust_hotpath_ipc.Strategy.{
  StrategyConfig, Strategy, new_strategy, roll, trim, momentum_reading, momentum_of,
}
use rust_hotpath_ipc.Vm.Ring.{
  get_elem?-append, Holds, filling, full, Holds-push, Holds-read, last-trim,
}

module _ (F : F64) where
  open F use {Float, num}

  module _ (cfg : StrategyConfig Float) (scale : cfg.momentum_bps_full_scale ≡ num 25) where
    momentum_signal-Holds :
        {buf : List Float} {filled head : ℕ} {q : List Float} (now : Float)
        → Holds (cfg.momentum_lookback + 1) buf filled head q
        → last q ≡ some now
        → momentum_signal F buf filled head cfg.momentum_lookback now ≡ momentum_reading F cfg q
    unfolding momentum_signal
    momentum_signal-Holds now (filling rest eb ef eh es pos) e = ground arith
    momentum_signal-Holds now (full a [] eb eq ef eh es pos) e = absurd (omega arith)
    momentum_signal-Holds now (full a (x ∷ b) eb eq ef eh es pos) e =
        let len = length-append b a in
        let full_ring : leb (cfg.momentum_lookback + 1) cfg.momentum_lookback ≡ false =
          ground arith in
        let full_deque : leb (length (x ∷ (b ++ a))) cfg.momentum_lookback ≡ false = ground arith in
        rw (eb, eq, ef, eh, full_ring, full_deque, get_elem?-append a b x, rw eq at e)
          (elim (Bool-cases (F.same x (num 0))) [
            | inl zero_past ↦ rw zero_past
            | inr other ↦ rw other (λ i.
                some
                  (clamp_unit F (F.div (F.mul (F.div (F.sub now x) x) (num 10_000)) (sym scale i))))
          ])

  -- The signals of the machine's indicator, price by price.
  unfoldable pub ring_readings : IndState Float → List Float → Option (List Float)
  ring_readings st [] = some []
  ring_readings st (price ∷ prices) = do
    (st', v) ← momentum_update F st price
    vs ← ring_readings st' prices
    some (v ∷ vs)

  -- The signals of the hand-written strategy, price by price.
  unfoldable pub deque_readings : Strategy Float → List Float → Option (List Float)
  unfolding roll Strategy.momentum_signal
  deque_readings s [] = some []
  deque_readings s (price ∷ prices) = do
    v ← Strategy.momentum_signal F (roll F price s)
    vs ← deque_readings (roll F price s) prices
    some (v ∷ vs)

  readings-Holds :
      (s : Strategy Float) {buf : List Float} {filled head : ℕ} (prices : List Float)
      → s.cfg.momentum_bps_full_scale ≡ num 25
      → Holds (s.cfg.momentum_lookback + 1) buf filled head s.momentum_buf
      → ring_readings (IndState.momentum buf filled head s.cfg.momentum_lookback) prices
        ≡ deque_readings s prices
  unfolding ring_readings deque_readings momentum_update
  readings-Holds s [] scale h = refl
  readings-Holds s {buf} {filled} {head} (price ∷ prices) scale h =
      let (old, there, size) = Holds-read h in
      let pushed = Holds-push price h in
      let q = trim (s.cfg.momentum_lookback + 1) (s.momentum_buf ++ (price ∷ [])) in
      let same =
        momentum_signal-Holds s.cfg scale price pushed
          (last-trim (s.cfg.momentum_lookback + 1) s.momentum_buf price (omega arith)) in
      let rest = readings-Holds (roll F price s) prices scale pushed in
      elim (Option-cases (momentum_reading F s.cfg q)) [
        | inl panics ↦ rw (there, size, same, panics)
        | inr (v, reads) ↦ rw (there, size, same, reads, rest)
      ]

  -- Over any prices, the machine's momentum indicator, on its ring buffer, gives at each price the
  -- signal that the hand-written strategy computes from its deque, with the same lookback, where
  -- that strategy's full scale is 25 basis points as it is in the machine.
  pub ring_readings-deque_readings :
      (cfg : StrategyConfig Float) (prices : List Float)
      → cfg.momentum_bps_full_scale ≡ num 25
      → ring_readings
          (IndState.momentum
            (replicate (cfg.momentum_lookback + 1) (num 0))
            0
            0
            cfg.momentum_lookback)
          prices
        ≡ deque_readings (new_strategy F cfg) prices
  unfolding new_strategy
  ring_readings-deque_readings cfg prices scale = readings-Holds (new_strategy F cfg) prices scale (
      filling (replicate (cfg.momentum_lookback + 1) (num 0)) refl refl refl
        (omega (arith, length-replicate (cfg.momentum_lookback + 1) (num 0)))
        (omega (arith, length-replicate (cfg.momentum_lookback + 1) (num 0))))

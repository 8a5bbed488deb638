-- ===== src/Strategy/Total.antt =====
-- Panics of src/strategy.rs, and the sizes of its buffers.
use rust_hotpath_ipc.Prelude.{
  last-some, ℕ, suc, ◌+◌, ◌≤◌, ◌<◌, ◌≡◌, refl, ap, Option, none, some, List, [], ◌∷◌, ◌++◌, arith,
  ltb, leb, length, Bool-cases, inl, inr,
}
use rust_hotpath_ipc.Float.{F64, clamp_unit}
use rust_hotpath_ipc.Strategy.{
  Side, Decision, StrategyConfig, Strategy, momentum_of, var_of, mean_of, trend_signal, blend,
  momentum_reading, trim, trim_window, roll, momentum_signal, reversion_signal, signals, take,
  decide, on_price, new_strategy, cooldown_ok,
}

-- The buffers are bounded, and the window is one that a price can be in.
pub record IsBounded {A : Type 0} (s : Strategy A) : Type 0 where
  pub momentum : length s.momentum_buf ≤ s.cfg.momentum_lookback + 1
  pub window : length s.window ≤ s.cfg.reversion_window
  pub some_window : 0 < s.cfg.reversion_window

length-push {ℓ} : {A : Type ℓ} (xs : List A) (x : A) → length (xs ++ x ∷ []) ≡ suc (length xs)
length-push [] x = refl
length-push (y ∷ xs) x = ap suc (length-push xs x)

length-trim : {A : Type 0} (n : ℕ) (xs : List A) → length (trim n xs) ≤ n
unfolding trim
length-trim n [] = omega arith
length-trim n (x ∷ xs) = ground (arith, length-trim n xs)

module _ (F : F64) where
  open F use {Float}

  length-trim_window :
      (n : ℕ) (xs : List Float) (a b : Float) → length (trim_window F n xs a b).prices ≤ n
  unfolding trim_window
  length-trim_window n [] a b = omega arith
  length-trim_window n (x ∷ xs) a b =
      ground (arith, length-trim_window n xs (F.sub a x) (F.sub b (F.mul x x)))

  roll-IsBounded : (price : Float) (s : Strategy Float) → IsBounded s → IsBounded (roll F price s)
  unfolding roll
  roll-IsBounded price s b = record {
    momentum = length-trim (s.cfg.momentum_lookback + 1) _;
    window = length-trim_window s.cfg.reversion_window _ _ _;
    some_window = b.some_window;
  }

  momentum_reading-some :
      (cfg : StrategyConfig Float) (buf : List Float)
      → (x : Float) × (momentum_reading F cfg buf ≡ some x)
  momentum_reading-some cfg [] = (F.num 0, ground arith)
  momentum_reading-some cfg (past ∷ later) =
      elim (Bool-cases (leb (length (past ∷ later)) cfg.momentum_lookback)) [
        | inl young ↦ (F.num 0, rw young refl)
        | inr old ↦
            let (now, there) = last-some (past ∷ later) (omega arith) in
            (momentum_of F cfg past now, rw (old, there) refl)
      ]

  reversion_signal-some :
      (s : Strategy Float) → IsBounded s → (x : Float) × (reversion_signal F s ≡ some x)
  unfolding reversion_signal
  reversion_signal-some s b = elim (Bool-cases (ltb (length s.window) s.cfg.reversion_window)) [
    | inl young ↦ (F.num 0, rw young refl)
    | inr old ↦ elim (Bool-cases (F.le (var_of F s) (F.decimal 1 12))) [
      | inl flat ↦ (F.num 0, rw (old, flat) refl)
      | inr spread ↦
          let (latest, there) = last-some s.window (let w = b.some_window in ground arith) in
          let z =
            F.div (F.neg (F.div (F.sub latest (mean_of F s)) (F.sqrt (var_of F s)))) (F.num 2) in
          (clamp_unit F z, rw (old, spread, there) refl)
    ]
  ]

  abbrev Keeps : Strategy Float → Strategy Float → Type 0
  Keeps s s' = (s'.momentum_buf ≡ s.momentum_buf) × (s'.window ≡ s.window) × (s'.cfg ≡ s.cfg)

  take-Keeps :
      (side : Option Side) (score : Float) (s : Strategy Float) → Keeps s (take F side score s).0
  unfolding take
  take-Keeps none score s = (refl, refl, refl)
  take-Keeps (some side) score s = elim (Bool-cases (cooldown_ok F side s)) [
    | inl h ↦ rw h (refl, refl, refl)
    | inr h ↦ rw h (refl, refl, refl)
  ]

  blend-Keeps : (s : Strategy Float) (three : Float × Float × Float) → Keeps s (blend F s three).0
  unfolding blend
  blend-Keeps s (trend, momentum, reversion) =
      elim (Bool-cases (
        F.le (F.add (F.add s.cfg.weight_trend s.cfg.weight_momentum) s.cfg.weight_reversion)
          (F.num 0))) [ inl h ↦ rw h (refl, refl, refl) | inr h ↦ rw h (take-Keeps _ _ s) ]

  pub signals-some :
      (s : Strategy Float) → IsBounded s → (x : Float × Float × Float) × (signals F s ≡ some x)
  unfolding signals momentum_signal
  signals-some s b =
      let (m, there) = momentum_reading-some s.cfg s.momentum_buf in
      let (r, also) = reversion_signal-some s b in ((trend_signal F s, m, r), rw (there, also) refl)

  decide-some :
      (s : Strategy Float)
      → IsBounded s
      → (s' : Strategy Float) × (d : Decision Float) × (decide F s ≡ some (s', d)) × IsBounded s'
  unfolding decide
  decide-some s b =
      let (three, there) = signals-some s b in
      let (m, w, c) = blend-Keeps s three in
      (
        (blend F s three).0,
        (blend F s three).1,
        rw there refl,
        record {
          momentum = rw (m, c) b.momentum;
          window = rw (w, c) b.window;
          some_window = rw c b.some_window;
        },
      )

  -- On a strategy whose window is not empty and whose buffers are bounded, a price gives a decision
  -- and not a panic, and the buffers stay bounded.
  pub on_price-total :
      (price : Float) (s : Strategy Float)
      → IsBounded s
      → (s' : Strategy Float) × (d : Decision Float) × (on_price F price s ≡ some (s', d))
        × IsBounded s'
  unfolding on_price
  on_price-total price s b = decide-some (roll F price s) (roll-IsBounded price s b)

  pub new_strategy-IsBounded :
      (cfg : StrategyConfig Float) → 0 < cfg.reversion_window → IsBounded (new_strategy F cfg)
  unfolding new_strategy
  new_strategy-IsBounded cfg h = record {
    momentum = omega arith;
    window = omega arith;
    some_window = h;
  }

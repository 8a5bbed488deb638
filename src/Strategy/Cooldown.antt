-- ===== src/Strategy/Cooldown.antt =====
-- The cooldown of src/strategy.rs, over a stream of prices.
use rust_hotpath_ipc.Prelude.{
  ℕ, suc, ◌+◌, ◌^◌, ◌≤◌, ◌<◌, ◌≡◌, ◌⊎◌, refl, sym, ap, subst, true, false, Option, none, some, List,
  [], ◌∷◌, arith, leb→le, length, Bool-cases, Option-cases, inl, inr,
}
use rust_hotpath_ipc.Float.{F64}
use rust_hotpath_ipc.Strategy.Total.{IsBounded, on_price-total, new_strategy-IsBounded}
use rust_hotpath_ipc.Strategy.{
  Side, Decision, StrategyConfig, Strategy, same_side, roll, signals, take, decide, on_price,
  new_strategy, cooldown_ok, blend,
}

-- The side of the last trade and how many ticks ago it was.
abbrev pub Last : Type 0
Last = Option (Side × ℕ)

abbrev pub age : Last → Last
age none = none
age (some (side, gap)) = some (side, suc gap)

-- A trade on the side of the last one waits for the cooldown.
abbrev pub Allowed : ℕ → Side → Last → Type 0
Allowed cooldown side none = Unit
Allowed cooldown side (some (prev, gap)) = (same_side prev side ≡ false) ⊎ (cooldown ≤ gap)

abbrev pub Spaced : {A : Type 0} → ℕ → Last → List (Decision A) → Type 0
Spaced cooldown last [] = Unit
Spaced cooldown last (Decision.hold ∷ ds) = Spaced cooldown (age last) ds
Spaced cooldown last (Decision.trade side _ ∷ ds) =
    Allowed cooldown side (age last) × Spaced cooldown (some (side, 0)) ds

-- What the state says of the last trade.
data Remembers {A : Type 0} (s : Strategy A) : Last → Type 0 where
  never : s.last_side ≡ none → Remembers s none
  since :
      {side : Side} {t gap : ℕ}
      → s.last_side ≡ some side
      → s.last_trade_tick ≡ some t
      → s.ticks_seen ≡ t + gap
      → Remembers s (some (side, gap))

module _ (F : F64) where
  open F use {Float}

  -- A decision for each price, or a panic.
  unfoldable pub decisions : List Float → Strategy Float → Option (List (Decision Float))
  decisions [] s = some []
  decisions (price ∷ prices) s = elim (on_price F price s) [
    | none ↦ none
    | some (s', d) ↦ elim (decisions prices s') [ none ↦ none | some ds ↦ some (d ∷ ds) ]
  ]

  roll-Remembers :
      (price : Float) (s : Strategy Float) (last : Last)
      → s.ticks_seen + 1 < 2 ^ 64
      → Remembers s last
      → Remembers (roll F price s) (age last)
  unfolding roll
  roll-Remembers price s none h (never e) = never e
  roll-Remembers price s (some (side, gap)) h (since e k t) = since e k (omega arith)

  cooldown_ok-Allowed :
      (side : Side) (s : Strategy Float) (last : Last)
      → Remembers s last
      → cooldown_ok F side s ≡ true
      → Allowed s.cfg.cooldown_ticks side last
  unfolding cooldown_ok
  cooldown_ok-Allowed side s none r h = tt
  cooldown_ok-Allowed side s (some (prev, gap)) (since e k t) h =
      elim (Bool-cases (same_side prev side)) [
        | inr flip ↦ inl flip
        | inl same ↦ let waited = rw (e, k, same) at h in inr (omega (arith, leb→le _ _ waited))
      ]

  -- What `decide` makes of the rolled state.
  data Decided (s : Strategy Float) : Strategy Float × Decision Float → Type 0 where
    held : Decided s (s, Decision.hold)
    traded :
        {side : Side} {score : Float}
        → cooldown_ok F side s ≡ true
        → Decided s (
          record s { last_trade_tick = some s.ticks_seen; last_side = some side },
          Decision.trade side score,
        )

  take-Decided :
      (o : Option Side) (score : Float) (s : Strategy Float) → Decided s (take F o score s)
  unfolding take
  take-Decided none score s = held
  take-Decided (some side) score s = elim (Bool-cases (cooldown_ok F side s)) [
    | inl h ↦ rw h (traded h)
    | inr h ↦ rw h held
  ]

  blend-Decided : (s : Strategy Float) (three : Float × Float × Float) → Decided s (blend F s three)
  unfolding blend
  blend-Decided s (trend, momentum, reversion) =
      elim (Bool-cases (
        F.le (F.add (F.add s.cfg.weight_trend s.cfg.weight_momentum) s.cfg.weight_reversion)
          (F.num 0))) [ inl h ↦ rw h held | inr h ↦ rw h (take-Decided _ _ s) ]

  on_price-Decided :
      (price : Float) (s : Strategy Float) (r : Strategy Float × Decision Float)
      → on_price F price s ≡ some r
      → Decided (roll F price s) r
  unfolding on_price decide
  on_price-Decided price s r e = elim (Option-cases (signals F (roll F price s))) [
    | inl broke ↦ cc (rw broke at e)
    | inr (three, there) ↦
        let same : blend F (roll F price s) three ≡ r = cc (rw there at e) in
        subst (Decided (roll F price s)) same (blend-Decided (roll F price s) three)
  ]

  roll-fixed :
      (price : Float) (s : Strategy Float)
      → s.ticks_seen + 1 < 2 ^ 64
      → ((roll F price s).ticks_seen ≡ s.ticks_seen + 1) × ((roll F price s).cfg ≡ s.cfg)
  unfolding roll
  roll-fixed price s h = (omega arith, refl)

  -- One more decision before a stream of which the claim holds.
  decision-Spaced :
      (rolled s' : Strategy Float) (d : Decision Float) (last : Last) (ds : List (Decision Float))
      → Remembers rolled (age last)
      → Decided rolled (s', d)
      → ((next : Last)
          → s'.ticks_seen ≡ rolled.ticks_seen
          → s'.cfg ≡ rolled.cfg
          → Remembers s' next
          → Spaced rolled.cfg.cooldown_ticks next ds)
      → Spaced rolled.cfg.cooldown_ticks last (d ∷ ds)
  decision-Spaced rolled _ _ last ds r held rest = rest (age last) refl refl r
  decision-Spaced rolled _ _ last ds r (traded ok) rest = (
    cooldown_ok-Allowed _ rolled (age last) r ok,
    rest _ refl refl (since refl refl (omega arith)),
  )

  decisions_cons :
      (price : Float) (prices : List Float) (s : Strategy Float) (ds : List (Decision Float))
      → decisions (price ∷ prices) s ≡ some ds
      → (s' : Strategy Float) × (d : Decision Float) × (rest : List (Decision Float)) × (on_price F
            price s
          ≡ some (s', d))
        × (decisions prices s' ≡ some rest)
        × (ds ≡ d ∷ rest)
  unfolding decisions
  decisions_cons price prices s ds e = elim (Option-cases (on_price F price s)) [
    | inl broke ↦ cc (rw (decisions, broke) at e)
    | inr ((s', d), there) ↦ elim (Option-cases (decisions prices s')) [
      | inl broke ↦ cc (rw (decisions, there, broke) at e)
      | inr (rest, then_there) ↦
          (s', d, rest, there, then_there, cc (rw (decisions, there, then_there) at e))
    ]
  ]

  decisions-Spaced :
      (prices : List Float) (s : Strategy Float) (last : Last) (ds : List (Decision Float))
      → s.ticks_seen + length prices < 2 ^ 64
      → Remembers s last
      → decisions prices s ≡ some ds
      → Spaced s.cfg.cooldown_ticks last ds
  decisions-Spaced [] s last ds h r e =
      let eq-nil-all_children : [] ≡ ds = unfold decisions in cc e in rw (← eq-nil-all_children) tt
  decisions-Spaced (price ∷ prices) s last ds h r e =
      let (s', d, rest, there, then_there, all) = decisions_cons price prices s ds e in
      let (ticks, same_cfg) = roll-fixed price s (omega arith) in
      let more =
        decision-Spaced (roll F price s) s' d last rest
          (roll-Remembers price s last (omega arith) r) (on_price-Decided price s (s', d) there)
          λ next k c r'.
            rw (sym c)
              (decisions-Spaced prices s' next rest (omega (arith, k, ticks)) r' then_there) in
      rw all (rw same_cfg at more)

  decisions-total :
      (prices : List Float) (s : Strategy Float)
      → IsBounded s
      → (ds : List (Decision Float)) × (decisions prices s ≡ some ds) × (length ds ≡ length prices)
  unfolding decisions
  decisions-total [] s b = ([], refl, refl)
  decisions-total (price ∷ prices) s b =
      let (s', d, done, b') = on_price-total F price s b in
      let (ds, rest, size) = decisions-total prices s' b' in
      (d ∷ ds, rw (decisions, done, rest) refl, ap suc size)

  -- A new strategy whose reversion window is not empty gives a decision for every price of every
  -- stream, with no panic, and two trades on one side with none on the other side between them are
  -- at least `cooldown_ticks` ticks apart.
  pub new_strategy-Spaced :
      (cfg : StrategyConfig Float) (prices : List Float)
      → 0 < cfg.reversion_window
      → length prices < 2 ^ 64
      → (ds : List (Decision Float)) × (decisions prices (new_strategy F cfg) ≡ some ds)
        × (length ds ≡ length prices)
        × Spaced cfg.cooldown_ticks none ds
  new_strategy-Spaced cfg prices some_window h =
      let (ds, done, size) =
        decisions-total prices (new_strategy F cfg) (new_strategy-IsBounded F cfg some_window) in
      (ds, done, size, from_new cfg prices ds h done)
    where
      from_new :
          (cfg : StrategyConfig Float) (prices : List Float) (ds : List (Decision Float))
          → length prices < 2 ^ 64
          → decisions prices (new_strategy F cfg) ≡ some ds
          → Spaced cfg.cooldown_ticks none ds
      from_new cfg prices ds h e =
          unfold new_strategy in
          decisions-Spaced prices (new_strategy F cfg) none ds (omega arith) (never refl) e

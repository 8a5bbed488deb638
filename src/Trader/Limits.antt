-- ===== src/Trader/Limits.antt =====
-- The orders of a run of src/bin/strategy.rs: their exposure, their ids and their number.
use rust_hotpath_ipc.Prelude.{
  ℕ, suc, ◌+◌, ◌^◌, ◌≤◌, ◌<◌, ◌≡◌, ◌⊎◌, sym, ap, subst, false, Option, none, some, List, [], ◌∷◌,
  arith, ◌==◌, ==_iff, length, Bool-cases, Option-cases, inl, inr,
}
use rust_hotpath_ipc.Prelude.Int.{pos}
use rust_hotpath_ipc.Float.{F64}
use rust_hotpath_ipc.Messages.{OrderCommand}
use rust_hotpath_ipc.Strategy.{Strategy}
use rust_hotpath_ipc.Vm.{Vm}
use rust_hotpath_ipc.Trader.{Settings, Trader, Arrival, also, on_tick, trading, new_trader}
use rust_hotpath_ipc.Trader.Risk.{IsWithin, IsSane, Exposes, Numbered, Did, held, sent, on_tick-Did}

-- With a bound on the number of orders, that many and no more are sent.
abbrev pub Capped : Settings → ℕ → List OrderCommand → Type 0
Capped c already cmds =
    (c.max_orders == 0) ≡ false → already < c.max_orders → already + length cmds ≤ c.max_orders

module _ (F : F64) (c : Settings) where
  open F use {Float}

  -- How a run goes on from its first tick.
  data Begins (a : Arrival) (more : List Arrival) (s : Trader Float)
      : Trader Float × List OrderCommand → Type 0 where
    over : s.running ≡ false → Begins a more s (s, [])
    ticked :
        {s' end : Trader Float} {o : Option OrderCommand} {cmds : List OrderCommand}
        → on_tick F c a s ≡ some (s', o)
        → trading F c more s' ≡ some (end, cmds)
        → Begins a more s (end, also o cmds)

  trading-Begins :
      (a : Arrival) (more : List Arrival) (s : Trader Float) (r : Trader Float × List OrderCommand)
      → trading F c (a ∷ more) s ≡ some r
      → Begins a more s r
  unfolding trading
  trading-Begins a more s r e = elim (Bool-cases s.running) [
    | inr halted ↦
        let same : (s, []) ≡ r = cc (rw (trading, halted) at e) in
        subst (Begins a more s) same (over halted)
    | inl live ↦ elim (Option-cases (on_tick F c a s)) [
      | inl broke ↦ cc (rw (trading, broke, live) at e)
      | inr ((s', o), one) ↦ elim (Option-cases (trading F c more s')) [
        | inl broke ↦ cc (rw (trading, one, broke, live) at e)
        | inr ((end, cmds), rest) ↦
            let same : (end, also o cmds) ≡ r = cc (rw (trading, one, rest, live) at e) in
            subst (Begins a more s) same (ticked one rest)
      ]
    ]
  ]

  halted-trading :
      (as' : List Arrival) (s end : Trader Float) (cmds : List OrderCommand)
      → s.running ≡ false
      → trading F c as' s ≡ some (end, cmds)
      → cmds ≡ []
  unfolding trading
  halted-trading [] s end cmds h e = cc e
  halted-trading (a ∷ as') s end cmds h e = cc (rw (trading, h) at e)

  -- What is claimed of the orders of a run from a trader with these counters.
  record IsLimited (m d : ℕ) (s : Trader Float) (cmds : List OrderCommand) : Type 0 where
    exposes : Exposes m d s.position cmds
    numbered : Numbered s.order_id cmds
    capped : Capped c s.orders_sent cmds

  eq-nil-all_children : (m d : ℕ) (s : Trader Float) → IsLimited m d s []
  eq-nil-all_children m d s = record { exposes = tt; numbered = tt; capped = λ _ h. omega arith }

  -- One more tick before a run of which the claim holds.
  tick-IsLimited :
      (m d left : ℕ) (s s' : Trader Float) (o : Option OrderCommand) (rest : List OrderCommand)
      → s.order_id + suc left < 2 ^ 64
      → s.orders_sent + suc left < 2 ^ 64
      → (s'.running ≡ false → rest ≡ [])
      → (IsWithin m s'.position
          → s'.order_id + left < 2 ^ 64
          → s'.orders_sent + left < 2 ^ 64
          → IsLimited m d s' rest)
      → IsWithin m s.position
      → Did c m d s (s', o)
      → IsLimited m d s (also o rest)
  tick-IsLimited m d left s s' none rest h i halt more w (held p j n) =
      let l = more (rw p w) (omega (arith, j)) (omega (arith, n)) in
      record {
        exposes = rw (sym p) l.exposes;
        numbered = rw (sym j) l.numbered;
        capped = rw (sym n) l.capped;
      }
  tick-IsLimited m d left s s' (some cmd) rest h i halt more w (sent p w' id j n stop) =
      let j' : s'.order_id ≡ s.order_id + 1 = omega (arith, j) in
      let n' : s'.orders_sent ≡ s.orders_sent + 1 = omega (arith, n) in
      let l = more w' (omega (arith, j')) (omega (arith, n')) in
      record {
        exposes = rw (sym p) (w', l.exposes);
        numbered = rw (sym j') (id, l.numbered);
        capped = λ bounded below. elim (lt_or_ge s'.orders_sent c.max_orders) [
          | inl still ↦ let k = l.capped bounded still in omega (arith, k, n')
          | inr full ↦
              let nothing : length rest ≡ 0 = ap length (halt (stop bounded full)) in
              omega (arith, nothing)
        ];
      }
    where
      lt_or_ge : (a b : ℕ) → (a < b) ⊎ (b ≤ a)
      lt_or_ge a b = omega arith

  begun-IsLimited :
      (m d : ℕ) (a : Arrival) (more : List Arrival) (s end : Trader Float)
      (cmds : List OrderCommand)
      → IsSane c m d
      → IsWithin m s.position
      → s.order_id + suc (length more) < 2 ^ 64
      → s.orders_sent + suc (length more) < 2 ^ 64
      → ((s' : Trader Float) (rest : List OrderCommand)
          → IsWithin m s'.position
          → s'.order_id + length more < 2 ^ 64
          → s'.orders_sent + length more < 2 ^ 64
          → trading F c more s' ≡ some (end, rest)
          → IsLimited m d s' rest)
      → Begins a more s (end, cmds)
      → IsLimited m d s cmds
  begun-IsLimited m d a more s end _ k w h i again (over _) = eq-nil-all_children m d s
  begun-IsLimited m d a more s end _ k w h i again
        (ticked {s' = s'} {o = o} {cmds = rest} one rest_runs) =
      tick-IsLimited m d (length more) s s' o rest h i
        (λ halted. halted-trading more s' end rest halted rest_runs)
        (λ w' h' i'. again s' rest w' h' i' rest_runs) w (on_tick-Did F c m d a s (s', o) k w one)

  trading-IsLimited :
      (m d : ℕ) (as' : List Arrival) (s end : Trader Float) (cmds : List OrderCommand)
      → IsSane c m d
      → IsWithin m s.position
      → s.order_id + length as' < 2 ^ 64
      → s.orders_sent + length as' < 2 ^ 64
      → trading F c as' s ≡ some (end, cmds)
      → IsLimited m d s cmds
  trading-IsLimited m d [] s end cmds k w h i e =
      let empty : [] ≡ cmds = unfold trading in cc e in rw (← empty) (eq-nil-all_children m d s)
  trading-IsLimited m d (a ∷ more) s end cmds k w h i e =
      begun-IsLimited m d a more s end cmds k w h i
        (λ s' rest. trading-IsLimited m d more s' end rest k)
        (trading-Begins a more s (end, cmds) e)

  -- The orders of a run from the start: after each of them the sum of the orders so far, in either
  -- direction, is within the position limit; their ids are 1, 2, 3 and so on; and they are no more
  -- than `max_orders`, if that is not 0. The limit and the order size fit in an `i64` together.
  pub new_trader-limits :
      (m d : ℕ) (arrivals : List Arrival) (strat : Strategy Float) (vm : Option (Vm Float))
      (end : Trader Float) (cmds : List OrderCommand)
      → IsSane c m d
      → length arrivals < 2 ^ 64
      → trading F c arrivals (new_trader F strat vm) ≡ some (end, cmds)
      → Exposes m d (pos 0) cmds
        × Numbered 0 cmds
        × ((c.max_orders ≡ 0) ⊎ (length cmds ≤ c.max_orders))
  new_trader-limits m d arrivals strat vm end cmds k h e =
      let l =
        trading-IsLimited m d arrivals (new_trader F strat vm) end cmds k (omega arith, omega arith)
          (omega arith) (omega arith) e in
      let cap = l.capped in
      (
        l.exposes,
        l.numbered,
        elim (Bool-cases (c.max_orders == 0)) [
          | inl unbounded ↦ inl ((==_iff c.max_orders 0).0 unbounded)
          | inr bounded ↦ inr (let z = cap bounded (ground arith) in omega arith)
        ],
      )

-- ===== src/Trader/Risk.antt =====
-- The risk limit and the order ids of src/bin/strategy.rs, over any stream of ticks.
use rust_hotpath_ipc.Prelude.Words.{add_u64, wrap_i64}
use rust_hotpath_ipc.Prelude.{
  ℕ, ◌+◌, ◌%◌, ◌^◌, ◌≤◌, ◌<◌, ◌≡◌, refl, ap, subst, ◌∙◌, Bool, false, ◌&&◌, ◌||◌, not, Option, none,
  some, List, [], ◌∷◌, arith, leb, ◌==◌, if◌then◌else◌, Bool-cases, Option-cases, inl, inr,
}
use rust_hotpath_ipc.Prelude.Int.{ℤ, pos, ◌+ℤ◌, ◌-ℤ◌, ltb_ℤ, pos_part, neg_part, int_laws}
use rust_hotpath_ipc.Float.{F64}
use rust_hotpath_ipc.Messages.{OrderCommand}
use rust_hotpath_ipc.Strategy.{Side, signals, on_price}
use rust_hotpath_ipc.Vm.{run}
use rust_hotpath_ipc.Trader.{
  Settings, Trader, Arrival, delta_of, command, breaches, trade_on, heartbeat, decision, on_tick,
}

-- The position is within the limit on both sides.
abbrev pub IsWithin : ℕ → ℤ → Type 0
IsWithin m p = (pos_part p ≤ m) × (neg_part p ≤ m)

-- The limit is not negative, and a position within it has room for an order in an `i64`.
pub record IsSane (c : Settings) (m d : ℕ) : Type 0 where
  pub max_position : c.max_position ≡ pos m
  pub position_delta : c.position_delta ≡ pos d
  pub room : m + d < 2 ^ 63

-- Where an order takes the position.
abbrev pub moved : ℕ → ℤ → OrderCommand → ℤ
moved d p cmd = if cmd.side == 0 then p +ℤ pos d else p -ℤ pos d

-- Orders of which each, with all before it, leaves the position within the limit.
abbrev pub Exposes : ℕ → ℕ → ℤ → List OrderCommand → Type 0
Exposes m d p [] = Unit
Exposes m d p (cmd ∷ cmds) = IsWithin m (moved d p cmd) × Exposes m d (moved d p cmd) cmds

-- Orders with the ids that follow `id`.
abbrev pub Numbered : ℕ → List OrderCommand → Type 0
Numbered id [] = Unit
Numbered id (cmd ∷ cmds) = (cmd.order_id ≡ id + 1) × Numbered (id + 1) cmds

wrap_i64-small : (a : ℤ) → pos_part a < 2 ^ 63 → neg_part a < 2 ^ 63 → wrap_i64 a ≡ a
wrap_i64-small a h k = ground arith

parts_add :
    (m d : ℕ) (p : ℤ)
    → IsWithin m p
    → m + d < 2 ^ 63
    → (pos_part (p +ℤ pos d) < 2 ^ 63) × (neg_part (p +ℤ pos d) < 2 ^ 63)
unfolding ◌+ℤ◌
parts_add m d p w h = ground arith

parts_sub :
    (m d : ℕ) (p : ℤ)
    → IsWithin m p
    → m + d < 2 ^ 63
    → (pos_part (p -ℤ pos d) < 2 ^ 63) × (neg_part (p -ℤ pos d) < 2 ^ 63)
unfolding ◌-ℤ◌
parts_sub m d p w h = ground arith

negated : (d : ℕ) → d < 2 ^ 63 → wrap_i64 (pos 0 -ℤ pos d) ≡ pos 0 -ℤ pos d
negated d h =
    let (a, b) = parts_sub 0 d (pos 0) (omega arith, omega arith) (omega arith) in
    wrap_i64-small _ a b

add_negated : (p : ℤ) (d : ℕ) → p +ℤ (pos 0 -ℤ pos d) ≡ p -ℤ pos d
add_negated p d = omega int_laws

-- The sum that the loop computes is the sum.
new_position_lem :
    (c : Settings) (m d : ℕ) (p : ℤ) (a : Arrival) (side : Side) (id : ℕ)
    → IsSane c m d
    → IsWithin m p
    → wrap_i64 (p +ℤ delta_of c side) ≡ moved d p (command c a side id)
unfolding command
new_position_lem c m d p a Side.buy id s w =
    let (x, y) = parts_add m d p w s.room in rw (s.position_delta) (wrap_i64-small (p +ℤ pos d) x y)
new_position_lem c m d p a Side.sell id s w =
    let (x, y) = parts_sub m d p w s.room in
    rw (s.position_delta, negated d (let r = s.room in omega arith), add_negated p d)
      (wrap_i64-small (p -ℤ pos d) x y)

ltb_ℤ-IsWithin :
    (m : ℕ) (p : ℤ) → (ltb_ℤ (pos m) p || ltb_ℤ p (pos 0 -ℤ pos m)) ≡ false → IsWithin m p
unfolding ◌-ℤ◌
ltb_ℤ-IsWithin m p h = ground arith

breaches-IsWithin :
    (c : Settings) (m d : ℕ) (p : ℤ) → IsSane c m d → breaches c p ≡ false → IsWithin m p
breaches-IsWithin c m d p s h =
    let small : m < 2 ^ 63 = (let r = s.room in omega arith) in
    ltb_ℤ-IsWithin m p (rw (s.max_position, negated m small) at h)

-- What a tick does to the position and the counters, and the order that it leads to.
pub data Did {A : Type 0} (c : Settings) (m d : ℕ) (s : Trader A)
    : Trader A × Option OrderCommand → Type 0 where
  held :
      {s' : Trader A}
      → s'.position ≡ s.position
      → s'.order_id ≡ s.order_id
      → s'.orders_sent ≡ s.orders_sent
      → Did c m d s (s', none)
  sent :
      {s' : Trader A} {cmd : OrderCommand}
      → s'.position ≡ moved d s.position cmd
      → IsWithin m s'.position
      → cmd.order_id ≡ s'.order_id
      → s'.order_id ≡ add_u64 s.order_id 1
      → s'.orders_sent ≡ add_u64 s.orders_sent 1
      → ((c.max_orders == 0) ≡ false → c.max_orders ≤ s'.orders_sent → s'.running ≡ false)
      → Did c m d s (s', some cmd)

stops :
    (running : Bool) (max_orders n : ℕ)
    → (max_orders == 0) ≡ false
    → max_orders ≤ n
    → (running && not (not (max_orders == 0) && leb max_orders n)) ≡ false
stops running max_orders n h k = ground arith

trade_on-Did :
    {A : Type 0} (c : Settings) (m d : ℕ) (a : Arrival) (trade : Option (Side × A)) (s : Trader A)
    → IsSane c m d
    → IsWithin m s.position
    → Did c m d s (trade_on c a trade s)
unfolding trade_on command
trade_on-Did c m d a none s k w = held refl refl refl
trade_on-Did c m d a (some (side, score)) s k w =
    let new_position = wrap_i64 (s.position +ℤ delta_of c side) in
    elim (Bool-cases (breaches c new_position)) [
      | inl over ↦ rw over (held refl refl refl)
      | inr within ↦ rw within (
          sent (new_position_lem c m d s.position a side (add_u64 s.order_id 1) k w)
            (breaches-IsWithin c m d new_position k within) refl refl refl
            (stops s.running c.max_orders (add_u64 s.orders_sent 1)))
    ]

-- Two traders with the same counters.
abbrev Same : {A : Type 0} → Trader A → Trader A → Type 0
Same s s' =
    (s'.position ≡ s.position) × (s'.order_id ≡ s.order_id) × (s'.orders_sent ≡ s.orders_sent)

Did-Same :
    {A : Type 0} (c : Settings) (m d : ℕ) (s s' : Trader A) (r : Trader A × Option OrderCommand)
    → Same s s'
    → Did c m d s' r
    → Did c m d s r
Did-Same c m d s s' _ (p, i, n) (held p' i' n') = held (p' ∙ p) (i' ∙ i) (n' ∙ n)
Did-Same c m d s s' _ (p, i, n) (sent {cmd = cmd} p' w id i' n' stop) =
    sent (p' ∙ ap (λ q. moved d q cmd) p) w id (i' ∙ ap (λ j. add_u64 j 1) i)
      (n' ∙ ap (λ j. add_u64 j 1) n) stop

module _ (F : F64) where
  open F use {Float}

  heartbeat-Same : (a : Arrival) (s s' : Trader Float) → heartbeat F a s ≡ some s' → Same s s'
  unfolding heartbeat
  heartbeat-Same a s s' e = elim (Bool-cases (s.ticks_seen % 50_000 == 0)) [
    | inr quiet ↦ let same : s ≡ s' = cc (rw quiet at e) in rw (← same) (refl, refl, refl)
    | inl beat ↦ elim (Option-cases (signals F s.strat)) [
      | inl broke ↦ cc (rw (beat, broke) at e)
      | inr (three, there) ↦
          let same : record s { running = s.running && not a.over_time } ≡ s' =
            cc (rw (beat, there) at e) in
          rw (← same) (refl, refl, refl)
    ]
  ]

  decision-Same :
      (price : Float) (s s' : Trader Float) (trade : Option (Side × Float))
      → decision F price s ≡ some (s', trade)
      → Same s s'
  unfolding decision
  decision-Same price s s' trade e = elim (Option-cases s.vm) [
    | inl hand ↦ elim (Option-cases (on_price F price s.strat)) [
      | inl broke ↦ cc (rw (hand, broke) at e)
      | inr ((strat, d), there) ↦
          let same : record s { strat = strat } ≡ s' = cc (rw (hand, there) at e) in
          rw (← same) (refl, refl, refl)
    ]
    | inr (vm, compiled) ↦ elim (Option-cases (run F price vm)) [
      | inl broke ↦ cc (rw (compiled, broke) at e)
      | inr ((vm', d), there) ↦
          let same : record s { vm = some vm' } ≡ s' = cc (rw (compiled, there) at e) in
          rw (← same) (refl, refl, refl)
    ]
  ]

  pub on_tick-Did :
      (c : Settings) (m d : ℕ) (a : Arrival) (s : Trader Float)
      (r : Trader Float × Option OrderCommand)
      → IsSane c m d
      → IsWithin m s.position
      → on_tick F c a s ≡ some r
      → Did c m d s r
  unfolding on_tick
  on_tick-Did c m d a s r k w e =
      let counted = record s { ticks_seen = add_u64 s.ticks_seen 1 } in
      let price = F.div (F.of_int a.tick.price) (F.num 100_000_000) in
      elim (Option-cases (heartbeat F a counted)) [
        | inl broke ↦ cc (rw broke at e)
        | inr (s1, beat) ↦ elim (Option-cases (decision F price s1)) [
          | inl broke ↦ cc (rw (beat, broke) at e)
          | inr ((s2, trade), decided) ↦
              let same : trade_on c a trade s2 ≡ r = cc (rw (beat, decided) at e) in
              let (p1, i1, n1) = heartbeat-Same a counted s1 beat in
              let (p2, i2, n2) = decision-Same price s1 s2 trade decided in
              subst (Did c m d s) same (
                Did-Same c m d s s2 _ (p2 ∙ p1, i2 ∙ i1, n2 ∙ n1)
                  (trade_on-Did c m d a trade s2 k (rw (p2 ∙ p1) w)))
        ]
      ]

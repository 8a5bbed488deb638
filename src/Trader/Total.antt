-- ===== src/Trader/Total.antt =====
-- src/bin/strategy.rs: why no tick makes the process panic.
use rust_hotpath_ipc.Prelude.{
  ◌%◌, ◌≡◌, refl, Bool-cases, true, Option, none, some, List, [], ◌∷◌, ◌==◌, ◌&&◌, not, inl, inr,
  length,
}
use rust_hotpath_ipc.Prelude.Int.{◌+ℤ◌}
use rust_hotpath_ipc.Prelude.Words.{add_u64, wrap_i64}
use rust_hotpath_ipc.Float.{F64}
use rust_hotpath_ipc.Messages.{OrderCommand}
use rust_hotpath_ipc.Vm.{Vm}
use rust_hotpath_ipc.Vm.Total.{AllRings, SlotsBelow, run-total}
use rust_hotpath_ipc.Strategy.{Side}
use rust_hotpath_ipc.Strategy.Total.{IsBounded, signals-some, on_price-total}
use rust_hotpath_ipc.Trader.{
  Settings, Arrival, Trader, also, breaches, delta_of, to_side, side_of_decision, trade_on,
  heartbeat, decision, on_tick, trading,
}

-- The compiled strategy, if there is one, has valid rings and the slots that it names.
abbrev pub MachineIsReady : {A : Type 0} → Option (Vm A) → Type 0
MachineIsReady none = Unit
MachineIsReady (some vm) = AllRings vm.state × SlotsBelow (length vm.state) vm.prog

pub record IsReady {A : Type 0} (s : Trader A) : Type 0 where
  pub strat : IsBounded s.strat
  pub machine : MachineIsReady s.vm

module _ (F : F64) where
  open F use {Float, num, div}

  trade_on-IsReady :
      (c : Settings) (a : Arrival) (trade : Option (Side × Float)) (s : Trader Float)
      → IsReady s
      → IsReady (trade_on c a trade s).0
  unfolding trade_on
  trade_on-IsReady c a none s r = r
  trade_on-IsReady c a (some (side, score)) s r =
      elim (Bool-cases (breaches c (wrap_i64 (s.position +ℤ delta_of c side)))) [
        | inl over ↦ rw over (record { strat = r.strat; machine = r.machine })
        | inr within ↦ rw within (record { strat = r.strat; machine = r.machine })
      ]

  heartbeat-total :
      (a : Arrival) (s : Trader Float)
      → IsReady s
      → (s' : Trader Float) × (heartbeat F a s ≡ some s') × IsReady s'
  unfolding heartbeat
  heartbeat-total a s r = elim (Bool-cases (s.ticks_seen % 50_000 == 0)) [
    | inl beat ↦
        let (three, there) = signals-some F s.strat r.strat in
        (
          record s { running = s.running && not a.over_time },
          rw (beat, there) refl,
          record { strat = r.strat; machine = r.machine },
        )
    | inr quiet ↦ (s, rw quiet refl, r)
  ]

  decision_with-total :
      (price : Float) (s : Trader Float) (vm : Option (Vm Float))
      → IsBounded s.strat
      → MachineIsReady vm
      → (s' : Trader Float) × (trade : Option (Side × Float)) × (decision F price
            (record s { vm = vm })
          ≡ some (s', trade))
        × IsReady s'
  unfolding decision
  decision_with-total price s none b _ =
      let (strat, d, there, b') = on_price-total F price s.strat b in
      (
        record s { strat = strat; vm = none },
        side_of_decision d,
        rw there refl,
        record { strat = b'; machine = tt },
      )
  decision_with-total price s (some vm) b (rings, slots) =
      let (vm', d, there, same, rings', size) = run-total F price vm rings slots in
      (
        record s { vm = some vm' },
        to_side d,
        rw there refl,
        record { strat = b; machine = (rings', rw (size, same) slots) },
      )

  on_tick-total :
      (c : Settings) (a : Arrival) (s : Trader Float)
      → IsReady s
      → (s' : Trader Float) × (sent : Option OrderCommand) × (on_tick F c a s ≡ some (s', sent))
        × IsReady s'
  unfolding on_tick
  on_tick-total c a s r =
      let (s1, beat, r1) =
        heartbeat-total a (record s { ticks_seen = add_u64 s.ticks_seen 1 })
          (record { strat = r.strat; machine = r.machine }) in
      let price = div (F.of_int a.tick.price) (num 100_000_000) in
      let (s2, trade, decided, r2) = decision_with-total price s1 s1.vm r1.strat r1.machine in
      (
        (trade_on c a trade s2).0,
        (trade_on c a trade s2).1,
        rw (beat, decided) refl,
        trade_on-IsReady c a trade s2 r2,
      )

  trading_more :
      (c : Settings) (a : Arrival) (as' : List Arrival) (s s' end : Trader Float)
      (sent : Option OrderCommand) (cmds : List OrderCommand)
      → s.running ≡ true
      → on_tick F c a s ≡ some (s', sent)
      → trading F c as' s' ≡ some (end, cmds)
      → trading F c (a ∷ as') s ≡ some (end, also sent cmds)
  unfolding trading
  trading_more c a as' s s' end sent cmds runs ticked rest = rw (ticked, rest, runs) refl

  pub trading-total :
      (c : Settings) (arrivals : List Arrival) (s : Trader Float)
      → IsReady s
      → (end : Trader Float) × (cmds : List OrderCommand) × (trading F c arrivals s
          ≡ some (end, cmds))
  unfolding trading
  trading-total c [] s r = (s, [], refl)
  trading-total c (a ∷ as') s r = elim (Bool-cases s.running) [
    | inr halted ↦ (s, [], rw halted refl)
    | inl runs ↦
        let (s', sent, ticked, r') = on_tick-total c a s r in
        let (end, cmds, rest) = trading-total c as' s' r' in
        (end, also sent cmds, trading_more c a as' s s' end sent cmds runs ticked rest)
  ]

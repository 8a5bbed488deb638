-- ===== src/Trader/Windows.antt =====
-- src/bin/strategy.rs: the latency windows of the loop. They take clock readings along with the
-- ticks, and do not touch the rest of the state.
use rust_hotpath_ipc.Prelude.{
  ◌>>=◌, ℕ, ◌-◌, ◌≡◌, refl, ap, ◌∙◌, Bool-cases, inl, inr, Option-cases, Option, none, some, List,
  [], ◌∷◌, if◌then◌else◌,
}
use rust_hotpath_ipc.Float.{F64}
use rust_hotpath_ipc.Messages.{OrderCommand}
use rust_hotpath_ipc.Vm.{Vm}
use rust_hotpath_ipc.Latency.{LatencyWindow, push}
use rust_hotpath_ipc.Execution.{fast_cycles_to_ns}
use rust_hotpath_ipc.Trader.{Settings, Arrival, Trader, also, on_tick, trading}

pub record Windows : Type 0 where
  pub decision : LatencyWindow
  pub tick_to_order : LatencyWindow
  pub vm : LatencyWindow

-- The readings round the decision, and those of the monotonic clock in the two pushes.
pub record Reads : Type 0 where
  pub d0 : ℕ
  pub d1 : ℕ
  pub now : ℕ
  pub later : ℕ
  pub order_now : ℕ
  pub order_later : ℕ

module _ (F : F64) (cycles_per_ns : F.Float) (rdtsc_floor : ℕ) where
  open F use {Float}

  -- The decision goes into the window of the machine, if there is one; both differences saturate.
  unfoldable pub time_decision : Reads → Option (Vm Float) → Windows → Windows
  unfolding fast_cycles_to_ns push
  time_decision r vm w =
      let ns = fast_cycles_to_ns F cycles_per_ns (r.d1 - r.d0 - rdtsc_floor) in
      elim vm [
        | none ↦ record w { decision = push ns r.now r.later w.decision }
        | some _ ↦ record w { vm = push ns r.now r.later w.vm }
      ]

  unfoldable pub time_order : Reads → Arrival → Option OrderCommand → Windows → Windows
  unfolding fast_cycles_to_ns push
  time_order r a none w = w
  time_order r a (some _) w = record w {
    tick_to_order =
        push (fast_cycles_to_ns F cycles_per_ns (a.t1 - a.tick.timestamp_ns)) r.order_now
          r.order_later w.tick_to_order;
  }

  unfoldable pub timed_trading :
      Settings
      → List (Arrival × Reads)
      → Trader Float
      → Windows
      → Option (Trader Float × Windows × List OrderCommand)
  unfolding time_decision time_order
  timed_trading c [] s w = some (s, w, [])
  timed_trading c ((a, r) ∷ more) s w =
      if s.running
      then (on_tick F c a s >>= λ (s', sent).
          timed_trading c more s' (time_order r a sent (time_decision r s.vm w))
          >>= λ (end, w', cmds). some (end, w', also sent cmds))
      else some (s, w, [])

  abbrev arrivals : List (Arrival × Reads) → List Arrival
  arrivals [] = []
  arrivals ((a, _) ∷ more) = a ∷ arrivals more

  abbrev drop_windows :
      Option (Trader Float × Windows × List OrderCommand)
      → Option (Trader Float × List OrderCommand)
  drop_windows timed = timed >>= λ (s, _, cmds). some (s, cmds)

  abbrev send_first :
      Option OrderCommand
      → Option (Trader Float × List OrderCommand)
      → Option (Trader Float × List OrderCommand)
  send_first sent run = run >>= λ (end, cmds). some (end, also sent cmds)

  drop_windows-also :
      (sent : Option OrderCommand) (run : Option (Trader Float × Windows × List OrderCommand))
      → drop_windows (run >>= λ (end, w, cmds). some (end, w, also sent cmds))
        ≡ send_first sent (drop_windows run)
  drop_windows-also sent none = refl
  drop_windows-also sent (some _) = refl

  -- The windows change nothing of a run but themselves.
  pub timed_trading-trading :
      (c : Settings) (inputs : List (Arrival × Reads)) (s : Trader Float) (w : Windows)
      → drop_windows (timed_trading c inputs s w) ≡ trading F c (arrivals inputs) s
  unfolding timed_trading trading
  timed_trading-trading c [] s w = refl
  timed_trading-trading c ((a, r) ∷ more) s w = elim (Bool-cases s.running) [
    | inr halted ↦ rw halted refl
    | inl runs ↦ elim (Option-cases (on_tick F c a s)) [
      | inl panics ↦ rw (panics, runs) refl
      | inr ((s', sent), ticked) ↦
          let w' = time_order r a sent (time_decision r s.vm w) in
          rw (ticked, runs)
            (drop_windows-also sent (timed_trading c more s' w')
              ∙ ap (send_first sent) (timed_trading-trading c more s' w'))
    ]
  ]

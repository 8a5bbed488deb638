-- ===== src/Execution/Loop.antt =====
-- src/bin/execution.rs: the loop of `main`, turn after turn, and what it prints of the account.
use rust_hotpath_ipc.Prelude.{ℕ, Option, none, some, List, [], ◌∷◌, if◌then◌else◌}
use rust_hotpath_ipc.Prelude.Text.{codes}
use rust_hotpath_ipc.Float.{F64}
use rust_hotpath_ipc.Messages.{OrderCommand, ExecutionReport}
use rust_hotpath_ipc.Runtime.{Env, env_or, parse_u64}
use rust_hotpath_ipc.Execution.{Execution, see_orders, on_report}

-- What waits when a turn begins: the orders, and the next report, if there is one; and the clock
-- readings of the latency window.
pub record Waiting : Type 0 where
  pub orders : List OrderCommand
  pub report : Option ExecutionReport
  pub now : ℕ
  pub later : ℕ

unfoldable pub max_fills : Env → ℕ
unfolding env_or parse_u64
max_fills env = env_or parse_u64 env (codes "MAX_FILLS") 0

module _ (F : F64) (cycles_per_ns : F.Float) where
  open F use {Float, add, mul}

  -- A turn: the orders that wait come first, so that a fill finds its context.
  unfoldable pub turn : ℕ → Waiting → Execution Float → Execution Float
  unfolding see_orders on_report
  turn limit w s = elim w.report [
    | none ↦ see_orders w.orders s
    | some r ↦ on_report F cycles_per_ns limit w.now w.later r (see_orders w.orders s)
  ]

  -- `while running.load(..)`.
  unfoldable pub executing : ℕ → List Waiting → Execution Float → Execution Float
  unfolding turn
  executing limit [] s = s
  executing limit (w ∷ ws) s =
      let rest = executing limit ws (turn limit w s) in if s.running then rest else s

  -- Cash and the value of the open position, at a price.
  unfoldable pub pnl : Float → Execution Float → Float
  pnl price s = add s.cash (mul s.position price)

  unfoldable pub final_equity : Execution Float → Float
  unfolding pnl
  final_equity s = pnl s.last_price s

-- ===== src/Tests/MachineRuns.antt =====
-- A strategy graph, compiled and run, and the hand-written strategy.
use rust_hotpath_ipc.Prelude.{◌≡◌, refl, none, some, List, [], ◌∷◌, arith, length}
use rust_hotpath_ipc.Prelude.Int.{ℤ, pos}
use rust_hotpath_ipc.Prelude.Text.{Text, codes}
use rust_hotpath_ipc.Vm.{Op, Vm, IndState, VmDecision, new_vm, exec, run}
use rust_hotpath_ipc.Vm.Momentum.{ring_readings, deque_readings, ring_readings-deque_readings}
use rust_hotpath_ipc.Vm.Depth.{fits, free_exec, exec-free_exec}
use rust_hotpath_ipc.Compiler.Shape.{scan, depth_step}
use rust_hotpath_ipc.Vm.Total.{AllRings, run-total}
use rust_hotpath_ipc.Compiler.{GNode, GraphSpec, ok, err, CompileError, compile}
use rust_hotpath_ipc.Compiler.Ends.{Ends}
use rust_hotpath_ipc.Compiler.Shaped.{IsShaped, compile-Ends}
use rust_hotpath_ipc.Compiler.Panics.{compile-panics}
use rust_hotpath_ipc.Strategy.{Decision, Strategy, StrategyConfig, new_strategy, on_price}
use rust_hotpath_ipc.Strategy.Total.{IsBounded, on_price-total, new_strategy-IsBounded}
use rust_hotpath_ipc.Strategy.Cooldown.{decisions, Spaced, new_strategy-Spaced}
use rust_hotpath_ipc.Tests.Data.{whole}

abbrev node : Text → Text → GNode ℤ
node id ntype = record { id = id; ntype = ntype; nums = []; strs = [] }

-- A price above 0 buys.
abbrev graph : GraphSpec ℤ
graph = record {
  nodes =
      node (codes "p") (codes "data_source")
      ∷ node (codes "c") (codes "condition")
      ∷ node (codes "b") (codes "buy_signal")
      ∷ [];
  connections = (codes "p", codes "c") ∷ (codes "c", codes "b") ∷ [];
}

abbrev loop : GraphSpec ℤ
loop = record {
  nodes = node (codes "a") (codes "and_gate") ∷ node (codes "b") (codes "buy_signal") ∷ [];
  connections = (codes "a", codes "a") ∷ (codes "a", codes "b") ∷ [];
}

abbrev program : List (Op ℤ)
program = Op.push_price ∷ Op.push_const (pos 0) ∷ Op.gt ∷ Op.buy ∷ []

loop_fails : compile whole loop ≡ err CompileError.cycle
unfolding compile
loop_fails = refl

abbrev machine : Vm ℤ
machine = record { prog = program; state = []; stack = [] }

compile-Ends_example : Ends (IsShaped whole) (compile whole graph)
compile-Ends_example = compile-Ends whole graph

run-total_example :
    (vm' : Vm ℤ) × (d : VmDecision ℤ) × (run whole (pos 7) machine ≡ some (vm', d))
    × (vm'.prog ≡ program)
    × AllRings vm'.state
    × (length vm'.state ≡ 0)
run-total_example = run-total whole (pos 7) machine tt tt

-- The deviation from the mean of no prices.
abbrev no_window : GraphSpec ℤ
no_window = record {
  nodes =
      node (codes "p") (codes "data_source")
      ∷ record (node (codes "r") (codes "reversion")) { nums = (codes "window", pos 0) ∷ [] }
      ∷ node (codes "c") (codes "condition")
      ∷ node (codes "b") (codes "buy_signal")
      ∷ [];
  connections = (codes "p", codes "r") ∷ (codes "r", codes "c") ∷ (codes "c", codes "b") ∷ [];
}

abbrev no_window_program : List (Op ℤ)
no_window_program = Op.reversion 0 0 ∷ Op.push_const (pos 0) ∷ Op.gt ∷ Op.buy ∷ []

no_window_compiles : compile whole no_window ≡ ok no_window_program
unfolding compile
no_window_compiles = refl

compile-panics_example : run whole (pos 7) (new_vm whole no_window_program) ≡ none
compile-panics_example =
    compile-panics whole (pos 7) no_window no_window_program no_window_compiles
      (λ fine. absurd (omega (arith, fine.0)))

-- A strategy that buys whenever the momentum is not negative, with a cooldown of 2.
abbrev config : StrategyConfig ℤ
config = record {
  fast_ema_period = 1;
  slow_ema_period = 3;
  momentum_lookback = 1;
  reversion_window = 2;
  weight_trend = pos 0;
  weight_momentum = pos 1;
  weight_reversion = pos 0;
  threshold = pos 0;
  momentum_bps_full_scale = pos 25;
  cooldown_ticks = 2;
}

on_price-total_example :
    (s' : Strategy ℤ) × (d : Decision ℤ) × (on_price whole (pos 100) (new_strategy whole config)
      ≡ some (s', d))
    × IsBounded s'
on_price-total_example =
    on_price-total whole (pos 100) (new_strategy whole config)
      (new_strategy-IsBounded whole config (omega arith))

new_strategy-Spaced_example :
    (ds : List (Decision ℤ)) × (decisions whole
        (pos 100 ∷ pos 101 ∷ pos 102 ∷ [])
        (new_strategy whole config)
      ≡ some ds)
    × (length ds ≡ 3)
    × Spaced 2 none ds
new_strategy-Spaced_example =
    new_strategy-Spaced whole config (pos 100 ∷ pos 101 ∷ pos 102 ∷ []) (omega arith) (omega arith)

ring_readings-deque_readings_example :
    ring_readings whole
      (IndState.momentum (pos 0 ∷ pos 0 ∷ []) 0 0 1)
      (pos 100 ∷ pos 101 ∷ pos 103 ∷ [])
    ≡ deque_readings whole (new_strategy whole config) (pos 100 ∷ pos 101 ∷ pos 103 ∷ [])
ring_readings-deque_readings_example =
    ring_readings-deque_readings whole config (pos 100 ∷ pos 101 ∷ pos 103 ∷ []) refl

exec-free_exec_example :
    exec whole (pos 7) program (record { state = []; stack = []; decision = VmDecision.hold })
    ≡ free_exec whole
        (pos 7)
        program
        (record { state = []; stack = []; decision = VmDecision.hold })
unfolding scan fits depth_step
exec-free_exec_example =
    exec-free_exec whole (pos 7) program
      (record { state = []; stack = []; decision = VmDecision.hold }) 0 refl

-- ===== src/Trader/Starts.antt =====
-- src/bin/strategy.rs: the process as a whole, from its environment on.
use rust_hotpath_ipc.Prelude.{◌≡◌, Option, none, some, List, [], ◌∷◌}
use rust_hotpath_ipc.Prelude.Text.{Text}
use rust_hotpath_ipc.Float.{F64}
use rust_hotpath_ipc.Runtime.{Env}
use rust_hotpath_ipc.Json.{Parsed}
use rust_hotpath_ipc.Graph.{parse}
use rust_hotpath_ipc.Compiler.{GraphSpec, Lowered, compile}
use rust_hotpath_ipc.Compiler.Ends.{Ends}
use rust_hotpath_ipc.Compiler.Runs.{NoEmptyWindow}
use rust_hotpath_ipc.Vm.{Op, Vm, new_vm}
use rust_hotpath_ipc.Trader.{Trader}
use rust_hotpath_ipc.Trader.Total.{MachineIsReady}

module _ (F : F64) (parse_f64 : Text → Option F.Float) (env : Env) where
  open F use {Float}

  -- A machine that runs has no empty window.
  abbrev Windowed : Option (Option (Vm Float)) → Type 0
  Windowed loaded = (vm : Vm Float) → loaded ≡ some (some vm) → NoEmptyWindow vm.prog

  -- Which strategy runs on a text of the graph, if there is one: a machine (`some`) on a program
  -- that is not empty, and else the hand-written one (`none`).
  pub data Chosen : Option Text → Option (Vm Float) → Type 0 where
    no_text : Chosen none none
    unread : {json : Text} {e : _} → parse parse_f64 json ≡ Parsed.err e → Chosen (some json) none
    refused :
        {json : Text} {spec : GraphSpec Float} {rest : Text} {e : _}
        → parse parse_f64 json ≡ Parsed.ok spec rest
        → compile F spec ≡ Lowered.err e
        → Chosen (some json) none
    idle :
        {json : Text} {spec : GraphSpec Float} {rest : Text}
        → parse parse_f64 json ≡ Parsed.ok spec rest
        → compile F spec ≡ Lowered.ok []
        → Chosen (some json) none
    compiled :
        {json : Text} {spec : GraphSpec Float} {rest : Text} {op : Op Float} {ops : List (Op Float)}
        → parse parse_f64 json ≡ Parsed.ok spec rest
        → compile F spec ≡ Lowered.ok (op ∷ ops)
        → Chosen (some json) (some (new_vm F (op ∷ ops)))

  -- The setup does not panic, and what it gives is the strategy to run, and ready.
  abbrev Loads : Option Text → Option (Option (Vm Float)) → Type 0
  Loads text loaded =
      (vm : Option (Vm Float)) × (loaded ≡ some vm) × Chosen text vm × MachineIsReady vm

-- ===== src/Disasm.antt =====
-- src/bin/disasm.rs: the text of a graph is read, compiled and listed. `show` writes a float.
pub mod Printed
use rust_hotpath_ipc.Prelude.{Option, List, length, ◌++◌}
use rust_hotpath_ipc.Prelude.Text.{Text, codes}
use rust_hotpath_ipc.Float.{F64}
use rust_hotpath_ipc.Json.{ParseError, Parsed, ok, err, stuck}
use rust_hotpath_ipc.Graph.{parse}
use rust_hotpath_ipc.Vm.{Op, Vm, new_vm}
use rust_hotpath_ipc.Vm.Listing.{show_nat, disassemble}
use rust_hotpath_ipc.Compiler.{GraphSpec, CompileError, Lowered, compile}

-- What `main` prints, the panic of `expect("parse")`, or the error of the compiler; `crashed` is
-- any other panic, and `hung` no end.
pub data Outcome : Type 0 where
  printed : Text → Outcome
  unread : ParseError → Outcome
  refused : CompileError → Outcome
  crashed : Outcome
  hung : Outcome

module _ (F : F64) (show : F.Float → Text) where
  open F use {Float}

  -- What is printed of a machine.
  unfoldable pub report : Vm Float → Text
  report vm = show_nat (length vm.prog) ++ (codes " ops:\n" ++ disassemble show vm.prog)

  unfoldable pub outcome : Lowered (List (Op Float)) → Outcome
  unfolding report new_vm
  outcome (Lowered.ok prog) = printed (report (new_vm F prog))
  outcome (Lowered.err e) = refused e
  outcome Lowered.panicked = crashed
  outcome Lowered.stuck = hung

  unfoldable pub list_graph : Parsed (GraphSpec Float) → Outcome
  unfolding outcome
  list_graph (Parsed.ok spec _) = outcome (compile F spec)
  list_graph (Parsed.err e) = unread e
  list_graph Parsed.stuck = hung

  -- `main`, from the text of the file on.
  unfoldable pub disasm : (Text → Option Float) → Text → Outcome
  unfolding list_graph
  disasm parse_f64 json = list_graph (parse parse_f64 json)

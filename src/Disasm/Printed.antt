-- ===== src/Disasm/Printed.antt =====
-- src/bin/disasm.rs: how the command ends, and what it has printed.
use rust_hotpath_ipc.Prelude.{suc, ◌≡◌, List, length}
use rust_hotpath_ipc.Prelude.Text.{Text}
use rust_hotpath_ipc.Float.{F64}
use rust_hotpath_ipc.Json.{Parsed}
use rust_hotpath_ipc.Vm.{Op}
use rust_hotpath_ipc.Vm.Listing.Lines.{lines}
use rust_hotpath_ipc.Compiler.{GraphSpec, Lowered, compile}
use rust_hotpath_ipc.Compiler.Ends.{Ends}
use rust_hotpath_ipc.Disasm.{Outcome}

module _ (F : F64) (show : F.Float → Text) where
  open F use {Float}

  -- The error of the reader, the error of the compiler, or a text with a line for the count and one
  -- for each operation of the compiled program.
  pub data Settled (p : Parsed (GraphSpec Float)) : Outcome → Type 0 where
    not_read : {e : _} → p ≡ Parsed.err e → Settled p (Outcome.unread e)
    not_compiled :
        {spec : GraphSpec Float} {rest : Text} {e : _}
        → p ≡ Parsed.ok spec rest
        → compile F spec ≡ Lowered.err e
        → Settled p (Outcome.refused e)
    listed :
        {spec : GraphSpec Float} {rest : Text} {prog : List (Op Float)} {text : Text}
        → p ≡ Parsed.ok spec rest
        → compile F spec ≡ Lowered.ok prog
        → lines text ≡ suc (length prog)
        → Settled p (Outcome.printed text)

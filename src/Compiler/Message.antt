-- ===== src/Compiler/Message.antt =====
-- src/compiler.rs: how an error of the compiler is written.
use rust_hotpath_ipc.Prelude.{◌++◌}
use rust_hotpath_ipc.Prelude.Text.{Text, codes}
use rust_hotpath_ipc.Compiler.{CompileError}
use rust_hotpath_ipc.Vm.Listing.{show_nat}

unfoldable pub message : CompileError → Text
unfolding show_nat
message CompileError.cycle = codes "strategy graph has a cycle"
message (CompileError.unknown_node id) = codes "connection references unknown node " ++ id
message (CompileError.unknown_type t) = codes "unknown node type " ++ t
message (CompileError.too_many_inputs node ntype got) =
    ntype
    ++ (codes " node '"
        ++ (node
            ++ (codes "' has "
                ++ (show_nat got ++ codes " inputs but takes one; combine inputs with a gate"))))

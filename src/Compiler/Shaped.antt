-- ===== src/Compiler/Shaped.antt =====
-- What `compile` of src/compiler.rs returns: an error, or code of the shape that the machine of
-- src/bytecode.rs expects.
use rust_hotpath_ipc.Prelude.{
  ℕ, suc, ◌<◌, ◌≡◌, refl, ◌∙◌, Bool, true, false, ◌||◌, Option, none, some, List, [], ◌∷◌, arith,
  if◌then◌else◌, Bool-cases, inl, inr, length, is_some,
}
use rust_hotpath_ipc.Prelude.Text.{Text, text_eq, text_eq_refl, lookup, codes}
use rust_hotpath_ipc.Float.{F64}
use rust_hotpath_ipc.Vm.{Op}
use rust_hotpath_ipc.Compiler.{
  GNode, GraphSpec, Lowerer, by_id_of, check_connections, emit, emit_node, emit_signals, compile,
}
use rust_hotpath_ipc.Compiler.Shape.{
  scan, depth_step, slot_step, Emits, Emits-then, Emits-none, Emits-op,
}
use rust_hotpath_ipc.Compiler.Ids.{known, known-by_id_of}
use rust_hotpath_ipc.Compiler.Ends.{
  Ends, returns, fails, Ends-bind, Ends-map, emit_unary_input-Emits, emit_node-Emits,
}

-- Every node is found under its id.
abbrev AllKnown : {A : Type 0} → List (Text × GNode A) → List (GNode A) → Type 0
AllKnown m [] = Unit
AllKnown m (n ∷ ns) = (is_some (lookup n.id m) ≡ true) × AllKnown m ns

by_id_of-keeps :
    {A : Type 0} (id : Text) (ns : List (GNode A)) (m : List (Text × GNode A))
    → is_some (lookup id m) ≡ true
    → is_some (lookup id (by_id_of ns m)) ≡ true
unfolding lookup by_id_of
by_id_of-keeps id [] m h = h
by_id_of-keeps id (n ∷ ns) m h = by_id_of-keeps id ns ((n.id, n) ∷ m) (ground (arith, h))

by_id_of-AllKnown :
    {A : Type 0} (ns : List (GNode A)) (m : List (Text × GNode A)) → AllKnown (by_id_of ns m) ns
unfolding by_id_of lookup
by_id_of-AllKnown [] m = tt
by_id_of-AllKnown (n ∷ ns) m = (
  by_id_of-keeps n.id ns ((n.id, n) ∷ m) (rw (text_eq_refl n.id) refl),
  by_id_of-AllKnown ns ((n.id, n) ∷ m),
)

check_connections-Ends :
    {A : Type 0} (by_id : List (Text × GNode A)) (cs : List (Text × Text))
    → Ends (λ _. Unit) (check_connections by_id cs)
unfolding check_connections
check_connections-Ends by_id [] = returns tt
check_connections-Ends by_id ((from, to) ∷ cs) = elim (Bool-cases (is_some (lookup from by_id))) [
  | inr no_from ↦ rw no_from fails
  | inl known_from ↦ elim (Bool-cases (is_some (lookup to by_id))) [
    | inr no_to ↦ rw (known_from, no_to) fails
    | inl also ↦ rw (known_from, also) (check_connections-Ends by_id cs)
  ]
]

module _ (F : F64) where
  open F use {Float}

  terminal-Emits :
      (b : Bool) (lo : Lowerer Float) → Emits 1 0 lo (emit (if b then Op.buy else Op.sell) lo)
  unfolding depth_step slot_step
  terminal-Emits true lo = Emits-op 1 0 Op.buy lo (λ d. refl) (λ n. refl)
  terminal-Emits false lo = Emits-op 1 0 Op.sell lo (λ d. refl) (λ n. refl)

  module _ (by_id : List (Text × GNode Float)) (connections : List (Text × Text)) where
    -- Each signal is lowered from an empty stack.
    emit_signals-Emits :
        (fuel : ℕ) (nodes : List (GNode Float)) (lo : Lowerer Float)
        → length (known by_id) < fuel
        → AllKnown by_id nodes
        → lo.on_stack ≡ []
        → Ends (Emits 0 0 lo) (emit_signals F by_id connections fuel nodes lo)
    unfolding emit_signals
    emit_signals-Emits fuel [] lo enough all e = returns (Emits-none lo)
    emit_signals-Emits fuel (node ∷ nodes) lo enough all e =
        elim (Bool-cases
          (text_eq node.ntype (codes "buy_signal") || text_eq node.ntype (codes "sell_signal"))) [
            | inr other ↦ rw other (emit_signals-Emits fuel nodes lo enough all.1 e)
            | inl signal ↦
                let (n, there) = found (lookup node.id by_id) all.0 in
                rw signal (
                  Ends-bind
                    (emit_unary_input-Emits F by_id connections (emit_node F by_id connections fuel)
                      [] good node.id n there lo e)
                    λ lo' f.
                      let t = terminal-Emits (text_eq node.ntype (codes "buy_signal")) lo' in
                      Ends-map
                        (emit_signals-Emits fuel nodes _ enough all.1 (t.on_stack ∙ f.on_stack ∙ e))
                        λ lo'' g. Emits-then f (Emits-then t g))
          ]
      where
        found : (o : Option (GNode Float)) → is_some o ≡ true → (n : GNode Float) × (o ≡ some n)
        found none h = cc
        found (some n) h = (n, refl)

        good :
            (id : Text) (lo : Lowerer Float)
            → lo.on_stack ≡ []
            → Ends (Emits 0 1 lo) (emit_node F by_id connections fuel id lo)
        good id lo h =
            emit_node-Emits F by_id connections fuel id lo (rw h tt) (rw h tt) (omega arith)

  -- The code needs no value that it has not pushed, leaves none, and names its slots 0, 1, 2 and so on.
  abbrev pub IsShaped : List (Op Float) → Type 0
  IsShaped prog = (scan depth_step 0 prog ≡ some 0) × (n : ℕ) × (scan slot_step 0 prog ≡ some n)

  -- The compiler ends on every graph, with no panic and within its fuel: with an error, or with code
  -- that never needs a value it has not pushed, that leaves none, and that names the state slots
  -- 0, 1, 2 and so on.
  pub compile-Ends : (spec : GraphSpec Float) → Ends IsShaped (compile F spec)
  unfolding compile known
  compile-Ends spec =
      let by_id = by_id_of spec.nodes [] in
      Ends-bind (check_connections-Ends by_id spec.connections) λ _ _.
        Ends-bind
          (emit_signals-Emits by_id spec.connections (suc (length spec.nodes)) spec.nodes
            (record { prog = []; next_slot = 0; on_stack = [] })
            (omega (arith, known-by_id_of spec.nodes [])) (by_id_of-AllKnown spec.nodes []) refl)
          λ lo e. returns (rw (e.prog) (e.depth 0, lo.next_slot, e.slots))

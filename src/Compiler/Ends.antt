-- ===== src/Compiler/Ends.antt =====
-- How the recursion of src/compiler.rs ends, and what the code of a node leaves on the stack.
use rust_hotpath_ipc.Prelude.{
  ℕ, zero, suc, ◌+◌, ◌<◌, ◌≡◌, refl, ap, ◌∙◌, false, Option, none, some, List, [], ◌∷◌, arith, ◌==◌,
  if◌then◌else◌, Bool-cases, Option-cases, inl, inr, length,
}
use rust_hotpath_ipc.Prelude.Text.{Text, lookup, codes}
use rust_hotpath_ipc.Float.{F64}
use rust_hotpath_ipc.Vm.{Op}
use rust_hotpath_ipc.Compiler.{
  GNode, CompileError, Lowered, ok, err, ◌>>=◌, Lowerer, Kind, kind_of, contains, emit, or_else,
  comparison, emit_node_body, sources, emit_sole, emit_unary_input, emit_rest, emit_gate, property,
  condition_op, threshold_op, emit_kind, pop_stack, emit_node,
}
use rust_hotpath_ipc.Compiler.Shape.{
  depth_step, slot_step, Emits, Emits-then, Emits-none, Emits-op, Emits-slot,
}
use rust_hotpath_ipc.Compiler.Ids.{Distinct, Among, length-Distinct, known, contains-known}

-- The lowering neither panics nor runs out of fuel, and `P` holds of what it returns.
pub data Ends {ℓ} {B : Type ℓ} (P : B → Type 0) : Lowered B → Type ℓ where
  returns : {b : B} → P b → Ends P (ok b)
  fails : {e : CompileError} → Ends P (err e)

pub Ends-bind {ℓ κ} :
    {B : Type ℓ} {C : Type κ} {P : B → Type 0} {Q : C → Type 0} {m : Lowered B} {f : B → Lowered C}
    → Ends P m
    → ((b : B) → P b → Ends Q (f b))
    → Ends Q (m >>= f)
Ends-bind (returns h) k = k _ h
Ends-bind fails k = fails

pub Ends-map {ℓ} :
    {B : Type ℓ} {P Q : B → Type 0} {m : Lowered B} → Ends P m → ((b : B) → P b → Q b) → Ends Q m
Ends-map (returns h) k = returns (k _ h)
Ends-map fails k = fails

-- What is emitted over an operand leaves it alone.
Emits-lift : {A : Type 0} {lo lo' : Lowerer A} → Emits 0 1 lo lo' → Emits 1 2 lo lo'
Emits-lift e = record {
  code = e.code;
  prog = e.prog;
  depth = λ d. e.depth (suc d);
  slots = e.slots;
  on_stack = e.on_stack;
}

comparison_depth :
    (A : Type 0) (t : Text) (d : ℕ) → depth_step {A = A} (comparison t) (suc (suc d)) ≡ some (suc d)
unfolding depth_step comparison
comparison_depth A t d = ground arith

comparison_slot : (A : Type 0) (t : Text) (n : ℕ) → slot_step {A = A} (comparison t) n ≡ some n
unfolding slot_step comparison
comparison_slot A t n = ground arith

module _ {A : Type 0} where
  -- A node is emitted under its own id, which is popped again.
  Emits-pop :
      (id : Text) (lo lo' : Lowerer A)
      → Emits 0 1 (record lo { on_stack = id ∷ lo.on_stack }) lo'
      → Emits 0 1 lo (record lo' { on_stack = pop_stack lo'.on_stack })
  Emits-pop id lo lo' e = record {
    code = e.code;
    prog = e.prog;
    depth = e.depth;
    slots = e.slots;
    on_stack = ap pop_stack e.on_stack;
  }

next_slot_lem : (n : ℕ) → ◌≡◌ {A = Option ℕ} (if n == n then some (n + 1) else none) (some (n + 1))
next_slot_lem n = ground arith

module _ (F : F64) (node : GNode F.Float) where
  threshold_op-Emits : (lo : Lowerer F.Float) → Emits 1 2 lo (emit (threshold_op F node) lo)
  unfolding threshold_op depth_step slot_step
  threshold_op-Emits lo = Emits-op 1 2 (threshold_op F node) lo (λ d. refl) (λ n. refl)

  condition_op-Emits : (lo : Lowerer F.Float) → Emits 2 1 lo (emit (condition_op F node) lo)
  unfolding condition_op
  condition_op-Emits lo =
      let t = or_else (lookup (codes "op") node.strs) (codes "greater_than") in
      Emits-op 2 1 (condition_op F node) lo (comparison_depth F.Float t) (comparison_slot F.Float t)

module _ (F : F64) (by_id : List (Text × GNode F.Float)) (connections : List (Text × Text)) where
  open F use {Float, num}

  -- The recursive calls, each made under the stack of the node under way.
  abbrev Good : (Text → Lowerer Float → Lowered (Lowerer Float)) → List Text → Type 0
  Good rec ids =
      (id : Text) (lo : Lowerer Float) → lo.on_stack ≡ ids → Ends (Emits 0 1 lo) (rec id lo)

  module _ (rec : Text → Lowerer Float → Lowered (Lowerer Float)) (ids : List Text)
      (good : Good rec ids) where
    module _ (id : Text) (node : GNode Float) (there : lookup id by_id ≡ some node) where
      emit_sole-Emits :
          (srcs : List Text) (lo : Lowerer Float)
          → lo.on_stack ≡ ids
          → Ends (Emits 0 1 lo) (emit_sole F by_id connections rec id srcs lo)
      unfolding emit_sole depth_step slot_step
      emit_sole-Emits [] lo e =
          returns (Emits-op 0 1 (Op.push_const (num 0)) lo (λ d. refl) (λ n. refl))
      emit_sole-Emits (src ∷ []) lo e = good src lo e
      emit_sole-Emits (src ∷ next ∷ more) lo e = rw (there, emit_sole) fails

      pub emit_unary_input-Emits :
          (lo : Lowerer Float)
          → lo.on_stack ≡ ids
          → Ends (Emits 0 1 lo) (emit_unary_input F by_id connections rec id lo)
      unfolding emit_unary_input
      emit_unary_input-Emits lo e = emit_sole-Emits (sources id connections) lo e

    emit_rest-Emits :
        (fold : Op Float) (srcs : List Text) (lo : Lowerer Float)
        → ((d : ℕ) → depth_step fold (suc (suc d)) ≡ some (suc d))
        → ((n : ℕ) → slot_step fold n ≡ some n)
        → lo.on_stack ≡ ids
        → Ends (Emits 1 1 lo) (emit_rest F by_id connections rec fold srcs lo)
    unfolding emit_rest
    emit_rest-Emits fold [] lo h k e = returns (Emits-none lo)
    emit_rest-Emits fold (src ∷ srcs) lo h k e = Ends-bind (good src lo e) λ lo' f.
        Ends-map (emit_rest-Emits fold srcs (emit fold lo') h k (f.on_stack ∙ e))
          λ lo'' g. Emits-then (Emits-lift f) (Emits-then (Emits-op 2 1 fold lo' h k) g)

    emit_gate-Emits :
        (fold : Op Float) (srcs : List Text) (lo : Lowerer Float)
        → ((d : ℕ) → depth_step fold (suc (suc d)) ≡ some (suc d))
        → ((n : ℕ) → slot_step fold n ≡ some n)
        → lo.on_stack ≡ ids
        → Ends (Emits 0 1 lo) (emit_gate F by_id connections rec fold srcs lo)
    unfolding emit_gate depth_step slot_step
    emit_gate-Emits fold [] lo h k e =
        returns (Emits-op 0 1 (Op.push_const (num 0)) lo (λ d. refl) (λ n. refl))
    emit_gate-Emits fold (src ∷ srcs) lo h k e = Ends-bind (good src lo e) λ lo' f.
        Ends-map (emit_rest-Emits fold srcs lo' h k (f.on_stack ∙ e)) λ lo'' g. Emits-then f g

    emit_kind-Emits :
        (id : Text) (node : GNode Float) (lo : Lowerer Float)
        → lookup id by_id ≡ some node
        → lo.on_stack ≡ ids
        → (k : Kind) → Ends (Emits 0 1 lo) (emit_kind F by_id connections rec node id lo k)
    unfolding emit_kind depth_step slot_step
    emit_kind-Emits id node lo there e Kind.data_source =
        returns (Emits-op 0 1 Op.push_price lo (λ d. refl) (λ n. refl))
    emit_kind-Emits id node lo there e Kind.ema = returns (
        Emits-slot (λ slot. Op.ema slot (property F (codes "period") 12 node)) lo (λ s d. refl)
          next_slot_lem)
    emit_kind-Emits id node lo there e Kind.momentum = returns (
        Emits-slot (λ slot. Op.momentum slot (property F (codes "lookback") 16 node)) lo
          (λ s d. refl) next_slot_lem)
    emit_kind-Emits id node lo there e Kind.reversion = returns (
        Emits-slot (λ slot. Op.reversion slot (property F (codes "window") 64 node)) lo
          (λ s d. refl) next_slot_lem)
    emit_kind-Emits id node lo there e Kind.condition =
        Ends-bind (emit_unary_input-Emits id node there lo e) λ lo' f.
          returns (
            Emits-then f (Emits-then (threshold_op-Emits F node lo') (condition_op-Emits F node _)))
    emit_kind-Emits id node lo there e Kind.and_gate =
        emit_gate-Emits Op.and (sources id connections) lo (λ d. refl) (λ n. refl) e
    emit_kind-Emits id node lo there e Kind.or_gate =
        emit_gate-Emits Op.or (sources id connections) lo (λ d. refl) (λ n. refl) e
    emit_kind-Emits id node lo there e Kind.signal = emit_unary_input-Emits id node there lo e
    emit_kind-Emits id node lo there e Kind.other = fails

  emit_node_body-Emits :
      (rec : Text → Lowerer Float → Lowered (Lowerer Float)) (id : Text) (lo : Lowerer Float)
      → ((node : GNode Float)
          → lookup id by_id ≡ some node
          → contains id lo.on_stack ≡ false
          → Good rec (id ∷ lo.on_stack))
      → Ends (Emits 0 1 lo) (emit_node_body F by_id connections rec id lo)
  unfolding emit_node_body
  emit_node_body-Emits rec id lo good = elim (Bool-cases (contains id lo.on_stack)) [
    | inl again ↦ rw again fails
    | inr new ↦ elim (Option-cases (lookup id by_id)) [
      | inl missing ↦ rw (new, missing) fails
      | inr (node, there) ↦
          rw (new, there)
            (Ends-bind
              (emit_kind-Emits rec (id ∷ lo.on_stack) (good node there new) id node
                (record lo { on_stack = id ∷ lo.on_stack }) there refl (kind_of node.ntype))
              λ lo' f. returns (Emits-pop id lo lo' f))
    ]
  ]

  -- With more fuel than there are nodes that are not under way, a node is emitted, or an error is
  -- found.
  pub emit_node-Emits :
      (fuel : ℕ) (id : Text) (lo : Lowerer Float)
      → Distinct lo.on_stack
      → Among lo.on_stack (known by_id)
      → length (known by_id) < fuel + length lo.on_stack
      → Ends (Emits 0 1 lo) (emit_node F by_id connections fuel id lo)
  unfolding emit_node
  emit_node-Emits zero id lo d a enough =
      absurd (omega (arith, length-Distinct lo.on_stack (known by_id) d a))
  emit_node-Emits (suc fuel) id lo d a enough =
      emit_node_body-Emits (emit_node F by_id connections fuel) id lo λ node there new id' lo' e.
        emit_node-Emits fuel id' lo' (rw e (new, d)) (rw e (contains-known id by_id node there, a))
          (rw e (omega arith))

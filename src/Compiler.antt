-- ===== src/Compiler.antt =====
-- src/compiler.rs, its lowering half: a strategy graph becomes a program for the stack machine.
-- `self`, the `Lowerer`, is passed in and returned; `by_id` and `incoming`, which do not change, are
-- parameters. The recursion has fuel; `stuck` is its end, and `panicked` an index that is missing.
pub mod Shape
pub mod Message
pub mod Ids
pub mod Ends
pub mod Shaped
pub mod Runs
pub mod Panics
use rust_hotpath_ipc.Prelude.{
  ℕ, zero, suc, ◌+◌, ◌<◌, Bool, true, false, ◌&&◌, ◌||◌, Option, none, some, List, [], ◌∷◌, ◌++◌,
  ltb, ◌==◌, if◌then◌else◌, length, is_some,
}
use rust_hotpath_ipc.Prelude.Text.{Text, codes, text_eq, lookup}
use rust_hotpath_ipc.Float.{F64}
use rust_hotpath_ipc.Vm.{Op}

pub record GNode (A : Type 0) : Type 0 where
  pub id : Text
  pub ntype : Text
  pub nums : List (Text × A)
  pub strs : List (Text × Text)

pub record GraphSpec (A : Type 0) : Type 0 where
  pub nodes : List (GNode A)
  pub connections : List (Text × Text)

pub data CompileError : Type 0 where
  cycle : CompileError
  unknown_node : Text → CompileError
  unknown_type : Text → CompileError
  too_many_inputs : Text → Text → ℕ → CompileError

pub data Lowered {ℓ} (B : Type ℓ) : Type ℓ where
  ok : B → Lowered B
  err : CompileError → Lowered B
  panicked : Lowered B
  stuck : Lowered B

infixl 5 ◌>>=◌
abbrev pub ◌>>=◌ {ℓ κ} : {B : Type ℓ} {C : Type κ} → Lowered B → (B → Lowered C) → Lowered C
ok b >>= f = f b
err e >>= f = err e
panicked >>= f = panicked
stuck >>= f = stuck

-- The fields of `Lowerer` that change. The last entry of `on_stack` stands first.
pub record Lowerer (A : Type 0) : Type 0 where
  pub prog : List (Op A)
  pub next_slot : ℕ
  pub on_stack : List Text

-- The kinds of node that `emit_node` tells apart.
pub data Kind : Type 0 where
  data_source ema momentum reversion condition and_gate or_gate signal : Kind
  other : Kind

unfoldable pub kind_of : Text → Kind
unfolding text_eq
kind_of t =
    if text_eq t (codes "data_source")
    then Kind.data_source
    else if text_eq t (codes "ema")
    then Kind.ema
    else if text_eq t (codes "momentum")
    then Kind.momentum
    else if text_eq t (codes "reversion")
    then Kind.reversion
    else if text_eq t (codes "condition")
    then Kind.condition
    else if text_eq t (codes "and_gate")
    then Kind.and_gate
    else if text_eq t (codes "or_gate")
    then Kind.or_gate
    else if text_eq t (codes "buy_signal") || text_eq t (codes "sell_signal")
    then Kind.signal
    else Kind.other

unfoldable pub contains : Text → List Text → Bool
unfolding text_eq
contains id [] = false
contains id (x ∷ xs) = text_eq x id || contains id xs

abbrev pub or_else {ℓ} : {B : Type ℓ} → Option B → B → B
or_else none d = d
or_else (some b) d = b

-- The sources of a node, in connection order: what `incoming.get(id)` holds.
unfoldable pub sources : Text → List (Text × Text) → List Text
unfolding text_eq
sources id [] = []
sources id ((from, to) ∷ cs) = if text_eq to id then from ∷ sources id cs else sources id cs

abbrev pub pop_stack : List Text → List Text
pop_stack [] = []
pop_stack (_ ∷ ids) = ids

module _ {A : Type 0} where
  abbrev pub emit : Op A → Lowerer A → Lowerer A
  emit op lo = record lo { prog = lo.prog ++ op ∷ [] }

  unfoldable pub comparison : Text → Op A
  unfolding text_eq
  comparison t =
      if text_eq t (codes "less_than")
      then Op.lt
      else if text_eq t (codes "greater_equal")
      then Op.ge
      else if text_eq t (codes "less_equal")
      then Op.le
      else if text_eq t (codes "equal")
      then Op.eq
      else Op.gt

  -- `nodes.iter().map(|n| (n.id, n)).collect()`: of two nodes with one id the later one counts.
  unfoldable pub by_id_of : List (GNode A) → List (Text × GNode A) → List (Text × GNode A)
  by_id_of [] m = m
  by_id_of (n ∷ ns) m = by_id_of ns ((n.id, n) ∷ m)

  -- The connections are read in order, and the first unknown end is the error.
  unfoldable pub check_connections : List (Text × GNode A) → List (Text × Text) → Lowered (Unit {0})
  unfolding lookup
  check_connections by_id [] = ok tt
  check_connections by_id ((from, to) ∷ cs) =
      if is_some (lookup from by_id)
      then if is_some (lookup to by_id)
        then check_connections by_id cs
        else err (CompileError.unknown_node to)
      else err (CompileError.unknown_node from)

module _ (F : F64) where
  open F use {Float, num, to_nat}

  -- `node.nums.get(key).copied().unwrap_or(default) as usize`.
  unfoldable pub property : Text → ℕ → GNode Float → ℕ
  unfolding lookup
  property key default node = to_nat (or_else (lookup key node.nums) (num default))

  -- `self.slot()`, then the op that takes it.
  abbrev pub with_slot : (ℕ → Op Float) → Lowerer Float → Lowerer Float
  with_slot op lo = emit (op lo.next_slot) (record lo { next_slot = lo.next_slot + 1 })

  unfoldable pub condition_op : GNode Float → Op Float
  unfolding comparison lookup
  condition_op node = comparison (or_else (lookup (codes "op") node.strs) (codes "greater_than"))

  unfoldable pub threshold_op : GNode Float → Op Float
  unfolding lookup
  threshold_op node = Op.push_const (or_else (lookup (codes "value") node.nums) (num 0))

  module _ (by_id : List (Text × GNode Float)) (connections : List (Text × Text)) where
    -- `emit_unary_input`, over the `emit_node` of the fuel that is left and the sources of `id`.
    unfoldable pub emit_sole :
        (Text → Lowerer Float → Lowered (Lowerer Float))
        → Text
        → List Text
        → Lowerer Float
        → Lowered (Lowerer Float)
    unfolding lookup
    emit_sole emit_node id [] lo = ok (emit (Op.push_const (num 0)) lo)
    emit_sole emit_node id (src ∷ []) lo = emit_node src lo
    emit_sole emit_node id (src ∷ next ∷ more) lo = elim (lookup id by_id) [
      | none ↦ panicked
      | some node ↦ err (CompileError.too_many_inputs id node.ntype (length (src ∷ next ∷ more)))
    ]

    unfoldable pub emit_unary_input :
        (Text → Lowerer Float → Lowered (Lowerer Float))
        → Text
        → Lowerer Float
        → Lowered (Lowerer Float)
    unfolding sources emit_sole
    emit_unary_input emit_node id lo = emit_sole emit_node id (sources id connections) lo

    -- `for &src in &srcs[1..]`.
    unfoldable pub emit_rest :
        (Text → Lowerer Float → Lowered (Lowerer Float))
        → Op Float
        → List Text
        → Lowerer Float
        → Lowered (Lowerer Float)
    emit_rest emit_node fold [] lo = ok lo
    emit_rest emit_node fold (src ∷ srcs) lo =
        emit_node src lo >>= λ lo'. emit_rest emit_node fold srcs (emit fold lo')

    unfoldable pub emit_gate :
        (Text → Lowerer Float → Lowered (Lowerer Float))
        → Op Float
        → List Text
        → Lowerer Float
        → Lowered (Lowerer Float)
    unfolding emit_rest
    emit_gate emit_node fold [] lo = ok (emit (Op.push_const (num 0)) lo)
    emit_gate emit_node fold (src ∷ srcs) lo =
        emit_node src lo >>= λ lo'. emit_rest emit_node fold srcs lo'

    -- The `match` on the node's type.
    unfoldable pub emit_kind :
        (Text → Lowerer Float → Lowered (Lowerer Float))
        → GNode Float
        → Text
        → Lowerer Float
        → Kind
        → Lowered (Lowerer Float)
    unfolding emit_unary_input emit_gate sources property condition_op threshold_op
    emit_kind emit_node node id lo Kind.data_source = ok (emit Op.push_price lo)
    emit_kind emit_node node id lo Kind.ema =
        ok (with_slot (λ slot. Op.ema slot (property (codes "period") 12 node)) lo)
    emit_kind emit_node node id lo Kind.momentum =
        ok (with_slot (λ slot. Op.momentum slot (property (codes "lookback") 16 node)) lo)
    emit_kind emit_node node id lo Kind.reversion =
        ok (with_slot (λ slot. Op.reversion slot (property (codes "window") 64 node)) lo)
    emit_kind emit_node node id lo Kind.condition = emit_unary_input emit_node id lo >>= λ lo'.
        ok (emit (condition_op node) (emit (threshold_op node) lo'))
    emit_kind emit_node node id lo Kind.and_gate =
        emit_gate emit_node Op.and (sources id connections) lo
    emit_kind emit_node node id lo Kind.or_gate =
        emit_gate emit_node Op.or (sources id connections) lo
    emit_kind emit_node node id lo Kind.signal = emit_unary_input emit_node id lo
    emit_kind emit_node node id lo Kind.other = err (CompileError.unknown_type node.ntype)

    -- The body of `emit_node`, over the `emit_node` that its recursive calls reach.
    unfoldable pub emit_node_body :
        (Text → Lowerer Float → Lowered (Lowerer Float))
        → Text
        → Lowerer Float
        → Lowered (Lowerer Float)
    unfolding emit_kind contains lookup kind_of
    emit_node_body emit_node id lo =
        if contains id lo.on_stack then err CompileError.cycle else elim (lookup id by_id) [
          | none ↦ err (CompileError.unknown_node id)
          | some node ↦
              emit_kind emit_node node id (record lo { on_stack = id ∷ lo.on_stack })
                (kind_of node.ntype)
              >>= λ lo'. ok (record lo' { on_stack = pop_stack lo'.on_stack })
        ]

    unfoldable pub emit_node : ℕ → Text → Lowerer Float → Lowered (Lowerer Float)
    unfolding emit_node_body
    emit_node zero id lo = stuck
    emit_node (suc fuel) id lo = emit_node_body (emit_node fuel) id lo

    -- `for node in &spec.nodes`: a terminal for each signal node.
    unfoldable pub emit_signals : ℕ → List (GNode Float) → Lowerer Float → Lowered (Lowerer Float)
    unfolding emit_unary_input emit_node text_eq
    emit_signals fuel [] lo = ok lo
    emit_signals fuel (node ∷ nodes) lo =
        if text_eq node.ntype (codes "buy_signal") || text_eq node.ntype (codes "sell_signal")
        then (emit_unary_input (emit_node fuel) node.id lo >>= λ lo'.
            emit_signals fuel nodes
              (emit (if text_eq node.ntype (codes "buy_signal") then Op.buy else Op.sell) lo'))
        else emit_signals fuel nodes lo

  -- One more level of recursion than there are nodes.
  unfoldable pub compile : GraphSpec Float → Lowered (List (Op Float))
  unfolding by_id_of check_connections emit_signals
  compile spec =
      let by_id = by_id_of spec.nodes [] in
      check_connections by_id spec.connections >>= λ _.
      emit_signals by_id spec.connections (suc (length spec.nodes)) spec.nodes
        (record { prog = []; next_slot = 0; on_stack = [] })
      >>= λ lo. ok lo.prog

-- ===== src/Compiler/Runs.antt =====
-- Compiled code of src/compiler.rs on the machine of src/bytecode.rs, tick after tick.
use rust_hotpath_ipc.Prelude.{
  ℕ, suc, ◌+◌, ◌<◌, ◌≡◌, subst, Option, none, some, List, [], ◌∷◌, arith, ◌==◌, ==_iff, Bool-cases,
  inl, inr, length, length-replicate,
}
use rust_hotpath_ipc.Float.{F64}
use rust_hotpath_ipc.Vm.{Op, Vm, VmDecision, for_op, filter_map, new_vm, run}
use rust_hotpath_ipc.Vm.Total.{AllRings, SlotsBelow}
use rust_hotpath_ipc.Compiler.{GraphSpec, Lowered, ok, compile}
use rust_hotpath_ipc.Compiler.Shape.{scan, slot_step}
use rust_hotpath_ipc.Compiler.Ends.{Ends, returns, fails}
use rust_hotpath_ipc.Compiler.Shaped.{IsShaped, compile-Ends}

-- No reversion indicator has an empty window.
abbrev pub NoEmptyWindow : {A : Type 0} → List (Op A) → Type 0
NoEmptyWindow [] = Unit
NoEmptyWindow (Op.reversion _ window ∷ ops) = (0 < window) × NoEmptyWindow ops
NoEmptyWindow (_ ∷ ops) = NoEmptyWindow ops

-- An op that takes slot `n`, before ops that take the next ones.
takes_slot :
    {A : Type 0} (n k slot len : ℕ) (ops : List (Op A))
    → scan slot_step n (Op.ema slot 0 ∷ ops) ≡ some k
    → (scan slot_step (n + 1) ops ≡ some k → (k ≡ n + 1 + len) × SlotsBelow k ops)
    → (k ≡ n + suc len) × ((slot < k) × SlotsBelow k ops)
unfolding scan slot_step
takes_slot n k slot len ops e rest = elim (Bool-cases (slot == n)) [
  | inr other ↦ cc (rw other at e)
  | inl same ↦
      let (size, below) = rest (rw same at e) in
      (omega (arith, size), (omega (arith, size, (==_iff slot n).0 same), below))
]

module _ (F : F64) where
  open F use {Float}

  -- The state vector has a slot for each number that the code hands out.
  slots-new_vm :
      (n k : ℕ) (ops : List (Op Float))
      → scan slot_step n ops ≡ some k
      → (k ≡ n + length (filter_map (for_op F) ops)) × SlotsBelow k ops
  unfolding scan slot_step for_op
  slots-new_vm n k [] e = let same : n ≡ k = cc e in (omega (arith, same), tt)
  slots-new_vm n k (Op.push_price ∷ ops) e = slots-new_vm n k ops e
  slots-new_vm n k (Op.push_const _ ∷ ops) e = slots-new_vm n k ops e
  slots-new_vm n k (Op.gt ∷ ops) e = slots-new_vm n k ops e
  slots-new_vm n k (Op.lt ∷ ops) e = slots-new_vm n k ops e
  slots-new_vm n k (Op.ge ∷ ops) e = slots-new_vm n k ops e
  slots-new_vm n k (Op.le ∷ ops) e = slots-new_vm n k ops e
  slots-new_vm n k (Op.eq ∷ ops) e = slots-new_vm n k ops e
  slots-new_vm n k (Op.and ∷ ops) e = slots-new_vm n k ops e
  slots-new_vm n k (Op.or ∷ ops) e = slots-new_vm n k ops e
  slots-new_vm n k (Op.not ∷ ops) e = slots-new_vm n k ops e
  slots-new_vm n k (Op.buy ∷ ops) e = slots-new_vm n k ops e
  slots-new_vm n k (Op.sell ∷ ops) e = slots-new_vm n k ops e
  slots-new_vm n k (Op.ema slot _ ∷ ops) e =
      takes_slot n k slot _ ops e (slots-new_vm (n + 1) k ops)
  slots-new_vm n k (Op.momentum slot _ ∷ ops) e =
      takes_slot n k slot _ ops e (slots-new_vm (n + 1) k ops)
  slots-new_vm n k (Op.reversion slot _ ∷ ops) e =
      takes_slot n k slot _ ops e (slots-new_vm (n + 1) k ops)

  new_vm-AllRings :
      (ops : List (Op Float)) → NoEmptyWindow ops → AllRings (filter_map (for_op F) ops)
  unfolding for_op
  new_vm-AllRings [] w = tt
  new_vm-AllRings (Op.push_price ∷ ops) w = new_vm-AllRings ops w
  new_vm-AllRings (Op.push_const _ ∷ ops) w = new_vm-AllRings ops w
  new_vm-AllRings (Op.gt ∷ ops) w = new_vm-AllRings ops w
  new_vm-AllRings (Op.lt ∷ ops) w = new_vm-AllRings ops w
  new_vm-AllRings (Op.ge ∷ ops) w = new_vm-AllRings ops w
  new_vm-AllRings (Op.le ∷ ops) w = new_vm-AllRings ops w
  new_vm-AllRings (Op.eq ∷ ops) w = new_vm-AllRings ops w
  new_vm-AllRings (Op.and ∷ ops) w = new_vm-AllRings ops w
  new_vm-AllRings (Op.or ∷ ops) w = new_vm-AllRings ops w
  new_vm-AllRings (Op.not ∷ ops) w = new_vm-AllRings ops w
  new_vm-AllRings (Op.buy ∷ ops) w = new_vm-AllRings ops w
  new_vm-AllRings (Op.sell ∷ ops) w = new_vm-AllRings ops w
  new_vm-AllRings (Op.ema slot _ ∷ ops) w = (tt, new_vm-AllRings ops w)
  new_vm-AllRings (Op.momentum slot lookback ∷ ops) w =
      let size = length-replicate (lookback + 1) (F.num 0) in
      ((size, omega (arith, size), omega arith), new_vm-AllRings ops w)
  new_vm-AllRings (Op.reversion slot window ∷ ops) w =
      let size = length-replicate window (F.num 0) in
      ((size, omega (arith, size, w.0), omega arith), new_vm-AllRings ops w.1)

  -- A decision for each tick.
  unfoldable pub run_all : List Float → Vm Float → Option (List (VmDecision Float))
  unfolding run
  run_all [] vm = some []
  run_all (price ∷ prices) vm = elim (run F price vm) [
    | none ↦ none
    | some (vm', d) ↦ elim (run_all prices vm') [ none ↦ none | some ds ↦ some (d ∷ ds) ]
  ]

  pub compile-IsShaped :
      (spec : GraphSpec Float) (prog : List (Op Float)) → compile F spec ≡ ok prog → IsShaped F prog
  compile-IsShaped spec prog e = shaped (compile F spec) (compile-Ends F spec) e
    where
      shaped : (r : Lowered (List (Op Float))) → Ends (IsShaped F) r → r ≡ ok prog → IsShaped F prog
      shaped (ok p) (returns h) e = let same : p ≡ prog = cc e in rw (← same) h
      shaped _ fails e = cc

  pub compile-IsWired :
      (spec : GraphSpec Float) (prog : List (Op Float))
      → compile F spec ≡ ok prog
      → NoEmptyWindow prog
      → AllRings (new_vm F prog).state × SlotsBelow (length (new_vm F prog).state) prog
  unfolding new_vm
  compile-IsWired spec prog e w =
      let (depth, n, slots) = compile-IsShaped spec prog e in
      let (size, below) = slots-new_vm 0 n prog slots in
      let size' : n ≡ length (filter_map (for_op F) prog) = omega (arith, size) in
      (new_vm-AllRings prog w, subst (λ k. SlotsBelow k prog) size' below)

-- ===== src/Compiler/Panics.antt =====
-- Compiled code of src/compiler.rs with an empty window, on the machine of src/bytecode.rs.
use rust_hotpath_ipc.Prelude.{
  ℕ, zero, suc, ◌+◌, ◌≡◌, refl, sym, ap, ◌∙◌, Option, none, some, List, [], ◌∷◌, ◌++◌, arith,
  append_assoc, ◌==◌, ==_iff, Bool-cases, Option-cases, inl, inr, length, length-append, get_elem?,
  set, ◌>>=◌,
}
use rust_hotpath_ipc.Float.{F64}
use rust_hotpath_ipc.Vm.{
  Op, IndState, VmDecision, Machine, for_op, filter_map, new_vm, run, exec, step, indicator,
  ema_update, momentum_update, reversion_update,
}
use rust_hotpath_ipc.Compiler.{GraphSpec, ok, compile}
use rust_hotpath_ipc.Compiler.Shape.{scan, slot_step}
use rust_hotpath_ipc.Compiler.Runs.{NoEmptyWindow, compile-IsShaped}

get_elem?-append {ℓ} :
    {A : Type ℓ} (xs : List A) (y : A) (ys : List A)
    → get_elem? (xs ++ (y ∷ ys)) (length xs) ≡ some y
get_elem?-append [] y ys = refl
get_elem?-append (x ∷ xs) y ys = get_elem?-append xs y ys

set-append {ℓ} :
    {A : Type ℓ} (xs : List A) (y z : A) (ys : List A)
    → set (xs ++ (y ∷ ys)) (length xs) z ≡ xs ++ (z ∷ ys)
set-append [] y z ys = refl
set-append (x ∷ xs) y z ys = ap (◌∷◌ x) (set-append xs y z ys)

-- An op takes the slot that is next, and the ops after it the ones from there on.
slot_taken :
    {A : Type 0} (n k slot : ℕ) (ops : List (Op A))
    → scan slot_step n (Op.ema slot 0 ∷ ops) ≡ some k
    → (slot ≡ n) × (scan slot_step (n + 1) ops ≡ some k)
unfolding scan slot_step
slot_taken n k slot ops e = elim (Bool-cases (slot == n)) [
  | inr other ↦ cc (rw other at e)
  | inl same ↦ ((==_iff slot n).0 same, rw same at e)
]

module _ (F : F64) (price : F64.Float F) where
  open F use {Float}

  -- From any machine whose indicators from here on are those the ops were built with.
  Panics : List (Op Float) → List (IndState Float) → Type 0
  Panics ops pre =
      (m : Machine Float) → m.state ≡ pre ++ filter_map (for_op F) ops → exec F price ops m ≡ none

  indicator-Panics :
      (update : IndState Float → Float → Option (IndState Float × Float)) (slot : ℕ)
      (pre : List (IndState Float)) (s : IndState Float) (ops : List (Op Float)) (m : Machine Float)
      → slot ≡ length pre
      → m.state ≡ pre ++ (s ∷ filter_map (for_op F) ops)
      → ((s' : IndState Float) → Panics ops (pre ++ (s' ∷ [])))
      → (indicator F update slot price m >>= exec F price ops) ≡ none
  unfolding indicator Panics
  indicator-Panics update slot pre s ops m at_slot state rest =
      elim (Option-cases (update s price)) [
        | inl no_value ↦ rw (at_slot, state, get_elem?-append pre s tail, no_value) refl
        | inr ((s', v), done) ↦
            rw (at_slot, state, get_elem?-append pre s tail, done)
              (rest s' _ (set-append pre s s' tail ∙ sym (append_assoc pre (s' ∷ []) tail)))
      ]
    where
      tail : List (IndState Float)
      tail = filter_map (for_op F) ops

  next_slot :
      (pre : List (IndState Float)) (k : ℕ) (s : IndState Float) (ops : List (Op Float))
      → scan slot_step (length pre + 1) ops ≡ some k
      → scan slot_step (length (pre ++ (s ∷ []))) ops ≡ some k
  next_slot pre k s ops e = rw (length-append pre (s ∷ [])) e

  exec-Panics :
      (ops : List (Op Float)) (k : ℕ) (pre : List (IndState Float))
      → scan slot_step (length pre) ops ≡ some k
      → ¬ NoEmptyWindow ops
      → Panics ops pre
  unfolding Panics exec step scan slot_step for_op
  exec-Panics [] k pre e bad m state = absurd (bad tt)
  exec-Panics (Op.push_price ∷ ops) k pre e bad m state = exec-Panics ops k pre e bad _ state
  exec-Panics (Op.push_const _ ∷ ops) k pre e bad m state = exec-Panics ops k pre e bad _ state
  exec-Panics (Op.gt ∷ ops) k pre e bad m state = exec-Panics ops k pre e bad _ state
  exec-Panics (Op.lt ∷ ops) k pre e bad m state = exec-Panics ops k pre e bad _ state
  exec-Panics (Op.ge ∷ ops) k pre e bad m state = exec-Panics ops k pre e bad _ state
  exec-Panics (Op.le ∷ ops) k pre e bad m state = exec-Panics ops k pre e bad _ state
  exec-Panics (Op.eq ∷ ops) k pre e bad m state = exec-Panics ops k pre e bad _ state
  exec-Panics (Op.and ∷ ops) k pre e bad m state = exec-Panics ops k pre e bad _ state
  exec-Panics (Op.or ∷ ops) k pre e bad m state = exec-Panics ops k pre e bad _ state
  exec-Panics (Op.not ∷ ops) k pre e bad m state = exec-Panics ops k pre e bad _ state
  exec-Panics (Op.buy ∷ ops) k pre e bad m state = exec-Panics ops k pre e bad _ state
  exec-Panics (Op.sell ∷ ops) k pre e bad m state = exec-Panics ops k pre e bad _ state
  exec-Panics (Op.ema slot _ ∷ ops) k pre e bad m state =
      let (same, e') = slot_taken (length pre) k slot ops e in
      indicator-Panics (λ s p. some (ema_update F s p)) slot pre _ ops m same state
        (λ s'. exec-Panics ops k _ (next_slot pre k s' ops e') bad)
  exec-Panics (Op.momentum slot _ ∷ ops) k pre e bad m state =
      let (same, e') = slot_taken (length pre) k slot ops e in
      indicator-Panics (momentum_update F) slot pre _ ops m same state
        (λ s'. exec-Panics ops k _ (next_slot pre k s' ops e') bad)
  exec-Panics (Op.reversion slot zero ∷ ops) k pre e bad m state =
      let (same, e') = slot_taken (length pre) k slot ops e in
      rw (same, state, get_elem?-append pre _ (filter_map (for_op F) ops)) refl
  exec-Panics (Op.reversion slot (suc window) ∷ ops) k pre e bad m state =
      let (same, e') = slot_taken (length pre) k slot ops e in
      indicator-Panics (reversion_update F) slot pre _ ops m same state
        (λ s'. exec-Panics ops k _ (next_slot pre k s' ops e') (λ fine. bad (omega arith, fine)))

  -- Code that `compile` returned, one of whose reversion windows is empty, panics at the first
  -- tick, whatever the price.
  pub compile-panics :
      (spec : GraphSpec Float) (prog : List (Op Float))
      → compile F spec ≡ ok prog
      → ¬ NoEmptyWindow prog
      → run F price (new_vm F prog) ≡ none
  unfolding run new_vm for_op Panics
  compile-panics spec prog e bad =
      let (depth, n, slots) = compile-IsShaped F spec prog e in
      let m : Machine Float = record {
        state = filter_map (for_op F) prog;
        stack = [];
        decision = VmDecision.hold;
      } in
      rw (exec-Panics prog n [] slots bad m refl) refl

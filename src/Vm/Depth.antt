-- ===== src/Vm/Depth.antt =====
-- src/bytecode.rs: the fixed stack of the machine against one with no bound.
use rust_hotpath_ipc.Prelude.{
  ◌>>=◌, ℕ, suc, ◌<◌, ◌≡◌, refl, sym, ap, ◌∙◌, Bool, ◌&&◌, ◌||◌, inl, inr, Option-cases, Option,
  none, some, List, [], ◌∷◌, arith, leb, if◌then◌else◌, length, get_elem?, set,
}
use rust_hotpath_ipc.Float.{F64}
use rust_hotpath_ipc.Vm.{
  Op, IndState, VmDecision, Machine, stack_cap, ema_update, momentum_update, reversion_update,
  indicator, step, exec, push, pop, bool_f64, truthy, decide_on,
}
use rust_hotpath_ipc.Compiler.Shape.{scan, depth_step}

module _ (F : F64) where
  open F use {Float, num, decimal, sub, abs}

  abbrev free_unary : (Float → Bool) → List Float → List Float
  free_unary test stack = let (a, rest) = pop F stack in bool_f64 F (test a) ∷ rest

  abbrev free_binary : (Float → Float → Bool) → List Float → List Float
  free_binary test stack =
      let (b, below) = pop F stack in let (a, rest) = pop F below in bool_f64 F (test a b) ∷ rest

  abbrev on_stack : (List Float → List Float) → Machine Float → Option (Machine Float)
  on_stack f m = some (record m { stack = f m.stack })

  abbrev free_indicator :
      (IndState Float → Float → Option (IndState Float × Float))
      → ℕ
      → Float
      → Machine Float
      → Option (Machine Float)
  free_indicator update slot price m = do
    s ← get_elem? m.state slot
    (s', v) ← update s price
    some (record m { state = set m.state slot s'; stack = v ∷ m.stack })

  -- A turn of the loop on a stack that never is full.
  unfoldable pub free_step : Float → Op Float → Machine Float → Option (Machine Float)
  unfolding pop bool_f64
  free_step price Op.push_price m = on_stack (◌∷◌ price) m
  free_step price (Op.push_const c) m = on_stack (◌∷◌ c) m
  free_step price (Op.ema slot _) m = free_indicator (λ s p. some (ema_update F s p)) slot price m
  free_step price (Op.momentum slot _) m = free_indicator (momentum_update F) slot price m
  free_step price (Op.reversion slot _) m = free_indicator (reversion_update F) slot price m
  free_step price Op.gt m = on_stack (free_binary λ a b. F.lt b a) m
  free_step price Op.lt m = on_stack (free_binary λ a b. F.lt a b) m
  free_step price Op.ge m = on_stack (free_binary λ a b. F.le b a) m
  free_step price Op.le m = on_stack (free_binary λ a b. F.le a b) m
  free_step price Op.eq m = on_stack (free_binary λ a b. F.lt (abs (sub a b)) (decimal 1 10)) m
  free_step price Op.and m = on_stack (free_binary λ a b. truthy F a && truthy F b) m
  free_step price Op.or m = on_stack (free_binary λ a b. truthy F a || truthy F b) m
  free_step price Op.not m = on_stack (free_unary λ a. F.le a (num 0)) m
  free_step price Op.buy m =
      let (c, rest) = pop F m.stack in some (decide_on F c (VmDecision.buy c) m rest)
  free_step price Op.sell m =
      let (c, rest) = pop F m.stack in some (decide_on F c (VmDecision.sell c) m rest)

  unfoldable pub free_exec : Float → List (Op Float) → Machine Float → Option (Machine Float)
  unfolding free_step
  free_exec price [] m = some m
  free_exec price (op ∷ ops) m = free_step price op m >>= free_exec price ops

  -- The depth after an op, if the stack has room for it.
  unfoldable pub fits : Op Float → ℕ → Option ℕ
  unfolding depth_step
  fits op d = depth_step op d >>= λ d'. if leb d' stack_cap then some d' else none

  push-free : (v : Float) (stack : List Float) → length stack < 32 → push F v stack ≡ v ∷ stack
  unfolding push
  push-free v stack h = ground arith

  length-pop :
      (stack : List Float) (d : ℕ)
      → fits Op.buy (length stack) ≡ some d
      → length (pop F stack).1 ≡ d
  unfolding fits depth_step pop
  length-pop [] d h = ground arith
  length-pop (a ∷ rest) d h = ground arith

  -- What a push gives to a machine whose stack has room.
  push_indicator-free :
      (stack : List Float) (states : List (IndState Float)) (slot : ℕ) (d : VmDecision Float)
      (r : Option (IndState Float × Float))
      → length stack < 32
      → ◌≡◌ {A = Option (Machine Float)}
          (r >>= λ (s', v).
            some (record { state = set states slot s'; stack = push F v stack; decision = d }))
          (r >>= λ (s', v).
            some (record { state = set states slot s'; stack = v ∷ stack; decision = d }))
  push_indicator-free stack states slot d none h = refl
  push_indicator-free stack states slot d (some (s', v)) h = rw (push-free v stack h) refl

  indicator-free :
      (update : IndState Float → Float → Option (IndState Float × Float)) (slot : ℕ) (price : Float)
      (m : Machine Float)
      → length m.stack < 32
      → indicator F update slot price m ≡ free_indicator update slot price m
  unfolding indicator
  indicator-free update slot price m h = elim (Option-cases (get_elem? m.state slot)) [
    | inl out ↦ rw out refl
    | inr (s, e) ↦ rw e (push_indicator-free m.stack m.state slot m.decision (update s price) h)
  ]

  with_stack :
      {xs ys : List Float} (m : Machine Float)
      → xs ≡ ys
      → some (record m { stack = xs }) ≡ some (record m { stack = ys })
  with_stack m e = ap (λ stack. some (record m { stack = stack })) e

  abbrev below_one : List Float → List Float
  below_one stack = (pop F stack).1

  abbrev below_two : List Float → List Float
  below_two stack = (pop F (pop F stack).1).1

  room_below_one :
      (stack : List Float) (d : ℕ)
      → fits Op.not (length stack) ≡ some d
      → length (below_one stack) < 32 × (suc (length (below_one stack)) ≡ d)
  unfolding fits depth_step pop
  room_below_one [] d h = ground arith
  room_below_one (a ∷ rest) d h = ground arith

  room_below_two :
      (stack : List Float) (d : ℕ)
      → fits Op.gt (length stack) ≡ some d
      → length (below_two stack) < 32 × (suc (length (below_two stack)) ≡ d)
  unfolding fits depth_step pop
  room_below_two [] d h = ground arith
  room_below_two (a ∷ []) d h = ground arith
  room_below_two (b ∷ a ∷ rest) d h = ground arith

  step-free_step :
      (price : Float) (op : Op Float) (m : Machine Float) (d : ℕ)
      → fits op (length m.stack) ≡ some d
      → step F price op m ≡ free_step price op m
  unfolding step free_step fits depth_step
  step-free_step price Op.push_price m d h = with_stack m (push-free price m.stack (ground arith))
  step-free_step price (Op.push_const c) m d h = with_stack m (push-free c m.stack (ground arith))
  step-free_step price (Op.ema slot _) m d h =
      indicator-free (λ s p. some (ema_update F s p)) slot price m (ground arith)
  step-free_step price (Op.momentum slot _) m d h =
      indicator-free (momentum_update F) slot price m (ground arith)
  step-free_step price (Op.reversion slot _) m d h =
      indicator-free (reversion_update F) slot price m (ground arith)
  step-free_step price Op.buy m d h = refl
  step-free_step price Op.sell m d h = refl
  step-free_step price Op.not m d h =
      with_stack m (push-free _ (below_one m.stack) (room_below_one m.stack d h).0)
  step-free_step price op m d h =
      with_stack m (push-free _ (below_two m.stack) (room_below_two m.stack d h).0)

  length-free_indicator :
      (update : IndState Float → Float → Option (IndState Float × Float)) (slot : ℕ) (price : Float)
      (m m' : Machine Float)
      → free_indicator update slot price m ≡ some m'
      → length m'.stack ≡ suc (length m.stack)
  length-free_indicator update slot price m m' e = ground arith

  length-some :
      {x m' : Machine Float} {d : ℕ} → some x ≡ some m' → length x.stack ≡ d → length m'.stack ≡ d
  length-some e h = ground arith

  length-free_step :
      (price : Float) (op : Op Float) (m m' : Machine Float) (d : ℕ)
      → fits op (length m.stack) ≡ some d
      → free_step price op m ≡ some m'
      → length m'.stack ≡ d
  unfolding free_step fits depth_step
  length-free_step price Op.push_price m m' d h e = ground arith
  length-free_step price (Op.push_const c) m m' d h e = ground arith
  length-free_step price (Op.ema slot _) m m' d h e =
      length-free_indicator (λ s p. some (ema_update F s p)) slot price m m' e ∙ ground arith
  length-free_step price (Op.momentum slot _) m m' d h e =
      length-free_indicator (momentum_update F) slot price m m' e ∙ ground arith
  length-free_step price (Op.reversion slot _) m m' d h e =
      length-free_indicator (reversion_update F) slot price m m' e ∙ ground arith
  length-free_step price Op.buy m m' d h e = length-some e (length-pop m.stack d h)
  length-free_step price Op.sell m m' d h e = length-some e (length-pop m.stack d h)
  length-free_step price Op.not m m' d h e = length-some e (room_below_one m.stack d h).1
  length-free_step price op m m' d h e = length-some e (room_below_two m.stack d h).1

  -- A program that never takes more operands than there are, and never needs more than 32 places,
  -- runs on the machine with the fixed stack exactly as on one whose stack has no bound.
  pub exec-free_exec :
      (price : Float) (ops : List (Op Float)) (m : Machine Float) (n : ℕ)
      → scan fits (length m.stack) ops ≡ some n
      → exec F price ops m ≡ free_exec price ops m
  unfolding exec free_exec scan
  exec-free_exec price [] m n h = refl
  exec-free_exec price (op ∷ ops) m n h = elim (Option-cases (fits op (length m.stack))) [
    | inl none_there ↦ absurd (ground arith)
    | inr (d, there) ↦
        rw (step-free_step price op m d there) (elim (Option-cases (free_step price op m)) [
          | inl panics ↦ rw panics refl
          | inr (m', goes) ↦ rw goes (
              exec-free_exec price ops m' n
                (rw (length-free_step price op m m' d there goes, sym (rw there at h)) refl))
        ])
  ]

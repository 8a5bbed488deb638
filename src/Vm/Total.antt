-- ===== src/Vm/Total.antt =====
-- Panics of the machine of src/bytecode.rs: the slots and the ring buffers that it indexes.
use rust_hotpath_ipc.Prelude.{
  get_elem?-below, ℕ, zero, suc, ◌+◌, ◌%◌, ◌≤◌, ◌<◌, ◌≡◌, refl, sym, subst, ◌∙◌, ◌≢◌, Option, none,
  some, List, [], ◌∷◌, arith, ◌==◌, if◌then◌else◌, length, length-set, get_elem?, set,
}
use rust_hotpath_ipc.Float.{F64}
use rust_hotpath_ipc.Vm.{
  Op, IndState, VmDecision, Vm, Machine, ema_update, momentum_update, reversion_update, indicator,
  step, exec, run, push, grow, momentum_signal, reversion_signal,
}

-- A ring buffer has the size that its indicator was built with, and its head lies inside.
abbrev pub RingIsValid : {A : Type 0} → IndState A → Type 0
RingIsValid (IndState.ema _ _ _) = Unit
RingIsValid (IndState.momentum buf filled head lookback) =
    (length buf ≡ lookback + 1) × (head < length buf) × (filled ≤ length buf)
RingIsValid (IndState.reversion buf filled head window _ _) =
    (length buf ≡ window) × (head < length buf) × (filled ≤ length buf)

abbrev pub AllRings : {A : Type 0} → List (IndState A) → Type 0
AllRings [] = Unit
AllRings (s ∷ ss) = RingIsValid s × AllRings ss

-- Every slot that an op names is below `n`.
abbrev pub SlotsBelow : {A : Type 0} → ℕ → List (Op A) → Type 0
SlotsBelow n [] = Unit
SlotsBelow n (Op.ema slot _ ∷ ops) = (slot < n) × SlotsBelow n ops
SlotsBelow n (Op.momentum slot _ ∷ ops) = (slot < n) × SlotsBelow n ops
SlotsBelow n (Op.reversion slot _ ∷ ops) = (slot < n) × SlotsBelow n ops
SlotsBelow n (_ ∷ ops) = SlotsBelow n ops

AllRings-get_elem? :
    {A : Type 0} (ss : List (IndState A)) (i : ℕ) (s : IndState A)
    → get_elem? ss i ≡ some s
    → AllRings ss
    → RingIsValid s
AllRings-get_elem? [] i s e v = cc
AllRings-get_elem? (x ∷ ss) zero s e v = let same : x ≡ s = cc e in rw (← same) v.0
AllRings-get_elem? (x ∷ ss) (suc i) s e v = AllRings-get_elem? ss i s e v.1

AllRings-set :
    {A : Type 0} (ss : List (IndState A)) (i : ℕ) (s : IndState A)
    → RingIsValid s
    → AllRings ss
    → AllRings (set ss i s)
AllRings-set [] i s w v = tt
AllRings-set (x ∷ ss) zero s w v = (w, v.1)
AllRings-set (x ∷ ss) (suc i) s w v = (v.0, AllRings-set ss i s w v.1)

some_of {ℓ} : {A : Type ℓ} (o : Option A) → o ≢ none → (a : A) × (o ≡ some a)
some_of none h = absurd (h refl)
some_of (some a) h = (a, refl)

mod_below : (a n : ℕ) → 0 < n → a % n < n
mod_below a n h = omega arith

grow-le : (filled n : ℕ) → filled ≤ n → grow filled n ≤ n
grow-le filled n h = ground arith

-- An indicator that keeps its ring valid and always gives a value.
abbrev Gives : {A : Type 0} → Option (IndState A × A) → Type 0
Gives {A} r = (s : IndState A) × (v : A) × (r ≡ some (s, v)) × RingIsValid s

module _ (F : F64) where
  open F use {Float, num}

  ema_update-Gives :
      (s : IndState Float) (price : Float) → RingIsValid s → Gives (some (ema_update F s price))
  unfolding ema_update
  ema_update-Gives (IndState.ema a v i) price w = (_, _, refl, tt)
  ema_update-Gives (IndState.momentum b f h l) price w = (_, _, refl, w)
  ema_update-Gives (IndState.reversion b f h n s q) price w = (_, _, refl, w)

  momentum_signal-some :
      (buf : List Float) (filled head lookback : ℕ) (now : Float)
      → head < length buf
      → (v : Float) × (momentum_signal F buf filled head lookback now ≡ some v)
  unfolding momentum_signal
  momentum_signal-some buf filled head lookback now h =
      let (oldest, there) = get_elem?-below buf head h in some_of _ (λ e. ground arith)

  momentum_update-Gives :
      (s : IndState Float) (price : Float) → RingIsValid s → Gives (momentum_update F s price)
  unfolding momentum_update
  momentum_update-Gives (IndState.ema a v i) price w = (_, _, refl, tt)
  momentum_update-Gives (IndState.reversion b f h n s q) price w = (_, _, refl, w)
  momentum_update-Gives (IndState.momentum buf filled head lookback) price w =
      let (old, there) = get_elem?-below buf head w.1 in
      let size = length-set buf head price in
      let inside : (head + 1) % length buf < length buf = mod_below _ (length buf) (omega arith) in
      let (v, given) =
        momentum_signal-some (set buf head price) (grow filled (length buf))
          ((head + 1) % length buf) lookback price (rw size inside) in
      (
        IndState.momentum (set buf head price) (grow filled (length buf)) ((head + 1) % length buf)
            lookback,
        v,
        rw (there, given) refl,
        (size ∙ w.0, rw size inside, rw size (grow-le filled (length buf) w.2)),
      )

  reversion_update-Gives :
      (s : IndState Float) (price : Float) → RingIsValid s → Gives (reversion_update F s price)
  unfolding reversion_update
  reversion_update-Gives (IndState.ema a v i) price w = (_, _, refl, tt)
  reversion_update-Gives (IndState.momentum b f h l) price w = (_, _, refl, w)
  reversion_update-Gives (IndState.reversion buf filled head window sum sum_sq) price w =
      let (old, there) = get_elem?-below buf head w.1 in
      let size = length-set buf head price ∙ w.0 in
      let sum' = F.add (if filled == window then F.sub sum old else sum) price in
      let sum_sq' =
        F.add (if filled == window then F.sub sum_sq (F.mul old old) else sum_sq)
          (F.mul price price) in
      (
        IndState.reversion (set buf head price) (grow filled window) ((head + 1) % window) window
            sum' sum_sq',
        reversion_signal F (grow filled window) window sum' sum_sq' price,
        rw there refl,
        (
          size,
          rw size (mod_below _ window (omega arith)),
          rw size (grow-le filled window (omega arith)),
        ),
      )

  indicator-total :
      (update : IndState Float → Float → Option (IndState Float × Float))
      → ((s : IndState Float) (price : Float) → RingIsValid s → Gives (update s price))
      → (slot : ℕ) (price : Float) (m : Machine Float) → slot < length m.state
      → AllRings m.state
      → (m' : Machine Float) × (indicator F update slot price m ≡ some m')
        × AllRings m'.state
        × (length m'.state ≡ length m.state)
  unfolding indicator
  indicator-total update gives slot price m h v =
      let (s, there) = get_elem?-below m.state slot h in
      let (s', x, given, valid) = gives s price (AllRings-get_elem? m.state slot s there v) in
      (
        record m { state = set m.state slot s'; stack = push F x m.stack },
        rw (there, given) refl,
        AllRings-set m.state slot s' valid v,
        length-set m.state slot s',
      )

  -- A run of the loop ends in a machine that is as good as the one it began with.
  Steps : Option (Machine Float) → Machine Float → Type 0
  Steps r m =
      (m' : Machine Float) × (r ≡ some m') × AllRings m'.state × (length m'.state ≡ length m.state)

  step-total :
      (price : Float) (op : Op Float) (ops : List (Op Float)) (m : Machine Float)
      → SlotsBelow (length m.state) (op ∷ ops)
      → AllRings m.state
      → Steps (step F price op m) m × SlotsBelow (length m.state) ops
  unfolding step Steps
  step-total price (Op.ema slot _) ops m w v =
      (indicator-total _ ema_update-Gives slot price m w.0 v, w.1)
  step-total price (Op.momentum slot _) ops m w v =
      (indicator-total _ momentum_update-Gives slot price m w.0 v, w.1)
  step-total price (Op.reversion slot _) ops m w v =
      (indicator-total _ reversion_update-Gives slot price m w.0 v, w.1)
  step-total price Op.push_price ops m w v = ((_, refl, v, refl), w)
  step-total price (Op.push_const c) ops m w v = ((_, refl, v, refl), w)
  step-total price Op.gt ops m w v = ((_, refl, v, refl), w)
  step-total price Op.lt ops m w v = ((_, refl, v, refl), w)
  step-total price Op.ge ops m w v = ((_, refl, v, refl), w)
  step-total price Op.le ops m w v = ((_, refl, v, refl), w)
  step-total price Op.eq ops m w v = ((_, refl, v, refl), w)
  step-total price Op.and ops m w v = ((_, refl, v, refl), w)
  step-total price Op.or ops m w v = ((_, refl, v, refl), w)
  step-total price Op.not ops m w v = ((_, refl, v, refl), w)
  step-total price Op.buy ops m w v = ((_, refl, v, refl), w)
  step-total price Op.sell ops m w v = ((_, refl, v, refl), w)

  exec-total :
      (price : Float) (ops : List (Op Float)) (m : Machine Float)
      → SlotsBelow (length m.state) ops
      → AllRings m.state
      → Steps (exec F price ops m) m
  unfolding exec Steps
  exec-total price [] m w v = (m, refl, v, refl)
  exec-total price (op ∷ ops) m w v =
      let ((m', stepped, v', e), w') = step-total price op ops m w v in
      let (m'', done, v'', e') =
        exec-total price ops m' (subst (λ n. SlotsBelow n ops) (sym e) w') v' in
      (m'', rw stepped done, v'', e' ∙ e)

  -- On a machine whose rings are valid and whose slots are there, a run ends with a decision and
  -- does not panic, and leaves such a machine, with the same program.
  pub run-total :
      (price : Float) (vm : Vm Float)
      → AllRings vm.state
      → SlotsBelow (length vm.state) vm.prog
      → (vm' : Vm Float) × (d : VmDecision Float) × (run F price vm ≡ some (vm', d))
        × (vm'.prog ≡ vm.prog)
        × AllRings vm'.state
        × (length vm'.state ≡ length vm.state)
  unfolding run Steps
  run-total price vm v w =
      let (m, done, v', e) =
        exec-total price vm.prog
          (record { state = vm.state; stack = []; decision = VmDecision.hold }) w v in
      (record vm { state = m.state; stack = m.stack }, m.decision, rw done refl, refl, v', e)

-- ===== src/Vm.antt =====
-- src/bytecode.rs: the stack machine that runs a compiled strategy once per tick.
-- A panic (an index out of range) is `none`. The live part `stack[..sp]` of the fixed array is a
-- list, top first. The ring buffers are lists of fixed length.
pub mod Total
pub mod Bytes
pub mod Listing
pub mod Ring
pub mod Momentum
pub mod Depth
use rust_hotpath_ipc.Prelude.{
  ◌>>=◌, ℕ, zero, suc, ◌+◌, ◌-◌, ◌*◌, ◌/◌, ◌%◌, ◌^◌, Bool, true, false, ◌&&◌, ◌||◌, Option, none,
  some, List, [], ◌∷◌, ◌++◌, ltb, leb, ◌==◌, if◌then◌else◌, length, get_elem?, set, replicate,
}
use rust_hotpath_ipc.Float.{F64, clamp_unit}

abbrev pub stack_cap : ℕ
stack_cap = 32

pub data Op (A : Type 0) : Type 0 where
  push_price : Op A
  push_const : A → Op A
  ema : ℕ → ℕ → Op A
  momentum : ℕ → ℕ → Op A
  reversion : ℕ → ℕ → Op A
  gt lt ge le eq : Op A
  and or not : Op A
  buy sell : Op A

-- `Op::opcode`.
unfoldable pub opcode : {A : Type 0} → Op A → ℕ
opcode Op.push_price = 0x41
opcode (Op.push_const _) = 0x40
opcode (Op.ema _ _) = 0x60
opcode (Op.momentum _ _) = 0x61
opcode (Op.reversion _ _) = 0x62
opcode Op.gt = 0x50
opcode Op.lt = 0x51
opcode Op.ge = 0x52
opcode Op.le = 0x53
opcode Op.eq = 0x54
opcode Op.and = 0x10
opcode Op.or = 0x11
opcode Op.not = 0x12
opcode Op.buy = 0x30
opcode Op.sell = 0x31

unfoldable pub is_stateful : {A : Type 0} → Op A → Bool
is_stateful (Op.ema _ _) = true
is_stateful (Op.momentum _ _) = true
is_stateful (Op.reversion _ _) = true
is_stateful _ = false

pub data IndState (A : Type 0) : Type 0 where
  ema : A → A → Bool → IndState A
  momentum : List A → ℕ → ℕ → ℕ → IndState A
  reversion : List A → ℕ → ℕ → ℕ → A → A → IndState A

pub data VmDecision (A : Type 0) : Type 0 where
  buy : A → VmDecision A
  sell : A → VmDecision A
  hold : VmDecision A

pub record Vm (A : Type 0) : Type 0 where
  pub prog : List (Op A)
  pub state : List (IndState A)
  pub stack : List A

-- The fields of `Vm` that a run changes, and its decision so far.
pub record Machine (A : Type 0) : Type 0 where
  pub state : List (IndState A)
  pub stack : List A
  pub decision : VmDecision A

abbrev pub filter_map {ℓ κ} : {A : Type ℓ} {B : Type κ} → (A → Option B) → List A → List B
filter_map f [] = []
filter_map f (x ∷ xs) = elim (f x) [ none ↦ filter_map f xs | some y ↦ y ∷ filter_map f xs ]

-- `if *filled < size { *filled += 1 }`.
abbrev pub grow : ℕ → ℕ → ℕ
grow filled size = if ltb filled size then filled + 1 else filled

module _ (F : F64) where
  open F use {Float, num, decimal, neg, add, sub, mul, div, sqrt, abs, same}

  -- `IndState::for_op`.
  unfoldable pub for_op : Op Float → Option (IndState Float)
  for_op (Op.ema slot period) =
      some (IndState.ema (div (num 2) (add (num period) (num 1))) (num 0) false)
  for_op (Op.momentum slot lookback) =
      some (IndState.momentum (replicate (lookback + 1) (num 0)) 0 0 lookback)
  for_op (Op.reversion slot window) =
      some (IndState.reversion (replicate window (num 0)) 0 0 window (num 0) (num 0))
  for_op _ = none

  -- The new state and the value that is pushed.
  unfoldable pub ema_update : IndState Float → Float → IndState Float × Float
  ema_update (IndState.ema alpha value init) price =
      let next = if init then add value (mul alpha (sub price value)) else price in
      (IndState.ema alpha next true, next)
  ema_update s price = (s, num 0)

  -- The oldest price is the one at the head, which the next price will replace.
  unfoldable pub momentum_signal : List Float → ℕ → ℕ → ℕ → Float → Option Float
  momentum_signal buf filled head lookback now = if leb filled lookback then some (num 0) else do
    oldest ← get_elem? buf head
    if same oldest (num 0)
        then some (num 0)
        else some (clamp_unit F (div (mul (div (sub now oldest) oldest) (num 10_000)) (num 25)))

  unfoldable pub momentum_update : IndState Float → Float → Option (IndState Float × Float)
  momentum_update (IndState.momentum buf filled head lookback) price = do
    _ ← get_elem? buf head
    let buf' = set buf head price
    let head' = (head + 1) % length buf
    let filled' = grow filled (length buf)
    v ← momentum_signal buf' filled' head' lookback price
    some (IndState.momentum buf' filled' head' lookback, v)
  momentum_update s price = some (s, num 0)

  unfoldable pub reversion_signal : ℕ → ℕ → Float → Float → Float → Float
  reversion_signal filled window sum sum_sq price =
      let n = num window in
      let mean = div sum n in
      let var = sub (div sum_sq n) (mul mean mean) in
      if ltb filled window
      then num 0
      else if F.le var (decimal 1 12)
      then num 0
      else clamp_unit F (div (neg (div (sub price mean) (sqrt var))) (num 2))

  unfoldable pub reversion_update : IndState Float → Float → Option (IndState Float × Float)
  reversion_update (IndState.reversion buf filled head window sum sum_sq) price = do
    old ← get_elem? buf head
    let full = filled == window
    let sum' = add (if full then sub sum old else sum) price
    let sum_sq' = add (if full then sub sum_sq (mul old old) else sum_sq) (mul price price)
    let head' = (head + 1) % window
    let filled' = grow filled window
    some (
      IndState.reversion (set buf head price) filled' head' window sum' sum_sq',
      reversion_signal filled' window sum' sum_sq' price,
    )
  reversion_update s price = some (s, num 0)

  -- `Vm::new`.
  unfoldable pub new_vm : List (Op Float) → Vm Float
  unfolding for_op
  new_vm prog = record { prog = prog; state = filter_map for_op prog; stack = [] }

  unfoldable pub bool_f64 : Bool → Float
  bool_f64 b = if b then num 1 else num 0

  -- A push onto a full stack does nothing; a pop of an empty one gives 0.
  unfoldable pub push : Float → List Float → List Float
  push v stack = if ltb (length stack) stack_cap then v ∷ stack else stack

  unfoldable pub pop : List Float → Float × List Float
  pop [] = (num 0, [])
  pop (v ∷ stack) = (v, stack)

  abbrev pub truthy : Float → Bool
  truthy x = F.lt (num 0) x

  abbrev unary : (Float → Bool) → List Float → List Float
  unfolding push pop bool_f64
  unary test stack = let (a, rest) = pop stack in push (bool_f64 (test a)) rest

  abbrev binary : (Float → Float → Bool) → List Float → List Float
  unfolding push pop bool_f64
  binary test stack =
      let (b, below) = pop stack in let (a, rest) = pop below in push (bool_f64 (test a b)) rest

  abbrev on_stack : (List Float → List Float) → Machine Float → Option (Machine Float)
  on_stack f m = some (record m { stack = f m.stack })

  -- Update the indicator at `slot` and push what it gives.
  unfoldable pub indicator :
      (IndState Float → Float → Option (IndState Float × Float))
      → ℕ
      → Float
      → Machine Float
      → Option (Machine Float)
  unfolding push
  indicator update slot price m = do
    s ← get_elem? m.state slot
    (s', v) ← update s price
    some (record m { state = set m.state slot s'; stack = push v m.stack })

  abbrev decide_on : Float → VmDecision Float → Machine Float → List Float → Machine Float
  decide_on c d m rest = record m { stack = rest; decision = if truthy c then d else m.decision }

  -- One turn of the loop of `run`.
  unfoldable pub step : Float → Op Float → Machine Float → Option (Machine Float)
  unfolding push pop bool_f64 indicator ema_update momentum_update reversion_update momentum_signal
      reversion_signal
  step price Op.push_price m = on_stack (push price) m
  step price (Op.push_const c) m = on_stack (push c) m
  step price (Op.ema slot _) m = indicator (λ s p. some (ema_update s p)) slot price m
  step price (Op.momentum slot _) m = indicator momentum_update slot price m
  step price (Op.reversion slot _) m = indicator reversion_update slot price m
  step price Op.gt m = on_stack (binary λ a b. F.lt b a) m
  step price Op.lt m = on_stack (binary λ a b. F.lt a b) m
  step price Op.ge m = on_stack (binary λ a b. F.le b a) m
  step price Op.le m = on_stack (binary λ a b. F.le a b) m
  step price Op.eq m = on_stack (binary λ a b. F.lt (abs (sub a b)) (decimal 1 10)) m
  step price Op.and m = on_stack (binary λ a b. truthy a && truthy b) m
  step price Op.or m = on_stack (binary λ a b. truthy a || truthy b) m
  step price Op.not m = on_stack (unary λ a. F.le a (num 0)) m
  step price Op.buy m = let (c, rest) = pop m.stack in some (decide_on c (VmDecision.buy c) m rest)
  step price Op.sell m =
      let (c, rest) = pop m.stack in some (decide_on c (VmDecision.sell c) m rest)

  unfoldable pub exec : Float → List (Op Float) → Machine Float → Option (Machine Float)
  unfolding step
  exec price [] m = some m
  exec price (op ∷ ops) m = step price op m >>= exec price ops

  -- `Vm::run`.
  unfoldable pub run : Float → Vm Float → Option (Vm Float × VmDecision Float)
  unfolding exec
  run price vm = do
    m ← exec price vm.prog (record { state = vm.state; stack = []; decision = VmDecision.hold })
    some (record vm { state = m.state; stack = m.stack }, m.decision)

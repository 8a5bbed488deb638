-- ===== src/Compiler/Shape.antt =====
-- The shape of the code that src/compiler.rs emits: how deep it leaves the stack, and the order in
-- which it hands out state slots.
use rust_hotpath_ipc.Prelude.{
  ◌>>=◌, ℕ, zero, suc, ◌+◌, ◌≡◌, refl, sym, ap, ◌∙◌, Option, none, some, List, [], ◌∷◌, ◌++◌,
  append_assoc, append-nil, ◌==◌, if◌then◌else◌, Option-cases, inl, inr,
}
use rust_hotpath_ipc.Vm.{Op}
use rust_hotpath_ipc.Compiler.{Lowerer, emit}

-- A count that each op may change or refuse.
unfoldable pub scan : {A : Type 0} → (Op A → ℕ → Option ℕ) → ℕ → List (Op A) → Option ℕ
scan f n [] = some n
scan f n (op ∷ ops) = f op n >>= λ m. scan f m ops

pub scan-append :
    {A : Type 0} (f : Op A → ℕ → Option ℕ) (n : ℕ) (xs ys : List (Op A))
    → scan f n (xs ++ ys) ≡ (scan f n xs >>= λ m. scan f m ys)
unfolding scan
scan-append f n [] ys = refl
scan-append f n (op ∷ xs) ys = elim (Option-cases (f op n)) [
  | inl none_there ↦ rw none_there refl
  | inr (m, there) ↦ rw there (scan-append f m xs ys)
]

abbrev pop_two : ℕ → Option ℕ
pop_two (suc (suc d)) = some (suc d)
pop_two _ = none

abbrev pop_one : ℕ → Option ℕ → Option ℕ
pop_one (suc d) _ = some d
pop_one zero _ = none

-- How deep the stack is after an op; no operand, no step.
unfoldable pub depth_step : {A : Type 0} → Op A → ℕ → Option ℕ
depth_step Op.push_price d = some (suc d)
depth_step (Op.push_const _) d = some (suc d)
depth_step (Op.ema _ _) d = some (suc d)
depth_step (Op.momentum _ _) d = some (suc d)
depth_step (Op.reversion _ _) d = some (suc d)
depth_step Op.gt d = pop_two d
depth_step Op.lt d = pop_two d
depth_step Op.ge d = pop_two d
depth_step Op.le d = pop_two d
depth_step Op.eq d = pop_two d
depth_step Op.and d = pop_two d
depth_step Op.or d = pop_two d
depth_step Op.not zero = none
depth_step Op.not (suc d) = some (suc d)
depth_step Op.buy d = pop_one d none
depth_step Op.sell d = pop_one d none

-- The slots are handed out in order, from a first one on.
unfoldable pub slot_step : {A : Type 0} → Op A → ℕ → Option ℕ
slot_step (Op.ema slot _) n = if slot == n then some (n + 1) else none
slot_step (Op.momentum slot _) n = if slot == n then some (n + 1) else none
slot_step (Op.reversion slot _) n = if slot == n then some (n + 1) else none
slot_step _ n = some n

abbrev pub above : ℕ → ℕ → ℕ
above zero d = d
above (suc a) d = suc (above a d)

-- From `lo` to `lo'` code was emitted that takes `a` operands and leaves `b`, with the next slots.
pub record Emits {A : Type 0} (a b : ℕ) (lo lo' : Lowerer A) : Type 0 where
  pub code : List (Op A)
  pub prog : lo'.prog ≡ lo.prog ++ code
  pub depth : (d : ℕ) → scan depth_step (above a d) code ≡ some (above b d)
  pub slots : scan slot_step lo.next_slot code ≡ some lo'.next_slot
  pub on_stack : lo'.on_stack ≡ lo.on_stack

pub Emits-then :
    {A : Type 0} {a b c : ℕ} {lo lo' lo'' : Lowerer A}
    → Emits a b lo lo'
    → Emits b c lo' lo''
    → Emits a c lo lo''
Emits-then e f = record {
  code = e.code ++ f.code;
  prog = f.prog ∙ ap (λ p. p ++ f.code) e.prog ∙ append_assoc _ e.code f.code;
  depth = λ d. scan-append depth_step _ e.code f.code ∙ rw (e.depth d) (f.depth d);
  slots = scan-append slot_step _ e.code f.code ∙ rw (e.slots) (f.slots);
  on_stack = f.on_stack ∙ e.on_stack;
}

pub Emits-none : {A : Type 0} {a : ℕ} (lo : Lowerer A) → Emits a a lo lo
unfolding scan
Emits-none lo = record {
  code = [];
  prog = sym (append-nil lo.prog);
  depth = λ d. refl;
  slots = refl;
  on_stack = refl;
}

-- One op that takes no slot.
pub Emits-op :
    {A : Type 0} (a b : ℕ) (op : Op A) (lo : Lowerer A)
    → ((d : ℕ) → depth_step op (above a d) ≡ some (above b d))
    → ((n : ℕ) → slot_step op n ≡ some n)
    → Emits a b lo (emit op lo)
unfolding scan
Emits-op a b op lo h k = record {
  code = op ∷ [];
  prog = refl;
  depth = λ d. rw (h d) refl;
  slots = rw (k lo.next_slot) refl;
  on_stack = refl;
}

-- One op that takes the next slot.
pub Emits-slot :
    {A : Type 0} (op : ℕ → Op A) (lo : Lowerer A)
    → ((s d : ℕ) → depth_step (op s) d ≡ some (suc d))
    → ((n : ℕ) → slot_step (op n) n ≡ some (n + 1))
    → Emits 0 1 lo (emit (op lo.next_slot) (record lo { next_slot = lo.next_slot + 1 }))
unfolding scan
Emits-slot op lo h k = record {
  code = op lo.next_slot ∷ [];
  prog = refl;
  depth = λ d. rw (h lo.next_slot d) refl;
  slots = rw (k lo.next_slot) refl;
  on_stack = refl;
}

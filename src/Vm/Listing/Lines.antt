-- ===== src/Vm/Listing/Lines.antt =====
-- src/bytecode.rs, `disassemble`: the lines of a listing.
use rust_hotpath_ipc.Prelude.{
  ℕ, zero, suc, ◌+◌, ◌-◌, ◌/◌, ◌%◌, ◌≡◌, ◌<◌, refl, List, [], ◌∷◌, ◌++◌, arith, ◌∙◌, ◌==◌,
  if◌then◌else◌, length, replicate,
}
use rust_hotpath_ipc.Prelude.Text.{Text, codes}
use rust_hotpath_ipc.Vm.{Op, opcode}
use rust_hotpath_ipc.Vm.Listing.{
  mnemonic, digits, show_nat, pad_left, show_byte, operand, line, disassemble_from, disassemble,
}

-- How many lines a text ends.
unfoldable pub lines : Text → ℕ
lines [] = 0
lines (c ∷ t) = (if c == b'\n' then 1 else 0) + lines t

pub lines-append : (s t : Text) → lines (s ++ t) ≡ lines s + lines t
unfolding lines
lines-append [] t = omega arith
lines-append (c ∷ s) t = omega (arith, lines-append s t)

lines-digits : (f n : ℕ) → lines (digits f n) ≡ 0
unfolding lines digits
lines-digits zero n = refl
lines-digits (suc f) n =
    ground (arith, lines-digits f (n / 10), lines-append (digits f (n / 10)) ((n % 10 + b'0') ∷ []))

lines-replicate : (n : ℕ) → lines (replicate n b' ') ≡ 0
unfolding lines
lines-replicate zero = refl
lines-replicate (suc n) = omega (arith, lines-replicate n)

lines-show_byte : (b : ℕ) → b < 256 → lines (show_byte b) ≡ 0
unfolding lines show_byte
lines-show_byte b h = ground arith

pub lines-show_nat : (n : ℕ) → lines (show_nat n) ≡ 0
unfolding show_nat
lines-show_nat n = lines-digits (suc n) n

lines-pad_left : (width : ℕ) (t : Text) → lines (pad_left width t) ≡ lines t
unfolding pad_left
lines-pad_left width t =
    omega (
      arith,
      lines-append (replicate (width - length t) b' ') t,
      lines-replicate (width - length t),
    )

lines-mnemonic : {A : Type 0} (op : Op A) → lines (mnemonic op) ≡ 0
unfolding mnemonic lines
lines-mnemonic Op.push_price = refl
lines-mnemonic _ = refl

opcode-lt : {A : Type 0} (op : Op A) → opcode op < 256
unfolding opcode
opcode-lt Op.push_price = omega arith
opcode-lt _ = omega arith

lines-codes : (s t : Text) → lines s ≡ 0 → lines (s ++ t) ≡ lines t
lines-codes s t h = omega (arith, lines-append s t)

module _ {A : Type 0} (show : A → Text) (flat : (c : A) → lines (show c) ≡ 0) where
  lines-named :
      (name : Text) (n slot : ℕ)
      → lines name ≡ 0
      → lines (name ++ (show_nat n ++ (codes " slot=" ++ show_nat slot))) ≡ 0
  lines-named name n slot h =
      lines-codes name _ h
      ∙ lines-codes (show_nat n) _ (lines-show_nat n)
      ∙ lines-codes (codes " slot=") _ (unfold lines in refl)
      ∙ lines-show_nat slot

  lines-operand : (op : Op A) → lines (operand show op) ≡ 0
  unfolding operand lines
  lines-operand (Op.push_const c) = omega (arith, flat c)
  lines-operand (Op.ema slot n) = lines-named (codes " period=") n slot refl
  lines-operand (Op.momentum slot n) = lines-named (codes " lookback=") n slot refl
  lines-operand (Op.reversion slot n) = lines-named (codes " window=") n slot refl
  lines-operand _ = refl

  lines-line : (i : ℕ) (op : Op A) → lines (line show i op) ≡ 1
  unfolding line
  lines-line i op =
      lines-codes (pad_left 3 (show_nat i)) _ (lines-pad_left 3 (show_nat i) ∙ lines-show_nat i)
      ∙ lines-codes (codes "  0x") _ (unfold lines in refl)
      ∙ lines-codes (show_byte (opcode op)) _ (lines-show_byte (opcode op) (opcode-lt op))
      ∙ lines-codes (codes "  ") _ (unfold lines in refl)
      ∙ lines-codes (mnemonic op) _ (lines-mnemonic op)
      ∙ lines-codes (operand show op) _ (lines-operand op)
      ∙ (unfold lines in refl)

  lines-disassemble_from :
      (i : ℕ) (ops : List (Op A)) → lines (disassemble_from show i ops) ≡ length ops
  unfolding disassemble_from
  lines-disassemble_from i [] = unfold lines in refl
  lines-disassemble_from i (op ∷ ops) = omega (
    arith,
    lines-append (line show i op) (disassemble_from show (i + 1) ops),
    lines-line i op,
    lines-disassemble_from (i + 1) ops,
  )

  -- The disassembly of a program has one line for each of its operations: provided that floats
  -- are written without line feeds.
  pub lines-disassemble : (prog : List (Op A)) → lines (disassemble show prog) ≡ length prog
  unfolding disassemble
  lines-disassemble prog = lines-disassemble_from 0 prog

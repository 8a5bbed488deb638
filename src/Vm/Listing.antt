-- ===== src/Vm/Listing.antt =====
-- src/bytecode.rs, `disassemble`: a program as text, one instruction to a line.
-- `show` writes a float (`{c}`).
pub mod Lines
use rust_hotpath_ipc.Prelude.{
  ℕ, zero, suc, ◌+◌, ◌-◌, ◌/◌, ◌%◌, ◌≡◌, ◌<◌, refl, Bool, true, false, List, [], ◌∷◌, ◌++◌, arith,
  ◌∙◌, ltb, ◌==◌, if◌then◌else◌, length, replicate,
}
use rust_hotpath_ipc.Prelude.Text.{Text, codes}
use rust_hotpath_ipc.Vm.{Op, opcode}

-- `Op::mnemonic`.
unfoldable pub mnemonic : {A : Type 0} → Op A → Text
mnemonic Op.push_price = codes "PUSH_PRICE"
mnemonic (Op.push_const _) = codes "PUSH_CONST"
mnemonic (Op.ema _ _) = codes "EMA"
mnemonic (Op.momentum _ _) = codes "MOMENTUM"
mnemonic (Op.reversion _ _) = codes "REVERSION"
mnemonic Op.gt = codes "GT"
mnemonic Op.lt = codes "LT"
mnemonic Op.ge = codes "GE"
mnemonic Op.le = codes "LE"
mnemonic Op.eq = codes "EQ"
mnemonic Op.and = codes "AND"
mnemonic Op.or = codes "OR"
mnemonic Op.not = codes "NOT"
mnemonic Op.buy = codes "BUY"
mnemonic Op.sell = codes "SELL"

-- The decimal digits of a number; its successor is fuel enough.
unfoldable pub digits : ℕ → ℕ → Text
digits zero n = []
digits (suc f) n =
    let front = digits f (n / 10) in
    if ltb n 10 then (n + b'0') ∷ [] else front ++ ((n % 10 + b'0') ∷ [])

unfoldable pub show_nat : ℕ → Text
unfolding digits
show_nat n = digits (suc n) n

-- `{:>3}`
unfoldable pub pad_left : ℕ → Text → Text
pad_left width t = replicate (width - length t) b' ' ++ t

abbrev hex_digit : ℕ → ℕ
hex_digit n = if ltb n 10 then n + b'0' else n - 10 + b'A'

-- `{:02X}` of a byte.
unfoldable pub show_byte : ℕ → Text
show_byte b = hex_digit (b / 16) ∷ hex_digit (b % 16) ∷ []

module _ {A : Type 0} (show : A → Text) where
  unfoldable pub operand : Op A → Text
  unfolding show_nat
  operand (Op.push_const c) = b' ' ∷ show c
  operand (Op.ema slot period) =
      codes " period=" ++ (show_nat period ++ (codes " slot=" ++ show_nat slot))
  operand (Op.momentum slot lookback) =
      codes " lookback=" ++ (show_nat lookback ++ (codes " slot=" ++ show_nat slot))
  operand (Op.reversion slot window) =
      codes " window=" ++ (show_nat window ++ (codes " slot=" ++ show_nat slot))
  operand _ = []

  unfoldable pub line : ℕ → Op A → Text
  unfolding mnemonic operand pad_left show_nat show_byte opcode
  line i op =
      pad_left 3 (show_nat i)
      ++ (codes "  0x"
          ++ (show_byte (opcode op) ++ (codes "  " ++ (mnemonic op ++ (operand op ++ codes "\n")))))

  unfoldable pub disassemble_from : ℕ → List (Op A) → Text
  unfolding line
  disassemble_from i [] = []
  disassemble_from i (op ∷ ops) = line i op ++ disassemble_from (i + 1) ops

  unfoldable pub disassemble : List (Op A) → Text
  unfolding disassemble_from
  disassemble prog = disassemble_from 0 prog

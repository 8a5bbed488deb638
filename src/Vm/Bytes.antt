-- ===== src/Vm/Bytes.antt =====
-- src/bytecode.rs, `program_to_bytes`: the flat byte form of a program.
-- `to_le_bytes` is `f64::to_le_bytes`, and `of_le_bytes` its inverse `f64::from_le_bytes`.
pub mod RoundTrip
use rust_hotpath_ipc.Prelude.{
  ◌>>=◌, ℕ, zero, suc, ◌+◌, ◌*◌, ◌/◌, ◌%◌, ◌^◌, Option, none, some, List, [], ◌∷◌, ◌++◌, ◌==◌,
  if◌then◌else◌, length, take, drop,
}
use rust_hotpath_ipc.Vm.{Op, opcode}

-- `(n as u16).to_le_bytes()`: the cast drops what is above 16 bits.
unfoldable pub u16_le : ℕ → List ℕ
u16_le n = let w = n % 2 ^ 16 in w % 256 ∷ w / 256 ∷ []

module _ {A : Type 0} (to_le_bytes : A → List ℕ) where
  -- What follows an opcode.
  unfoldable pub operand_bytes : Op A → List ℕ
  unfolding u16_le
  operand_bytes (Op.push_const c) = to_le_bytes c
  operand_bytes (Op.ema slot period) = u16_le period
  operand_bytes (Op.momentum slot lookback) = u16_le lookback
  operand_bytes (Op.reversion slot window) = u16_le window
  operand_bytes _ = []

  unfoldable pub program_to_bytes : List (Op A) → List ℕ
  unfolding opcode operand_bytes
  program_to_bytes [] = []
  program_to_bytes (op ∷ ops) = opcode op ∷ (operand_bytes op ++ program_to_bytes ops)

-- A reader of that form, by the table of opcodes: an operation, the bytes behind it and the next
-- slot. Slots are not written; they are handed out in order.
unfoldable pub u16_of : List ℕ → Option (ℕ × List ℕ)
u16_of (a ∷ b ∷ rest) = some (a + 256 * b, rest)
u16_of _ = none

module _ {A : Type 0} (of_le_bytes : List ℕ → A) where
  unfoldable pub with_period : (ℕ → ℕ → Op A) → ℕ → List ℕ → Option (Op A × ℕ × List ℕ)
  unfolding u16_of
  with_period op slot bytes = do (n, rest) ← u16_of bytes; some (op slot n, slot + 1, rest)

  unfoldable pub read_op : ℕ → ℕ → List ℕ → Option (Op A × ℕ × List ℕ)
  unfolding with_period
  read_op slot code bytes =
      if code == 0x41
      then some (Op.push_price, slot, bytes)
      else if code == 0x40
      then some (Op.push_const (of_le_bytes (take 8 bytes)), slot, drop 8 bytes)
      else if code == 0x60
      then with_period Op.ema slot bytes
      else if code == 0x61
      then with_period Op.momentum slot bytes
      else if code == 0x62
      then with_period Op.reversion slot bytes
      else if code == 0x50
      then some (Op.gt, slot, bytes)
      else if code == 0x51
      then some (Op.lt, slot, bytes)
      else if code == 0x52
      then some (Op.ge, slot, bytes)
      else if code == 0x53
      then some (Op.le, slot, bytes)
      else if code == 0x54
      then some (Op.eq, slot, bytes)
      else if code == 0x10
      then some (Op.and, slot, bytes)
      else if code == 0x11
      then some (Op.or, slot, bytes)
      else if code == 0x12
      then some (Op.not, slot, bytes)
      else if code == 0x30
      then some (Op.buy, slot, bytes)
      else if code == 0x31
      then some (Op.sell, slot, bytes)
      else none

  -- Each round reads at least one byte, so the number of bytes is fuel enough.
  unfoldable pub read_program : ℕ → ℕ → List ℕ → Option (List (Op A))
  unfolding read_op
  read_program fuel slot [] = some []
  read_program zero slot (code ∷ bytes) = none
  read_program (suc fuel) slot (code ∷ bytes) = do
    (op, slot', rest) ← read_op slot code bytes
    ops ← read_program fuel slot' rest
    some (op ∷ ops)

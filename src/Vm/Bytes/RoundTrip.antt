-- ===== src/Vm/Bytes/RoundTrip.antt =====
-- src/bytecode.rs, `program_to_bytes`: the program that its bytes stand for.
use rust_hotpath_ipc.Prelude.{
  ℕ, zero, suc, ◌≤◌, ◌<◌, ◌^◌, ◌≡◌, refl, ap, inl, inr, none, some, Option-cases, List, [], ◌∷◌,
  ◌++◌, arith, length, length-append, take, drop,
}
use rust_hotpath_ipc.Vm.{Op, opcode}
use rust_hotpath_ipc.Vm.Bytes.{operand_bytes, program_to_bytes, read_op, read_program}
use rust_hotpath_ipc.Compiler.Shape.{scan, slot_step}

abbrev pub period_of : {A : Type 0} → Op A → ℕ
period_of (Op.ema slot period) = period
period_of (Op.momentum slot lookback) = lookback
period_of (Op.reversion slot window) = window
period_of _ = 0

-- Every period fits into 16 bits.
unfoldable pub PeriodsFit : {A : Type 0} → List (Op A) → Type 0
PeriodsFit [] = Unit {0}
PeriodsFit (op ∷ ops) = (period_of op < 2 ^ 16) × PeriodsFit ops

module _ {ℓ} {A : Type ℓ} where
  take-append : (n : ℕ) (xs ys : List A) → length xs ≡ n → take n (xs ++ ys) ≡ xs
  take-append zero [] ys h = refl
  take-append zero (x ∷ xs) ys h = absurd (omega arith)
  take-append (suc n) [] ys h = absurd (omega arith)
  take-append (suc n) (x ∷ xs) ys h = ap (◌∷◌ x) (take-append n xs ys (omega arith))

  drop-append : (n : ℕ) (xs ys : List A) → length xs ≡ n → drop n (xs ++ ys) ≡ ys
  drop-append zero [] ys h = refl
  drop-append zero (x ∷ xs) ys h = absurd (omega arith)
  drop-append (suc n) [] ys h = absurd (omega arith)
  drop-append (suc n) (x ∷ xs) ys h = drop-append n xs ys (omega arith)

module _ {A : Type 0} (to_le_bytes : A → List ℕ) (of_le_bytes : List ℕ → A)
    (eight : (c : A) → length (to_le_bytes c) ≡ 8)
    (back : (c : A) → of_le_bytes (to_le_bytes c) ≡ c) where
  read_op-operand_bytes :
      (op : Op A) (slot next : ℕ) (rest : List ℕ)
      → slot_step op slot ≡ some next
      → period_of op < 2 ^ 16
      → read_op of_le_bytes slot (opcode op) (operand_bytes to_le_bytes op ++ rest)
        ≡ some (op, next, rest)
  unfolding read_op opcode operand_bytes slot_step
  read_op-operand_bytes (Op.push_const c) slot next rest s h =
      rw
        (
          take-append 8 (to_le_bytes c) rest (eight c),
          drop-append 8 (to_le_bytes c) rest (eight c),
          back c,
        )
        (ground arith)
  read_op-operand_bytes op slot next rest s h = ground arith

  -- The bytes of a program are read back as that program, operation by operation with constants,
  -- periods and slots, with any fuel from the number of bytes on: provided that the program's
  -- slots are handed out in order from the first, that its periods are below 2^16, and that a
  -- float is eight bytes, from which it is read back.
  pub read_program-program_to_bytes :
      (prog : List (Op A)) (fuel slot last : ℕ)
      → scan slot_step slot prog ≡ some last
      → PeriodsFit prog
      → length (program_to_bytes to_le_bytes prog) ≤ fuel
      → read_program of_le_bytes fuel slot (program_to_bytes to_le_bytes prog) ≡ some prog
  unfolding read_program program_to_bytes scan PeriodsFit
  read_program-program_to_bytes [] fuel slot last s p h = refl
  read_program-program_to_bytes (op ∷ ops) zero slot last s p h = absurd (omega arith)
  read_program-program_to_bytes (op ∷ ops) (suc fuel) slot last s p h =
      elim (Option-cases (slot_step op slot)) [
        | inl out ↦ (let bad : none ≡ some last = rw out at s in cc)
        | inr (next, there) ↦ rw (
          read_op-operand_bytes op slot next (program_to_bytes to_le_bytes ops) there p.0,
          read_program-program_to_bytes ops fuel next last (rw there at s) p.1 (
              omega (
                arith,
                length-append (operand_bytes to_le_bytes op) (program_to_bytes to_le_bytes ops),
              )),
        )
      ]

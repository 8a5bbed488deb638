-- ===== src/Json/Total.antt =====
-- src/compiler.rs, `mod mini_json`: the reader on any bytes.
use rust_hotpath_ipc.Prelude.{
  ℕ, zero, suc, ◌+◌, ◌*◌, ◌≤◌, ◌<◌, ◌≡◌, ◌≢◌, Bool, true, false, inl, inr, Bool-cases, Option, none,
  Option-cases, [], ◌∷◌, arith, ◌==◌, if◌then◌else◌, length, drop, length-drop,
}
use rust_hotpath_ipc.Prelude.Text.{Text}
use rust_hotpath_ipc.Json.{
  Json, Items, Fields, no_fields, Parsed, ok, err, stuck, ◌>>=◌, skip_ws, starts, chars, string_at,
  parse_str, num_chars, skip_comma, number, parse_num, value_at, entry_at, item_at, parse_value,
  parse_obj, parse_arr, parse,
}

-- An error, or fewer than `n` bytes left.
pub data Leaves {ℓ} {B : Type ℓ} (n : ℕ) : Parsed B → Type ℓ where
  left : {b : B} {rest : Text} → length rest < n → Leaves n (ok b rest)
  failed : {e : _} → Leaves n (err e)

module _ {ℓ} {B : Type ℓ} where
  Leaves-stuck : {n : ℕ} {p : Parsed B} → Leaves n p → p ≢ stuck
  Leaves-stuck (left h) e = cc
  Leaves-stuck failed e = cc

  pub Leaves-bind {κ} :
      {C : Type κ} {n m : ℕ} {p : Parsed B} {f : B → Text → Parsed C}
      → Leaves n p
      → ((b : B) (rest : Text) → length rest < n → Leaves m (f b rest))
      → Leaves m (p >>= f)
  Leaves-bind (left h) k = k _ _ h
  Leaves-bind failed k = failed

  Leaves-mono : {n m : ℕ} {p : Parsed B} → Leaves n p → n ≤ m → Leaves m p
  Leaves-mono (left h) k = left (omega arith)
  Leaves-mono failed k = failed

  Leaves-if :
      {n : ℕ} (b : Bool) {p q : Parsed B} → Leaves n p → Leaves n q → Leaves n (if b then p else q)
  Leaves-if true h k = h
  Leaves-if false h k = k

length-skip_ws : (ts : Text) → length (skip_ws ts) ≤ length ts
unfolding skip_ws
length-skip_ws [] = omega arith
length-skip_ws (c ∷ ts) = ground (arith, length-skip_ws ts)

length-chars : (ts : Text) → length (chars ts).1 ≤ length ts
unfolding chars
length-chars [] = omega arith
length-chars (c ∷ []) = ground arith
length-chars (c ∷ d ∷ ts) = ground (arith, length-chars ts, length-chars (d ∷ ts))

string_at-Leaves : (ts : Text) → Leaves (length ts) (string_at ts)
unfolding string_at
string_at-Leaves [] = failed
string_at-Leaves (c ∷ ts) = Leaves-if (c == b'"') (left (omega (arith, length-chars ts))) failed

parse_str-Leaves : (ts : Text) → Leaves (length ts) (parse_str ts)
unfolding parse_str
parse_str-Leaves ts = Leaves-mono (string_at-Leaves (skip_ws ts)) (length-skip_ws ts)

length-skip_comma : (ts : Text) → length (skip_comma ts) ≤ length ts
unfolding skip_comma
length-skip_comma ts = ground (arith, length-skip_ws ts, length-drop 1 (skip_ws ts))

length-num_chars : (ts : Text) → length (num_chars ts).0 + length (num_chars ts).1 ≡ length ts
unfolding num_chars
length-num_chars [] = omega arith
length-num_chars (c ∷ ts) = ground (arith, length-num_chars ts)

length-drop_lt : (n : ℕ) (ts : Text) → length ts ≢ 0 → length (drop (suc n) ts) < length ts
length-drop_lt n ts h = omega (arith, length-drop (suc n) ts)

starts_pos : (c : ℕ) (ts : Text) → starts c ts ≡ true → length ts ≢ 0
unfolding starts
starts_pos c [] h = cc
starts_pos c (d ∷ ts) h = omega arith

module _ {A : Type 0} where
  entry_at-Leaves :
      (value : Text → Parsed (Json A)) (again : Fields A → Text → Parsed (Json A)) (m : Fields A)
      (ts : Text)
      → ((rest : Text) → length rest < length ts → Leaves (length rest) (value rest))
      → ((m' : Fields A) (rest : Text)
          → length rest < length ts
          → Leaves (length ts) (again m' rest))
      → Leaves (length ts) (entry_at value again m ts)
  unfolding entry_at
  entry_at-Leaves value again m ts p q = elim (Bool-cases (starts b'}' ts)) [
    | inl close ↦ rw close (left (length-drop_lt 0 ts (starts_pos b'}' ts close)))
    | inr more ↦ rw more (
        Leaves-bind (parse_str-Leaves ts) λ key after k.
          let shorter = length-skip_ws after in
          elim (Bool-cases (starts b':' (skip_ws after))) [
            | inl colon ↦ rw colon (
                Leaves-bind
                  (p (drop 1 (skip_ws after)) (omega (arith, length-drop 1 (skip_ws after))))
                  λ v rest l.
                    q _ _ (omega (arith, length-skip_comma rest, length-drop 1 (skip_ws after))))
            | inr bad ↦ rw bad failed
          ])
  ]

  item_at-Leaves :
      (value : Text → Parsed (Json A)) (again : Text → Parsed (Items A)) (ts : Text)
      → Leaves (length ts) (value ts)
      → ((rest : Text) → length rest < length ts → Leaves (length ts) (again rest))
      → Leaves (length ts) (item_at value again ts)
  unfolding item_at
  item_at-Leaves value again ts p q = elim (Bool-cases (starts b']' ts)) [
    | inl close ↦ rw close (left (length-drop_lt 0 ts (starts_pos b']' ts close)))
    | inr more ↦ rw more (
        Leaves-bind p
          λ v rest k. Leaves-bind (q _ (omega (arith, length-skip_comma rest))) λ vs end l. left l)
  ]

module _ {A : Type 0} (parse_f64 : Text → Option A) (empty : parse_f64 [] ≡ none) where
  number-Leaves :
      (s rest : Text) (n : ℕ)
      → length s + length rest ≡ n
      → Leaves n (number parse_f64 (parse_f64 s) rest)
  unfolding number
  number-Leaves [] rest n h = rw empty failed
  number-Leaves (c ∷ s) rest n h = elim (Option-cases (parse_f64 (c ∷ s))) [
    | inl bad ↦ rw bad failed
    | inr (v, good) ↦ rw good (left (omega arith))
  ]

  parse_num-Leaves : (ts : Text) → Leaves (length ts) (parse_num parse_f64 ts)
  unfolding parse_num
  parse_num-Leaves ts =
      number-Leaves (num_chars ts).0 (num_chars ts).1 (length ts) (length-num_chars ts)

  value_at-Leaves :
      (fields : Text → Parsed (Json A)) (items : Text → Parsed (Items A)) (ts : Text) (n : ℕ)
      → length ts ≤ n
      → ((rest : Text) → length rest < n → Leaves n (fields rest))
      → ((rest : Text) → length rest < n → Leaves n (items rest))
      → Leaves n (value_at parse_f64 fields items ts)
  unfolding value_at
  value_at-Leaves fields items [] n h p q = failed
  value_at-Leaves fields items (c ∷ ts) n h p q = Leaves-if (c == b'{') (p ts (omega arith)) (
      Leaves-if (c == b'[') (Leaves-bind (q ts (omega arith)) λ vs rest k. left k) (
        Leaves-if (c == b'"')
          (Leaves-bind (string_at-Leaves (c ∷ ts)) λ s rest k. left (omega arith))
          (Leaves-if (c == b't') (left (omega (arith, length-drop 3 ts))) (
            Leaves-if (c == b'f') (left (omega (arith, length-drop 4 ts))) (
              Leaves-if (c == b'n') (left (omega (arith, length-drop 3 ts)))
                (Leaves-mono (parse_num-Leaves (c ∷ ts)) h))))))

  mutual
    unfolding parse_value

    parse_value-Leaves :
        (f : ℕ) (ts : Text) → 2 * length ts < f → Leaves (length ts) (parse_value parse_f64 f ts)
    parse_value-Leaves zero ts h = absurd (omega arith)
    parse_value-Leaves (suc f) ts h =
        let shorter = length-skip_ws ts in
        value_at-Leaves _ _ (skip_ws ts) (length ts) shorter
          (λ rest k. Leaves-mono (parse_obj-Leaves f no_fields rest (omega arith)) (omega arith))
          (λ rest k. Leaves-mono (parse_arr-Leaves f rest (omega arith)) (omega arith))

    parse_obj-Leaves :
        (f : ℕ) (m : Fields A) (ts : Text)
        → 2 * length ts + 1 < f
        → Leaves (length ts) (parse_obj parse_f64 f m ts)
    parse_obj-Leaves zero m ts h = absurd (omega arith)
    parse_obj-Leaves (suc f) m ts h =
        let shorter = length-skip_ws ts in
        Leaves-mono
          (entry_at-Leaves (parse_value parse_f64 f) (parse_obj parse_f64 f) m (skip_ws ts)
            (λ rest k. parse_value-Leaves f rest (omega arith))
            (λ m' rest k. Leaves-mono (parse_obj-Leaves f m' rest (omega arith)) (omega arith)))
          shorter

    parse_arr-Leaves :
        (f : ℕ) (ts : Text) → 2 * length ts + 1 < f → Leaves (length ts) (parse_arr parse_f64 f ts)
    parse_arr-Leaves zero ts h = absurd (omega arith)
    parse_arr-Leaves (suc f) ts h =
        let shorter = length-skip_ws ts in
        Leaves-mono
          (item_at-Leaves (parse_value parse_f64 f) (parse_arr parse_f64 f) (skip_ws ts)
            (parse_value-Leaves f (skip_ws ts) (omega arith))
            (λ rest k. Leaves-mono (parse_arr-Leaves f rest (omega arith)) (omega arith)))
          shorter

  pub parse-Leaves : (ts : Text) → Leaves (length ts) (parse parse_f64 ts)
  unfolding parse
  parse-Leaves ts = parse_value-Leaves (2 * length ts + 1) ts (omega arith)

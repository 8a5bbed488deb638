-- ===== src/Json/RoundTrip.antt =====
-- src/compiler.rs, `mod mini_json`: what the reader makes of a printed value.
use rust_hotpath_ipc.Prelude.{
  ℕ, zero, suc, ◌+◌, ◌*◌, ◌≤◌, ◌<◌, ◌≡◌, refl, ap, true, false, Option, none, [], ◌∷◌, ◌++◌,
  append_assoc, arith, length, length-append,
}
use rust_hotpath_ipc.Prelude.Text.{Text}
use rust_hotpath_ipc.Json.{
  Json, Items, Fields, null, bool, num, str, arr, obj, no_items, item, no_fields, field, insert,
  Parsed, ok, skip_ws, starts, entry_at, item_at, parse_value, parse_obj, parse_arr, parse,
}
use rust_hotpath_ipc.Json.Print.{
  is_ascii, print_str, print, print_items, print_fields, settle, settle_items, settle_fields,
  IsPrintable, ArePrintable, HavePrintable,
}
use rust_hotpath_ipc.Json.Pieces.{
  chars-escape, parse_str-print_str, ends_number, print-Opens, value_at-num, skip_comma-print_items,
  skip_comma-print_fields, ends_number-print_items, ends_number-print_fields, Opens, skip_ws-Opens,
  starts-Opens, print_items-append, print_fields-append, skip_ws-print_str, starts-print_str,
}

module _ {A : Type 0} (show : A → Text) where
  item_at-print_items :
      (value : Text → Parsed (Json A)) (again : Text → Parsed (Items A)) (v : Json A) (xs : Items A)
      (rest : Text) {w : Json A} {ws : Items A}
      → Opens (print show v)
      → value (print show v ++ (print_items show xs false ++ rest))
        ≡ ok w (print_items show xs false ++ rest)
      → again (print_items show xs true ++ rest) ≡ ok ws rest
      → item_at value again (skip_ws (print_items show (item v xs) true ++ rest))
        ≡ ok (item w ws) rest
  item_at-print_items value again v xs rest o p q =
      let body = print_items show xs false ++ rest in
      rw (print_items-append show v xs rest, skip_ws-Opens (print show v) body o)
        (unfold item_at in
          rw (starts-Opens (print show v) body o, p, skip_comma-print_items show xs rest, q))

  entry_at-print_fields :
      (value : Text → Parsed (Json A)) (again : Fields A → Text → Parsed (Json A)) (m : Fields A)
      (k : Text) (v : Json A) (fs : Fields A) (rest : Text) {w o : Json A}
      → is_ascii k ≡ true
      → value (print show v ++ (print_fields show fs false ++ rest))
        ≡ ok w (print_fields show fs false ++ rest)
      → again (insert k w m) (print_fields show fs true ++ rest) ≡ ok o rest
      → entry_at value again m (skip_ws (print_fields show (field k v fs) true ++ rest)) ≡ ok o rest
  entry_at-print_fields value again m k v fs rest ascii p q =
      let body = b':' ∷ (print show v ++ (print_fields show fs false ++ rest)) in
      rw (print_fields-append show k v fs rest, skip_ws-print_str k body)
        (unfold entry_at in
          rw (starts-print_str k body, parse_str-print_str k body ascii)
            (unfold skip_ws starts in rw (p, skip_comma-print_fields show fs rest, q)))

  length-print_items-true :
      (xs : Items A) → length (print_items show xs true) ≤ length (print_items show xs false)
  unfolding print
  length-print_items-true no_items = omega arith
  length-print_items-true (item v xs) = omega arith

  length-print_fields-true :
      (fs : Fields A) → length (print_fields show fs true) ≤ length (print_fields show fs false)
  unfolding print
  length-print_fields-true no_fields = omega arith
  length-print_fields-true (field k v fs) = omega arith

  length-print_items-item :
      (v : Json A) (xs : Items A)
      → length (print_items show (item v xs) true)
        ≡ length (print show v) + length (print_items show xs false)
  unfolding print
  length-print_items-item v xs = length-append (print show v) (print_items show xs false)

  length-print_fields-field :
      (k : Text) (v : Json A) (fs : Fields A)
      → length (print show v) + length (print_fields show fs false)
        < length (print_fields show (field k v fs) true)
  unfolding print
  length-print_fields-field k v fs = omega (
    arith,
    length-append (print_str k) (b':' ∷ (print show v ++ print_fields show fs false)),
    length-append (print show v) (print_fields show fs false),
  )

  module _ (parse_f64 : Text → Option A) (empty : parse_f64 [] ≡ none) where
    length-print_pos : (v : Json A) → IsPrintable parse_f64 show v → 0 < length (print show v)
    length-print_pos v p =
        let (c, ts, e, o) = print-Opens parse_f64 show empty v p in omega (arith, ap length e)

    mutual
      unfolding parse_value print settle IsPrintable

      parse_value-reads :
          (v : Json A) (f : ℕ) (rest : Text)
          → IsPrintable parse_f64 show v
          → 2 * length (print show v) < f
          → ends_number rest ≡ true
          → parse_value parse_f64 f (print show v ++ rest) ≡ ok (settle v) rest
      parse_value-reads v zero rest p h e = absurd (omega arith)
      parse_value-reads null (suc f) rest p h e = refl
      parse_value-reads (bool true) (suc f) rest p h e = refl
      parse_value-reads (bool false) (suc f) rest p h e = refl
      parse_value-reads (num a) (suc f) rest p h e =
          value_at-num parse_f64 show empty (parse_obj parse_f64 f no_fields)
            (parse_arr parse_f64 f) a rest p e
      parse_value-reads (str s) (suc f) rest p h e = rw (append_assoc, chars-escape s rest p)
      parse_value-reads (arr xs) (suc f) rest p h e = rw (parse_arr-reads xs f rest p (omega arith))
      parse_value-reads (obj fs) (suc f) rest p h e =
          parse_obj-reads fs no_fields f rest p (omega arith)

      parse_arr-reads :
          (xs : Items A) (f : ℕ) (rest : Text)
          → ArePrintable parse_f64 show xs
          → suc (2 * length (print_items show xs true)) < f
          → parse_arr parse_f64 f (print_items show xs true ++ rest) ≡ ok (settle_items xs) rest
      parse_arr-reads xs zero rest p h = absurd (omega arith)
      parse_arr-reads no_items (suc f) rest p h = refl
      parse_arr-reads (item v xs) (suc f) rest p h =
          let fits = length-print_items-item v xs in
          let rest_fits = length-print_items-true xs in
          item_at-print_items (parse_value parse_f64 f) (parse_arr parse_f64 f) v xs rest
            (print-Opens parse_f64 show empty v p.0)
            (parse_value-reads v f _ p.0 (omega arith) (ends_number-print_items show xs rest))
            (parse_arr-reads xs f rest p.1 (omega (arith, length-print_pos v p.0)))

      parse_obj-reads :
          (fs : Fields A) (m : Fields A) (f : ℕ) (rest : Text)
          → HavePrintable parse_f64 show fs
          → suc (2 * length (print_fields show fs true)) < f
          → parse_obj parse_f64 f m (print_fields show fs true ++ rest)
            ≡ ok (obj (settle_fields fs m)) rest
      parse_obj-reads fs m zero rest p h = absurd (omega arith)
      parse_obj-reads no_fields m (suc f) rest p h = refl
      parse_obj-reads (field k v fs) m (suc f) rest p h =
          let fits = length-print_fields-field k v fs in
          let rest_fits = length-print_fields-true fs in
          entry_at-print_fields (parse_value parse_f64 f) (parse_obj parse_f64 f) m k v fs rest p.0
            (parse_value-reads v f _ p.1 (omega arith) (ends_number-print_fields show fs rest))
            (parse_obj-reads fs (insert k (settle v) m) f rest p.2 (omega arith))

    -- A printed value in front of any text that does not go on with a character of a number is
    -- read as that value, each object as its map, and the text is left: provided that the empty
    -- text is no number, that the value's strings and keys are of ASCII characters, and that its
    -- numbers are written with the reader's characters and read back as the same number.
    pub parse-print :
        (v : Json A) (rest : Text)
        → IsPrintable parse_f64 show v
        → ends_number rest ≡ true
        → parse parse_f64 (print show v ++ rest) ≡ ok (settle v) rest
    unfolding parse
    parse-print v rest p e =
        parse_value-reads v (2 * length (print show v ++ rest) + 1) rest p
          (omega (arith, length-append (print show v) rest)) e

-- ===== src/Json/Pieces.antt =====
-- src/compiler.rs, `mod mini_json`: the reader on the pieces of a printed value.
use rust_hotpath_ipc.Prelude.{
  ℕ, ◌≡◌, refl, ap, ◌∙◌, ◌≢◌, Bool, true, false, not, ◌||◌, Option, none, some, List, [], ◌∷◌, ◌++◌,
  append_assoc, arith, ◌==◌, ltb,
}
use rust_hotpath_ipc.Prelude.Text.{Text}
use rust_hotpath_ipc.Json.{
  Json, Items, Fields, null, bool, num, str, arr, obj, no_items, item, no_fields, field, Parsed, ok,
  skip_ws, starts, chars, string_at, parse_str, is_num_char, num_chars, skip_comma, number,
  parse_num, value_at,
}
use rust_hotpath_ipc.Json.Print.{
  escape_char, escape, print_str, print, print_items, print_fields, all_num_chars, IsShown,
  IsPrintable, is_ascii, utf8,
}

chars-plain :
    (c : ℕ) (ts : Text)
    → c ≢ b'"'
    → c ≢ b'\\'
    → ts ≢ []
    → chars (c ∷ ts) ≡ (c ∷ (chars ts).0, (chars ts).1)
unfolding chars
chars-plain c [] h k l = absurd (l refl)
chars-plain c (d ∷ ts) h k l = ground arith

chars-escape_char :
    (c : ℕ) (ts : Text)
    → ltb c 0x80 ≡ true
    → ts ≢ []
    → chars (escape_char c ++ ts) ≡ (c ∷ (chars ts).0, (chars ts).1)
unfolding escape_char chars utf8
chars-escape_char c ts ascii h = ground (arith, chars-plain c ts)

append-cons-ne {ℓ} : {A : Type ℓ} (xs : List A) (y : A) (ys : List A) → xs ++ (y ∷ ys) ≢ []
append-cons-ne [] y ys = cc
append-cons-ne (x ∷ xs) y ys = cc

-- The reader takes a written string of ASCII characters back off the front of any text.
pub chars-escape :
    (s rest : Text) → is_ascii s ≡ true → chars (escape s ++ (b'"' ∷ rest)) ≡ (s, rest)
unfolding escape is_ascii
chars-escape [] [] h = unfold chars in refl
chars-escape [] (c ∷ rest) h = unfold chars in refl
chars-escape (c ∷ s) rest h = rw (
  append_assoc,
  chars-escape_char c _ (ground arith) (append-cons-ne (escape s) b'"' rest),
  chars-escape s rest (ground arith),
)

pub string_at-print_str :
    (s rest : Text) → is_ascii s ≡ true → string_at (print_str s ++ rest) ≡ ok s rest
unfolding string_at print_str
string_at-print_str s rest h = rw (append_assoc, chars-escape s rest h)

pub parse_str-print_str :
    (s rest : Text) → is_ascii s ≡ true → parse_str (print_str s ++ rest) ≡ ok s rest
unfolding parse_str print_str skip_ws
parse_str-print_str s rest h = string_at-print_str s rest h

-- No character that a number may hold stands first.
unfoldable pub ends_number : Text → Bool
ends_number [] = true
ends_number (c ∷ ts) = not (is_num_char c)

num_chars-append :
    (s rest : Text)
    → all_num_chars s ≡ true
    → ends_number rest ≡ true
    → num_chars (s ++ rest) ≡ (s, rest)
unfolding num_chars all_num_chars ends_number
num_chars-append [] [] h k = refl
num_chars-append [] (c ∷ rest) h k = ground arith
num_chars-append (c ∷ s) rest h k = ground (arith, num_chars-append s rest)

-- The characters that a printed value begins with.
unfoldable pub opens_value : ℕ → Bool
unfolding is_num_char
opens_value c =
    is_num_char c || c == b'"' || c == b'{' || c == b'[' || c == b't' || c == b'f' || c == b'n'

pub skip_ws-opens : (c : ℕ) (ts : Text) → opens_value c ≡ true → skip_ws (c ∷ ts) ≡ c ∷ ts
unfolding skip_ws opens_value
skip_ws-opens c ts h = ground arith

starts-opens : (c : ℕ) (ts : Text) → opens_value c ≡ true → starts b']' (c ∷ ts) ≡ false
unfolding starts opens_value
starts-opens c ts h = ground arith

-- A text that begins a value.
abbrev pub Opens : Text → Type 0
Opens ts = (c : ℕ) × (rest : Text) × (ts ≡ c ∷ rest) × (opens_value c ≡ true)

pub skip_ws-Opens : (ts rest : Text) → Opens ts → skip_ws (ts ++ rest) ≡ ts ++ rest
skip_ws-Opens ts rest (c, ts', e, o) = rw (e, skip_ws-opens c (ts' ++ rest) o)

pub starts-Opens : (ts rest : Text) → Opens ts → starts b']' (ts ++ rest) ≡ false
starts-Opens ts rest (c, ts', e, o) = rw (e, starts-opens c (ts' ++ rest) o)

module _ {A : Type 0} (parse_f64 : Text → Option A) (show : A → Text)
    (empty : parse_f64 [] ≡ none) where
  number-Opens : (s : Text) (a : A) → parse_f64 s ≡ some a → all_num_chars s ≡ true → Opens s
  unfolding opens_value all_num_chars
  number-Opens [] a h k = cc
  number-Opens (c ∷ s) a h k = (c, s, refl, ground arith)

  pub print-Opens : (v : Json A) → IsPrintable parse_f64 show v → Opens (print show v)
  unfolding print IsPrintable opens_value
  print-Opens null p = (_, _, refl, refl)
  print-Opens (bool true) p = (_, _, refl, refl)
  print-Opens (bool false) p = (_, _, refl, refl)
  print-Opens (num a) p = number-Opens (show a) a p.readable p.numeric
  print-Opens (str s) p = (_, _, refl, refl)
  print-Opens (arr xs) p = (_, _, refl, refl)
  print-Opens (obj fs) p = (_, _, refl, refl)

  parse_num-show :
      (a : A) (rest : Text)
      → IsShown parse_f64 show a
      → ends_number rest ≡ true
      → parse_num parse_f64 (show a ++ rest) ≡ ok (num a) rest
  unfolding parse_num number
  parse_num-show a rest p e = rw (num_chars-append (show a) rest p.numeric e, p.readable)

  module _ (fields : Text → Parsed (Json A)) (items : Text → Parsed (Items A)) where
    value_at-is_num_char :
        (c : ℕ) (ts : Text)
        → is_num_char c ≡ true
        → value_at parse_f64 fields items (c ∷ ts) ≡ parse_num parse_f64 (c ∷ ts)
    unfolding value_at is_num_char
    value_at-is_num_char c ts h = ground arith

    value_at-all_num_chars :
        (s rest : Text) (a : A)
        → parse_f64 s ≡ some a
        → all_num_chars s ≡ true
        → value_at parse_f64 fields items (skip_ws (s ++ rest)) ≡ parse_num parse_f64 (s ++ rest)
    unfolding all_num_chars
    value_at-all_num_chars [] rest a h k = cc
    value_at-all_num_chars (c ∷ s) rest a h k =
        rw (skip_ws-opens c (s ++ rest) (unfold opens_value in ground arith))
          (value_at-is_num_char c (s ++ rest) (ground arith))

    pub value_at-num :
        (a : A) (rest : Text)
        → IsShown parse_f64 show a
        → ends_number rest ≡ true
        → value_at parse_f64 fields items (skip_ws (show a ++ rest)) ≡ ok (num a) rest
    value_at-num a rest p e =
        value_at-all_num_chars (show a) rest a p.readable p.numeric ∙ parse_num-show a rest p e

regroup :
    (a : Text) (c : ℕ) (b d rest : Text)
    → (a ++ (c ∷ (b ++ d))) ++ rest ≡ a ++ (c ∷ (b ++ (d ++ rest)))
regroup a c b d rest =
    append_assoc a (c ∷ (b ++ d)) rest ∙ ap (λ t. a ++ (c ∷ t)) (append_assoc b d rest)

module _ {A : Type 0} (show : A → Text) where
  -- Past the comma, the rest of the entries reads as if they were the first.
  pub skip_comma-print_items :
      (xs : Items A) (rest : Text)
      → skip_comma (print_items show xs false ++ rest) ≡ print_items show xs true ++ rest
  unfolding skip_comma print
  skip_comma-print_items no_items rest = refl
  skip_comma-print_items (item v xs) rest = refl

  pub skip_comma-print_fields :
      (fs : Fields A) (rest : Text)
      → skip_comma (print_fields show fs false ++ rest) ≡ print_fields show fs true ++ rest
  unfolding skip_comma print
  skip_comma-print_fields no_fields rest = refl
  skip_comma-print_fields (field k v fs) rest = refl

  pub ends_number-print_items :
      (xs : Items A) (rest : Text) → ends_number (print_items show xs false ++ rest) ≡ true
  unfolding ends_number print is_num_char
  ends_number-print_items no_items rest = refl
  ends_number-print_items (item v xs) rest = refl

  pub ends_number-print_fields :
      (fs : Fields A) (rest : Text) → ends_number (print_fields show fs false ++ rest) ≡ true
  unfolding ends_number print is_num_char
  ends_number-print_fields no_fields rest = refl
  ends_number-print_fields (field k v fs) rest = refl

  pub print_items-append :
      (v : Json A) (xs : Items A) (rest : Text)
      → print_items show (item v xs) true ++ rest
        ≡ print show v ++ (print_items show xs false ++ rest)
  unfolding print
  print_items-append v xs rest = append_assoc (print show v) (print_items show xs false) rest

  pub print_fields-append :
      (k : Text) (v : Json A) (fs : Fields A) (rest : Text)
      → print_fields show (field k v fs) true ++ rest
        ≡ print_str k ++ (b':' ∷ (print show v ++ (print_fields show fs false ++ rest)))
  unfolding print
  print_fields-append k v fs rest =
      regroup (print_str k) b':' (print show v) (print_fields show fs false) rest

pub skip_ws-print_str : (s rest : Text) → skip_ws (print_str s ++ rest) ≡ print_str s ++ rest
unfolding skip_ws print_str
skip_ws-print_str s rest = refl

pub starts-print_str : (s rest : Text) → starts b'}' (print_str s ++ rest) ≡ false
unfolding starts print_str
starts-print_str s rest = refl

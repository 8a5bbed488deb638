-- ===== src/Json.antt =====
-- src/compiler.rs, `mod mini_json`: the reader of JSON values. A byte slice with an index into it
-- is the list of the bytes from that index on, [] also where the index has passed the end, which
-- no code here reads. A byte becomes the character of the same number (`b as char`).
pub mod Total
pub mod Print
pub mod Pieces
pub mod RoundTrip
use rust_hotpath_ipc.Prelude.{
  ℕ, zero, suc, ◌+◌, ◌*◌, Bool, true, false, ◌&&◌, ◌||◌, Option, none, some, [], ◌∷◌, leb, ◌==◌,
  if◌then◌else◌, length, drop,
}
use rust_hotpath_ipc.Prelude.Text.{Text, text_eq}

-- `HashMap<String, Json>` is `Fields`, each key once; `Vec<Json>` is `Items`.
mutual
  pub data Json (A : Type 0) : Type 0 where
    null : Json A
    bool : Bool → Json A
    num : A → Json A
    str : Text → Json A
    arr : Items A → Json A
    obj : Fields A → Json A

  pub data Items (A : Type 0) : Type 0 where
    no_items : Items A
    item : Json A → Items A → Items A

  pub data Fields (A : Type 0) : Type 0 where
    no_fields : Fields A
    field : Text → Json A → Fields A → Fields A

module _ {A : Type 0} where
  -- `m.insert(key, val)`: a later value for the key takes the place of the earlier one.
  unfoldable pub insert : Text → Json A → Fields A → Fields A
  insert k v no_fields = field k v no_fields
  insert k v (field j w m) = if text_eq j k then field j v m else field j w (insert k v m)

  unfoldable pub find : Text → Fields A → Option (Json A)
  find k no_fields = none
  find k (field j v m) = if text_eq j k then some v else find k m

  unfoldable pub get : Json A → Text → Option (Json A)
  unfolding find
  get (obj m) key = find key m
  get _ key = none

  unfoldable pub as_array : Json A → Option (Items A)
  as_array (arr a) = some a
  as_array _ = none

  unfoldable pub as_object : Json A → Option (Fields A)
  as_object (obj m) = some m
  as_object _ = none

  unfoldable pub as_str : Json A → Option Text
  as_str (str s) = some s
  as_str _ = none

  unfoldable pub as_f64 : Json A → Option A
  as_f64 (num n) = some n
  as_f64 _ = none

pub data ParseError : Type 0 where
  unexpected_end expected_colon expected_string bad_number missing_canvas : ParseError

-- What a routine returns, with the bytes that it leaves. `stuck` is no Rust value: the fuel ran out.
pub data Parsed {ℓ} (B : Type ℓ) : Type ℓ where
  ok : B → Text → Parsed B
  err : ParseError → Parsed B
  stuck : Parsed B

infixl 5 ◌>>=◌
abbrev pub ◌>>=◌ {ℓ κ} : {B : Type ℓ} {C : Type κ} → Parsed B → (B → Text → Parsed C) → Parsed C
ok b ts >>= f = f b ts
err e >>= f = err e
stuck >>= f = stuck

-- `char::is_whitespace` on U+0000 to U+00FF.
unfoldable pub is_whitespace : ℕ → Bool
is_whitespace c = leb 9 c && leb c 13 || c == 32 || c == 0x85 || c == 0xa0

unfoldable pub skip_ws : Text → Text
unfolding is_whitespace
skip_ws [] = []
skip_ws (c ∷ ts) = if is_whitespace c then skip_ws ts else c ∷ ts

unfoldable pub starts : ℕ → Text → Bool
starts c [] = false
starts c (d ∷ ts) = d == c

unfoldable pub unescaped : ℕ → ℕ
unescaped c = if c == b'n' then b'\n' else if c == b't' then b'\t' else c

-- The bytes up to the closing quote; a text that ends without one is accepted as it stands.
unfoldable pub chars : Text → Text × Text
unfolding unescaped
chars [] = ([], [])
chars (c ∷ []) = if c == b'"' then ([], []) else (c ∷ [], [])
chars (c ∷ d ∷ ts) =
    let escape : Text × Text = (let (s, rest) = chars ts in (unescaped d ∷ s, rest)) in
    let plain : Text × Text = (let (s, rest) = chars (d ∷ ts) in (c ∷ s, rest)) in
    if c == b'"' then ([], d ∷ ts) else if c == b'\\' then escape else plain

unfoldable pub string_at : Text → Parsed Text
unfolding chars
string_at [] = err expected_string
string_at (c ∷ ts) =
    if c == b'"' then (let (s, rest) = chars ts in ok s rest) else err expected_string

unfoldable pub parse_str : Text → Parsed Text
unfolding skip_ws string_at
parse_str ts = string_at (skip_ws ts)

unfoldable pub is_num_char : ℕ → Bool
is_num_char c =
    leb b'0' c && leb c b'9' || c == b'-' || c == b'+' || c == b'.' || c == b'e' || c == b'E'

-- The longest run of such characters, and what follows.
unfoldable pub num_chars : Text → Text × Text
unfolding is_num_char
num_chars [] = ([], [])
num_chars (c ∷ ts) =
    let (s, rest) = num_chars ts in if is_num_char c then (c ∷ s, rest) else ([], c ∷ ts)

-- The comma after an entry, which may be missing.
unfoldable pub skip_comma : Text → Text
unfolding skip_ws starts
skip_comma ts = let ws = skip_ws ts in if starts b',' ws then drop 1 ws else ws

module _ {A : Type 0} where
  -- One round of the loop of `parse_obj`, at the first byte that is no space.
  unfoldable pub entry_at :
      (Text → Parsed (Json A))
      → (Fields A → Text → Parsed (Json A))
      → Fields A
      → Text
      → Parsed (Json A)
  unfolding starts parse_str skip_ws skip_comma insert
  entry_at parse_value again m ts =
      if starts b'}' ts
      then ok (obj m) (drop 1 ts)
      else parse_str ts >>= (λ key after.
        let at_colon = skip_ws after in
        if starts b':' at_colon
        then parse_value (drop 1 at_colon) >>= (λ v rest. again (insert key v m) (skip_comma rest))
        else err expected_colon)

  -- One round of the loop of `parse_arr`; `push` is what the loop does with the values so far.
  unfoldable pub item_at :
      (Text → Parsed (Json A)) → (Text → Parsed (Items A)) → Text → Parsed (Items A)
  unfolding starts skip_comma
  item_at parse_value again ts =
      if starts b']' ts
      then ok no_items (drop 1 ts)
      else parse_value ts >>= (λ v rest. again (skip_comma rest) >>= (λ vs end. ok (item v vs) end))

-- `parse_f64` is `str::parse::<f64>`.
module _ {A : Type 0} (parse_f64 : Text → Option A) where
  unfoldable pub number : Option A → Text → Parsed (Json A)
  number none rest = err bad_number
  number (some n) rest = ok (num n) rest

  unfoldable pub parse_num : Text → Parsed (Json A)
  unfolding number num_chars
  parse_num ts = let (s, rest) = num_chars ts in number (parse_f64 s) rest

  -- `match b[*i]`: the letters after `t`, `f` and `n` are passed over unread.
  unfoldable pub value_at :
      (Text → Parsed (Json A)) → (Text → Parsed (Items A)) → Text → Parsed (Json A)
  unfolding string_at parse_num
  value_at parse_obj parse_arr [] = err unexpected_end
  value_at parse_obj parse_arr (c ∷ ts) =
      if c == b'{'
      then parse_obj ts
      else if c == b'['
      then parse_arr ts >>= (λ vs rest. ok (arr vs) rest)
      else if c == b'"'
      then string_at (c ∷ ts) >>= (λ s rest. ok (str s) rest)
      else if c == b't'
      then ok (bool true) (drop 3 ts)
      else if c == b'f'
      then ok (bool false) (drop 4 ts)
      else if c == b'n'
      then ok null (drop 3 ts)
      else parse_num (c ∷ ts)

  -- What a call leaves is no structural part of its input: each call costs a unit of fuel.
  unfoldable mutual
    unfolding value_at entry_at item_at skip_ws

    pub parse_value : ℕ → Text → Parsed (Json A)
    parse_value zero ts = stuck
    parse_value (suc f) ts = value_at (parse_obj f no_fields) (parse_arr f) (skip_ws ts)

    pub parse_obj : ℕ → Fields A → Text → Parsed (Json A)
    parse_obj zero m ts = stuck
    parse_obj (suc f) m ts = entry_at (parse_value f) (parse_obj f) m (skip_ws ts)

    pub parse_arr : ℕ → Text → Parsed (Items A)
    parse_arr zero ts = stuck
    parse_arr (suc f) ts = item_at (parse_value f) (parse_arr f) (skip_ws ts)

  -- `mini_json::parse`: what follows the value is not looked at.
  unfoldable pub parse : Text → Parsed (Json A)
  unfolding parse_value
  parse ts = parse_value (2 * length ts + 1) ts

-- ===== src/Json/Print.antt =====
-- Values written in JSON with no spaces, for the reader of src/compiler.rs: a string escapes the
-- quote, the backslash, the line feed and the tab, and holds any other character in UTF-8.
-- `show` writes a number.
use rust_hotpath_ipc.Prelude.{
  ℕ, ◌≡◌, Bool, true, false, ◌&&◌, Option, some, [], ◌∷◌, ◌++◌, ◌==◌, if◌then◌else◌, ltb, ◌+◌, ◌/◌,
  ◌%◌,
}
use rust_hotpath_ipc.Prelude.Text.{Text, codes}
use rust_hotpath_ipc.Json.{
  Json, Items, Fields, null, bool, num, str, arr, obj, no_items, item, no_fields, field, insert,
  is_num_char,
}

-- The bytes of a character, by the number of bits that it needs.
unfoldable pub utf8 : ℕ → Text
utf8 c =
    if ltb c 0x80
    then c ∷ []
    else if ltb c 0x800
    then (0xc0 + c / 64) ∷ (0x80 + c % 64) ∷ []
    else if ltb c 0x10000
    then (0xe0 + c / 4096) ∷ (0x80 + c / 64 % 64) ∷ (0x80 + c % 64) ∷ []
    else (0xf0 + c / 262144) ∷ (0x80 + c / 4096 % 64) ∷ (0x80 + c / 64 % 64) ∷ (0x80 + c % 64) ∷ []

unfoldable pub escape_char : ℕ → Text
unfolding utf8
escape_char c =
    if c == b'"'
    then b'\\' ∷ b'"' ∷ []
    else if c == b'\\'
    then b'\\' ∷ b'\\' ∷ []
    else if c == b'\n'
    then b'\\' ∷ b'n' ∷ []
    else if c == b'\t'
    then b'\\' ∷ b't' ∷ []
    else utf8 c

unfoldable pub escape : Text → Text
unfolding escape_char
escape [] = []
escape (c ∷ s) = escape_char c ++ escape s

unfoldable pub print_str : Text → Text
unfolding escape
print_str s = b'"' ∷ (escape s ++ (b'"' ∷ []))

-- The comma between two entries.
abbrev pub sep : Bool → Text
sep first = if first then [] else b',' ∷ []

module _ {A : Type 0} (show : A → Text) where
  unfoldable mutual
    unfolding print_str

    pub print : Json A → Text
    print null = codes "null"
    print (bool true) = codes "true"
    print (bool false) = codes "false"
    print (num a) = show a
    print (str s) = print_str s
    print (arr xs) = b'[' ∷ print_items xs true
    print (obj fs) = b'{' ∷ print_fields fs true

    pub print_items : Items A → Bool → Text
    print_items no_items first = b']' ∷ []
    print_items (item v xs) first = sep first ++ (print v ++ print_items xs false)

    pub print_fields : Fields A → Bool → Text
    print_fields no_fields first = b'}' ∷ []
    print_fields (field k v fs) first =
        sep first ++ (print_str k ++ (b':' ∷ (print v ++ print_fields fs false)))

-- A value with each object's fields put into its map: the last of two fields with one key stays.
module _ {A : Type 0} where
  unfoldable mutual
    unfolding insert

    pub settle : Json A → Json A
    settle (arr xs) = arr (settle_items xs)
    settle (obj fs) = obj (settle_fields fs no_fields)
    settle null = null
    settle (bool b) = bool b
    settle (num a) = num a
    settle (str s) = str s

    pub settle_items : Items A → Items A
    settle_items no_items = no_items
    settle_items (item v xs) = item (settle v) (settle_items xs)

    pub settle_fields : Fields A → Fields A → Fields A
    settle_fields no_fields m = m
    settle_fields (field k v fs) m = settle_fields fs (insert k (settle v) m)

unfoldable pub is_ascii : Text → Bool
is_ascii [] = true
is_ascii (c ∷ s) = ltb c 0x80 && is_ascii s

unfoldable pub all_num_chars : Text → Bool
unfolding is_num_char
all_num_chars [] = true
all_num_chars (c ∷ s) = is_num_char c && all_num_chars s

module _ {A : Type 0} (parse_f64 : Text → Option A) (show : A → Text) where
  -- The number is written with the characters that the reader takes, and read back as itself.
  pub record IsShown (a : A) : Type 0 where
    pub readable : parse_f64 (show a) ≡ some a
    pub numeric : all_num_chars (show a) ≡ true

  -- Each number is shown so, and each string and each key is of ASCII characters.
  unfoldable mutual
    unfolding is_ascii

    pub IsPrintable : Json A → Type 0
    IsPrintable null = Unit {0}
    IsPrintable (bool b) = Unit {0}
    IsPrintable (num a) = IsShown a
    IsPrintable (str s) = is_ascii s ≡ true
    IsPrintable (arr xs) = ArePrintable xs
    IsPrintable (obj fs) = HavePrintable fs

    pub ArePrintable : Items A → Type 0
    ArePrintable no_items = Unit {0}
    ArePrintable (item v xs) = IsPrintable v × ArePrintable xs

    pub HavePrintable : Fields A → Type 0
    HavePrintable no_fields = Unit {0}
    HavePrintable (field k v fs) = (is_ascii k ≡ true) × IsPrintable v × HavePrintable fs

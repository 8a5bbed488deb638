-- ===== src/Control/Pieces.antt =====
-- src/bin/control_server.rs, `from_params_json`: a flat object as pieces, and how each is read.
use rust_hotpath_ipc.Prelude.{
  ℕ, ◌≤◌, ◌≡◌, refl, ◌∙◌, Bool, true, false, not, ◌&&◌, ◌||◌, inl, inr, Bool-cases, List, [], ◌∷◌,
  ◌++◌, arith, leb, ◌==◌, is_some,
}
use rust_hotpath_ipc.Prelude.Text.{Text, codes, text_eq, eq_of_text_eq}
use rust_hotpath_ipc.Json.{is_num_char, is_whitespace}
use rust_hotpath_ipc.Json.Print.{all_num_chars}
use rust_hotpath_ipc.Control.Params.{
  find_after, before_end, is_space, trim_start, trim_end, trim, is_quote, quoted,
}
use rust_hotpath_ipc.Control.Flat.{
  quote_free, text, text_after, Separates, find_after-text, find_after-skip,
}

-- A name with a number and what follows it, or a name with anything else.
pub data Piece : Type 0 where
  number : Text → Text → Text → Piece
  other : Text → Text → Piece

unfoldable pub named : Piece → Text × Text
named (Piece.number n v t) = (n, b':' ∷ (v ++ t))
named (Piece.other n t) = (n, t)

unfoldable pub pieces : List Piece → List (Text × Text)
unfolding named
pieces [] = []
pieces (p ∷ ps) = named p ∷ pieces ps

abbrev is_letter : ℕ → Bool
is_letter c = leb b'a' c && leb c b'z'

unfoldable pub starts_word : Text → Bool
starts_word [] = false
starts_word (c ∷ t) = is_letter c

-- The comma or the brace behind a number.
unfoldable pub ends_value : Text → Bool
ends_value [] = false
ends_value (c ∷ t) = c == b',' || c == b'}'

-- The names of the knobs that are numbers.
unfoldable pub is_knob : Text → Bool
unfolding text_eq
is_knob n =
    text_eq n (codes "weight_trend")
    || text_eq n (codes "weight_momentum")
    || text_eq n (codes "weight_reversion")
    || text_eq n (codes "threshold")
    || text_eq n (codes "max_position")
    || text_eq n (codes "vol")
    || text_eq n (codes "tick_us")

-- Quotes stand round the names alone, a number is written as one and ends with a comma or a
-- brace, and a knob has a number.
unfoldable pub IsPiece : Piece → Type 0
IsPiece (Piece.number n v t) =
    (quote_free n ≡ true) × (all_num_chars v ≡ true) × (quote_free t ≡ true) × (ends_value t ≡ true)
IsPiece (Piece.other n t) =
    (quote_free n ≡ true) × (is_knob n ≡ false) × (quote_free t ≡ true) × (starts_word t ≡ false)

unfoldable pub ArePieces : List Piece → Type 0
unfolding IsPiece
ArePieces [] = Unit {0}
ArePieces (p ∷ ps) = IsPiece p × ArePieces ps

unfoldable pub has_name : Text → List Piece → Bool
unfolding named
has_name k [] = false
has_name k (p ∷ ps) = text_eq (named p).0 k || has_name k ps

quote_free-all_num_chars :
    (v t : Text) → all_num_chars v ≡ true → quote_free t ≡ true → quote_free (v ++ t) ≡ true
unfolding quote_free all_num_chars is_num_char
quote_free-all_num_chars [] t h k = k
quote_free-all_num_chars (c ∷ v) t h k = ground (arith, quote_free-all_num_chars v t)

pub before_end-all_num_chars :
    (v t rest : Text)
    → all_num_chars v ≡ true
    → ends_value t ≡ true
    → before_end (v ++ (t ++ rest)) ≡ v
unfolding before_end all_num_chars is_num_char ends_value
before_end-all_num_chars [] [] rest h e = cc
before_end-all_num_chars [] (c ∷ t) rest h e = ground arith
before_end-all_num_chars (c ∷ v) t rest h e = ground (arith, before_end-all_num_chars v t rest)

-- None of a text's characters is taken off.
unfoldable pub keeps : (ℕ → Bool) → Text → Bool
keeps out [] = true
keeps out (c ∷ v) = not (out c) && keeps out v

trim_end-keeps : (out : ℕ → Bool) (v : Text) → keeps out v ≡ true → trim_end out v ≡ v
unfolding trim_end keeps
trim_end-keeps out [] h = refl
trim_end-keeps out (c ∷ []) h = ground arith
trim_end-keeps out (c ∷ d ∷ v) h = rw (trim_end-keeps out (d ∷ v) (ground arith))

pub trim-keeps : (out : ℕ → Bool) (v : Text) → keeps out v ≡ true → trim out v ≡ v
unfolding trim trim_start keeps
trim-keeps out [] h = unfold trim_end in refl
trim-keeps out (c ∷ v) h = let same = trim_end-keeps out (c ∷ v) h in ground arith

and-true : (a b : Bool) → (a && b) ≡ true → (a ≡ true) × (b ≡ true)
and-true true b h = (refl, h)
and-true false b h = cc

is_num_char_bounds : (c : ℕ) → is_num_char c ≡ true → (43 ≤ c) × (c ≤ 101)
unfolding is_num_char
is_num_char_bounds c h = ground arith

is_whitespace-between : (c : ℕ) → 43 ≤ c → c ≤ 101 → is_whitespace c ≡ false
unfolding is_whitespace
is_whitespace-between c h k = ground arith

is_space-between : (c : ℕ) → 43 ≤ c → c ≤ 101 → is_space c ≡ false
unfolding is_space
is_space-between c h k = rw (is_whitespace-between c h k) (ground arith)

pub keeps-is_space : (v : Text) → all_num_chars v ≡ true → keeps is_space v ≡ true
unfolding keeps all_num_chars
keeps-is_space [] h = refl
keeps-is_space (c ∷ v) h =
    let (digit, more) = and-true (is_num_char c) (all_num_chars v) h in
    let (low, high) = is_num_char_bounds c digit in
    rw (is_space-between c low high, keeps-is_space v more)

pub keeps-is_quote : (v : Text) → all_num_chars v ≡ true → keeps is_quote v ≡ true
unfolding keeps all_num_chars is_num_char
keeps-is_quote [] h = refl
keeps-is_quote (c ∷ v) h = ground (arith, keeps-is_quote v)

text_eq-starts_word :
    (t k : Text) → starts_word t ≡ false → starts_word k ≡ true → text_eq t k ≡ false
text_eq-starts_word t k h j = elim (Bool-cases (text_eq t k)) [
  | inl same ↦ cc (eq_of_text_eq t k same)
  | inr differ ↦ differ
]

pieces-Separates :
    (k : Text) (ps : List Piece) → starts_word k ≡ true → ArePieces ps → Separates k (pieces ps)
unfolding pieces ArePieces Separates
pieces-Separates k [] w a = tt
pieces-Separates k (Piece.number n v t ∷ ps) w a = (
  a.0.0,
  unfold quote_free in quote_free-all_num_chars v t a.0.1 a.0.2,
  text_eq-starts_word (b':' ∷ (v ++ t)) k (unfold starts_word in refl) w,
  pieces-Separates k ps w a.1,
)
pieces-Separates k (Piece.other n t ∷ ps) w a =
    (a.0.0, a.0.2, text_eq-starts_word t k a.0.3 w, pieces-Separates k ps w a.1)

pub find_after-pieces :
    (k pre : Text) (ps : List Piece)
    → quote_free k ≡ true
    → starts_word k ≡ true
    → quote_free pre ≡ true
    → ArePieces ps
    → find_after (quoted k) (pre ++ text (pieces ps)) ≡ text_after k (pieces ps)
find_after-pieces k pre ps q w i a =
    find_after-skip k pre (text (pieces ps)) i
    ∙ find_after-text k (pieces ps) q (pieces-Separates k ps w a)

pub is_some-text_after :
    (k : Text) (ps : List Piece) → is_some (text_after k (pieces ps)) ≡ has_name k ps
unfolding text_after pieces has_name
is_some-text_after k [] = refl
is_some-text_after k (Piece.number n v t ∷ ps) = ground (arith, is_some-text_after k ps)
is_some-text_after k (Piece.other n t ∷ ps) = ground (arith, is_some-text_after k ps)

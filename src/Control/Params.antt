-- ===== src/Control/Params.antt =====
-- src/bin/control_server.rs, `StrategyParams`: the knobs that the console sends, read by a scan of
-- the request's text. A string is the list of its code points; `F.to_int` and `F.to_nat` are the
-- casts, and `parse_f64` is `str::parse::<f64>`.
use rust_hotpath_ipc.Prelude.{
  ◌>>=◌, ℕ, Bool, false, ◌&&◌, ◌||◌, Option, none, some, [], ◌∷◌, ◌++◌, leb, ◌==◌, if◌then◌else◌,
  is_some,
}
use rust_hotpath_ipc.Prelude.Int.{ℤ, pos}
use rust_hotpath_ipc.Prelude.Text.{Text, codes}
use rust_hotpath_ipc.Json.{is_whitespace}
use rust_hotpath_ipc.Float.{F64}

pub record StrategyParams (A : Type 0) : Type 0 where
  pub weight_trend : A
  pub weight_momentum : A
  pub weight_reversion : A
  pub threshold : A
  pub max_position : ℤ
  pub vol : A
  pub tick_us : ℕ
  pub gates : Bool

-- What follows the prefix `pat`, if the text has it.
unfoldable pub strip_prefix : Text → Text → Option Text
strip_prefix [] t = some t
strip_prefix (p ∷ pat) [] = none
strip_prefix (p ∷ pat) (c ∷ t) = if c == p then strip_prefix pat t else none

abbrev pub or_else {ℓ} : {A : Type ℓ} → Option A → Option A → Option A
or_else (some a) later = some a
or_else none later = later

-- `body.find(pat)`: what follows the first place at which `pat` stands.
unfoldable pub find_after : Text → Text → Option Text
unfolding strip_prefix
find_after pat [] = strip_prefix pat []
find_after pat (c ∷ t) = or_else (strip_prefix pat (c ∷ t)) (find_after pat t)

-- `rest.find(':')`, and what follows.
unfoldable pub after_colon : Text → Option Text
after_colon [] = none
after_colon (c ∷ t) = if c == b':' then some t else after_colon t

-- Up to the first comma or closing brace.
unfoldable pub before_end : Text → Text
before_end [] = []
before_end (c ∷ t) = let front = before_end t in if c == b',' || c == b'}' then [] else c ∷ front

-- `char::is_whitespace`.
unfoldable pub is_space : ℕ → Bool
unfolding is_whitespace
is_space c =
    is_whitespace c
    || c == 0x1680
    || leb 0x2000 c && leb c 0x200a
    || c == 0x2028
    || c == 0x2029
    || c == 0x202f
    || c == 0x205f
    || c == 0x3000

unfoldable pub trim_start : (ℕ → Bool) → Text → Text
trim_start out [] = []
trim_start out (c ∷ t) = if out c then trim_start out t else c ∷ t

unfoldable pub trim_end : (ℕ → Bool) → Text → Text
trim_end out [] = []
trim_end out (c ∷ t) = elim (trim_end out t) [
  | [] ↦ if out c then [] else c ∷ []
  | d ∷ s ↦ c ∷ d ∷ s
]

-- `trim_matches`.
unfoldable pub trim : (ℕ → Bool) → Text → Text
unfolding trim_start trim_end
trim out t = trim_end out (trim_start out t)

abbrev pub is_quote : ℕ → Bool
is_quote c = c == b'"'

unfoldable pub quoted : Text → Text
quoted key = b'"' ∷ (key ++ (b'"' ∷ []))

-- `body.contains("\"gates\"")`
unfoldable pub names_gates : Text → Bool
unfolding find_after quoted
names_gates body = is_some (find_after (quoted (codes "gates")) body)

module _ (F : F64) (parse_f64 : Text → Option F.Float) where
  open F use {Float, num, decimal, to_int, to_nat}

  -- `impl Default`
  unfoldable pub default_params : StrategyParams Float
  default_params = record {
    weight_trend = decimal 5 1;
    weight_momentum = decimal 3 1;
    weight_reversion = decimal 2 1;
    threshold = decimal 25 2;
    max_position = pos 3;
    vol = num 8;
    tick_us = 40;
    gates = false;
  }

  -- The closure `get`.
  unfoldable pub value_of : Text → Text → Option Float
  unfolding find_after after_colon before_end trim is_space quoted
  value_of body key = do
    rest ← find_after (quoted key) body
    after ← after_colon rest
    parse_f64 (trim is_quote (trim is_space (before_end after)))

  abbrev pub knob {ℓ} : {B : Type ℓ} → (Float → B) → Option Float → B → B
  knob f (some v) d = f v
  knob f none d = d

  unfoldable pub from_params_json : Text → StrategyParams Float
  unfolding value_of default_params names_gates
  from_params_json body = record {
    weight_trend = knob (λ v. v) (value_of body (codes "weight_trend")) default_params.weight_trend;
    weight_momentum =
        knob (λ v. v) (value_of body (codes "weight_momentum")) default_params.weight_momentum;
    weight_reversion =
        knob (λ v. v) (value_of body (codes "weight_reversion")) default_params.weight_reversion;
    threshold = knob (λ v. v) (value_of body (codes "threshold")) default_params.threshold;
    max_position = knob to_int (value_of body (codes "max_position")) default_params.max_position;
    vol = knob (λ v. v) (value_of body (codes "vol")) default_params.vol;
    tick_us = knob to_nat (value_of body (codes "tick_us")) default_params.tick_us;
    gates = names_gates body;
  }

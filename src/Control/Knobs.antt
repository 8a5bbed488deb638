-- ===== src/Control/Knobs.antt =====
-- src/bin/control_server.rs, `from_params_json`: the knobs that it reads from a flat object.
use rust_hotpath_ipc.Prelude.{
  ◌>>=◌, ◌≡◌, refl, ap, ◌∙◌, true, inl, inr, Bool-cases, Option, none, List, [], ◌∷◌, ◌++◌,
  append_assoc, if◌then◌else◌,
}
use rust_hotpath_ipc.Prelude.Text.{Text, codes, text_eq, eq_of_text_eq}
use rust_hotpath_ipc.Json.Print.{all_num_chars}
use rust_hotpath_ipc.Float.{F64}
use rust_hotpath_ipc.Control.Params.{
  StrategyParams, after_colon, before_end, is_space, trim, is_quote, names_gates, default_params,
  value_of, knob, from_params_json,
}
use rust_hotpath_ipc.Control.Flat.{quote_free, text, text_after}
use rust_hotpath_ipc.Control.Pieces.{
  Piece, pieces, starts_word, ends_value, is_knob, ArePieces, has_name, find_after-pieces,
  is_some-text_after, before_end-all_num_chars, trim-keeps, keeps-is_space, keeps-is_quote,
}

module _ (F : F64) (parse_f64 : Text → Option F.Float) where
  -- The number of the first piece of the name `k`.
  unfoldable pub number_of : Text → List Piece → Option F.Float
  unfolding text_eq
  number_of k [] = none
  number_of k (Piece.number n v t ∷ ps) = if text_eq n k then parse_f64 v else number_of k ps
  number_of k (Piece.other n t ∷ ps) = if text_eq n k then none else number_of k ps

  -- The rest of `get`, behind the name.
  abbrev read : Text → Option F.Float
  read rest =
      after_colon rest >>= λ after. parse_f64 (trim is_quote (trim is_space (before_end after)))

  read-number :
      (v t rest : Text)
      → all_num_chars v ≡ true
      → ends_value t ≡ true
      → read ((b':' ∷ (v ++ t)) ++ rest) ≡ parse_f64 v
  unfolding after_colon
  read-number v t rest h e = rw (
    append_assoc,
    before_end-all_num_chars v t rest h e,
    trim-keeps is_space v (keeps-is_space v h),
    trim-keeps is_quote v (keeps-is_quote v h),
  )

  text_after-read :
      (k : Text) (ps : List Piece)
      → is_knob k ≡ true
      → ArePieces ps
      → (text_after k (pieces ps) >>= read) ≡ number_of k ps
  unfolding text_after pieces ArePieces number_of
  text_after-read k [] h a = refl
  text_after-read k (Piece.number n v t ∷ ps) h a = elim (Bool-cases (text_eq n k)) [
    | inl same ↦ rw same (read-number v t (text (pieces ps)) a.0.1 a.0.3)
    | inr differ ↦ rw differ (text_after-read k ps h a.1)
  ]
  text_after-read k (Piece.other n t ∷ ps) h a = elim (Bool-cases (text_eq n k)) [
    | inl same ↦ cc (eq_of_text_eq n k same)
    | inr differ ↦ rw differ (text_after-read k ps h a.1)
  ]

  -- `get` reads the number of the first piece with the name that is asked for.
  value_of-pieces :
      (k pre : Text) (ps : List Piece)
      → quote_free k ≡ true
      → starts_word k ≡ true
      → is_knob k ≡ true
      → quote_free pre ≡ true
      → ArePieces ps
      → value_of F parse_f64 (pre ++ text (pieces ps)) k ≡ number_of k ps
  unfolding value_of
  value_of-pieces k pre ps q w h i a =
      ap (λ o. o >>= read) (find_after-pieces k pre ps q w i a) ∙ text_after-read k ps h a

  -- What the pieces say, each knob without a number at its default.
  unfoldable pub params_of : List Piece → StrategyParams F.Float
  unfolding number_of has_name
  params_of ps = record {
    weight_trend = knob F parse_f64 (λ v. v) (number_of (codes "weight_trend") ps) d.weight_trend;
    weight_momentum =
        knob F parse_f64 (λ v. v) (number_of (codes "weight_momentum") ps) d.weight_momentum;
    weight_reversion =
        knob F parse_f64 (λ v. v) (number_of (codes "weight_reversion") ps) d.weight_reversion;
    threshold = knob F parse_f64 (λ v. v) (number_of (codes "threshold") ps) d.threshold;
    max_position = knob F parse_f64 F.to_int (number_of (codes "max_position") ps) d.max_position;
    vol = knob F parse_f64 (λ v. v) (number_of (codes "vol") ps) d.vol;
    tick_us = knob F parse_f64 F.to_nat (number_of (codes "tick_us") ps) d.tick_us;
    gates = has_name (codes "gates") ps;
  }
    where
      d : StrategyParams F.Float
      d = default_params F parse_f64

  -- On a text of quoted names, each with the text up to the next quote, the scan reads what a
  -- reader of the pieces would, in any order: each numeric knob is the number of the first piece of
  -- that name, or its default if there is none or it is no float, and the gate mode is on exactly
  -- if the name gates stands in quotes. It is provided that quotes stand round the names alone,
  -- that a number is written with the characters of one and ends with a comma or a brace, that a
  -- knob has a number, and that no other text between quotes begins with a small letter.
  pub from_params_json-pieces :
      (pre : Text) (ps : List Piece)
      → quote_free pre ≡ true
      → ArePieces ps
      → from_params_json F parse_f64 (pre ++ text (pieces ps)) ≡ params_of ps
  unfolding from_params_json params_of names_gates quote_free starts_word is_knob
  from_params_json-pieces pre ps i a =
      let get =
        λ (k : Text) (q : quote_free k ≡ true) (w : starts_word k ≡ true) (h : is_knob k ≡ true).
          value_of-pieces k pre ps q w h i a in
      rw (
        get (codes "weight_trend") refl refl refl,
        get (codes "weight_momentum") refl refl refl,
        get (codes "weight_reversion") refl refl refl,
        get (codes "threshold") refl refl refl,
        get (codes "max_position") refl refl refl,
        get (codes "vol") refl refl refl,
        get (codes "tick_us") refl refl refl,
        find_after-pieces (codes "gates") pre ps refl refl i a,
        is_some-text_after (codes "gates") ps,
      )

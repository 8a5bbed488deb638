-- ===== src/Control/Flat.antt =====
-- src/bin/control_server.rs, `from_params_json`: a text in which every quote belongs to a name, the
-- way the console sends its knobs, and the scan for a quoted name.
use rust_hotpath_ipc.Prelude.{
  ◌≡◌, refl, ◌∙◌, Bool, true, false, not, ◌&&◌, inl, inr, Bool-cases, Option, none, some, List, [],
  ◌∷◌, ◌++◌, append_assoc, append-nil, arith, ◌==◌, if◌then◌else◌,
}
use rust_hotpath_ipc.Prelude.Text.{Text, text_eq}
use rust_hotpath_ipc.Control.Params.{strip_prefix, or_else, find_after, quoted}

unfoldable pub quote_free : Text → Bool
quote_free [] = true
quote_free (c ∷ t) = not (c == b'"') && quote_free t

-- Names in quotes, each with the text up to the next quote.
unfoldable pub text : List (Text × Text) → Text
unfolding quoted
text [] = []
text ((n, t) ∷ r) = quoted n ++ (t ++ text r)

-- What follows the first of them that is `k`.
unfoldable pub text_after : Text → List (Text × Text) → Option Text
unfolding text
text_after k [] = none
text_after k ((n, t) ∷ r) = if text_eq n k then some (t ++ text r) else text_after k r

-- No name and nothing between two names holds a quote, and nothing between them is `k`.
unfoldable pub Separates : Text → List (Text × Text) → Type 0
Separates k [] = Unit {0}
Separates k ((n, t) ∷ r) =
    (quote_free n ≡ true) × (quote_free t ≡ true) × (text_eq t k ≡ false) × Separates k r

strip_prefix-quote :
    (k n rest : Text)
    → quote_free k ≡ true
    → quote_free n ≡ true
    → strip_prefix (k ++ (b'"' ∷ [])) (n ++ (b'"' ∷ rest))
      ≡ (if text_eq n k then some rest else none)
unfolding strip_prefix quote_free text_eq
strip_prefix-quote [] [] rest h j = refl
strip_prefix-quote [] (c ∷ n) rest h j = ground arith
strip_prefix-quote (p ∷ k) [] rest h j = ground arith
strip_prefix-quote (p ∷ k) (c ∷ n) rest h j = ground (arith, strip_prefix-quote k n rest)

strip_prefix-quote_free :
    (k n : Text) → quote_free n ≡ true → strip_prefix (k ++ (b'"' ∷ [])) n ≡ none
unfolding strip_prefix quote_free
strip_prefix-quote_free [] [] j = refl
strip_prefix-quote_free [] (c ∷ n) j = ground arith
strip_prefix-quote_free (p ∷ k) [] j = refl
strip_prefix-quote_free (p ∷ k) (c ∷ n) j = ground (arith, strip_prefix-quote_free k n)

find_after-quote_free :
    (p s rest : Text)
    → quote_free s ≡ true
    → find_after (b'"' ∷ p) (s ++ rest) ≡ find_after (b'"' ∷ p) rest
unfolding find_after quote_free
find_after-quote_free p [] rest h = refl
find_after-quote_free p (c ∷ s) rest h = ground (arith, find_after-quote_free p s rest)

strip_prefix-text :
    (k t : Text) (r : List (Text × Text))
    → quote_free k ≡ true
    → quote_free t ≡ true
    → text_eq t k ≡ false
    → strip_prefix (k ++ (b'"' ∷ [])) (t ++ text r) ≡ none
unfolding text
strip_prefix-text k t [] h j e = rw append-nil (strip_prefix-quote_free k t j)
strip_prefix-text k t ((n, u) ∷ r) h j e =
    strip_prefix-quote k t ((n ++ (b'"' ∷ [])) ++ (u ++ text r)) h j ∙ rw e

-- At a quote the name is there, or the search goes on behind the quote.
find_after-at_quote :
    (p rest : Text)
    → find_after (b'"' ∷ p) (b'"' ∷ rest)
      ≡ or_else (strip_prefix p rest) (find_after (b'"' ∷ p) rest)
unfolding find_after strip_prefix
find_after-at_quote p rest = refl

-- Past a name, and what follows it, the search goes on.
find_after-past :
    (k n t : Text) (r : List (Text × Text))
    → quote_free k ≡ true
    → quote_free n ≡ true
    → quote_free t ≡ true
    → text_eq t k ≡ false
    → find_after (quoted k) (n ++ (b'"' ∷ (t ++ text r))) ≡ find_after (quoted k) (text r)
unfolding quoted
find_after-past k n t r h i j e =
    find_after-quote_free (k ++ (b'"' ∷ [])) n (b'"' ∷ (t ++ text r)) i
    ∙ find_after-at_quote (k ++ (b'"' ∷ [])) (t ++ text r)
    ∙ rw (strip_prefix-text k t r h j e) (find_after-quote_free (k ++ (b'"' ∷ [])) t (text r) j)

find_after-name :
    (k n t : Text) (r : List (Text × Text))
    → quote_free k ≡ true
    → quote_free n ≡ true
    → quote_free t ≡ true
    → text_eq t k ≡ false
    → find_after (quoted k) (text ((n, t) ∷ r))
      ≡ (if text_eq n k then some (t ++ text r) else find_after (quoted k) (text r))
unfolding text quoted
find_after-name k n t r h i j e = rw append_assoc (
    find_after-at_quote (k ++ (b'"' ∷ [])) (n ++ (b'"' ∷ (t ++ text r)))
    ∙ rw (strip_prefix-quote k n (t ++ text r) h i) (elim (Bool-cases (text_eq n k)) [
      | inl same ↦ rw same
      | inr differ ↦ rw differ (find_after-past k n t r h i j e)
    ]))

-- The scan for a quoted name finds what follows the first of the names that it is.
pub find_after-text :
    (k : Text) (ps : List (Text × Text))
    → quote_free k ≡ true
    → Separates k ps
    → find_after (quoted k) (text ps) ≡ text_after k ps
unfolding text_after Separates
find_after-text k [] h s = unfold find_after text in refl
find_after-text k ((n, t) ∷ r) h s =
    find_after-name k n t r h s.0 s.1 s.2 ∙ rw (find_after-text k r h s.3)

pub find_after-skip :
    (k pre rest : Text)
    → quote_free pre ≡ true
    → find_after (quoted k) (pre ++ rest) ≡ find_after (quoted k) rest
unfolding quoted
find_after-skip k pre rest h = find_after-quote_free (k ++ (b'"' ∷ [])) pre rest h

-- ===== src/OrderBook/Uncrossed.antt =====
-- The operations of src/order_book.rs, and the best bid against the best ask.
use rust_hotpath_ipc.Prelude.{
  none, Bool, ℕ, ◌<◌, ◌≡◌, refl, sym, ap, subst, ◌∙◌, ◌⊎◌, inl, inr, true, false, Option, some,
  List, [], ◌∷◌, arith, Bool-cases, Option-cases,
}
use rust_hotpath_ipc.Prelude.Int.{ℤ, eqb_ℤ, eqb_ℤ_refl, ltb_ℤ}
use rust_hotpath_ipc.OrderBook.{
  Side, opposite, PriceLevel, Fill, Order, Levels, Book, levels_of, before, get_level, put_level,
  best_key, best_of, best_bid, best_ask, level_mut, acceptable, is_empty, settle, cross_level,
  Crossed, cross, rest, submit, rounds, without, cancel_at, cancel,
}
use rust_hotpath_ipc.OrderBook.Sides.{
  levels_of-settle_any, own_levels-settle, levels_of-rest, other_levels-rest, best_of-best_key,
  levels_of-cancel_at, other_levels-cancel_at, cancel_unknown, cancel_known,
}
use rust_hotpath_ipc.OrderBook.Done.{finish_cases, IsDone, sated, exhausted, refused, cross-IsDone}
use rust_hotpath_ipc.OrderBook.Refine.{cross_inv}
use rust_hotpath_ipc.OrderBook.Invariant.{Sorted}
use rust_hotpath_ipc.OrderBook.Valid.{SidesAreValid, side_of, settle-SidesAreValid}
use rust_hotpath_ipc.OrderBook.Recedes.{Recedes, Recedes-delete_level, Recedes-written_back}

-- The sides `s` and its opposite do not touch.
abbrev Apart : Side → Book → Type 0
Apart s b =
    (p q : ℤ)
    → best_of s b ≡ some p
    → best_of (opposite s) b ≡ some q
    → before (opposite s) p q ≡ true

abbrev apart : Option ℤ → Option ℤ → Bool
apart (some p) (some q) = ltb_ℤ p q
apart _ _ = true

-- The best bid is below the best ask, if there are both.
abbrev pub IsUncrossed : Book → Type 0
IsUncrossed b = apart (best_bid b) (best_ask b) ≡ true

apart-some :
    (o o' : Option ℤ) (p q : ℤ) → apart o o' ≡ true → o ≡ some p → o' ≡ some q → ltb_ℤ p q ≡ true
apart-some o o' p q u h k = rw (h, k) at u

some-apart :
    (o o' : Option ℤ)
    → ((p q : ℤ) → o ≡ some p → o' ≡ some q → ltb_ℤ p q ≡ true)
    → apart o o' ≡ true
some-apart none o' h = refl
some-apart (some p) none h = refl
some-apart (some p) (some q) h = h p q refl refl

Apart-IsUncrossed : (s : Side) (b : Book) → Apart s b → IsUncrossed b
Apart-IsUncrossed Side.buy b a = some-apart (best_bid b) (best_ask b) λ p q h k. a p q h k
Apart-IsUncrossed Side.sell b a = some-apart (best_bid b) (best_ask b) λ p q h k. a q p k h

IsUncrossed-Apart : (s : Side) (b : Book) → IsUncrossed b → Apart s b
IsUncrossed-Apart Side.buy b u p q h k = apart-some (best_bid b) (best_ask b) p q u h k
IsUncrossed-Apart Side.sell b u p q h k = apart-some (best_bid b) (best_ask b) q p u k h

apart_near :
    (s : Side) (p p' q : ℤ)
    → before s p' p ≡ false
    → before (opposite s) p q ≡ true
    → before (opposite s) p' q ≡ true
apart_near Side.buy p p' q h k = ground arith
apart_near Side.sell p p' q h k = ground arith

apart_far :
    (s : Side) (p q q' : ℤ)
    → before (opposite s) q' q ≡ false
    → before (opposite s) p q ≡ true
    → before (opposite s) p q' ≡ true
apart_far Side.buy p q q' h k = ground arith
apart_far Side.sell p q q' h k = ground arith

-- When the opposite side recedes and this one stays, the sides stay apart.
Apart-Recedes :
    (s : Side) (b b' : Book)
    → levels_of s b' ≡ levels_of s b
    → Recedes (opposite s) (levels_of (opposite s) b) (levels_of (opposite s) b')
    → Apart s b
    → Apart s b'
Apart-Recedes s b b' same far a p q' h k =
    let (q, e, r) = far q' (sym (best_of-best_key (opposite s) b') ∙ k) in
    apart_far s p q q' r (
      a p q (best_of-best_key s b ∙ ap best_key (sym same) ∙ sym (best_of-best_key s b') ∙ h)
        (best_of-best_key (opposite s) b ∙ e))

get_level_first :
    (px : ℤ) (ls : Levels) → best_key ls ≡ some px → (l : PriceLevel) × (get_level px ls ≡ some l)
unfolding get_level
get_level_first px [] e = cc
get_level_first px ((p, l) ∷ ls) e = let same : p ≡ px = cc e in (l, rw (← same, eqb_ℤ_refl p))

settle-Apart :
    (t : Order) (b : Book) (px : ℤ) (remaining : ℕ)
    → SidesAreValid b
    → best_of (opposite t.side) b ≡ some px
    → Apart t.side b
    → Apart t.side (settle t px (cross_level t px remaining b) b)
settle-Apart t b px remaining v best a =
    let opp = opposite t.side in
    let p = cross_level t px remaining b in
    let (l, there) = get_level_first px (levels_of opp b) (sym (best_of-best_key opp b) ∙ best) in
    Apart-Recedes t.side b (settle t px p b) (own_levels-settle t px p b)
      (rw levels_of-settle_any
        (Recedes-written_back opp px l p.level (levels_of opp b) there (side_of opp v).sorted))
      a

cross-Apart :
    (t : Order) (fuel remaining : ℕ) (b : Book)
    → SidesAreValid b
    → Apart t.side b
    → Apart t.side (cross fuel t remaining b).book
cross-Apart t fuel remaining b v a =
    (cross_inv (λ b'. SidesAreValid b' × Apart t.side b') t
      (λ b' px r h best _.
        (settle-SidesAreValid t b' px r h.0, settle-Apart t b' px r h.0 best h.1))
      fuel remaining b (v, a)).1

-- The best key after a write is the new price or the old best.
best_key-put_level :
    (s : Side) (px p' : ℤ) (l : PriceLevel) (ls : Levels)
    → best_key (put_level s px l ls) ≡ some p'
    → (px ≡ p') ⊎ (best_key ls ≡ some p')
unfolding put_level
best_key-put_level s px p' l [] e = inl (cc e)
best_key-put_level s px p' l ((p, k) ∷ ls) e = elim (Bool-cases (eqb_ℤ p px)) [
  | inl same ↦ let head : ◌≡◌ {A = Option ℤ} (some px) (some p') = rw same at e in inl (cc head)
  | inr other ↦ elim (Bool-cases (before s px p)) [
    | inl here ↦
        let head : ◌≡◌ {A = Option ℤ} (some px) (some p') = rw (other, here) at e in inl (cc head)
    | inr later ↦ inr (rw (other, later) at e)
  ]
]

-- A price that the order refuses lies beyond its limit.
refused-apart :
    (s : Side) (t : Order) (q : ℤ)
    → t.side ≡ s
    → t.is_limit ≡ true
    → acceptable t q ≡ false
    → before (opposite s) t.limit_px q ≡ true
refused-apart Side.buy t q e limit h = ground arith
refused-apart Side.sell t q e limit h = ground arith

-- When the crossing is over, the limit of what is left lies short of the other side.
IsDone-limit :
    (t : Order) (c : Crossed) (q : ℤ)
    → IsDone t c
    → 0 < c.remaining
    → t.is_limit ≡ true
    → best_of (opposite t.side) c.book ≡ some q
    → before (opposite t.side) t.limit_px q ≡ true
IsDone-limit t c q (sated h) left limit k = absurd (omega arith)
IsDone-limit t c q (exhausted h) left limit k = cc
IsDone-limit t c q (refused px h no_deal) left limit k =
    let same : px ≡ q = cc in
    refused-apart t.side t q refl limit (subst (λ x. acceptable t x ≡ false) same no_deal)

rest-Apart :
    (t : Order) (c : Crossed)
    → IsDone t c
    → 0 < c.remaining
    → t.is_limit ≡ true
    → Apart t.side c.book
    → Apart t.side (rest t c.remaining c.book)
rest-Apart t c over left limit a p' q h k =
    let own = sym (best_of-best_key t.side (rest t c.remaining c.book)) ∙ h in
    let far =
      best_of-best_key (opposite t.side) c.book
      ∙ ap best_key (sym (other_levels-rest t c.remaining c.book))
      ∙ sym (best_of-best_key (opposite t.side) (rest t c.remaining c.book))
      ∙ k in
    elim (best_key-put_level t.side t.limit_px p' _ _
      (ap best_key (sym (levels_of-rest t c.remaining c.book)) ∙ own)) [
        | inl new ↦ rw (← new) (IsDone-limit t c q over left limit far)
        | inr old ↦ a p' q (best_of-best_key t.side c.book ∙ old) far
      ]

-- Submitting an order, of whatever kind, to a valid book whose best bid is below its best ask
-- leaves a book whose best bid is below its best ask.
pub submit-IsUncrossed :
    (t : Order) (fills : List Fill) (b : Book)
    → SidesAreValid b
    → IsUncrossed b
    → IsUncrossed (submit t fills b).book
unfolding submit
submit-IsUncrossed t fills b v u = Apart-IsUncrossed t.side (submit t fills b).book (
    finish_cases (λ r. Apart t.side r.book) t fills (cross (rounds t b) t t.quantity b)
      (λ _. crossed) (λ _ _. crossed)
      (λ left limit. rest-Apart t _ (cross-IsDone t t.quantity b) left limit crossed))
  where
    crossed : Apart t.side (cross (rounds t b) t t.quantity b).book
    crossed = cross-Apart t (rounds t b) t.quantity b v (IsUncrossed-Apart t.side b u)

-- The level that a cancel finds, or none, in which case there is nothing to write back.
cancel-Recedes :
    (id : ℕ) (s : Side) (px : ℤ) (b : Book)
    → Sorted s (levels_of s b)
    → Recedes s (levels_of s b) (levels_of s (cancel_at id s px b))
cancel-Recedes id s px b w = elim (Option-cases (get_level px (levels_of s b))) [
  | inl absent ↦
      let nothing : is_empty (without id (level_mut s px b)).queue ≡ true =
        unfold level_mut without in rw (absent) refl in
      rw (levels_of-cancel_at, nothing) (Recedes-delete_level s px (levels_of s b) w)
  | inr (l, there) ↦ rw levels_of-cancel_at (Recedes-written_back s px l _ (levels_of s b) there w)
]

cancel_at-IsUncrossed :
    (id : ℕ) (s : Side) (px : ℤ) (b : Book)
    → SidesAreValid b
    → IsUncrossed b
    → IsUncrossed (cancel_at id s px b)
cancel_at-IsUncrossed id Side.buy px b v u =
    Apart-IsUncrossed Side.sell (cancel_at id Side.buy px b) (
      Apart-Recedes Side.sell b (cancel_at id Side.buy px b)
        (other_levels-cancel_at id Side.buy px b) (cancel-Recedes id Side.buy px b v.bids.sorted)
        (IsUncrossed-Apart Side.sell b u))
cancel_at-IsUncrossed id Side.sell px b v u =
    Apart-IsUncrossed Side.buy (cancel_at id Side.sell px b) (
      Apart-Recedes Side.buy b (cancel_at id Side.sell px b)
        (other_levels-cancel_at id Side.sell px b) (cancel-Recedes id Side.sell px b v.asks.sorted)
        (IsUncrossed-Apart Side.buy b u))

-- A cancel, of a known order or an unknown one, leaves a valid book whose best bid is below its best
-- ask with its best bid below its best ask.
pub cancel-IsUncrossed :
    (id : ℕ) (b : Book) → SidesAreValid b → IsUncrossed b → IsUncrossed (cancel id b).0
cancel-IsUncrossed id b v u = elim (Option-cases (b.locate id)) [
  | inl unknown ↦ rw (cancel_unknown id b unknown) u
  | inr ((s, px), at) ↦ rw (cancel_known id b s px at) (cancel_at-IsUncrossed id s px b v u)
]

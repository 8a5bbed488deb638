-- ===== src/OrderBook/Cancel.antt =====
-- What `Book::cancel` of src/order_book.rs does to the abstract market.
use rust_hotpath_ipc.Prelude.{
  ℕ, ◌≡◌, refl, sym, ap, subst, ◌∙◌, ◌⊎◌, true, false, ◌&&◌, none, some, List, [], ◌∷◌, ◌++◌, arith,
  ◌==◌, ==_iff, if◌then◌else◌, Bool-cases, Option-cases, inl, inr,
}
use rust_hotpath_ipc.Prelude.Int.{ℤ, eqb_ℤ, eqb_ℤ_refl, eq_of_parts}
use rust_hotpath_ipc.OrderBook.{
  Side, opposite, RestingOrder, PriceLevel, Levels, Book, Outcome, before, levels_of, get_level,
  put_level, delete_level, is_empty, level_mut, remove_order, without, cancel_at, cancel,
  remove_location,
}
use rust_hotpath_ipc.OrderBook.Sides.{
  levels_of-cancel_at, other_levels-cancel_at, cancel_known, cancel_unknown, without_absent,
  without_found,
}
use rust_hotpath_ipc.OrderBook.Invariant.{Sorted, AllWorse}
use rust_hotpath_ipc.OrderBook.Line.{at_price, line_of, line}
use rust_hotpath_ipc.OrderBook.Market.{before-ne}
use rust_hotpath_ipc.OrderBook.Recedes.{AllWorse-get_level}
use rust_hotpath_ipc.OrderBook.Valid.{SidesAreValid, side_of}
use rust_hotpath_ipc.OrderBook.Submit.{Offers}

-- The first order of that id at that price leaves the line.
unfoldable pub drop_order : ℕ → ℤ → Offers → Offers
drop_order id px [] = []
drop_order id px ((p, o) ∷ r) =
    if eqb_ℤ p px && o.order_id == id then r else (p, o) ∷ drop_order id px r

drop_order-skip :
    (id : ℕ) (px p : ℤ) (q : List RestingOrder) (r : Offers)
    → eqb_ℤ p px ≡ false
    → drop_order id px (at_price p q ++ r) ≡ at_price p q ++ drop_order id px r
unfolding drop_order
drop_order-skip id px p [] r h = refl
drop_order-skip id px p (o ∷ q) r h = rw h (ap (λ l. (p, o) ∷ l) (drop_order-skip id px p q r h))

drop_order-none :
    (id : ℕ) (px : ℤ) (ls : Levels)
    → get_level px ls ≡ none
    → (drop_order id px (line_of ls) ≡ line_of ls) × (delete_level px ls ≡ ls)
unfolding get_level delete_level
drop_order-none id px [] e = unfold drop_order in (refl, refl)
drop_order-none id px ((p, l) ∷ ls) e = elim (Bool-cases (eqb_ℤ p px)) [
  | inl same ↦ cc (rw same at e)
  | inr other ↦
      let (kept, whole) = drop_order-none id px ls (rw other at e) in
      (
        drop_order-skip id px p l.queue (line_of ls) other ∙ ap (λ r. at_price p l.queue ++ r) kept,
        rw other (ap (λ r. (p, l) ∷ r) whole),
      )
]

get_level-worse : (s : Side) (px : ℤ) (ls : Levels) → AllWorse s px ls → get_level px ls ≡ none
unfolding get_level
get_level-worse s px [] w = refl
get_level-worse s px ((p, l) ∷ ls) w = rw (before-ne s px p w.0) (get_level-worse s px ls w.1)

-- Within the queue of the price.
drop_order-queue :
    (id : ℕ) (px : ℤ) (q : List RestingOrder) (r : Offers)
    → drop_order id px r ≡ r
    → (remove_order id q ≡ none) × (drop_order id px (at_price px q ++ r) ≡ at_price px q ++ r)
      ⊎ ((o : RestingOrder) × (q' : List RestingOrder) × (remove_order id q ≡ some (o, q'))
          × (drop_order id px (at_price px q ++ r) ≡ at_price px q' ++ r))
unfolding drop_order remove_order
drop_order-queue id px [] r h = inl (refl, h)
drop_order-queue id px (o ∷ q) r h = elim (Bool-cases (o.order_id == id)) [
  | inl hit ↦ inr (o, q, rw hit refl, rw (eqb_ℤ_refl px, hit) refl)
  | inr miss ↦ elim (drop_order-queue id px q r h) [
    | inl (absent, same) ↦
        inl (rw (miss, absent) refl, rw (eqb_ℤ_refl px, miss) (ap (λ l. (px, o) ∷ l) same))
    | inr (k, q', there, less) ↦
        inr
          (k, o ∷ q', rw (miss, there) refl, rw (eqb_ℤ_refl px, miss) (ap (λ l. (px, o) ∷ l) less))
  ]
]

drop_order-without :
    (id : ℕ) (px : ℤ) (l : PriceLevel) (r : Offers)
    → drop_order id px r ≡ r
    → drop_order id px (at_price px l.queue ++ r) ≡ at_price px (without id l).queue ++ r
drop_order-without id px l r h = elim (drop_order-queue id px l.queue r h) [
  | inl (absent, same) ↦ rw (without_absent id l absent) same
  | inr (o, q, there, less) ↦ rw (without_found id l o q there) less
]

-- What `cancel` writes back.
abbrev written : Side → ℤ → PriceLevel → Levels → Levels
written s px l ls = if is_empty l.queue then delete_level px ls else put_level s px l ls

line_of-written_first :
    (s : Side) (px : ℤ) (l l' : PriceLevel) (ls : Levels)
    → line_of (written s px l' ((px, l) ∷ ls)) ≡ at_price px l'.queue ++ line_of ls
unfolding delete_level put_level
line_of-written_first s px l l' ls = go l'.total_size l'.queue
  where
    go :
        (n : ℕ) (q : List RestingOrder)
        → line_of (written s px (record { total_size = n; queue = q }) ((px, l) ∷ ls))
          ≡ at_price px q ++ line_of ls
    go n [] = rw (eqb_ℤ_refl px) refl
    go n (o ∷ q) = rw (eqb_ℤ_refl px) refl

written_later :
    (s : Side) (px p : ℤ) (l l' : PriceLevel) (ls : Levels)
    → eqb_ℤ p px ≡ false
    → before s px p ≡ false
    → written s px l' ((p, l) ∷ ls) ≡ (p, l) ∷ written s px l' ls
unfolding delete_level put_level
written_later s px p l l' ls other later = elim (Bool-cases (is_empty l'.queue)) [
  | inl empty ↦ rw (empty, other) refl
  | inr full ↦ rw (full, other, later) refl
]

line_of-written :
    (id : ℕ) (s : Side) (px : ℤ) (l : PriceLevel) (ls : Levels)
    → get_level px ls ≡ some l
    → Sorted s ls
    → line_of (written s px (without id l) ls) ≡ drop_order id px (line_of ls)
unfolding get_level
line_of-written id s px l [] there w = cc
line_of-written id s px l ((p, k) ∷ ls) there w = elim (Bool-cases (eqb_ℤ p px)) [
  | inl same ↦
      let p-px : p ≡ px = eq_of_parts p px ((==_iff _ _).0 same) in
      let k-l : k ≡ l = cc (rw same at there) in
      let worse = subst (λ x. AllWorse s x ls) p-px w.0 in
      let (kept, _) = drop_order-none id px ls (get_level-worse s px ls worse) in
      rw (p-px, k-l)
        (line_of-written_first s px l (without id l) ls
          ∙ sym (drop_order-without id px l (line_of ls) kept))
  | inr other ↦
      let rest = rw other at there in
      let later = AllWorse-get_level s p px l ls w.0 rest in
      ap line_of (written_later s px p k (without id l) ls other later)
      ∙ ap (λ r. at_price p k.queue ++ r) (line_of-written id s px l ls rest w.1)
      ∙ sym (drop_order-skip id px p k.queue (line_of ls) other)
]

line-cancel_at :
    (id : ℕ) (s : Side) (px : ℤ) (b : Book)
    → SidesAreValid b
    → line s (cancel_at id s px b) ≡ drop_order id px (line s b)
line-cancel_at id s px b v = elim (Option-cases (get_level px (levels_of s b))) [
  | inl absent ↦
      let nothing : is_empty (without id (level_mut s px b)).queue ≡ true =
        unfold level_mut without in rw absent refl in
      let (kept, whole) = drop_order-none id px (levels_of s b) absent in
      let unchanged : levels_of s (cancel_at id s px b) ≡ levels_of s b =
        rw (levels_of-cancel_at, nothing) whole in
      ap line_of unchanged ∙ sym kept
  | inr (l, there) ↦
      let found : level_mut s px b ≡ l = unfold level_mut in rw there refl in
      let after : levels_of s (cancel_at id s px b) ≡ written s px (without id l) (levels_of s b) =
        rw (levels_of-cancel_at, found) refl in
      ap line_of after ∙ line_of-written id s px l (levels_of s b) there (side_of s v).sorted
]

-- What a cancel of an order that `locate` has on side `s` at price `px` leaves.
pub record IsCancelled (id : ℕ) (s : Side) (px : ℤ) (b : Book) (r : Book × Outcome) : Type 0 where
  pub outcome : r.1 ≡ Outcome.cancelled
  pub own_line : line s r.0 ≡ drop_order id px (line s b)
  pub other_line : line (opposite s) r.0 ≡ line (opposite s) b
  pub forgotten : r.0.locate id ≡ none

locate-cancel_at : (id : ℕ) (s : Side) (px : ℤ) (b : Book) → (cancel_at id s px b).locate id ≡ none
unfolding cancel_at remove_location
locate-cancel_at id Side.buy px b = ground arith
locate-cancel_at id Side.sell px b = ground arith

-- On a valid book, a cancel of an order that `locate` knows takes the first order of that id at the
-- price it has for it out of the line of its side, whether or not its level is then empty, leaves
-- the other side as it was, and forgets the order, so that a second cancel of it is rejected and
-- changes nothing.
pub cancel-IsCancelled :
    (id : ℕ) (s : Side) (px : ℤ) (b : Book)
    → SidesAreValid b
    → b.locate id ≡ some (s, px)
    → IsCancelled id s px b (cancel id b)
      × (cancel id (cancel id b).0 ≡ ((cancel id b).0, Outcome.cancel_rejected))
cancel-IsCancelled id s px b v at =
    let forgotten = locate-cancel_at id s px b in
    rw (cancel_known id b s px at) (
      record {
        outcome = refl;
        own_line = line-cancel_at id s px b v;
        other_line = ap line_of (other_levels-cancel_at id s px b);
        forgotten = forgotten;
      },
      cancel_unknown id (cancel_at id s px b) forgotten,
    )

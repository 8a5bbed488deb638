-- ===== src/OrderBook/Market.antt =====
-- The abstract market that src/order_book.rs implements: a line of orders for each side, with no
-- levels, no cached sizes and no index.
use rust_hotpath_ipc.Prelude.{
  ℕ, ◌+◌, ◌%◌, ◌^◌, ◌≡◌, refl, sym, ap, subst, ◌∙◌, inl, inr, true, false, none, List, [], ◌∷◌,
  ◌++◌, arith, if◌then◌else◌, Bool-cases, ==_iff,
}
use rust_hotpath_ipc.Prelude.Int.{ℤ, eqb_ℤ, eq_of_parts}
use rust_hotpath_ipc.OrderBook.{
  Side, RestingOrder, Levels, before, get_level, put_level, is_empty, or_new,
}
use rust_hotpath_ipc.OrderBook.Refine.{NoEmpty}
use rust_hotpath_ipc.OrderBook.Invariant.{
  Sorted, AllWorse, sum_remaining, SideIsValid, before_trans,
}
use rust_hotpath_ipc.OrderBook.Line.{at_price, line_of}

-- Behind every order whose price is as good, before every worse one.
unfoldable pub enqueue : Side → ℤ → RestingOrder → List (ℤ × RestingOrder) → List (ℤ × RestingOrder)
enqueue s px o [] = (px, o) ∷ []
enqueue s px o ((p, k) ∷ r) =
    if before s px p then (px, o) ∷ (p, k) ∷ r else (p, k) ∷ enqueue s px o r

-- What is on offer at a price.
unfoldable pub depth : ℤ → List (ℤ × RestingOrder) → ℕ
depth px [] = 0
depth px ((p, o) ∷ r) = (if eqb_ℤ p px then o.remaining else 0) + depth px r

enqueue-skip :
    (s : Side) (px p : ℤ) (o : RestingOrder) (q : List RestingOrder) (r : List (ℤ × RestingOrder))
    → before s px p ≡ false
    → enqueue s px o (at_price p q ++ r) ≡ at_price p q ++ enqueue s px o r
unfolding enqueue
enqueue-skip s px p o [] r h = refl
enqueue-skip s px p o (k ∷ q) r h = rw h (ap (λ l. (p, k) ∷ l) (enqueue-skip s px p o q r h))

enqueue-front :
    (s : Side) (px p : ℤ) (o : RestingOrder) (q : List RestingOrder) (r : List (ℤ × RestingOrder))
    → is_empty q ≡ false
    → before s px p ≡ true
    → enqueue s px o (at_price p q ++ r) ≡ (px, o) ∷ (at_price p q ++ r)
unfolding enqueue
enqueue-front s px p o [] r full h = cc
enqueue-front s px p o (k ∷ q) r full h = rw h

enqueue-AllWorse :
    (s : Side) (px : ℤ) (o : RestingOrder) (ls : Levels)
    → AllWorse s px ls
    → NoEmpty ls
    → enqueue s px o (line_of ls) ≡ (px, o) ∷ line_of ls
enqueue-AllWorse s px o [] w full = unfold enqueue in refl
enqueue-AllWorse s px o ((p, l) ∷ ls) w full =
    enqueue-front s px p o l.queue (line_of ls) full.0 w.0

at_price-append :
    (px : ℤ) (q : List RestingOrder) (o : RestingOrder) (r : List (ℤ × RestingOrder))
    → at_price px (q ++ o ∷ []) ++ r ≡ at_price px q ++ (px, o) ∷ r
at_price-append px [] o r = refl
at_price-append px (k ∷ q) o r = ap (λ l. (px, k) ∷ l) (at_price-append px q o r)

pub before-ne : (s : Side) (px p : ℤ) → before s px p ≡ true → eqb_ℤ p px ≡ false
before-ne Side.buy px p h = ground arith
before-ne Side.sell px p h = ground arith

not_before_same : (s : Side) (a : ℤ) → before s a a ≡ false
not_before_same Side.buy a = ground arith
not_before_same Side.sell a = ground arith

get_level-AllWorse :
    (s : Side) (px p : ℤ) (ls : Levels)
    → before s px p ≡ true
    → AllWorse s p ls
    → get_level px ls ≡ none
unfolding get_level
get_level-AllWorse s px p [] h w = refl
get_level-AllWorse s px p ((q, l) ∷ ls) h w =
    rw (before-ne s px q (before_trans s px p q h w.0)) (get_level-AllWorse s px p ls h w.1)

-- Resting at the back of a price's own queue is joining the line there.
pub line_of-put_level :
    (s : Side) (px : ℤ) (o : RestingOrder) (n : ℕ) (q : List RestingOrder) (ls : Levels)
    → (or_new (get_level px ls)).queue ≡ q
    → Sorted s ls
    → NoEmpty ls
    → line_of (put_level s px (record { total_size = n; queue = q ++ o ∷ [] }) ls)
      ≡ enqueue s px o (line_of ls)
unfolding put_level get_level
line_of-put_level s px o n q [] e w full = unfold enqueue in rw (← e)
line_of-put_level s px o n q ((p, l) ∷ ls) e w full = elim (Bool-cases (eqb_ℤ p px)) [
  | inl same ↦
      let p-px : p ≡ px = eq_of_parts p px ((==_iff _ _).0 same) in
      let worse = subst (λ x. AllWorse s x ls) p-px w.0 in
      let own : l.queue ≡ q = rw same at e in
      rw (same, ← own)
        (at_price-append px l.queue o (line_of ls)
          ∙ ap (◌++◌ (at_price px l.queue)) (sym (enqueue-AllWorse s px o ls worse full.1))
          ∙ sym (enqueue-skip s px px o l.queue (line_of ls) (not_before_same s px))
          ∙ ap (λ x. enqueue s px o (at_price x l.queue ++ line_of ls)) (sym p-px))
  | inr other ↦ elim (Bool-cases (before s px p)) [
    | inl here ↦
        let fresh : [] ≡ q = rw (other, get_level-AllWorse s px p ls here w.0) at e in
        rw (other, here, ← fresh) (sym (enqueue-front s px p o l.queue (line_of ls) full.0 here))
    | inr later ↦
        rw (other, later)
          (ap (◌++◌ (at_price p l.queue))
              (line_of-put_level s px o n q ls (rw other at e) w.1 full.1)
            ∙ sym (enqueue-skip s px p o l.queue (line_of ls) later))
  ]
]

-- The cached size that the book shows is the depth of the line, as a `u64`.
depth-at_price :
    (px p : ℤ) (q : List RestingOrder) (r : List (ℤ × RestingOrder))
    → depth px (at_price p q ++ r) ≡ (if eqb_ℤ p px then sum_remaining q else 0) + depth px r
unfolding depth
depth-at_price px p [] r = ground arith
depth-at_price px p (o ∷ q) r = ground (arith, depth-at_price px p q r)

depth-AllWorse : (s : Side) (px : ℤ) (ls : Levels) → AllWorse s px ls → depth px (line_of ls) ≡ 0
depth-AllWorse s px [] w = unfold depth in refl
depth-AllWorse s px ((p, l) ∷ ls) w =
    let far : eqb_ℤ p px ≡ false = before-ne s px p w.0 in
    depth-at_price px p l.queue (line_of ls) ∙ rw far (omega (arith, depth-AllWorse s px ls w.1))

pub get_level-depth :
    (s : Side) (px : ℤ) (ls : Levels)
    → SideIsValid s ls
    → (or_new (get_level px ls)).total_size ≡ depth px (line_of ls) % 2 ^ 64
unfolding get_level
get_level-depth s px [] v = unfold depth in refl
get_level-depth s px ((p, l) ∷ ls) v = elim (Bool-cases (eqb_ℤ p px)) [
  | inl same ↦
      let e : p ≡ px = eq_of_parts p px ((==_iff _ _).0 same) in
      let none_later = depth-AllWorse s px ls (subst (λ x. AllWorse s x ls) e v.sorted.0) in
      rw (same, depth-at_price px p l.queue (line_of ls), same, none_later)
        (v.sized.1.cached ∙ ap (λ n. n % 2 ^ 64) (omega arith))
  | inr other ↦
      rw (other, depth-at_price px p l.queue (line_of ls), other)
        (get_level-depth s px ls (record { sorted = v.sorted.1; sized = v.sized.2 })
          ∙ ap (λ n. n % 2 ^ 64) (omega arith))
]

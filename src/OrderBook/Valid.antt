-- ===== src/OrderBook/Valid.antt =====
-- The operations of src/order_book.rs and the validity of the two sides.
use rust_hotpath_ipc.Prelude.Words.{sub_u64, add_u64}
use rust_hotpath_ipc.Prelude.{
  ℕ, ◌+◌, ◌%◌, ◌^◌, ◌≤◌, ◌<◌, ◌≡◌, refl, ap, ◌∙◌, inl, inr, false, Option, some, List, [], ◌∷◌,
  ◌++◌, arith, ◌==◌, if◌then◌else◌, Bool-cases, Option-cases,
}
use rust_hotpath_ipc.Prelude.Int.{ℤ}
use rust_hotpath_ipc.OrderBook.{
  Side, opposite, RestingOrder, PriceLevel, Fill, Order, Levels, Book, levels_of, put_level,
  delete_level, level_mut, is_empty, settle, cross_level, cross, rest, submit, rounds, remove_order,
  without, cancel,
}
use rust_hotpath_ipc.OrderBook.Sides.{
  levels_of-settle_any, own_levels-settle, levels_of-rest, other_levels-rest, levels_of-cancel_at,
  other_levels-cancel_at, cancel_unknown, cancel_known, without_absent, without_found,
}
use rust_hotpath_ipc.OrderBook.Done.{finish_cases}
use rust_hotpath_ipc.OrderBook.Refine.{cross_inv, NoEmpty, cross-Agrees}
use rust_hotpath_ipc.OrderBook.Line.{sweep-remaining-le}
use rust_hotpath_ipc.OrderBook.Invariant.{
  sum_remaining, AllWorking, IsSized, AllSized, SideIsValid, Sorted-put_level, Sorted-delete_level,
  AllSized-put_level, AllSized-delete_level, get_level-IsSized, consume-IsSized, sub_u64_cached,
}

pub record SidesAreValid (b : Book) : Type 0 where
  pub bids : SideIsValid Side.buy b.bids
  pub asks : SideIsValid Side.sell b.asks

pub side_of : (s : Side) {b : Book} → SidesAreValid b → SideIsValid s (levels_of s b)
side_of Side.buy v = v.bids
side_of Side.sell v = v.asks

pub of_sides :
    (s : Side) (b : Book)
    → SideIsValid s (levels_of s b)
    → SideIsValid (opposite s) (levels_of (opposite s) b)
    → SidesAreValid b
of_sides Side.buy b v w = record { bids = v; asks = w }
of_sides Side.sell b v w = record { bids = w; asks = v }

-- Writing a level back, or taking it out when it is empty.
written_back :
    (s : Side) (px : ℤ) (l : PriceLevel) (ls : Levels)
    → SideIsValid s ls
    → IsSized l
    → SideIsValid s (if is_empty l.queue then delete_level px ls else put_level s px l ls)
written_back s px l ls v z = elim (Bool-cases (is_empty l.queue)) [
  | inl empty ↦ rw empty (record {
    sorted = Sorted-delete_level s px ls v.sorted;
    sized = AllSized-delete_level px ls v.sized;
  })
  | inr full ↦ rw full (record {
    sorted = Sorted-put_level s px l ls v.sorted;
    sized = AllSized-put_level s px l ls full z v.sized;
  })
]

level_mut-IsSized :
    (s : Side) (px : ℤ) (b : Book) → SideIsValid s (levels_of s b) → IsSized (level_mut s px b)
unfolding level_mut
level_mut-IsSized s px b v = get_level-IsSized px _ v.sized

pub settle-SidesAreValid :
    (t : Order) (b : Book) (px : ℤ) (remaining : ℕ)
    → SidesAreValid b
    → SidesAreValid (settle t px (cross_level t px remaining b) b)
unfolding cross_level
settle-SidesAreValid t b px remaining v =
    let z = level_mut-IsSized (opposite t.side) px b (side_of (opposite t.side) v) in
    of_sides t.side _ (rw own_levels-settle (side_of t.side v)) (
      rw levels_of-settle_any (
        written_back (opposite t.side) px _ _ (side_of (opposite t.side) v)
          (consume-IsSized t px remaining _ _ z.cached z.working)))

pub cross-SidesAreValid :
    (t : Order) (fuel remaining : ℕ) (b : Book)
    → SidesAreValid b
    → SidesAreValid (cross fuel t remaining b).book
cross-SidesAreValid t fuel remaining b =
    cross_inv SidesAreValid t (λ b' px r v _ _. settle-SidesAreValid t b' px r v) fuel remaining b

sum_remaining-append :
    (q : List RestingOrder) (o : RestingOrder)
    → sum_remaining (q ++ o ∷ []) ≡ sum_remaining q + o.remaining
sum_remaining-append [] o = omega arith
sum_remaining-append (x ∷ q) o = omega (arith, sum_remaining-append q o)

AllWorking-append :
    (q : List RestingOrder) (o : RestingOrder)
    → AllWorking q
    → 0 < o.remaining
    → o.remaining < 2 ^ 64
    → AllWorking (q ++ o ∷ [])
AllWorking-append [] o w h k = (h, k, tt)
AllWorking-append (x ∷ q) o w h k = (w.0, w.1, AllWorking-append q o w.2 h k)

is_empty-append : (q : List RestingOrder) (o : RestingOrder) → is_empty (q ++ o ∷ []) ≡ false
is_empty-append [] o = refl
is_empty-append (x ∷ q) o = refl

add_u64_cached : (a s n : ℕ) → a ≡ s % 2 ^ 64 → add_u64 a n ≡ (s + n) % 2 ^ 64
add_u64_cached a s n e = omega arith

-- An order that joins a level keeps its size up to date.
IsSized-append :
    (l : PriceLevel) (o : RestingOrder)
    → IsSized l
    → 0 < o.remaining
    → o.remaining < 2 ^ 64
    → IsSized (record { total_size = add_u64 l.total_size o.remaining; queue = l.queue ++ o ∷ [] })
IsSized-append l o v h k = record {
  cached = rw (sum_remaining-append l.queue o) (add_u64_cached _ _ o.remaining v.cached);
  working = AllWorking-append l.queue o v.working h k;
}

rest-SidesAreValid :
    (t : Order) (remaining : ℕ) (b : Book)
    → 0 < remaining
    → remaining < 2 ^ 64
    → SidesAreValid b
    → SidesAreValid (rest t remaining b)
rest-SidesAreValid t remaining b h k v =
    let own = side_of t.side v in
    let l = level_mut t.side t.limit_px b in
    let o : RestingOrder = record {
      order_id = t.order_id;
      remaining = remaining;
      is_synthetic = t.is_synthetic;
    } in
    of_sides t.side _
      (rw levels_of-rest (record {
        sorted = Sorted-put_level _ _ _ _ own.sorted;
        sized =
            AllSized-put_level _ _ _ _ (is_empty-append l.queue o)
              (IsSized-append l o (level_mut-IsSized _ _ _ own) h k) own.sized;
      }))
      (rw other_levels-rest (side_of (opposite t.side) v))

pub AllSized-NoEmpty : (ls : Levels) → AllSized ls → NoEmpty ls
AllSized-NoEmpty [] w = tt
AllSized-NoEmpty (_ ∷ ls) w = (w.0, AllSized-NoEmpty ls w.2)

cross-remaining-le :
    (t : Order) (b : Book)
    → SidesAreValid b
    → (cross (rounds t b) t t.quantity b).remaining ≤ t.quantity
cross-remaining-le t b v =
    rw
      ((cross-Agrees (rounds t b) t t.quantity b _ refl
        (AllSized-NoEmpty _ (side_of (opposite t.side) v).sized) (omega arith)).remaining)
      (sweep-remaining-le t t.quantity _)

-- Submitting an order, of a quantity that is a `u64`, keeps both sides of the book valid: prices
-- strictly ordered from the best, no level empty, no order with nothing left, and each level's
-- cached size equal to the sum of its queue modulo 2^64.
pub submit-SidesAreValid :
    (t : Order) (fills : List Fill) (b : Book)
    → t.quantity < 2 ^ 64
    → SidesAreValid b
    → SidesAreValid (submit t fills b).book
unfolding submit
submit-SidesAreValid t fills b k v =
    finish_cases (λ r. SidesAreValid r.book) t fills (cross (rounds t b) t t.quantity b)
      (λ _. crossed) (λ _ _. crossed)
      (λ left _.
        let small = cross-remaining-le t b v in rest-SidesAreValid t _ _ left (omega arith) crossed)
  where
    crossed : SidesAreValid (cross (rounds t b) t t.quantity b).book
    crossed = cross-SidesAreValid t (rounds t b) t.quantity b v

-- Taking an order out of a queue takes its quantity out of the sum.
remove_order-sum :
    (id : ℕ) (q : List RestingOrder) (o : RestingOrder) (q' : List RestingOrder)
    → remove_order id q ≡ some (o, q')
    → AllWorking q
    → (sum_remaining q ≡ o.remaining + sum_remaining q') × (o.remaining < 2 ^ 64) × AllWorking q'
unfolding remove_order
remove_order-sum id [] o q' e w = cc
remove_order-sum id (x ∷ q) o q' e w = elim (Bool-cases (x.order_id == id)) [
  | inl hit ↦
      let found : ◌≡◌ {A = Option (RestingOrder × List RestingOrder)} (some (x, q)) (some (o, q')) =
        rw (hit, remove_order) at e in
      let first : x ≡ o = cc found in
      let others : q ≡ q' = cc found in rw (← first, ← others) (refl, w.1, w.2)
  | inr miss ↦ elim (Option-cases (remove_order id q)) [
    | inl none_there ↦ cc (rw (miss, none_there) at e)
    | inr ((y, r), there) ↦
        let found : ◌≡◌ {A = Option (RestingOrder × List RestingOrder)} (some (y, x ∷ r))
            (some (o, q')) =
          rw (miss, there) at e in
        let first : y ≡ o = cc found in
        let others : x ∷ r ≡ q' = cc found in
        let (a, b, c) = remove_order-sum id q y r there w.2 in
        rw (← first, ← others) (omega arith, b, (w.0, w.1, c))
  ]
]

without-IsSized : (id : ℕ) (l : PriceLevel) → IsSized l → IsSized (without id l)
without-IsSized id l v = elim (Option-cases (remove_order id l.queue)) [
  | inl absent ↦ rw (without_absent id l absent) v
  | inr ((o, q), there) ↦
      let (a, b, c) = remove_order-sum id l.queue o q there v.working in
      rw (without_found id l o q there) (record {
        cached =
            ap (λ n. sub_u64 n o.remaining) (v.cached ∙ ap (λ n. n % 2 ^ 64) a)
            ∙ sub_u64_cached o.remaining o.remaining (sum_remaining q) (omega arith) b
            ∙ omega arith;
        working = c;
      })
]

-- Cancelling keeps both sides of the book valid, whatever the id.
pub cancel-SidesAreValid : (id : ℕ) (b : Book) → SidesAreValid b → SidesAreValid (cancel id b).0
cancel-SidesAreValid id b v = elim (Option-cases (b.locate id)) [
  | inl unknown ↦ rw (cancel_unknown id b unknown) v
  | inr ((s, px), at) ↦ rw (cancel_known id b s px at) (
      of_sides s _
        (rw levels_of-cancel_at (
          written_back s px _ _ (side_of s v)
            (without-IsSized id _ (level_mut-IsSized s px b (side_of s v)))))
        (rw other_levels-cancel_at (side_of (opposite s) v)))
]

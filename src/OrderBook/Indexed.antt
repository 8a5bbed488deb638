-- ===== src/OrderBook/Indexed.antt =====
-- The index `locate` of src/order_book.rs: an order that it knows waits where it is said to.
use rust_hotpath_ipc.Prelude.{
  ℕ, ◌≡◌, ◌≢◌, refl, sym, ap, ◌∙◌, ◌⊎◌, inl, inr, true, false, none, some, List, [], ◌∷◌, ◌++◌,
  arith, ◌==◌, ==_iff, Bool-cases, Option-cases, if◌then◌else◌,
}
use rust_hotpath_ipc.Prelude.Words.{add_u64}
use rust_hotpath_ipc.Prelude.Int.{ℤ, eqb_ℤ, eq_of_parts}
use rust_hotpath_ipc.OrderBook.{
  Side, opposite, RestingOrder, PriceLevel, put_level, Levels, Book, Order, Fill, levels_of,
  with_levels, level_mut, new_book, settle, cross_level, Progress, cross, rest, submit, rounds,
  cancel_at, cancel, insert_location, remove_location, remove_locations, without,
}
use rust_hotpath_ipc.OrderBook.Sides.{
  levels_of-settle_any, own_levels-settle, levels_of-rest, other_levels-rest, levels_of-cancel_at,
  other_levels-cancel_at, cancel_unknown, cancel_known,
}
use rust_hotpath_ipc.OrderBook.Done.{finish_cases}
use rust_hotpath_ipc.OrderBook.Refine.{cross_inv}
use rust_hotpath_ipc.OrderBook.Queued.{
  queued, written, queue_of, queued-written, queue_of-written_other, queued-consume,
  listed-remove_locations, queued-nonempty, queued-joined, queued-kept, queued-without,
}

-- An order that is located waits in the queue of that price on that side.
abbrev pub IsIndexed : Book → Type 0
IsIndexed b =
    (id : ℕ) (s : Side) (px : ℤ)
    → b.locate id ≡ some (s, px)
    → queued id (queue_of px (levels_of s b)) ≡ true

locate-with_levels : (s : Side) (ls : Levels) (b : Book) → (with_levels s ls b).locate ≡ b.locate
locate-with_levels Side.buy ls b = refl
locate-with_levels Side.sell ls b = refl

opposite_twice : (s : Side) → opposite (opposite s) ≡ s
opposite_twice Side.buy = refl
opposite_twice Side.sell = refl

same_or_opposite : (s r : Side) → (r ≡ s) ⊎ (r ≡ opposite s)
same_or_opposite Side.buy Side.buy = inl refl
same_or_opposite Side.buy Side.sell = inr refl
same_or_opposite Side.sell Side.buy = inr refl
same_or_opposite Side.sell Side.sell = inl refl

opposite-ne : (s : Side) → opposite s ≢ s
opposite-ne Side.buy e = cc
opposite-ne Side.sell e = cc

-- A step that writes back the level at `px` of one side, and leaves the other side.
IsIndexed-written :
    (s : Side) (px : ℤ) (l : PriceLevel) (b b' : Book)
    → levels_of s b' ≡ written s px l (levels_of s b)
    → levels_of (opposite s) b' ≡ levels_of (opposite s) b
    → ((id : ℕ) (r : Side) (at : ℤ)
        → b'.locate id ≡ some (r, at)
        → (queued id (queue_of at (levels_of r b)) ≡ true) ⊎ ((r ≡ s) × (at ≡ px)))
    → ((id : ℕ) → b'.locate id ≡ some (s, px) → queued id l.queue ≡ true)
    → IsIndexed b'
IsIndexed-written s px l b b' own other before here id r at e = elim (same_or_opposite s r) [
  | inr away ↦ elim (before id r at e) [
    | inl waits ↦ rw away (rw (other) (rw away at waits))
    | inr (same, _) ↦ absurd (opposite-ne s (sym away ∙ same))
  ]
  | inl same ↦ rw same (
      rw own (elim (Bool-cases (eqb_ℤ px at)) [
        | inl hit ↦
            let px-at : px ≡ at = eq_of_parts px at ((==_iff _ _).0 hit) in
            rw (← px-at) (queued-written id s px l (levels_of s b) (here id (rw (← same, px-at) e)))
        | inr miss ↦ elim (before id r at e) [
          | inl waits ↦
              rw (queue_of-written_other s px at l (levels_of s b) miss) (rw same at waits)
          | inr (_, at-px) ↦ absurd (ground arith)
        ]
      ]))
]

locate-settle :
    (t : Order) (px : ℤ) (p : Progress) (b : Book)
    → (settle t px p b).locate ≡ (remove_locations p.cleared_makers b).locate
unfolding settle
locate-settle t px p b = locate-with_levels (opposite t.side) _ _

settle-IsIndexed :
    (t : Order) (b : Book) (px : ℤ) (remaining : ℕ)
    → IsIndexed b
    → IsIndexed (settle t px (cross_level t px remaining b) b)
settle-IsIndexed t b px remaining h =
    let p = cross_level t px remaining b in
    let kept = λ (id : ℕ) (at : Side × ℤ) (e : (settle t px p b).locate id ≡ some at).
      listed-remove_locations p.cleared_makers id b at
        (sym (ap (λ f. f id) (locate-settle t px p b)) ∙ e) in
    IsIndexed-written (opposite t.side) px p.level b (settle t px p b)
      (levels_of-settle_any t px p b) (rw (opposite_twice t.side) (own_levels-settle t px p b))
      (λ id r at e. inl (h id r at (kept id (r, at) e).0))
      (λ id e.
        let (was, out) = kept id (opposite t.side, px) e in
        unfold cross_level level_mut in
        queued-consume id t px remaining _ _ (h id (opposite t.side) px was) out)

cross-IsIndexed :
    (t : Order) (fuel remaining : ℕ) (b : Book)
    → IsIndexed b
    → IsIndexed (cross fuel t remaining b).book
cross-IsIndexed t = cross_inv IsIndexed t (λ b px r h _ _. settle-IsIndexed t b px r h)

locate-rest :
    (t : Order) (remaining : ℕ) (b : Book) (id : ℕ)
    → (rest t remaining b).locate id
      ≡ (if id == t.order_id then some (t.side, t.limit_px) else b.locate id)
unfolding rest insert_location
locate-rest t remaining b id =
    ap (λ f. if id == t.order_id then some (t.side, t.limit_px) else f id)
      (locate-with_levels t.side _ b)

rest-IsIndexed :
    (t : Order) (remaining : ℕ) (b : Book) → IsIndexed b → IsIndexed (rest t remaining b)
rest-IsIndexed t remaining b h =
    let l = level_mut t.side t.limit_px b in
    let o : RestingOrder = record {
      order_id = t.order_id;
      remaining = remaining;
      is_synthetic = t.is_synthetic;
    } in
    let l' : PriceLevel = record {
      total_size = add_u64 l.total_size remaining;
      queue = l.queue ++ o ∷ [];
    } in
    let joined = queued-joined l.queue o in
    let ls = levels_of t.side b in
    let put : written t.side t.limit_px l' ls ≡ put_level t.side t.limit_px l' ls =
      rw (queued-nonempty t.order_id (l.queue ++ o ∷ []) joined) refl in
    IsIndexed-written t.side t.limit_px l' b (rest t remaining b)
      (levels_of-rest t remaining b ∙ sym put) (other_levels-rest t remaining b)
      (λ id r at e. elim (Bool-cases (id == t.order_id)) [
        | inl mine ↦
            let e' = rw mine at (sym (locate-rest t remaining b id) ∙ e) in inr (cc e', cc e')
        | inr other ↦ inl (h id r at (rw other at (sym (locate-rest t remaining b id) ∙ e)))
      ])
      (λ id e. elim (Bool-cases (id == t.order_id)) [
        | inl mine ↦ rw ((==_iff id t.order_id).0 mine) joined
        | inr other ↦
            let was =
              h id t.side t.limit_px (rw other at (sym (locate-rest t remaining b id) ∙ e)) in
            queued-kept id l.queue o (unfold level_mut in was)
      ])

locate-cancel_at :
    (id : ℕ) (s : Side) (px : ℤ) (b : Book) (j : ℕ)
    → (cancel_at id s px b).locate j ≡ (if j == id then none else b.locate j)
unfolding cancel_at remove_location
locate-cancel_at id s px b j = ap (λ f. f j) (locate-with_levels s _ (remove_location id b))

cancel_at-IsIndexed :
    (id : ℕ) (s : Side) (px : ℤ) (b : Book) → IsIndexed b → IsIndexed (cancel_at id s px b)
cancel_at-IsIndexed id s px b h =
    let kept =
      λ (j : ℕ) (at : Side × ℤ) (e : (cancel_at id s px b).locate j ≡ some at). still j at e in
    IsIndexed-written s px (without id (level_mut s px b)) b (cancel_at id s px b)
      (levels_of-cancel_at id s px b) (other_levels-cancel_at id s px b)
      (λ j r at e. inl (h j r at (still j (r, at) e).1))
      (λ j e.
        let (other, was) = still j (s, px) e in
        queued-without j id (level_mut s px b) other (unfold level_mut in h j s px was))
  where
    still :
        (j : ℕ) (at : Side × ℤ)
        → (cancel_at id s px b).locate j ≡ some at
        → ((id == j) ≡ false) × (b.locate j ≡ some at)
    still j at e =
        let e' = sym (locate-cancel_at id s px b j) ∙ e in
        elim (Bool-cases (j == id)) [
          | inl same ↦ cc (rw same at e')
          | inr other ↦ (ground arith, rw other at e')
        ]

submit-IsIndexed :
    (t : Order) (fills : List Fill) (b : Book) → IsIndexed b → IsIndexed (submit t fills b).book
unfolding submit
submit-IsIndexed t fills b h =
    let crossed = cross-IsIndexed t (rounds t b) t.quantity b h in
    finish_cases (λ r. IsIndexed r.book) t fills (cross (rounds t b) t t.quantity b) (λ _. crossed)
      (λ _ _. crossed) (λ _ _. rest-IsIndexed t _ _ crossed)

cancel-IsIndexed : (id : ℕ) (b : Book) → IsIndexed b → IsIndexed (cancel id b).0
cancel-IsIndexed id b h = elim (Option-cases (b.locate id)) [
  | inl unknown ↦ rw (cancel_unknown id b unknown) h
  | inr ((s, px), at) ↦ rw (cancel_known id b s px at) (cancel_at-IsIndexed id s px b h)
]

pub data Request : Type 0 where
  place : Order → Request
  withdraw : ℕ → Request

-- The book after the requests, from the first to the last.
unfoldable pub history : List Request → Book → Book
history [] b = b
history (Request.place t ∷ rs) b = history rs (submit t [] b).book
history (Request.withdraw id ∷ rs) b = history rs (cancel id b).0

history-IsIndexed : (rs : List Request) (b : Book) → IsIndexed b → IsIndexed (history rs b)
unfolding history
history-IsIndexed [] b h = h
history-IsIndexed (Request.place t ∷ rs) b h = history-IsIndexed rs _ (submit-IsIndexed t [] b h)
history-IsIndexed (Request.withdraw id ∷ rs) b h = history-IsIndexed rs _ (cancel-IsIndexed id b h)

-- After any submits and cancels of a new book, an order that the index knows waits in the queue of
-- the level at the price and on the side that the index has for it.
pub history-queued :
    (rs : List Request) (id : ℕ) (s : Side) (px : ℤ)
    → (history rs new_book).locate id ≡ some (s, px)
    → queued id (level_mut s px (history rs new_book)).queue ≡ true
unfolding level_mut
history-queued rs id s px e = history-IsIndexed rs new_book (λ j r at none_known. cc) id s px e

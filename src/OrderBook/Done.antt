-- ===== src/OrderBook/Done.antt =====
-- The end of the crossing loop of src/order_book.rs, and its fuel.
use rust_hotpath_ipc.Prelude.{
  ℕ, zero, suc, ◌<◌, ◌≡◌, refl, inl, inr, true, false, none, some, List, [], ◌∷◌, ◌++◌, arith, ◌==◌,
  length, Bool-cases, ==_iff,
}
use rust_hotpath_ipc.Prelude.Int.{ℤ}
use rust_hotpath_ipc.OrderBook.{
  opposite, PriceLevel, Fill, Order, Levels, Book, levels_of, best_of, level_mut, consume,
  acceptable, is_empty, settle, Crossed, cross, rounds, rest, Submitted, Outcome, Reject, finish,
}
use rust_hotpath_ipc.OrderBook.Line.{consume-stops}
use rust_hotpath_ipc.OrderBook.Sides.{levels_of-settle, best_of-best_key}
use rust_hotpath_ipc.OrderBook.Refine.{
  cross_done, cross-none, cross_refused, cross_round, best_of_first, cross_level_first, cross_stops,
}

-- The crossing is over: the taker is filled, the other side is empty, or its best price is refused.
pub data IsDone (t : Order) (c : Crossed) : Type 0 where
  sated : c.remaining ≡ 0 → IsDone t c
  exhausted : best_of (opposite t.side) c.book ≡ none → IsDone t c
  refused :
      (px : ℤ) → best_of (opposite t.side) c.book ≡ some px → acceptable t px ≡ false → IsDone t c

IsDone-fills :
    (t : Order) (c : Crossed) (fills : List Fill)
    → IsDone t c
    → IsDone t (record c { fills = fills })
IsDone-fills t c fills (sated h) = sated h
IsDone-fills t c fills (exhausted h) = exhausted h
IsDone-fills t c fills (refused px h k) = refused px h k

IsDone-round :
    (fuel : ℕ) (t : Order) (px : ℤ) (remaining : ℕ) (b : Book) (l : PriceLevel) (ls : Levels)
    → levels_of (opposite t.side) b ≡ (px, l) ∷ ls
    → let p = consume t px remaining l.total_size l.queue in
      let b' = settle t px p b in
      (levels_of (opposite t.side) b' ≡ ls → IsDone t (cross fuel t p.remaining b'))
      → IsDone t (cross fuel t p.remaining b')
IsDone-round fuel t px remaining b l ls e go_on =
    let p = consume t px remaining l.total_size l.queue in
    let kept = levels_of-settle t px p b l ls e in
    elim (Bool-cases (is_empty p.level.queue)) [
      | inl drained ↦ go_on (rw drained at kept)
      | inr left ↦
          let eq-nil-all_children : p.remaining ≡ 0 =
            consume-stops t px remaining l.total_size l.queue left in
          rw (cross_stops fuel t p.remaining (settle t px p b) eq-nil-all_children)
            (sated eq-nil-all_children)
    ]

-- With more fuel than the other side has levels the loop ends by its own tests.
cross-IsDone_levels :
    (fuel : ℕ) (t : Order) (remaining : ℕ) (b : Book) (ls : Levels)
    → levels_of (opposite t.side) b ≡ ls
    → length ls < fuel
    → IsDone t (cross fuel t remaining b)
cross-IsDone_levels zero t remaining b ls e enough = absurd (omega arith)
cross-IsDone_levels (suc fuel) t remaining b [] e enough = elim (Bool-cases (remaining == 0)) [
  | inl done ↦ rw (cross_done fuel t remaining b done) (sated ((==_iff remaining 0).0 done))
  | inr more ↦
      let empty : best_of (opposite t.side) b ≡ none = rw (best_of-best_key, e) refl in
      rw (cross-none fuel t remaining b more empty) (exhausted empty)
]
cross-IsDone_levels (suc fuel) t remaining b ((px, l) ∷ ls) e enough =
    let p = consume t px remaining l.total_size l.queue in
    let best = best_of_first _ b px l ls e in
    elim (Bool-cases (remaining == 0)) [
      | inl done ↦ rw (cross_done fuel t remaining b done) (sated ((==_iff remaining 0).0 done))
      | inr more ↦ elim (Bool-cases (acceptable t px)) [
        | inr no_deal ↦
            rw (cross_refused fuel t remaining b px more best no_deal) (refused px best no_deal)
        | inl deal ↦
            rw
              (
                cross_round fuel t remaining b px more best deal,
                cross_level_first t px remaining b l ls e,
              )
              (IsDone-fills t (cross fuel t p.remaining (settle t px p b)) _ (
                IsDone-round fuel t px remaining b l ls e
                  λ e'. cross-IsDone_levels fuel t _ _ ls e' (omega arith)))
      ]
    ]

-- The fuel that `submit` gives is enough: its crossing loop, on any book and for any quantity, ends
-- because the taker is filled, the other side is empty, or its best price is not acceptable.
pub cross-IsDone :
    (t : Order) (remaining : ℕ) (b : Book) → IsDone t (cross (rounds t b) t remaining b)
cross-IsDone t remaining b = cross-IsDone_levels _ t remaining b _ refl (omega arith)

-- The three ways in which `submit` ends.
pub finish_cases {ℓ} :
    (P : Submitted → Type ℓ) (t : Order) (fills : List Fill) (c : Crossed)
    → (c.remaining ≡ 0
        → P (record { book = c.book; fills = fills ++ c.fills; outcome = Outcome.filled }))
    → (0 < c.remaining
        → t.is_limit ≡ false
        → P (record {
          book = c.book;
          fills = fills ++ c.fills;
          outcome = Outcome.rejected Reject.no_liquidity;
        }))
    → (0 < c.remaining
        → t.is_limit ≡ true
        → P (record {
          book = rest t c.remaining c.book;
          fills = fills ++ c.fills;
          outcome = Outcome.rested (level_mut t.side t.limit_px c.book).total_size;
        }))
    → P (finish t fills c)
unfolding finish
finish_cases P t fills c done market limit = elim (Bool-cases (c.remaining == 0)) [
  | inl h ↦ simp h (done ((==_iff c.remaining 0).0 h))
  | inr h ↦ elim (Bool-cases t.is_limit) [
    | inr k ↦ simp (h, k) (market (ground arith) k)
    | inl k ↦ simp (h, k) (limit (ground arith) k)
  ]
]

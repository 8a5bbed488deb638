-- ===== src/OrderBook/Refine.antt =====
-- The crossing loop of `submit` in src/order_book.rs against the reference matcher.
use rust_hotpath_ipc.Prelude.{
  ℕ, zero, suc, ◌<◌, ◌≡◌, refl, sym, ap, ◌∙◌, inl, inr, true, false, none, some, [], ◌∷◌, ◌++◌,
  arith, ◌==◌, length, Bool-cases, Option-cases,
}
use rust_hotpath_ipc.Prelude.Int.{ℤ}
use rust_hotpath_ipc.OrderBook.{
  Side, opposite, PriceLevel, Order, Levels, Book, levels_of, best_of, Progress, consume,
  acceptable, is_empty, settle, cross_level, Crossed, cross,
}
use rust_hotpath_ipc.OrderBook.Line.{
  at_price, line_of, line, Swept, swept_none, sweep, sweep_done, sweep_refused, consume-sweep,
  consume-stops, is_empty-eq,
}
use rust_hotpath_ipc.OrderBook.Sides.{
  levels_of-settle, level_mut_first, best_of-best_key, forget, forget-append, locate-settle,
  own_levels-settle,
}

abbrev pub NoEmpty : Levels → Type 0
NoEmpty [] = Unit
NoEmpty ((_, l) ∷ ls) = (is_empty l.queue ≡ false) × NoEmpty ls

-- What the loop leaves from book `b`, against what the reference matcher leaves.
pub record Agrees (t : Order) (b : Book) (c : Crossed) (s : Swept) : Type 0 where
  pub remaining : c.remaining ≡ s.remaining
  pub line_left : line (opposite t.side) c.book ≡ s.line
  pub fills : c.fills ≡ s.fills
  pub located : c.book.locate ≡ forget s.gone b.locate
  pub own_levels : levels_of t.side c.book ≡ levels_of t.side b

abbrev pub stopped : Book → ℕ → Crossed
stopped b remaining = record { book = b; remaining = remaining; fills = [] }

-- The four ways through one turn of the crossing loop.
module _ (fuel : ℕ) (t : Order) (remaining : ℕ) (b : Book) where
  pub cross_done : (remaining == 0) ≡ true → cross (suc fuel) t remaining b ≡ stopped b remaining
  unfolding cross
  cross_done done = rw (done, cross)

  pub cross-none :
      (remaining == 0) ≡ false
      → best_of (opposite t.side) b ≡ none
      → cross (suc fuel) t remaining b ≡ stopped b remaining
  unfolding cross
  cross-none more e = rw (more, e, cross)

  module _ (px : ℤ) (more : (remaining == 0) ≡ false)
      (best : best_of (opposite t.side) b ≡ some px) where
    pub cross_refused :
        acceptable t px ≡ false → cross (suc fuel) t remaining b ≡ stopped b remaining
    unfolding cross
    cross_refused no_deal = rw (more, best, no_deal, cross)

    pub cross_round :
        acceptable t px ≡ true
        → let p = cross_level t px remaining b in
          let c = cross fuel t p.remaining (settle t px p b) in
          cross (suc fuel) t remaining b ≡ record c { fills = p.fills ++ c.fills }
    unfolding cross
    cross_round deal = rw (more, best, deal, cross)

pub best_of_first :
    (s : Side) (b : Book) (px : ℤ) (l : PriceLevel) (ls : Levels)
    → levels_of s b ≡ (px, l) ∷ ls
    → best_of s b ≡ some px
best_of_first s b px l ls e = rw (best_of-best_key, e)

pub cross_level_first :
    (t : Order) (px : ℤ) (remaining : ℕ) (b : Book) (l : PriceLevel) (ls : Levels)
    → levels_of (opposite t.side) b ≡ (px, l) ∷ ls
    → cross_level t px remaining b ≡ consume t px remaining l.total_size l.queue
unfolding cross_level
cross_level_first t px remaining b l ls e = rw (level_mut_first _ px b l ls e)

Agrees-stop :
    (t : Order) (remaining : ℕ) (b : Book) (ls : Levels) (s : Swept)
    → levels_of (opposite t.side) b ≡ ls
    → s ≡ swept_none remaining (line_of ls)
    → Agrees t b (stopped b remaining) s
Agrees-stop t remaining b ls s e h = rw h (record {
  remaining = refl;
  line_left = ap line_of e;
  fills = refl;
  located = refl;
  own_levels = refl;
})

Agrees-then :
    (t : Order) (px : ℤ) (p : Progress) (b : Book) (c : Crossed) (s s' : Swept)
    → s' ≡ record s { fills = p.fills ++ s.fills; gone = p.cleared_makers ++ s.gone }
    → Agrees t (settle t px p b) c s
    → Agrees t b (record c { fills = p.fills ++ c.fills }) s'
Agrees-then t px p b c s s' h a = rw h (record {
  remaining = a.remaining;
  line_left = a.line_left;
  fills = ap (◌++◌ p.fills) a.fills;
  located =
      a.located
      ∙ ap (forget s.gone) (locate-settle t px p b)
      ∙ sym (forget-append p.cleared_makers s.gone b.locate);
  own_levels = a.own_levels ∙ own_levels-settle t px p b;
})

pub cross_stops :
    (fuel : ℕ) (t : Order) (remaining : ℕ) (b : Book)
    → remaining ≡ 0
    → cross fuel t remaining b ≡ stopped b remaining
unfolding cross
cross_stops zero t remaining b e = refl
cross_stops (suc fuel) t remaining b e = cross_done fuel t remaining b (rw e)

-- After a round that drained the level the loop goes on; after one that did not it is over.
Agrees-round :
    (fuel : ℕ) (t : Order) (px : ℤ) (remaining : ℕ) (b : Book) (l : PriceLevel) (ls : Levels)
    → levels_of (opposite t.side) b ≡ (px, l) ∷ ls
    → let p = consume t px remaining l.total_size l.queue in
      let b' = settle t px p b in
      (levels_of (opposite t.side) b' ≡ ls
        → Agrees t b' (cross fuel t p.remaining b') (sweep t p.remaining (line_of ls)))
      → Agrees t b'
          (cross fuel t p.remaining b')
          (sweep t p.remaining (at_price px p.level.queue ++ line_of ls))
Agrees-round fuel t px remaining b l ls e go_on =
    let p = consume t px remaining l.total_size l.queue in
    let kept = levels_of-settle t px p b l ls e in
    elim (Bool-cases (is_empty p.level.queue)) [
      | inl drained ↦ simp (is_empty-eq p.level.queue drained) (go_on (rw drained at kept))
      | inr left ↦
          let eq-nil-all_children : p.remaining ≡ 0 =
            consume-stops t px remaining l.total_size l.queue left in
          rw (cross_stops fuel t p.remaining (settle t px p b) eq-nil-all_children) (
            Agrees-stop t p.remaining (settle t px p b) ((px, p.level) ∷ ls) _ (rw left at kept)
              (sweep_done t p.remaining _ (rw eq-nil-all_children)))
    ]

-- The crossing loop does to the other side of the book what the reference matcher does to its line.
pub cross-Agrees :
    (fuel : ℕ) (t : Order) (remaining : ℕ) (b : Book) (ls : Levels)
    → levels_of (opposite t.side) b ≡ ls
    → NoEmpty ls
    → length ls < fuel
    → Agrees t b (cross fuel t remaining b) (sweep t remaining (line_of ls))
cross-Agrees zero t remaining b ls e full enough = absurd (omega arith)
cross-Agrees (suc fuel) t remaining b [] e full enough = elim (Bool-cases (remaining == 0)) [
  | inl done ↦
      rw (cross_done fuel t remaining b done)
        (Agrees-stop t remaining b [] _ e (sweep_done t _ [] done))
  | inr more ↦
      rw (cross-none fuel t remaining b more (rw (best_of-best_key, e)))
        (Agrees-stop t remaining b [] _ e (unfold sweep in refl))
]
cross-Agrees (suc fuel) t remaining b ((px, l) ∷ ls) e full enough =
    let p = consume t px remaining l.total_size l.queue in
    let best = best_of_first _ b px l ls e in
    elim (Bool-cases (remaining == 0)) [
      | inl done ↦
          rw (cross_done fuel t remaining b done)
            (Agrees-stop t remaining b _ _ e (sweep_done t _ _ done))
      | inr more ↦ elim (Bool-cases (acceptable t px)) [
        | inr no_deal ↦ rw (cross_refused fuel t remaining b px more best no_deal) (
            Agrees-stop t remaining b _ _ e
              (sweep_refused t remaining px l.queue _ full.0 more no_deal))
        | inl deal ↦
            rw
              (
                cross_round fuel t remaining b px more best deal,
                cross_level_first t px remaining b l ls e,
              )
              (Agrees-then t px p b (cross fuel t p.remaining (settle t px p b))
                (sweep t p.remaining (at_price px p.level.queue ++ line_of ls)) _
                (consume-sweep t px remaining l.total_size l.queue _ deal)
                (Agrees-round fuel t px remaining b l ls e
                  λ e'. cross-Agrees fuel t p.remaining _ ls e' full.1 (omega arith)))
      ]
    ]

-- What every round keeps, the loop keeps.
pub cross_inv {ℓ} :
    (P : Book → Type ℓ) (t : Order)
    → ((b : Book) (px : ℤ) (remaining : ℕ)
        → P b
        → best_of (opposite t.side) b ≡ some px
        → acceptable t px ≡ true
        → P (settle t px (cross_level t px remaining b) b))
    → (fuel remaining : ℕ) (b : Book) → P b
    → P (cross fuel t remaining b).book
cross_inv P t keep zero remaining b h = unfold cross in h
cross_inv P t keep (suc fuel) remaining b h = elim (Bool-cases (remaining == 0)) [
  | inl done ↦ rw (cross_done fuel t remaining b done) h
  | inr more ↦ elim (Option-cases (best_of (opposite t.side) b)) [
    | inl empty ↦ rw (cross-none fuel t remaining b more empty) h
    | inr (px, best) ↦ elim (Bool-cases (acceptable t px)) [
      | inr no_deal ↦ rw (cross_refused fuel t remaining b px more best no_deal) h
      | inl deal ↦
          rw (cross_round fuel t remaining b px more best deal)
            (cross_inv P t keep fuel _ _ (keep b px remaining h best deal))
    ]
  ]
]

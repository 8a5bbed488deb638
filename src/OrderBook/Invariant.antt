-- ===== src/OrderBook/Invariant.antt =====
-- What each side of the book in src/order_book.rs keeps: prices in order, no empty level, and a
-- cached size that is the wrapped sum of the queue.
use rust_hotpath_ipc.Prelude.Words.{sub_u64}
use rust_hotpath_ipc.Prelude.{
  ℕ, ◌+◌, ◌-◌, ◌%◌, ◌^◌, ◌≤◌, ◌<◌, ◌≡◌, refl, ap, ◌∙◌, inl, inr, true, false, List, [], ◌∷◌, arith,
  min, ◌==◌, Bool-cases,
}
use rust_hotpath_ipc.Prelude.Int.{ℤ, eqb_ℤ}
use rust_hotpath_ipc.OrderBook.{
  Side, RestingOrder, PriceLevel, Order, Levels, before, get_level, put_level, delete_level,
  consume, is_empty, or_new,
}

-- All later prices are worse.
abbrev pub AllWorse : Side → ℤ → Levels → Type 0
AllWorse s px [] = Unit
AllWorse s px ((p, _) ∷ ls) = (before s px p ≡ true) × AllWorse s px ls

abbrev pub Sorted : Side → Levels → Type 0
Sorted s [] = Unit
Sorted s ((p, _) ∷ ls) = AllWorse s p ls × Sorted s ls

abbrev pub sum_remaining : List RestingOrder → ℕ
sum_remaining [] = 0
sum_remaining (o ∷ q) = o.remaining + sum_remaining q

-- An order in the book has something left, and it is a `u64`.
abbrev pub AllWorking : List RestingOrder → Type 0
AllWorking [] = Unit
AllWorking (o ∷ q) = (0 < o.remaining) × (o.remaining < 2 ^ 64) × AllWorking q

-- What holds of a level also while the matcher works on it, when its queue may be empty.
pub record IsSized (l : PriceLevel) : Type 0 where
  pub cached : l.total_size ≡ sum_remaining l.queue % 2 ^ 64
  pub working : AllWorking l.queue

abbrev pub AllSized : Levels → Type 0
AllSized [] = Unit
AllSized ((_, l) ∷ ls) = (is_empty l.queue ≡ false) × IsSized l × AllSized ls

pub record SideIsValid (s : Side) (ls : Levels) : Type 0 where
  pub sorted : Sorted s ls
  pub sized : AllSized ls

pub before_trans :
    (s : Side) (a b c : ℤ) → before s a b ≡ true → before s b c ≡ true → before s a c ≡ true
before_trans Side.buy a b c h k = ground arith
before_trans Side.sell a b c h k = ground arith

before_total : (s : Side) (a b : ℤ) → eqb_ℤ b a ≡ false → before s a b ≡ false → before s b a ≡ true
before_total Side.buy a b h k = ground arith
before_total Side.sell a b h k = ground arith

before_eq : (s : Side) (a b c : ℤ) → eqb_ℤ b a ≡ true → before s b c ≡ true → before s a c ≡ true
before_eq Side.buy a b c h k = ground arith
before_eq Side.sell a b c h k = ground arith

before_eq_right :
    (s : Side) (a b c : ℤ) → eqb_ℤ b a ≡ true → before s c b ≡ true → before s c a ≡ true
before_eq_right Side.buy a b c h k = ground arith
before_eq_right Side.sell a b c h k = ground arith

AllWorse-trans :
    (s : Side) (a b : ℤ) (ls : Levels) → before s a b ≡ true → AllWorse s b ls → AllWorse s a ls
AllWorse-trans s a b [] h w = tt
AllWorse-trans s a b ((p, _) ∷ ls) h w = (before_trans s a b p h w.0, AllWorse-trans s a b ls h w.1)

AllWorse-eq :
    (s : Side) (a b : ℤ) (ls : Levels) → eqb_ℤ b a ≡ true → AllWorse s b ls → AllWorse s a ls
AllWorse-eq s a b [] h w = tt
AllWorse-eq s a b ((p, _) ∷ ls) h w = (before_eq s a b p h w.0, AllWorse-eq s a b ls h w.1)

AllWorse-put_level :
    (s : Side) (a px : ℤ) (l : PriceLevel) (ls : Levels)
    → before s a px ≡ true
    → AllWorse s a ls
    → AllWorse s a (put_level s px l ls)
unfolding put_level
AllWorse-put_level s a px l [] h w = (h, tt)
AllWorse-put_level s a px l ((p, k) ∷ ls) h w = elim (Bool-cases (eqb_ℤ p px)) [
  | inl same ↦ rw same (h, w.1)
  | inr other ↦ elim (Bool-cases (before s px p)) [
    | inl here ↦ rw (other, here) (h, w)
    | inr later ↦ rw (other, later) (w.0, AllWorse-put_level s a px l ls h w.1)
  ]
]

pub Sorted-put_level :
    (s : Side) (px : ℤ) (l : PriceLevel) (ls : Levels)
    → Sorted s ls
    → Sorted s (put_level s px l ls)
unfolding put_level
Sorted-put_level s px l [] w = (tt, tt)
Sorted-put_level s px l ((p, k) ∷ ls) w = elim (Bool-cases (eqb_ℤ p px)) [
  | inl same ↦ rw same (AllWorse-eq s px p ls same w.0, w.1)
  | inr other ↦ elim (Bool-cases (before s px p)) [
    | inl here ↦ rw (other, here) ((here, AllWorse-trans s px p ls here w.0), w)
    | inr later ↦
        rw (other, later)
          (
            AllWorse-put_level s p px l ls (before_total s px p other later) w.0,
            Sorted-put_level s px l ls w.1,
          )
  ]
]

AllWorse-delete_level :
    (s : Side) (a px : ℤ) (ls : Levels) → AllWorse s a ls → AllWorse s a (delete_level px ls)
unfolding delete_level
AllWorse-delete_level s a px [] w = tt
AllWorse-delete_level s a px ((p, k) ∷ ls) w = elim (Bool-cases (eqb_ℤ p px)) [
  | inl same ↦ rw same w.1
  | inr other ↦ rw other (w.0, AllWorse-delete_level s a px ls w.1)
]

pub Sorted-delete_level :
    (s : Side) (px : ℤ) (ls : Levels) → Sorted s ls → Sorted s (delete_level px ls)
unfolding delete_level
Sorted-delete_level s px [] w = tt
Sorted-delete_level s px ((p, k) ∷ ls) w = elim (Bool-cases (eqb_ℤ p px)) [
  | inl same ↦ rw same w.1
  | inr other ↦ rw other (AllWorse-delete_level s p px ls w.0, Sorted-delete_level s px ls w.1)
]

pub AllSized-put_level :
    (s : Side) (px : ℤ) (l : PriceLevel) (ls : Levels)
    → is_empty l.queue ≡ false
    → IsSized l
    → AllSized ls
    → AllSized (put_level s px l ls)
unfolding put_level
AllSized-put_level s px l [] full v w = (full, v, tt)
AllSized-put_level s px l ((p, k) ∷ ls) full v w = elim (Bool-cases (eqb_ℤ p px)) [
  | inl same ↦ rw same (full, v, w.2)
  | inr other ↦ elim (Bool-cases (before s px p)) [
    | inl here ↦ rw (other, here) (full, v, w)
    | inr later ↦ rw (other, later) (w.0, w.1, AllSized-put_level s px l ls full v w.2)
  ]
]

pub AllSized-delete_level : (px : ℤ) (ls : Levels) → AllSized ls → AllSized (delete_level px ls)
unfolding delete_level
AllSized-delete_level px [] w = tt
AllSized-delete_level px ((p, k) ∷ ls) w = elim (Bool-cases (eqb_ℤ p px)) [
  | inl same ↦ rw same w.2
  | inr other ↦ rw other (w.0, w.1, AllSized-delete_level px ls w.2)
]

-- A level that is read from a valid side is sized, and so is a new one.
pub get_level-IsSized : (px : ℤ) (ls : Levels) → AllSized ls → IsSized (or_new (get_level px ls))
unfolding get_level
get_level-IsSized px [] w = record { cached = refl; working = tt }
get_level-IsSized px ((p, k) ∷ ls) w = elim (Bool-cases (eqb_ℤ p px)) [
  | inl same ↦ rw same w.1
  | inr other ↦ rw other (get_level-IsSized px ls w.2)
]

pub sub_u64_cached :
    (fill r s : ℕ)
    → fill ≤ r
    → r < 2 ^ 64
    → sub_u64 ((r + s) % 2 ^ 64) fill ≡ (r - fill + s) % 2 ^ 64
sub_u64_cached fill r s h k = omega arith

pub consume-IsSized :
    (t : Order) (px : ℤ) (remaining total : ℕ) (q : List RestingOrder)
    → total ≡ sum_remaining q % 2 ^ 64
    → AllWorking q
    → IsSized (consume t px remaining total q).level
unfolding consume
consume-IsSized t px remaining total [] e w = record { cached = e; working = tt }
consume-IsSized t px remaining total (o ∷ q) e w =
    let fill = min remaining o.remaining in
    let cached' =
      ap (λ n. sub_u64 n fill) e
      ∙ sub_u64_cached fill o.remaining (sum_remaining q) (omega arith) w.1 in
    elim (Bool-cases (remaining == 0)) [
      | inl done ↦ rw done (record { cached = e; working = w })
      | inr more ↦ elim (Bool-cases (o.remaining - fill == 0)) [
        | inl gone ↦
            rw (more, gone)
              (consume-IsSized t px (remaining - fill) (sub_u64 total fill) q
                (ground (arith, cached')) w.2)
        | inr left ↦
            rw (more, left)
              (record { cached = cached'; working = (ground arith, omega arith, w.2) })
      ]
    ]

-- ===== src/OrderBook/Queued.antt =====
-- src/order_book.rs: the ids that wait in the queue of a level, and what the steps do to them.
use rust_hotpath_ipc.Prelude.{
  ℕ, ◌-◌, ◌≡◌, refl, ap, ◌∙◌, inl, inr, true, false, Bool, ◌||◌, some, List, [], ◌∷◌, ◌++◌, arith,
  min, ◌==◌, ==_iff, Bool-cases, Option-cases, if◌then◌else◌,
}
use rust_hotpath_ipc.Prelude.Words.{sub_u64}
use rust_hotpath_ipc.Prelude.Int.{ℤ, eqb_ℤ, eqb_ℤ_refl, eq_of_parts}
use rust_hotpath_ipc.OrderBook.Sides.{without_absent, without_found}
use rust_hotpath_ipc.OrderBook.{
  Side, RestingOrder, PriceLevel, Levels, Book, Order, before, get_level, put_level, delete_level,
  is_empty, or_new, consume, remove_location, remove_locations, remove_order, without,
}

-- Whether an order of that id waits in the queue.
unfoldable pub queued : ℕ → List RestingOrder → Bool
queued id [] = false
queued id (o ∷ q) = o.order_id == id || queued id q

unfoldable pub listed : ℕ → List ℕ → Bool
listed id [] = false
listed id (j ∷ js) = j == id || listed id js

-- What is written back of a level.
abbrev pub written : Side → ℤ → PriceLevel → Levels → Levels
written s px l ls = if is_empty l.queue then delete_level px ls else put_level s px l ls

get_level-put_level :
    (s : Side) (px : ℤ) (l : PriceLevel) (ls : Levels) → get_level px (put_level s px l ls) ≡ some l
unfolding get_level put_level
get_level-put_level s px l [] = rw (eqb_ℤ_refl px) refl
get_level-put_level s px l ((p, k) ∷ ls) = elim (Bool-cases (eqb_ℤ p px)) [
  | inl same ↦ rw (same, eqb_ℤ_refl px) refl
  | inr other ↦ elim (Bool-cases (before s px p)) [
    | inl here ↦ rw (other, here, eqb_ℤ_refl px) refl
    | inr later ↦ rw (other, later, other) (get_level-put_level s px l ls)
  ]
]

get_level-put_level_other :
    (s : Side) (px at : ℤ) (l : PriceLevel) (ls : Levels)
    → eqb_ℤ px at ≡ false
    → get_level at (put_level s px l ls) ≡ get_level at ls
unfolding get_level put_level
get_level-put_level_other s px at l [] h = rw h refl
get_level-put_level_other s px at l ((p, k) ∷ ls) h = elim (Bool-cases (eqb_ℤ p px)) [
  | inl same ↦
      let p-px : p ≡ px = eq_of_parts p px ((==_iff _ _).0 same) in rw (same, h, p-px, h) refl
  | inr other ↦ elim (Bool-cases (before s px p)) [
    | inl here ↦ rw (other, here, h) refl
    | inr later ↦
        rw (other, later)
          (elim (Bool-cases (eqb_ℤ p at)) [
            | inl found ↦ rw found refl
            | inr not_here ↦ rw not_here (get_level-put_level_other s px at l ls h)
          ])
  ]
]

get_level-delete_level_other :
    (px at : ℤ) (ls : Levels)
    → eqb_ℤ px at ≡ false
    → get_level at (delete_level px ls) ≡ get_level at ls
unfolding get_level delete_level
get_level-delete_level_other px at [] h = refl
get_level-delete_level_other px at ((p, k) ∷ ls) h = elim (Bool-cases (eqb_ℤ p px)) [
  | inl same ↦ let p-px : p ≡ px = eq_of_parts p px ((==_iff _ _).0 same) in rw (same, p-px, h) refl
  | inr other ↦ rw other (elim (Bool-cases (eqb_ℤ p at)) [
    | inl found ↦ rw found refl
    | inr not_here ↦ rw not_here (get_level-delete_level_other px at ls h)
  ])
]

pub queued-nonempty : (id : ℕ) (q : List RestingOrder) → queued id q ≡ true → is_empty q ≡ false
unfolding queued
queued-nonempty id [] h = cc
queued-nonempty id (o ∷ q) h = refl

-- The queue at a price of a side.
abbrev pub queue_of : ℤ → Levels → List RestingOrder
queue_of px ls = (or_new (get_level px ls)).queue

pub queued-written :
    (id : ℕ) (s : Side) (px : ℤ) (l : PriceLevel) (ls : Levels)
    → queued id l.queue ≡ true
    → queued id (queue_of px (written s px l ls)) ≡ true
queued-written id s px l ls h =
    let put : written s px l ls ≡ put_level s px l ls = rw (queued-nonempty id l.queue h) refl in
    ap (λ ls'. queued id (queue_of px ls')) put
    ∙ ap (λ k. queued id (or_new k).queue) (get_level-put_level s px l ls)
    ∙ h

pub queue_of-written_other :
    (s : Side) (px at : ℤ) (l : PriceLevel) (ls : Levels)
    → eqb_ℤ px at ≡ false
    → queue_of at (written s px l ls) ≡ queue_of at ls
queue_of-written_other s px at l ls h = elim (Bool-cases (is_empty l.queue)) [
  | inl empty ↦
      let gone : written s px l ls ≡ delete_level px ls = rw empty refl in
      ap (λ ls'. queue_of at ls') gone
      ∙ ap (λ k. (or_new k).queue) (get_level-delete_level_other px at ls h)
  | inr full ↦
      let put : written s px l ls ≡ put_level s px l ls = rw full refl in
      ap (λ ls'. queue_of at ls') put
      ∙ ap (λ k. (or_new k).queue) (get_level-put_level_other s px at l ls h)
]

-- A maker that leaves the queue is one of those that are cleared.
pub queued-consume :
    (id : ℕ) (t : Order) (px : ℤ) (remaining total : ℕ) (q : List RestingOrder)
    → queued id q ≡ true
    → listed id (consume t px remaining total q).cleared_makers ≡ false
    → queued id (consume t px remaining total q).level.queue ≡ true
unfolding consume queued listed
queued-consume id t px remaining total [] h k = cc
queued-consume id t px remaining total (o ∷ q) h k =
    let fill = min remaining o.remaining in
    elim (Bool-cases (remaining == 0)) [
      | inl done ↦ rw done h
      | inr more ↦ elim (Bool-cases (o.remaining - fill == 0)) [
        | inl gone ↦ elim (Bool-cases (o.order_id == id)) [
          | inl cleared ↦ cc (rw (more, gone, cleared) at k)
          | inr another ↦
              rw (more, gone)
                (queued-consume id t px (remaining - fill) (sub_u64 total fill) q (rw another at h)
                  (rw (more, gone, another) at k))
        ]
        | inr left ↦ rw (more, left) h
      ]
    ]

pub listed-remove_locations :
    (ids : List ℕ) (id : ℕ) (b : Book) (at : Side × ℤ)
    → (remove_locations ids b).locate id ≡ some at
    → (b.locate id ≡ some at) × (listed id ids ≡ false)
unfolding remove_locations remove_location listed
listed-remove_locations [] id b at h = (h, refl)
listed-remove_locations (j ∷ ids) id b at h =
    let (kept, others) = listed-remove_locations ids id (remove_location j b) at h in
    elim (Bool-cases (id == j)) [
      | inl same ↦ cc (rw same at kept)
      | inr other ↦ (rw other at kept, ground (arith, others))
    ]

queued-append : (id : ℕ) (q r : List RestingOrder) → queued id (q ++ r) ≡ queued id q || queued id r
unfolding queued
queued-append id [] r = refl
queued-append id (o ∷ q) r = elim (Bool-cases (o.order_id == id)) [
  | inl hit ↦ rw hit refl
  | inr miss ↦ rw miss (queued-append id q r)
]

queued-remove_order :
    (id j : ℕ) (q : List RestingOrder) (o : RestingOrder) (q' : List RestingOrder)
    → (j == id) ≡ false
    → remove_order j q ≡ some (o, q')
    → queued id q ≡ true
    → queued id q' ≡ true
unfolding queued remove_order
queued-remove_order id j [] o q' h e k = cc
queued-remove_order id j (x ∷ q) o q' h e k = elim (Bool-cases (x.order_id == j)) [
  | inl hit ↦
      let others : q ≡ q' = cc (rw (hit, remove_order) at e) in
      let miss : (x.order_id == id) ≡ false = ground arith in rw (← others) (rw miss at k)
  | inr other ↦ elim (Option-cases (remove_order j q)) [
    | inl none_there ↦ cc (rw (other, none_there) at e)
    | inr ((y, r), there) ↦
        let others : x ∷ r ≡ q' = cc (rw (other, there) at e) in
        rw (← others) (elim (Bool-cases (x.order_id == id)) [
          | inl found ↦ rw found refl
          | inr miss ↦ rw miss (queued-remove_order id j q y r h there (rw miss at k))
        ])
  ]
]

pub queued-without :
    (id j : ℕ) (l : PriceLevel)
    → (j == id) ≡ false
    → queued id l.queue ≡ true
    → queued id (without j l).queue ≡ true
queued-without id j l h k = elim (Option-cases (remove_order j l.queue)) [
  | inl absent ↦ rw (without_absent j l absent) k
  | inr ((o, q'), there) ↦
      rw (without_found j l o q' there) (queued-remove_order id j l.queue o q' h there k)
]

-- An order that joins the back of a queue waits in it, and so does each that was there.
pub queued-joined :
    (q : List RestingOrder) (o : RestingOrder) → queued o.order_id (q ++ o ∷ []) ≡ true
unfolding queued
queued-joined [] o = ground arith
queued-joined (x ∷ q) o = ground (arith, queued-joined q o)

pub queued-kept :
    (id : ℕ) (q : List RestingOrder) (o : RestingOrder)
    → queued id q ≡ true
    → queued id (q ++ o ∷ []) ≡ true
queued-kept id q o h = queued-append id q (o ∷ []) ∙ rw h refl

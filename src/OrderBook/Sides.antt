-- ===== src/OrderBook/Sides.antt =====
-- How the operations of src/order_book.rs on one side and on `locate` leave the rest of the book.
use rust_hotpath_ipc.Prelude.Words.{sub_u64, add_u64}
use rust_hotpath_ipc.Prelude.{
  ℕ, ◌≡◌, refl, ◌∙◌, Option, none, some, List, [], ◌∷◌, ◌++◌, ◌==◌, if◌then◌else◌,
}
use rust_hotpath_ipc.Prelude.Int.{ℤ, eqb_ℤ_refl}
use rust_hotpath_ipc.OrderBook.{
  Side, opposite, RestingOrder, PriceLevel, Order, Levels, Book, levels_of, with_levels, get_level,
  put_level, delete_level, best_key, best_of, level_mut, Progress, is_empty, settle,
  remove_locations, remove_location, rest, insert_location, without, cancel_at, cancel,
  remove_order, Outcome,
}

pub levels_of-with_levels :
    (s : Side) (ls : Levels) (b : Book) → levels_of s (with_levels s ls b) ≡ ls
levels_of-with_levels Side.buy ls b = refl
levels_of-with_levels Side.sell ls b = refl

pub levels_of-with_levels-opposite :
    (s : Side) (ls : Levels) (b : Book)
    → levels_of s (with_levels (opposite s) ls b) ≡ levels_of s b
levels_of-with_levels-opposite Side.buy ls b = refl
levels_of-with_levels-opposite Side.sell ls b = refl

pub levels_of-remove_locations :
    (s : Side) (ids : List ℕ) (b : Book) → levels_of s (remove_locations ids b) ≡ levels_of s b
unfolding remove_locations
levels_of-remove_locations Side.buy [] b = refl
levels_of-remove_locations Side.sell [] b = refl
levels_of-remove_locations Side.buy (id ∷ ids) b =
    levels_of-remove_locations Side.buy ids (remove_location id b)
levels_of-remove_locations Side.sell (id ∷ ids) b =
    levels_of-remove_locations Side.sell ids (remove_location id b)

pub best_of-best_key : (s : Side) (b : Book) → best_of s b ≡ best_key (levels_of s b)
best_of-best_key Side.buy b = refl
best_of-best_key Side.sell b = refl

pub levels_of-settle :
    (t : Order) (px : ℤ) (p : Progress) (b : Book) (l : PriceLevel) (ls : Levels)
    → levels_of (opposite t.side) b ≡ (px, l) ∷ ls
    → levels_of (opposite t.side) (settle t px p b)
      ≡ (if is_empty p.level.queue then ls else (px, p.level) ∷ ls)
unfolding settle put_level delete_level
levels_of-settle t px p b l ls e = rw (levels_of-with_levels, e, eqb_ℤ_refl px)

pub level_mut_first :
    (s : Side) (px : ℤ) (b : Book) (l : PriceLevel) (ls : Levels)
    → levels_of s b ≡ (px, l) ∷ ls
    → level_mut s px b ≡ l
unfolding level_mut get_level
level_mut_first s px b l ls e = rw (e, eqb_ℤ_refl px)

pub other_levels-with_levels :
    (s : Side) (ls : Levels) (b : Book)
    → levels_of (opposite s) (with_levels s ls b) ≡ levels_of (opposite s) b
other_levels-with_levels Side.buy ls b = refl
other_levels-with_levels Side.sell ls b = refl

levels_of-insert_location :
    (s : Side) (id : ℕ) (at : Side × ℤ) (b : Book)
    → levels_of s (insert_location id at b) ≡ levels_of s b
unfolding insert_location
levels_of-insert_location Side.buy id at b = refl
levels_of-insert_location Side.sell id at b = refl

-- `locate` without some ids.
abbrev pub forget : List ℕ → (ℕ → Option (Side × ℤ)) → ℕ → Option (Side × ℤ)
forget [] f = f
forget (id ∷ ids) f = forget ids λ j. if j == id then none else f j

pub forget-append :
    (xs ys : List ℕ) (f : ℕ → Option (Side × ℤ)) → forget (xs ++ ys) f ≡ forget ys (forget xs f)
forget-append [] ys f = refl
forget-append (id ∷ xs) ys f = forget-append xs ys _

locate-remove_locations :
    (ids : List ℕ) (b : Book) → (remove_locations ids b).locate ≡ forget ids b.locate
unfolding remove_locations
locate-remove_locations [] b = refl
locate-remove_locations (id ∷ ids) b = locate-remove_locations ids (remove_location id b)

locate-with_levels : (s : Side) (ls : Levels) (b : Book) → (with_levels s ls b).locate ≡ b.locate
locate-with_levels Side.buy ls b = refl
locate-with_levels Side.sell ls b = refl

pub locate-settle :
    (t : Order) (px : ℤ) (p : Progress) (b : Book)
    → (settle t px p b).locate ≡ forget p.cleared_makers b.locate
unfolding settle
locate-settle t px p b = locate-with_levels _ _ _ ∙ locate-remove_locations p.cleared_makers b

pub own_levels-settle :
    (t : Order) (px : ℤ) (p : Progress) (b : Book)
    → levels_of t.side (settle t px p b) ≡ levels_of t.side b
unfolding settle
own_levels-settle t px p b = rw (levels_of-with_levels-opposite, levels_of-remove_locations)

pub levels_of-settle_any :
    (t : Order) (px : ℤ) (p : Progress) (b : Book)
    → levels_of (opposite t.side) (settle t px p b) ≡ (
        if is_empty p.level.queue
        then delete_level px (levels_of (opposite t.side) b)
        else put_level (opposite t.side) px p.level (levels_of (opposite t.side) b))
unfolding settle
levels_of-settle_any t px p b = levels_of-with_levels _ _ _

pub levels_of-rest :
    (t : Order) (remaining : ℕ) (b : Book)
    → let l = level_mut t.side t.limit_px b in
      levels_of t.side (rest t remaining b)
      ≡ put_level t.side t.limit_px
          (record {
            total_size = add_u64 l.total_size remaining;
            queue =
                l.queue
                ++ record {
                  order_id = t.order_id;
                  remaining = remaining;
                  is_synthetic = t.is_synthetic;
                }
                  ∷ [];
          })
          (levels_of t.side b)
unfolding rest
levels_of-rest t remaining b = levels_of-insert_location t.side _ _ _ ∙ levels_of-with_levels _ _ _

pub other_levels-rest :
    (t : Order) (remaining : ℕ) (b : Book)
    → levels_of (opposite t.side) (rest t remaining b) ≡ levels_of (opposite t.side) b
unfolding rest
other_levels-rest t remaining b =
    levels_of-insert_location (opposite t.side) _ _ _ ∙ other_levels-with_levels t.side _ _

levels_of-remove_location :
    (s : Side) (id : ℕ) (b : Book) → levels_of s (remove_location id b) ≡ levels_of s b
unfolding remove_location
levels_of-remove_location Side.buy id b = refl
levels_of-remove_location Side.sell id b = refl

pub levels_of-cancel_at :
    (id : ℕ) (s : Side) (px : ℤ) (b : Book)
    → let l = without id (level_mut s px b) in
      levels_of s (cancel_at id s px b) ≡ (
        if is_empty l.queue
        then delete_level px (levels_of s b)
        else put_level s px l (levels_of s b))
unfolding cancel_at
levels_of-cancel_at id s px b = levels_of-with_levels _ _ _

pub other_levels-cancel_at :
    (id : ℕ) (s : Side) (px : ℤ) (b : Book)
    → levels_of (opposite s) (cancel_at id s px b) ≡ levels_of (opposite s) b
unfolding cancel_at
other_levels-cancel_at id s px b =
    other_levels-with_levels s _ _ ∙ levels_of-remove_location (opposite s) id b

pub cancel_unknown :
    (id : ℕ) (b : Book) → b.locate id ≡ none → cancel id b ≡ (b, Outcome.cancel_rejected)
unfolding cancel
cancel_unknown id b e = rw (e, cancel)

pub cancel_known :
    (id : ℕ) (b : Book) (s : Side) (px : ℤ)
    → b.locate id ≡ some (s, px)
    → cancel id b ≡ (cancel_at id s px b, Outcome.cancelled)
unfolding cancel
cancel_known id b s px e = rw (e, cancel)

pub without_absent : (id : ℕ) (l : PriceLevel) → remove_order id l.queue ≡ none → without id l ≡ l
unfolding without
without_absent id l e = rw (e, without)

pub without_found :
    (id : ℕ) (l : PriceLevel) (o : RestingOrder) (q : List RestingOrder)
    → remove_order id l.queue ≡ some (o, q)
    → without id l ≡ record { total_size = sub_u64 l.total_size o.remaining; queue = q }
unfolding without
without_found id l o q e = rw (e, without)

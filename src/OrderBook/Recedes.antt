-- ===== src/OrderBook/Recedes.antt =====
-- What writing a level back, or removing it, does to the best price of its side.
use rust_hotpath_ipc.Prelude.{
  ◌≡◌, refl, inl, inr, true, false, Option, some, [], ◌∷◌, arith, if◌then◌else◌, Bool-cases,
}
use rust_hotpath_ipc.Prelude.Int.{ℤ, eqb_ℤ}
use rust_hotpath_ipc.OrderBook.{
  Side, PriceLevel, Levels, before, get_level, put_level, delete_level, best_key, is_empty,
}
use rust_hotpath_ipc.OrderBook.Invariant.{Sorted, AllWorse}

-- The best price of the list only recedes.
abbrev pub Recedes : Side → Levels → Levels → Type 0
Recedes s ls ls' =
    (p' : ℤ) → best_key ls' ≡ some p' → (p : ℤ) × (best_key ls ≡ some p) × (before s p' p ≡ false)

before_asym : (s : Side) (a b : ℤ) → before s a b ≡ true → before s b a ≡ false
before_asym Side.buy a b h = ground arith
before_asym Side.sell a b h = ground arith

not_before_self : (s : Side) (a : ℤ) → before s a a ≡ false
not_before_self Side.buy a = ground arith
not_before_self Side.sell a = ground arith

not_before_eq : (s : Side) (a b : ℤ) → eqb_ℤ a b ≡ true → before s b a ≡ false
not_before_eq Side.buy a b h = ground arith
not_before_eq Side.sell a b h = ground arith

AllWorse-best_key :
    (s : Side) (p q : ℤ) (ls : Levels)
    → AllWorse s p ls
    → best_key ls ≡ some q
    → before s p q ≡ true
AllWorse-best_key s p q [] w e = cc
AllWorse-best_key s p q ((r, l) ∷ ls) w e = let same : r ≡ q = cc e in rw (← same) w.0

pub AllWorse-get_level :
    (s : Side) (p px : ℤ) (l : PriceLevel) (ls : Levels)
    → AllWorse s p ls
    → get_level px ls ≡ some l
    → before s px p ≡ false
unfolding get_level
AllWorse-get_level s p px l [] w e = cc
AllWorse-get_level s p px l ((r, k) ∷ ls) w e = elim (Bool-cases (eqb_ℤ r px)) [
  | inl same ↦ before_worse s p r px same w.0
  | inr other ↦ AllWorse-get_level s p px l ls w.1 (rw other at e)
]
  where
    before_worse :
        (s : Side) (p r px : ℤ) → eqb_ℤ r px ≡ true → before s p r ≡ true → before s px p ≡ false
    before_worse Side.buy p r px h k = ground arith
    before_worse Side.sell p r px h k = ground arith

pub Recedes-delete_level :
    (s : Side) (px : ℤ) (ls : Levels) → Sorted s ls → Recedes s ls (delete_level px ls)
unfolding delete_level
Recedes-delete_level s px [] w p' e = cc
Recedes-delete_level s px ((p, k) ∷ ls) w p' e = elim (Bool-cases (eqb_ℤ p px)) [
  | inl same ↦ (p, refl, before_asym s p p' (AllWorse-best_key s p p' ls w.0 (rw same at e)))
  | inr other ↦
      let head : ◌≡◌ {A = Option ℤ} (some p) (some p') = rw other at e in
      let first : p ≡ p' = cc head in (p, refl, rw (← first) (not_before_self s p))
]

Recedes-put_level :
    (s : Side) (px : ℤ) (l l' : PriceLevel) (ls : Levels)
    → get_level px ls ≡ some l
    → Sorted s ls
    → Recedes s ls (put_level s px l' ls)
unfolding get_level put_level
Recedes-put_level s px l l' [] there w p' e = cc
Recedes-put_level s px l l' ((p, k) ∷ ls) there w p' e = elim (Bool-cases (eqb_ℤ p px)) [
  | inl same ↦
      let head : ◌≡◌ {A = Option ℤ} (some px) (some p') = rw same at e in
      let first : px ≡ p' = cc head in (p, refl, rw (← first) (not_before_eq s p px same))
  | inr other ↦
      let later = AllWorse-get_level s p px l ls w.0 (rw other at there) in
      let head : ◌≡◌ {A = Option ℤ} (some p) (some p') = rw (other, later) at e in
      let first : p ≡ p' = cc head in (p, refl, rw (← first) (not_before_self s p))
]

pub Recedes-written_back :
    (s : Side) (px : ℤ) (l l' : PriceLevel) (ls : Levels)
    → get_level px ls ≡ some l
    → Sorted s ls
    → Recedes s ls (if is_empty l'.queue then delete_level px ls else put_level s px l' ls)
Recedes-written_back s px l l' ls there w = elim (Bool-cases (is_empty l'.queue)) [
  | inl empty ↦ simp empty (Recedes-delete_level s px ls w)
  | inr full ↦ simp full (Recedes-put_level s px l l' ls there w)
]

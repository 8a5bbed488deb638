-- ===== src/Latency/Floor.antt =====
-- The floor and the percentiles of src/latency_window.rs.
use rust_hotpath_ipc.Prelude.{
  get_elem?-below, ℕ, min, max, suc, ◌-◌, ◌^◌, ◌≤◌, ◌<◌, ◌≡◌, ◌⊎◌, refl, sym, ap, ◌∙◌, leb, ==_iff,
  Option, none, some, List, [], ◌∷◌, arith, ltb, ◌==◌, if◌then◌else◌, length, get_elem?, Bool-cases,
  inl, inr,
}
use mathlib.Core.List.{Perm}
use mathlib.Core.List.Perm
use rust_hotpath_ipc.Float.{F64}
use rust_hotpath_ipc.Latency.{
  floor_from, calibrate_rdtsc_floor, insert, sort, Summary, percentile_index, report,
}

-- The floor is not above any difference of the readings.
abbrev pub BelowAll : ℕ → List (ℕ × ℕ) → Type 0
BelowAll floor [] = Unit
BelowAll floor ((a, b) ∷ more) = (floor ≤ b - a) × BelowAll floor more

BelowAll-le : (m n : ℕ) (rs : List (ℕ × ℕ)) → m ≤ n → BelowAll n rs → BelowAll m rs
BelowAll-le m n [] h w = tt
BelowAll-le m n ((a, b) ∷ more) h w = (omega (arith, w.0), BelowAll-le m n more h w.1)

-- It is one of the differences.
abbrev pub Attained : ℕ → List (ℕ × ℕ) → Type 0
Attained floor [] = ⊥
Attained floor ((a, b) ∷ more) = (b - a ≡ floor) ⊎ Attained floor more

-- The least of the differences and of the floor that the fold begins with.
floor_from-least :
    (floor : ℕ) (rs : List (ℕ × ℕ))
    → (floor_from floor rs ≤ floor)
      × BelowAll (floor_from floor rs) rs
      × ((floor_from floor rs ≡ floor) ⊎ Attained (floor_from floor rs) rs)
unfolding floor_from
floor_from-least floor [] = (omega arith, tt, inl refl)
floor_from-least floor ((a, b) ∷ more) =
    let m = if ltb (b - a) floor then b - a else floor in
    let low : m ≤ floor = ground arith in
    let near : m ≤ b - a = ground arith in
    let which : (m ≡ floor) ⊎ (b - a ≡ m) = ground arith in
    let (le, below, at) = floor_from-least m more in
    (
      omega arith,
      (omega arith, below),
      elim at [
        | inr later ↦ inr (inr later)
        | inl same ↦ elim which [
          | inl start ↦ inl (same ∙ start)
          | inr here ↦ inr (inl (here ∙ sym same))
        ]
      ],
    )

-- The calibrated floor is the least of the differences of the readings: it is not above any of
-- them, and it is one of them, unless none is below the greatest `u64`, when it is 0.
pub calibrate_rdtsc_floor-least :
    (rs : List (ℕ × ℕ))
    → let floor = calibrate_rdtsc_floor rs in
      BelowAll floor rs × (Attained floor rs ⊎ ((floor ≡ 0) × BelowAll (2 ^ 64 - 1) rs))
unfolding calibrate_rdtsc_floor
calibrate_rdtsc_floor-least rs =
    let (le, below, at) = floor_from-least (2 ^ 64 - 1) rs in
    elim (Bool-cases (floor_from (2 ^ 64 - 1) rs == 2 ^ 64 - 1)) [
      | inl unread ↦
          let top = (==_iff (floor_from (2 ^ 64 - 1) rs) (2 ^ 64 - 1)).0 unread in
          rw unread (BelowAll-le 0 _ rs (omega arith) below, inr (refl, rw top at below))
      | inr read ↦
          rw read (below, elim at [ inl top ↦ absurd (ground arith) | inr there ↦ inl there ])
    ]

-- Sorted, the least first.
pub data IsSorted : List ℕ → Type 0 where
  nil : IsSorted []
  one : (x : ℕ) → IsSorted (x ∷ [])
  more : {x y : ℕ} {xs : List ℕ} → x ≤ y → IsSorted (y ∷ xs) → IsSorted (x ∷ y ∷ xs)

insert-above :
    (x y : ℕ) (ys : List ℕ)
    → y ≤ x
    → IsSorted (y ∷ ys)
    → IsSorted (insert x ys)
    → IsSorted (y ∷ insert x ys)
unfolding insert
insert-above x y [] h s k = more h (one x)
insert-above x y (z ∷ zs) h (more g s) k = elim (Bool-cases (leb x z)) [
  | inl first ↦ rw first (more h (rw first at k))
  | inr later ↦ rw later (more g (rw later at k))
]

insert-IsSorted : (x : ℕ) (xs : List ℕ) → IsSorted xs → IsSorted (insert x xs)
unfolding insert
insert-IsSorted x [] s = one x
insert-IsSorted x (y ∷ ys) s = elim (Bool-cases (leb x y)) [
  | inl first ↦ rw first (more (ground arith) s)
  | inr later ↦
      rw later (insert-above x y ys (ground arith) s (insert-IsSorted x ys (IsSorted-tail s)))
]
  where
    IsSorted-tail : {y : ℕ} {ys : List ℕ} → IsSorted (y ∷ ys) → IsSorted ys
    IsSorted-tail (one y) = nil
    IsSorted-tail (more h s) = s

sort-IsSorted : (xs : List ℕ) → IsSorted (sort xs)
unfolding sort
sort-IsSorted [] = nil
sort-IsSorted (x ∷ xs) = insert-IsSorted x (sort xs) (sort-IsSorted xs)

insert-Perm : (x : ℕ) (xs : List ℕ) → Perm (insert x xs) (x ∷ xs)
unfolding insert
insert-Perm x [] = Perm.refl (x ∷ [])
insert-Perm x (y ∷ ys) = elim (Bool-cases (leb x y)) [
  | inl first ↦ rw first (Perm.refl (x ∷ y ∷ ys))
  | inr later ↦ rw later (Perm.trans (Perm.cons y (insert-Perm x ys)) (Perm.swap x y ys))
]

sort-Perm : (xs : List ℕ) → Perm (sort xs) xs
unfolding sort
sort-Perm [] = Perm.refl []
sort-Perm (x ∷ xs) = Perm.trans (insert-Perm x (sort xs)) (Perm.cons x (sort-Perm xs))

length-insert : (x : ℕ) (xs : List ℕ) → length (insert x xs) ≡ suc (length xs)
unfolding insert
length-insert x [] = refl
length-insert x (y ∷ ys) = ground (arith, length-insert x ys)

length-sort : (xs : List ℕ) → length (sort xs) ≡ length xs
unfolding sort
length-sort [] = refl
length-sort (x ∷ xs) = length-insert x (sort xs) ∙ ap suc (length-sort xs)

module _ (F : F64) where
  open F use {Float, num, decimal, mul, div, ceil, to_nat}

  percentile_index-lt : (n : ℕ) (pct : Float) → 0 < n → percentile_index F n pct < n
  unfolding percentile_index
  percentile_index-lt n pct h = ground arith

  -- The nearest rank of a percentile, from 1 to the number of samples.
  abbrev pub rank : ℕ → Float → ℕ
  rank n pct = max 1 (min (to_nat (ceil (mul (div pct (num 100)) (num n)))) n)

  percentile_index-rank :
      (n : ℕ) (pct : Float) → 0 < n → suc (percentile_index F n pct) ≡ rank n pct
  unfolding percentile_index
  percentile_index-rank n pct h = ground arith

  -- `x` has that rank in the list.
  abbrev pub Ranks : List ℕ → ℕ → ℕ → Type 0
  Ranks xs r x = (i : ℕ) × (suc i ≡ r) × (get_elem? xs i ≡ some x)

  -- What a summary says of the samples: that they are so many, which is the least, and which have
  -- the nearest ranks of the percentiles, counted from the least.
  pub record Describes (samples : List ℕ) (s : Summary) : Type 0 where
    pub sorted : List ℕ
    pub in_order : IsSorted sorted
    pub same : Perm sorted samples
    pub n : s.n ≡ length samples
    pub min : Ranks sorted 1 s.min
    pub p50 : Ranks sorted (rank (length samples) (num 50)) s.p50
    pub p99 : Ranks sorted (rank (length samples) (num 99)) s.p99
    pub p999 : Ranks sorted (rank (length samples) (decimal 999 1)) s.p999

  pub data Reported : List ℕ → Option Summary → Type 0 where
    silent : Reported [] none
    printed : {samples : List ℕ} {s : Summary} → Describes samples s → Reported samples (some s)

  -- A report of any samples ends without an index out of range, whatever the floats compute: with
  -- nothing if there are no samples, and else with their number, the least of them, and those that
  -- have the nearest ranks of the three percentiles.
  pub report-Reported :
      (samples : List ℕ) → (s : Option Summary) × (report F samples ≡ some s) × Reported samples s
  unfolding report
  report-Reported [] = (none, refl, silent)
  report-Reported (x ∷ xs) =
      let ys = sort (x ∷ xs) in
      let size = length-sort (x ∷ xs) in
      let inside : (pct : Float) → percentile_index F (length ys) pct < length ys =
        λ pct. percentile_index-lt (length ys) pct (omega (arith, size)) in
      let (least, a) = get_elem?-below ys 0 (omega (arith, size)) in
      let (p50, b) =
        get_elem?-below ys (percentile_index F (length ys) (num 50)) (inside (num 50)) in
      let (p99, c) =
        get_elem?-below ys (percentile_index F (length ys) (num 99)) (inside (num 99)) in
      let (p999, d) =
        get_elem?-below ys (percentile_index F (length ys) (decimal 999 1))
          (inside (decimal 999 1)) in
      let ranked : (pct : Float) (y : ℕ)
          → get_elem? ys (percentile_index F (length ys) pct) ≡ some y
          → Ranks ys (rank (length (x ∷ xs)) pct) y =
        λ pct y e. (
          percentile_index F (length ys) pct,
          percentile_index-rank (length ys) pct (omega (arith, size)) ∙ ap (λ n. rank n pct) size,
          e,
        ) in
      let s : Summary = record { n = length ys; min = least; p50 = p50; p99 = p99; p999 = p999 } in
      (
        some s,
        rw (a, b, c, d) refl,
        printed (record {
          sorted = ys;
          in_order = sort-IsSorted (x ∷ xs);
          same = sort-Perm (x ∷ xs);
          n = size;
          min = (0, refl, a);
          p50 = ranked (num 50) p50 b;
          p99 = ranked (num 99) p99 c;
          p999 = ranked (decimal 999 1) p999 d;
        }),
      )

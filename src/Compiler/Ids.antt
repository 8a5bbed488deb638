-- ===== src/Compiler/Ids.antt =====
-- Lists of node ids, as src/compiler.rs keeps them on its stack, and how long they can be.
use rust_hotpath_ipc.Prelude.{
  suc, ◌+◌, ◌≤◌, ◌≡◌, refl, ap, true, false, some, List, [], ◌∷◌, arith, if◌then◌else◌, Bool-cases,
  inl, inr, length,
}
use rust_hotpath_ipc.Prelude.Text.{Text, text_eq, text_eq_refl, eq_of_text_eq, lookup}
use rust_hotpath_ipc.Compiler.{GNode, contains, by_id_of}

-- No id stands twice.
abbrev pub Distinct : List Text → Type 0
Distinct [] = Unit
Distinct (x ∷ xs) = (contains x xs ≡ false) × Distinct xs

-- Every id is among those.
abbrev pub Among : List Text → List Text → Type 0
Among [] ys = Unit
Among (x ∷ xs) ys = (contains x ys ≡ true) × Among xs ys

erase : Text → List Text → List Text
erase x [] = []
erase x (y ∷ ys) = if text_eq y x then ys else y ∷ erase x ys

length-erase :
    (x : Text) (ys : List Text) → contains x ys ≡ true → length ys ≡ suc (length (erase x ys))
unfolding contains erase
length-erase x [] h = cc
length-erase x (y ∷ ys) h = ground (arith, length-erase x ys)

contains-erase :
    (x z : Text) (ys : List Text)
    → text_eq x z ≡ false
    → contains z ys ≡ true
    → contains z (erase x ys) ≡ true
unfolding contains erase
contains-erase x z [] e h = cc
contains-erase x z (y ∷ ys) e h = elim (Bool-cases (text_eq y x)) [
  | inl hit ↦
      let same : y ≡ x = eq_of_text_eq y x hit in
      let other : text_eq y z ≡ false = rw same e in rw hit (rw other at h)
  | inr miss ↦ elim (Bool-cases (text_eq y z)) [
    | inl here ↦ rw (miss, here) refl
    | inr there ↦ rw (miss, there) (contains-erase x z ys e (rw there at h))
  ]
]

Among-erase :
    (x : Text) (xs ys : List Text) → contains x xs ≡ false → Among xs ys → Among xs (erase x ys)
unfolding contains
Among-erase x [] ys c a = tt
Among-erase x (z ∷ xs) ys c a = elim (Bool-cases (text_eq z x)) [
  | inl hit ↦ cc (rw hit at c)
  | inr miss ↦
      (contains-erase x z ys (text_eq_comm z x miss) a.0, Among-erase x xs ys (rw miss at c) a.1)
]
  where
    text_eq_comm : (a b : Text) → text_eq a b ≡ false → text_eq b a ≡ false
    text_eq_comm a b h = elim (Bool-cases (text_eq b a)) [
      | inr no_match ↦ no_match
      | inl match ↦ cc (text_eq_refl a, ap (λ x. text_eq a x) (eq_of_text_eq b a match), h)
    ]

-- Distinct ids that are all among some others are no more than those.
pub length-Distinct : (xs ys : List Text) → Distinct xs → Among xs ys → length xs ≤ length ys
length-Distinct [] ys d a = omega arith
length-Distinct (x ∷ xs) ys d a = omega (
  arith,
  length-erase x ys a.0,
  length-Distinct xs (erase x ys) d.1 (Among-erase x xs ys d.0 a.1),
)

-- Only ids of nodes are looked up.
unfoldable pub known : {A : Type 0} → List (Text × GNode A) → List Text
known [] = []
known ((id, _) ∷ m) = id ∷ known m

pub contains-known :
    {A : Type 0} (id : Text) (m : List (Text × GNode A)) (node : GNode A)
    → lookup id m ≡ some node
    → contains id (known m) ≡ true
unfolding contains known lookup
contains-known id [] node e = cc
contains-known id ((j, n) ∷ m) node e = ground (arith, contains-known id m node)

pub known-by_id_of :
    {A : Type 0} (ns : List (GNode A)) (m : List (Text × GNode A))
    → length (known (by_id_of ns m)) ≡ length ns + length (known m)
unfolding known by_id_of
known-by_id_of [] m = omega arith
known-by_id_of (n ∷ ns) m = omega (arith, known-by_id_of ns ((n.id, n) ∷ m))

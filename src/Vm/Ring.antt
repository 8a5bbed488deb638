-- ===== src/Vm/Ring.antt =====
-- src/bytecode.rs and src/strategy.rs: a ring buffer against the deque of the same prices.
use native.Mathlib.Nat.{mod-eq_of_lt}
use rust_hotpath_ipc.Prelude.{
  ℕ, ◌+◌, ◌%◌, ◌≤◌, ◌<◌, ◌≡◌, refl, sym, ap, ◌∙◌, inl, inr, Bool-cases, some, List, [], ◌∷◌, ◌++◌,
  append_assoc, append-nil, arith, ltb, length, length-append, get_elem?, set, last,
}
use rust_hotpath_ipc.Vm.{grow}
use rust_hotpath_ipc.Strategy.{trim}

module _ {ℓ} {A : Type ℓ} where
  pub get_elem?-append : (a b : List A) (x : A) → get_elem? (a ++ (x ∷ b)) (length a) ≡ some x
  get_elem?-append [] b x = refl
  get_elem?-append (y ∷ a) b x = get_elem?-append a b x

  set-append : (a b : List A) (x v : A) → set (a ++ (x ∷ b)) (length a) v ≡ a ++ (v ∷ b)
  set-append [] b x v = refl
  set-append (y ∷ a) b x v = ap (◌∷◌ y) (set-append a b x v)

  last-append : (a : List A) (x : A) → last (a ++ (x ∷ [])) ≡ some x
  last-append [] x = refl
  last-append (y ∷ []) x = refl
  last-append (y ∷ z ∷ a) x = last-append (z ∷ a) x

-- The ring holds the prices of the deque: while it fills, in front; once it is full, from its head
-- on and round.
pub data Holds {A : Type 0} (size : ℕ) (buf : List A) (filled head : ℕ) (q : List A) : Type 0 where
  filling :
      (rest : List A)
      → buf ≡ q ++ rest
      → filled ≡ length q
      → head ≡ length q
      → length q + length rest ≡ size
      → 0 < length rest
      → Holds size buf filled head q
  full :
      (a b : List A)
      → buf ≡ a ++ b
      → q ≡ b ++ a
      → filled ≡ size
      → head ≡ length a
      → length a + length b ≡ size
      → 0 < length b
      → Holds size buf filled head q

wraps : (head size : ℕ) → head + 1 ≡ size → (head + 1) % size ≡ 0
wraps head size h = grind arith

stays : (head size : ℕ) → head + 1 < size → (head + 1) % size ≡ head + 1
stays head size h = mod-eq_of_lt h

module _ {A : Type 0} where
  trim-below : (bound : ℕ) (xs : List A) → length xs ≤ bound → trim bound xs ≡ xs
  unfolding trim
  trim-below bound [] h = refl
  trim-below bound (x ∷ xs) h = ground arith

  trim-above : (x : A) (xs : List A) {bound : ℕ} → length xs ≡ bound → trim bound (x ∷ xs) ≡ xs
  unfolding trim
  trim-above x xs {bound} h = ground (arith, trim-below bound xs)

  set-at :
      {buf : List A} {head : ℕ} (a b : List A) (x v : A)
      → buf ≡ a ++ (x ∷ b)
      → head ≡ length a
      → set buf head v ≡ a ++ (v ∷ b)
  set-at a b x v eb eh = rw (eb, eh) (set-append a b x v)

  length-snoc : (a : List A) (x : A) → length (a ++ (x ∷ [])) ≡ length a + 1
  length-snoc a x = omega (arith, length-append a (x ∷ []))

  snoc-append : (a b : List A) (x : A) → a ++ (x ∷ b) ≡ (a ++ (x ∷ [])) ++ b
  snoc-append a b x = sym (append_assoc a (x ∷ []) b)

  -- A price into both: the ring's slot at its head is read and overwritten.
  pub Holds-push :
      {size : ℕ} {buf : List A} {filled head : ℕ} {q : List A} (price : A)
      → Holds size buf filled head q
      → Holds size
          (set buf head price)
          (grow filled size)
          ((head + 1) % size)
          (trim size (q ++ (price ∷ [])))
  Holds-push price (filling [] eb ef eh es pos) = absurd (omega arith)
  Holds-push {size} {q = q} price (filling (x ∷ []) eb ef eh es pos) =
      let len = length-snoc q price in
      full [] (q ++ (price ∷ [])) (set-at q [] x price eb eh)
        (trim-below size (q ++ (price ∷ [])) (omega arith) ∙ sym (append-nil (q ++ (price ∷ []))))
        (ground arith) (wraps _ size (omega arith)) (omega arith) (omega arith)
  Holds-push {size} {q = q} price (filling (x ∷ y ∷ rest) eb ef eh es pos) =
      let len = length-snoc q price in
      let same = trim-below size (q ++ (price ∷ [])) (omega arith) in
      filling (y ∷ rest)
        (set-at q (y ∷ rest) x price eb eh
          ∙ snoc-append q (y ∷ rest) price
          ∙ ap (λ (t : List A). t ++ (y ∷ rest)) (sym same))
        (rw same (ground arith)) (rw same (stays _ size (omega arith) ∙ omega arith))
        (rw same (omega arith)) (omega arith)
  Holds-push price (full a [] eb eq ef eh es pos) = absurd (omega arith)
  Holds-push {size} price (full a (x ∷ []) eb eq ef eh es pos) =
      let len = length-snoc a price in
      full [] (a ++ (price ∷ [])) (set-at a [] x price eb eh)
        (rw eq
          (trim-above x (a ++ (price ∷ [])) (omega arith) ∙ sym (append-nil (a ++ (price ∷ [])))))
        (ground arith) (wraps _ size (omega arith)) (omega arith) (omega arith)
  Holds-push {size} price (full a (x ∷ y ∷ b) eb eq ef eh es pos) =
      let len = length-snoc a price in
      let lens = length-append (y ∷ b) a in
      let lens' = length-snoc ((y ∷ b) ++ a) price in
      full (a ++ (price ∷ [])) (y ∷ b)
        (set-at a (y ∷ b) x price eb eh ∙ snoc-append a (y ∷ b) price)
        (rw eq (
          trim-above x (((y ∷ b) ++ a) ++ (price ∷ [])) (omega arith)
          ∙ append_assoc (y ∷ b) a (price ∷ [])))
        (ground arith) (stays _ size (omega arith) ∙ omega arith) (omega arith) (omega arith)

  pub Holds-read :
      {size : ℕ} {buf : List A} {filled head : ℕ} {q : List A}
      → Holds size buf filled head q
      → (old : A) × (get_elem? buf head ≡ some old) × (length buf ≡ size)
  Holds-read (filling [] eb ef eh es pos) = absurd (omega arith)
  Holds-read {q = q} (filling (x ∷ rest) eb ef eh es pos) =
      (x, rw (eb, eh) (get_elem?-append q rest x), rw eb (length-append q (x ∷ rest) ∙ es))
  Holds-read (full a [] eb eq ef eh es pos) = absurd (omega arith)
  Holds-read (full a (x ∷ b) eb eq ef eh es pos) =
      (x, rw (eb, eh) (get_elem?-append a b x), rw eb (length-append a (x ∷ b) ∙ es))

  pub last-trim :
      (bound : ℕ) (q : List A) (price : A)
      → 0 < bound
      → last (trim bound (q ++ (price ∷ []))) ≡ some price
  unfolding trim
  last-trim bound [] price h = ground arith
  last-trim bound (x ∷ q) price h =
      elim (Bool-cases (ltb bound (length (x ∷ (q ++ (price ∷ [])))))) [
        | inl long ↦ rw long (last-trim bound q price h)
        | inr short ↦ rw short (last-append (x ∷ q) price)
      ]

-- ===== src/Latency/Collected.antt =====
-- What becomes of the samples that are pushed to a window of src/latency_window.rs.
use rust_hotpath_ipc.Prelude.{
  ℕ, zero, suc, ◌+◌, ◌-◌, ◌%◌, ◌^◌, ◌≤◌, ◌<◌, ◌≡◌, ◌⊎◌, refl, sym, ap, ◌∙◌, ◌||◌, List, [], ◌∷◌,
  ◌++◌, append_assoc, append-nil, arith, leb, length, drop, Bool-cases, inl, inr,
}
use rust_hotpath_ipc.Latency.{LatencyWindow, new_window, flush, push, flush_samples, flush_interval}

abbrev pub concat : List (List ℕ) → List ℕ
concat [] = []
concat (xs ∷ xss) = xs ++ concat xss

-- Every sample that was kept, in the order of arrival.
abbrev pub collected : LatencyWindow → List ℕ
collected w = concat w.sent ++ w.buf

-- A sample and the two clock readings of its push.
pub record Sample : Type 0 where
  pub ns : ℕ
  pub now : ℕ
  pub later : ℕ

abbrev pub values : List Sample → List ℕ
values [] = []
values (s ∷ ss) = s.ns ∷ values ss

unfoldable pub pushes : List Sample → LatencyWindow → LatencyWindow
unfolding push
pushes [] w = w
pushes (s ∷ ss) w = pushes ss (push s.ns s.now s.later w)

concat-push : (xss : List (List ℕ)) (xs : List ℕ) → concat (xss ++ xs ∷ []) ≡ concat xss ++ xs
concat-push [] xs = append-nil xs
concat-push (ys ∷ xss) xs =
    ap (λ zs. ys ++ zs) (concat-push xss xs) ∙ sym (append_assoc ys (concat xss) xs)

flush-collected : (later : ℕ) (w : LatencyWindow) → collected (flush later w) ≡ collected w
unfolding flush
flush-collected later w = go w.buf w.sent
  where
    go :
        (buf : List ℕ) (sent : List (List ℕ))
        → collected (
            flush later
              (record { buf = buf; seen = w.seen; last_flush = w.last_flush; sent = sent }))
          ≡ concat sent ++ buf
    go [] sent = refl
    go (x ∷ xs) sent = append-nil _ ∙ concat-push sent (x ∷ xs)

flush-buf : (later : ℕ) (w : LatencyWindow) → (flush later w).buf ≡ []
unfolding flush
flush-buf later w = go w.buf
  where
    go : (buf : List ℕ) → (flush later (record w { buf = buf })).buf ≡ []
    go [] = refl
    go (x ∷ xs) = refl

flush-seen : (later : ℕ) (w : LatencyWindow) → (flush later w).seen ≡ w.seen
unfolding flush
flush-seen later w = go w.buf
  where
    go : (buf : List ℕ) → (flush later (record w { buf = buf })).seen ≡ w.seen
    go [] = refl
    go (x ∷ xs) = refl

-- What one push does, for what the window has seen.
record Pushed (ns : ℕ) (w w' : LatencyWindow) : Type 0 where
  seen : w'.seen ≡ w.seen + 1
  early : w.seen < 200 → collected w' ≡ collected w
  late : 200 ≤ w.seen → collected w' ≡ collected w ++ ns ∷ []
  bound : length w'.buf < 2_000

push-Pushed :
    (ns now later : ℕ) (w : LatencyWindow)
    → w.seen + 1 < 2 ^ 64
    → length w.buf < 2_000
    → Pushed ns w (push ns now later w)
unfolding push
push-Pushed ns now later w h k = elim (Bool-cases (leb ((w.seen + 1) % 2 ^ 64) 200)) [
  | inl warm ↦ rw warm (record {
    seen = omega arith;
    early = λ _. refl;
    late = λ l. absurd (ground arith);
    bound = k;
  })
  | inr hot ↦
      let joined = sym (append_assoc (concat w.sent) w.buf (ns ∷ [])) in
      let w' = record w { seen = (w.seen + 1) % 2 ^ 64; buf = w.buf ++ ns ∷ [] } in
      let next : w'.seen ≡ w.seen + 1 = omega arith in
      elim (Bool-cases
        (leb flush_samples (length w'.buf) || leb flush_interval (now - w.last_flush))) [
          | inl full ↦
              rw (hot, full)
                (record {
                  seen = flush-seen later w' ∙ next;
                  early = λ l. absurd (ground arith);
                  late = λ _. flush-collected later w' ∙ joined;
                  bound = rw (flush-buf later w') (omega arith);
                })
          | inr room ↦
              rw (hot, room)
                (record {
                  seen = omega arith;
                  early = λ l. absurd (ground arith);
                  late = λ _. joined;
                  bound = ground arith;
                })
        ]
]

drop-nil : (n : ℕ) → drop {A = ℕ} n [] ≡ []
drop-nil zero = refl
drop-nil (suc n) = refl

pushes-collected :
    (ss : List Sample) (w : LatencyWindow)
    → w.seen + length ss < 2 ^ 64
    → length w.buf < 2_000
    → (collected (pushes ss w) ≡ collected w ++ drop (200 - w.seen) (values ss))
      × (length (pushes ss w).buf < 2_000)
unfolding pushes
pushes-collected [] w h k = (sym (rw drop-nil (append-nil (collected w))), k)
pushes-collected (s ∷ ss) w h k =
    let p = push-Pushed s.ns s.now s.later w (omega arith) k in
    let w' = push s.ns s.now s.later w in
    let (rest, bound) = pushes-collected ss w' (omega (arith, p.seen)) p.bound in
    (
      elim (lt_or_ge w.seen 200) [
        | inl early ↦
            let fewer : 200 - w.seen ≡ suc (200 - w'.seen) = omega (arith, p.seen) in
            rest ∙ rw (p.early early, fewer) refl
        | inr late ↦
            let over : 200 - w.seen ≡ 0 = omega arith in
            let still : 200 - w'.seen ≡ 0 = omega (arith, p.seen) in
            rest
            ∙ rw (p.late late, over, still) (append_assoc (collected w) (s.ns ∷ []) (values ss))
      ],
      bound,
    )
  where
    lt_or_ge : (a b : ℕ) → (a < b) ⊎ (b ≤ a)
    lt_or_ge a b = omega arith

-- Of the samples pushed to a new window, what went to the channel and what is buffered are together
-- all but the first 200, in order and each once, however the clock runs; and fewer than 2,000 are
-- buffered.
pub new_window-collected :
    (start : ℕ) (ss : List Sample)
    → length ss < 2 ^ 64
    → (collected (pushes ss (new_window start)) ≡ drop 200 (values ss))
      × (length (pushes ss (new_window start)).buf < 2_000)
new_window-collected start ss h = pushes-collected ss (new_window start) (omega arith) (omega arith)

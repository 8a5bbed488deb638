-- ===== src/Exchange/Rounds.antt =====
-- The rounds of src/bin/exchange.rs: their panics, and what they do to the book.
use rust_hotpath_ipc.Prelude.{
  get_elem?-below, last-some, ◌>>=◌, ℕ, zero, suc, ◌+◌, ◌^◌, ◌<◌, ◌≡◌, refl, ap, Bool, true, false,
  Option, some, List, [], ◌∷◌, arith, ◌==◌, length, set, Bool-cases, inl, inr,
}
use rust_hotpath_ipc.Prelude.Int.{ℤ}
use rust_hotpath_ipc.Float.{F64}
use rust_hotpath_ipc.Messages.{OrderCommand, ExecutionReport}
use rust_hotpath_ipc.OrderBook.{Side, Fill, Book, new_book, Order, submit, cancel}
use rust_hotpath_ipc.OrderBook.Valid.{SidesAreValid, submit-SidesAreValid, cancel-SidesAreValid}
use rust_hotpath_ipc.OrderBook.Uncrossed.{IsUncrossed, submit-IsUncrossed, cancel-IsUncrossed}
use rust_hotpath_ipc.Participants.{
  below, Participants, Floor, swap_remove, but_last, unit, step_fair_value, units, quote, quotes,
  cancel_one, cancel_at_random, taker, prune, act, new_participants,
}
use rust_hotpath_ipc.Exchange.{
  order_of, match_strategy_order, Exchange, Published, match_orders, publish_strategy_maker_fills,
  participate, paced, finish_turn, turn, prime, start, no_top,
}

pub record IsSound (b : Book) : Type 0 where
  pub valid : SidesAreValid b
  pub uncrossed : IsUncrossed b

submit-IsSound :
    (t : Order) (fills : List Fill) (b : Book)
    → t.quantity < 2 ^ 64
    → IsSound b
    → IsSound (submit t fills b).book
submit-IsSound t fills b h s = record {
  valid = submit-SidesAreValid t fills b h s.valid;
  uncrossed = submit-IsUncrossed t fills b s.valid s.uncrossed;
}

cancel-IsSound : (id : ℕ) (b : Book) → IsSound b → IsSound (cancel id b).0
cancel-IsSound id b s = record {
  valid = cancel-SidesAreValid id b s.valid;
  uncrossed = cancel-IsUncrossed id b s.valid s.uncrossed;
}

below-lt : (n rng : ℕ) → 0 < n → (below n rng).0 < n
unfolding below
below-lt n rng h = ground arith

swap_remove-some :
    {A : Type 0} (i : ℕ) (xs : List A)
    → i < length xs
    → (r : A × List A) × (swap_remove i xs ≡ some r)
unfolding swap_remove
swap_remove-some i xs h =
    let (x, there) = get_elem?-below xs i h in
    let (l, also) = last-some xs (omega arith) in
    ((x, but_last (set xs i l)), rw (there, also) refl)

-- A command whose quantity is a `u64`.
pub match_strategy_order-IsSound :
    (cmd : OrderCommand) (fills : List Fill) (b : Book)
    → cmd.quantity < 2 ^ 64
    → IsSound b
    → IsSound (match_strategy_order cmd fills b).0
unfolding match_strategy_order order_of
match_strategy_order-IsSound cmd fills b h s = elim (Bool-cases (cmd.action == 1)) [
  | inl is_cancel ↦ rw is_cancel (cancel-IsSound cmd.order_id b s)
  | inr other ↦ elim (Bool-cases (cmd.action == 2)) [
    | inl modify ↦
        rw (other, modify)
          (submit-IsSound (order_of cmd) fills _ h (cancel-IsSound cmd.order_id b s))
    | inr fresh ↦ rw (other, fresh) (submit-IsSound (order_of cmd) fills b h s)
  ]
]

-- The quantities of commands are `u64`s.
abbrev pub AllU64 : List OrderCommand → Type 0
AllU64 [] = Unit
AllU64 (cmd ∷ cmds) = (cmd.quantity < 2 ^ 64) × AllU64 cmds

abbrev pub All64 : List (List OrderCommand × Bool) → Type 0
All64 [] = Unit
All64 ((cmds, _) ∷ more) = AllU64 cmds × All64 more

new_book-IsSound : IsSound new_book
new_book-IsSound = record {
  valid = record {
    bids = record { sorted = tt; sized = tt };
    asks = record { sorted = tt; sized = tt };
  };
  uncrossed = refl;
}

module _ (F : F64) (small : (x : F.Float) → F.to_nat x < 2 ^ 64) where
  open F use {Float}

  quote-IsSound :
      (side : Side) (px : ℤ) (n : ℕ) (w : Floor Float)
      → IsSound w.book
      → IsSound (quote F side px (units F n) w).book
  unfolding quote
  quote-IsSound side px n w s = submit-IsSound _ w.sink w.book (small _) s

  quotes-IsSound : (w : Floor Float) → IsSound w.book → IsSound (quotes F w).book
  unfolding quotes
  quotes-IsSound w s = quote-IsSound Side.sell _ _ _ (quote-IsSound Side.buy _ _ _ s)

  cancel_at_random-total :
      (rng : ℕ) (w : Floor Float)
      → (length w.participants.live == 0) ≡ false
      → IsSound w.book
      → (w' : Floor Float) × (cancel_at_random F rng w ≡ some w') × IsSound w'.book
  unfolding cancel_at_random
  cancel_at_random-total rng w live s =
      let n = length w.participants.live in
      let ((id, rest), there) =
        swap_remove-some (below n rng).0 w.participants.live (below-lt n rng (ground arith)) in
      (
        record w {
          participants = record (w.participants) { rng = (below n rng).1; live = rest };
          book = (cancel id w.book).0;
        },
        rw there refl,
        cancel-IsSound id w.book s,
      )

  cancel_one-total :
      (w : Floor Float)
      → IsSound w.book
      → (w' : Floor Float) × (cancel_one F w ≡ some w') × IsSound w'.book
  unfolding cancel_one
  cancel_one-total w s = elim (Bool-cases (length w.participants.live == 0)) [
    | inl empty ↦ (w, rw empty refl, s)
    | inr live ↦ elim (Bool-cases (F.lt (unit F w.participants.rng).0 (F.decimal 5 1))) [
      | inl churn ↦
          let (w', done, s') = cancel_at_random-total (unit F w.participants.rng).1 w live s in
          (w', rw (live, churn) done, s')
      | inr quiet ↦ (
        record w { participants = record (w.participants) { rng = (unit F w.participants.rng).1 } },
        rw (live, quiet) refl,
        s,
      )
    ]
  ]

  taker-IsSound : (w : Floor Float) → IsSound w.book → IsSound (taker F w).book
  unfolding taker
  taker-IsSound w s = elim (Bool-cases (F.lt (unit F w.participants.rng).0 (F.decimal 25 2))) [
    | inl cross ↦ rw cross (submit-IsSound _ w.sink w.book (small _) s)
    | inr quiet ↦ rw quiet s
  ]

  -- A participant round ends, and keeps the book sound.
  pub act-total :
      (w : Floor Float)
      → IsSound w.book
      → (w' : Floor Float) × (act F w ≡ some w') × IsSound w'.book
  unfolding act prune
  act-total w s =
      let quoted = quotes F (record w { participants = step_fair_value F w.participants }) in
      let (w', done, s') = cancel_one-total quoted (quotes-IsSound _ s) in
      (prune F (taker F w'), rw done refl, taker-IsSound w' s')

  module _ (rdtsc : ℕ → ℕ) where
    match_orders-IsSound :
        (cmds : List OrderCommand) (n : ℕ) (b : Book)
        → AllU64 cmds
        → IsSound b
        → IsSound (match_orders F rdtsc cmds n b).0
    unfolding match_orders
    match_orders-IsSound [] n b h s = s
    match_orders-IsSound (cmd ∷ cmds) n b h s =
        match_orders-IsSound cmds _ _ h.1 (match_strategy_order-IsSound cmd [] b h.0 s)

    paced-total :
        (due : Bool) (p : Participants Float) (b : Book) (n : ℕ)
        → IsSound b
        → (w : Floor Float) × (n' : ℕ) × (out : List ExecutionReport) × (paced F rdtsc due p b n
            ≡ some (w, n', out))
          × IsSound w.book
    unfolding participate
    paced-total false p b n s = (_, _, _, refl, s)
    paced-total true p b n s =
        let (w, done, s') = act-total (record { participants = p; book = b; sink = [] }) s in
        let out = publish_strategy_maker_fills F rdtsc n (F.num 1) w.sink in
        (w, n + length out, out, rw done refl, s')

    turn-total :
        (cmds : List OrderCommand) (due : Bool) (x : Exchange Float)
        → AllU64 cmds
        → IsSound x.book
        → (x' : Exchange Float) × (out : Published) × (turn F rdtsc cmds due x ≡ some (x', out))
          × IsSound x'.book
    unfolding turn finish_turn
    turn-total cmds due x h s =
        let (w, n', out, done, s') =
          paced-total due x.participants (match_orders F rdtsc cmds x.reads x.book).0
            (match_orders F rdtsc cmds x.reads x.book).1
            (match_orders-IsSound cmds x.reads x.book h s) in
        let (x', published) =
          finish_turn F rdtsc (match_orders F rdtsc cmds x.reads x.book).2 x.top (w, n', out) in
        (x', published, rw done refl, s')

    prime-total :
        (k : ℕ) (p : Participants Float) (b : Book)
        → IsSound b
        → (w : Floor Float) × (prime F rdtsc k p b ≡ some w) × IsSound w.book
    unfolding prime
    prime-total zero p b s = (_, refl, s)
    prime-total (suc k) p b s =
        let (w, done, s') = act-total (record { participants = p; book = b; sink = [] }) s in
        let (w', more, s'') = prime-total k w.participants w.book s' in
        (w', rw (prime, done, more) refl, s'')

    -- A run of the loop, turn by turn.
    unfoldable pub turns :
        List (List OrderCommand × Bool) → Exchange Float → Option (Exchange Float × List Published)
    turns [] x = some (x, [])
    turns ((cmds, due) ∷ more) x = turn F rdtsc cmds due x >>= λ (x', out).
        turns more x' >>= λ (x'', outs). some (x'', out ∷ outs)

    turns-total :
        (inputs : List (List OrderCommand × Bool)) (x : Exchange Float)
        → All64 inputs
        → IsSound x.book
        → (x' : Exchange Float) × (outs : List Published) × (turns inputs x ≡ some (x', outs))
          × IsSound x'.book
          × (length outs ≡ length inputs)
    unfolding turns
    turns-total [] x h s = (x, [], refl, s, refl)
    turns-total ((cmds, due) ∷ more) x h s =
        let (x', out, done, s') = turn-total cmds due x h.0 s in
        let (x'', outs, rest, s'', size) = turns-total more x' h.1 s' in
        (x'', out ∷ outs, rw (turns, done, rest) refl, s'', ap suc size)

    -- If the cast of a float to `u64` gives a `u64`: from any seed, for any orders of `u64` quantities
    -- in any interleaving with participant rounds, the exchange starts and then completes every turn
    -- with no panic, and ends with a valid, uncrossed book.
    pub start-turns :
        (seed : ℕ) (vol : Float) (inputs : List (List OrderCommand × Bool))
        → All64 inputs
        → (x : Exchange Float) × (x' : Exchange Float) × (outs : List Published) × (start F rdtsc
              seed vol
            ≡ some x)
          × (turns inputs x ≡ some (x', outs))
          × IsSound x'.book
          × (length outs ≡ length inputs)
    unfolding start
    start-turns seed vol inputs h =
        let (w, primed, s) =
          prime-total 64 (new_participants F seed vol) new_book new_book-IsSound in
        let x : Exchange Float = record {
          participants = w.participants;
          book = w.book;
          top = no_top;
          reads = 0;
        } in
        let (x', outs, done, s', size) = turns-total inputs x h s in
        (x, x', outs, rw primed refl, done, s', size)

-- ===== src/Bench/Tally.antt =====
-- src/bin/bench-subscriber.rs: the loss accounting over a run of messages.
use rust_hotpath_ipc.Prelude.{
  ℕ, ◌+◌, ◌^◌, ◌≤◌, ◌<◌, ◌≡◌, subst, ◌∙◌, true, List, [], ◌∷◌, ◌++◌, arith, length,
}
use rust_hotpath_ipc.Float.{F64}
use rust_hotpath_ipc.Messages.{OrderCommand}
use rust_hotpath_ipc.Bench.{
  Window, Subscriber, new_subscriber, note_loss, hand_over, sample, receive, receive_all,
}

-- What the windows that were handed over count.
unfoldable pub sent_received : List Window → ℕ
sent_received [] = 0
sent_received (w ∷ ws) = w.received + sent_received ws

unfoldable pub sent_lost : List Window → ℕ
sent_lost [] = 0
sent_lost (w ∷ ws) = w.lost + sent_lost ws

-- With what is still counted.
abbrev pub total_received : Subscriber → ℕ
total_received s = sent_received s.sent + s.received_in_window

abbrev pub total_lost : Subscriber → ℕ
total_lost s = sent_lost s.sent + s.lost_in_window

sent_received-snoc :
    (ws : List Window) (w : Window) → sent_received (ws ++ w ∷ []) ≡ sent_received ws + w.received
unfolding sent_received
sent_received-snoc [] w = omega arith
sent_received-snoc (v ∷ ws) w = omega (arith, sent_received-snoc ws w)

sent_lost-snoc : (ws : List Window) (w : Window) → sent_lost (ws ++ w ∷ []) ≡ sent_lost ws + w.lost
unfolding sent_lost
sent_lost-snoc [] w = omega arith
sent_lost-snoc (v ∷ ws) w = omega (arith, sent_lost-snoc ws w)

-- The window that a full one is handed over as.
abbrev current : Subscriber → Window
current s = record {
  latencies = s.latencies;
  received = s.received_in_window;
  lost = s.lost_in_window;
}

-- After the message `first`, the counters account for each id up to the last one.
pub record Tallies (first n : ℕ) (s : Subscriber) : Type 0 where
  pub started : s.have_prev ≡ true
  pub received : total_received s ≡ n
  pub accounted : first + total_received s + total_lost s ≡ s.expected_id
  pub fits : s.expected_id < 2 ^ 64

total_received-hand_over : (s : Subscriber) → total_received (hand_over s) ≡ total_received s
unfolding hand_over
total_received-hand_over s = ground (arith, sent_received-snoc s.sent (current s))

total_lost-hand_over : (s : Subscriber) → total_lost (hand_over s) ≡ total_lost s
unfolding hand_over
total_lost-hand_over s = ground (arith, sent_lost-snoc s.sent (current s))

hand_over_keeps :
    (s : Subscriber)
    → ((hand_over s).have_prev ≡ s.have_prev) × ((hand_over s).expected_id ≡ s.expected_id)
unfolding hand_over
hand_over_keeps s = ground arith

hand_over-Tallies :
    {first n : ℕ} {s : Subscriber} → Tallies first n s → Tallies first n (hand_over s)
hand_over-Tallies {s = s} t =
    let keeps = hand_over_keeps s in
    record {
      started = keeps.0 ∙ t.started;
      received = total_received-hand_over s ∙ t.received;
      accounted =
          omega (arith, total_received-hand_over s, total_lost-hand_over s, t.accounted, keeps.1);
      fits = omega (arith, t.fits, keeps.1);
    }

-- The ids ascend from `next` on, below the last number of 64 bits.
unfoldable pub Ascend : ℕ → List (ℕ × OrderCommand) → Type 0
Ascend next [] = Unit {0}
Ascend next ((now, msg) ∷ msgs) =
    (next ≤ msg.order_id) × (msg.order_id + 1 < 2 ^ 64) × Ascend (msg.order_id + 1) msgs

-- The id of the last message, if there is one after `id`.
unfoldable pub last_id : ℕ → List (ℕ × OrderCommand) → ℕ
last_id id [] = id
last_id id ((now, msg) ∷ msgs) = last_id msg.order_id msgs

module _ (F : F64) (cycles_per_ns : F.Float) where
  note_loss-Tallies :
      (now : ℕ) (msg : OrderCommand) {first n : ℕ} {s : Subscriber}
      → Tallies first n s
      → s.expected_id ≤ msg.order_id
      → msg.order_id + 1 < 2 ^ 64
      → Tallies first (n + 1) (note_loss msg.order_id (sample F cycles_per_ns now msg s))
  unfolding note_loss sample
  note_loss-Tallies now msg t h k = ground arith

  receive-Tallies :
      (now : ℕ) (msg : OrderCommand) {first n : ℕ} {s : Subscriber}
      → Tallies first n s
      → s.expected_id ≤ msg.order_id
      → msg.order_id + 1 < 2 ^ 64
      → Tallies first (n + 1) (receive F cycles_per_ns now msg s)
  unfolding receive
  receive-Tallies now msg {s = s} t h k =
      hand_over-Tallies {s = note_loss msg.order_id (sample F cycles_per_ns now msg s)}
        (note_loss-Tallies now msg t h k)

  expected_id-receive :
      (now : ℕ) (msg : OrderCommand) (s : Subscriber)
      → msg.order_id + 1 < 2 ^ 64
      → (receive F cycles_per_ns now msg s).expected_id ≡ msg.order_id + 1
  unfolding receive
  expected_id-receive now msg s h = ground arith

  note_loss-first :
      (now : ℕ) (msg : OrderCommand)
      → msg.order_id + 1 < 2 ^ 64
      → Tallies msg.order_id 1
          (note_loss msg.order_id (sample F cycles_per_ns now msg new_subscriber))
  unfolding note_loss sample sent_received sent_lost
  note_loss-first now msg h = ground arith

  receive_all-Tallies :
      (msgs : List (ℕ × OrderCommand)) (last : ℕ) {first n : ℕ} {s : Subscriber}
      → Tallies first n s
      → s.expected_id ≡ last + 1
      → Ascend (last + 1) msgs
      → Tallies first (n + length msgs) (receive_all F cycles_per_ns msgs s)
        × ((receive_all F cycles_per_ns msgs s).expected_id ≡ last_id last msgs + 1)
  unfolding receive_all last_id Ascend
  receive_all-Tallies [] last {first} {n} {s} t e a =
      (subst (λ k. Tallies first k s) (omega arith) t, e)
  receive_all-Tallies ((now, msg) ∷ msgs) last {first} {n} {s} t e a =
      let (tally, ends) =
        receive_all-Tallies msgs msg.order_id (receive-Tallies now msg t (omega (arith, a.0)) a.1)
          (expected_id-receive now msg s a.1) a.2 in
      (
        subst (λ k. Tallies first k (receive_all F cycles_per_ns ((now, msg) ∷ msgs) s))
            (omega arith) tally,
        ends,
      )

  -- Over any run of messages with ascending ids below 2^64 - 1, from the first one on, the windows
  -- that were handed over and the counters together count each message received once, and as lost
  -- exactly the ids between the first and the last that did not come: from the first id, those
  -- received and those lost reach to the last id.
  pub receive_all-Ascend :
      (now : ℕ) (msg : OrderCommand) (msgs : List (ℕ × OrderCommand))
      → Ascend 0 ((now, msg) ∷ msgs)
      → let s = receive_all F cycles_per_ns ((now, msg) ∷ msgs) new_subscriber in
        (total_received s ≡ length msgs + 1)
        × (msg.order_id + (total_received s + total_lost s) ≡ last_id msg.order_id msgs + 1)
  unfolding receive_all Ascend
  receive_all-Ascend now msg msgs a =
      let fresh =
        hand_over-Tallies
          {s = note_loss msg.order_id (sample F cycles_per_ns now msg new_subscriber)}
          (note_loss-first now msg a.1) in
      let (tally, ends) =
        receive_all-Tallies msgs msg.order_id {s = receive F cycles_per_ns now msg new_subscriber}
          (unfold receive in fresh) (expected_id-receive now msg new_subscriber a.1) a.2 in
      (omega (arith, tally.received), omega (arith, tally.accounted, ends))

-- ===== src/Bench.antt =====
-- src/bin/bench-publisher.rs and src/bin/bench-subscriber.rs: the transport benchmark, from the
-- first message on, less its wiring and what it prints. `sent` is what went into the reporter's
-- channel, oldest first.
pub mod Tally
use rust_hotpath_ipc.Prelude.Words.{add_u64, sub_u64}
use rust_hotpath_ipc.Prelude.{
  ◌>>=◌, ℕ, suc, ◌+◌, ◌-◌, ◌/◌, ◌%◌, ◌^◌, Bool, true, false, Option, none, some, List, [], ◌∷◌,
  ◌++◌, ltb, leb, ◌==◌, if◌then◌else◌, length, get_elem?,
}
use rust_hotpath_ipc.Prelude.Int.{pos}
use rust_hotpath_ipc.Float.{F64}
use rust_hotpath_ipc.Messages.{OrderCommand}
use rust_hotpath_ipc.Latency.{sort, percentile_index}
use rust_hotpath_ipc.Execution.{fast_cycles_to_ns}

pub record Publisher : Type 0 where
  pub seq : ℕ
  pub total_publish_cycles : ℕ
  pub publish_count : ℕ

abbrev pub new_publisher : Publisher
new_publisher = record { seq = 0; total_publish_cycles = 0; publish_count = 0 }

-- The message of the number `seq`, at a reading of the clock.
unfoldable pub message : ℕ → ℕ → OrderCommand
message now seq = record {
  timestamp_ns = now;
  order_id = seq;
  price_ticks = pos (5_000_000 + seq % 1000);
  quantity = 100 + seq % 50;
  origin_ts = 0;
  symbol_id = 1;
  user_id = 1;
  side = seq % 2;
  order_type = 1;
  action = 0;
  flags = 0;
  exchange_id = 1;
  priority = 0;
}

-- One turn of the publisher's loop: the message that is sent, the next state, and the average
-- that is printed. `from` and `to` are the readings round the send.
unfoldable pub publish : ℕ → ℕ → ℕ → Publisher → OrderCommand × Publisher × Option (ℕ × ℕ)
unfolding message
publish now from to p =
    let seq = add_u64 p.seq 1 in
    let total = add_u64 p.total_publish_cycles (sub_u64 to from) in
    let count = add_u64 p.publish_count 1 in
    if seq % 100_000 == 0
    then (
      message now seq,
      record { seq = seq; total_publish_cycles = 0; publish_count = 0 },
      some (seq, total / count),
    )
    else (
      message now seq,
      record { seq = seq; total_publish_cycles = total; publish_count = count },
      none,
    )

abbrev pub warmup_receives : ℕ
warmup_receives = 10_000

abbrev pub report_interval : ℕ
report_interval = 100_000

pub record Window : Type 0 where
  pub latencies : List ℕ
  pub received : ℕ
  pub lost : ℕ

pub record Subscriber : Type 0 where
  pub latencies : List ℕ
  pub expected_id : ℕ
  pub have_prev : Bool
  pub lost_in_window : ℕ
  pub received_in_window : ℕ
  pub sent : List Window

abbrev pub new_subscriber : Subscriber
new_subscriber = record {
  latencies = [];
  expected_id = 0;
  have_prev = false;
  lost_in_window = 0;
  received_in_window = 0;
  sent = [];
}

-- The warm-up: the messages that it leaves for the measured loop.
unfoldable pub warm_up : ℕ → List OrderCommand → List OrderCommand
warm_up warmed [] = []
warm_up warmed (msg ∷ msgs) =
    if ltb warmed warmup_receives then warm_up (warmed + 1) msgs else msg ∷ msgs

-- Loss detection.
unfoldable pub note_loss : ℕ → Subscriber → Subscriber
note_loss id s =
    let lost =
      if s.have_prev
      then (if ltb s.expected_id id
          then add_u64 s.lost_in_window (sub_u64 id s.expected_id)
          else s.lost_in_window)
      else s.lost_in_window in
    record s { have_prev = true; lost_in_window = lost; expected_id = add_u64 id 1 }

-- A full window goes to the reporter, and a fresh one takes its place.
unfoldable pub hand_over : Subscriber → Subscriber
hand_over s =
    if leb report_interval (length s.latencies)
    then record s {
      latencies = [];
      sent =
          s.sent
          ++ ((record {
            latencies = s.latencies;
            received = s.received_in_window;
            lost = s.lost_in_window;
          })
              ∷ []);
      lost_in_window = 0;
      received_in_window = 0;
    }
    else s

module _ (F : F64) (cycles_per_ns : F.Float) where
  -- The latency of a message received at the reading `now` of the clock; the difference saturates.
  unfoldable pub sample : ℕ → OrderCommand → Subscriber → Subscriber
  sample now msg s = record s {
    latencies = s.latencies ++ (fast_cycles_to_ns F cycles_per_ns (now - msg.timestamp_ns) ∷ []);
    received_in_window = add_u64 s.received_in_window 1;
  }

  unfoldable pub receive : ℕ → OrderCommand → Subscriber → Subscriber
  unfolding sample note_loss hand_over
  receive now msg s = hand_over (note_loss msg.order_id (sample now msg s))

  unfoldable pub receive_all : List (ℕ × OrderCommand) → Subscriber → Subscriber
  unfolding receive
  receive_all [] s = s
  receive_all ((now, msg) ∷ msgs) s = receive_all msgs (receive now msg s)

-- What `report` prints of a window.
pub record Line (A : Type 0) : Type 0 where
  pub n : ℕ
  pub min : ℕ
  pub p50 : ℕ
  pub p99 : ℕ
  pub p999 : ℕ
  pub max : ℕ
  pub loss_pct : A
  pub lost : ℕ

module _ (F : F64) where
  open F use {Float, num, decimal, mul, div}

  unfoldable pub loss_pct : ℕ → ℕ → Float
  loss_pct received lost =
      let total = add_u64 received lost in
      if ltb 0 total then mul (div (num lost) (num total)) (num 100) else num 0

  -- The outer `none` is an index out of range, the inner one a window without samples. Its
  -- `percentile_index` is the code of src/latency_window.rs again.
  unfoldable pub report : Window → Option (Option (Line Float))
  unfolding loss_pct
  report w = elim w.latencies [
    | [] ↦ some none
    | x ∷ xs ↦ do
      let latencies = sort (x ∷ xs)
      let n = length latencies
      least ← get_elem? latencies 0
      greatest ← get_elem? latencies (n - 1)
      p50 ← get_elem? latencies (percentile_index F n (num 50))
      p99 ← get_elem? latencies (percentile_index F n (num 99))
      p999 ← get_elem? latencies (percentile_index F n (decimal 999 1))
      some (
          some (record {
            n = n;
            min = least;
            p50 = p50;
            p99 = p99;
            p999 = p999;
            max = greatest;
            loss_pct = loss_pct w.received w.lost;
            lost = w.lost;
          }))
  ]

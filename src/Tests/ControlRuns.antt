-- ===== src/Tests/ControlRuns.antt =====
-- Runs of the control server on concrete requests.
use Prim.Native.String.{String}
use rust_hotpath_ipc.Prelude.{
  ℕ, ◌+◌, ◌-◌, ◌*◌, ◌≡◌, refl, true, false, ◌&&◌, Option, none, some, List, [], ◌∷◌, ◌++◌, arith,
  leb, if◌then◌else◌,
}
use rust_hotpath_ipc.Prelude.Int.{ℤ, pos, pos_part}
use rust_hotpath_ipc.Prelude.Text.{Text, codes}
use rust_hotpath_ipc.Vm.Listing.{show_nat}
use rust_hotpath_ipc.Control.Params.{StrategyParams, default_params, from_params_json}
use rust_hotpath_ipc.Control.Flat.{text, quote_free}
use rust_hotpath_ipc.Control.Pieces.{Piece, pieces, ArePieces, is_knob, ends_value, starts_word}
use rust_hotpath_ipc.Json.Print.{all_num_chars}
use rust_hotpath_ipc.Control.Knobs.{params_of, from_params_json-pieces}
use rust_hotpath_ipc.Control.Hub.{Server, Subscriber, stop_pipeline}
use rust_hotpath_ipc.Control.Launch.{Host, Spawns, Reply, Request, Method, run_pipeline}
use rust_hotpath_ipc.Control.Tracked.{
  IsTracked, all_children, execution_at, strategy_at, exchange_at, stop_pipeline-IsTracked,
  run_pipeline-IsTracked, run_pipeline-orphan, not_spawned,
}
use rust_hotpath_ipc.Control.History.{
  NoneFails, Event, request, exit, serve_all, IsSteady, serve_all-IsSteady,
}
use rust_hotpath_ipc.Control.Lines.{
  says, joins, leaves, feed_all, client, said, Stays, client-feed_all,
}
use rust_hotpath_ipc.Tests.Data.{whole}

abbrev digits_of : ℕ → Text → Option ℤ
digits_of n [] = some (pos n)
digits_of n (c ∷ t) =
    let rest = digits_of (10 * n + (c - b'0')) t in if leb b'0' c && leb c b'9' then rest else none

abbrev parse_digits : Text → Option ℤ
parse_digits [] = none
parse_digits (c ∷ t) = digits_of 0 (c ∷ t)

-- {"params":{"vol":12,"max_position":5,"strategy":"gates"}}
abbrev body : List Piece
body =
    Piece.other (codes "params") (codes ":{")
    ∷ Piece.number (codes "vol") (codes "12") (codes ",")
    ∷ Piece.number (codes "max_position") (codes "5") (codes ",")
    ∷ Piece.other (codes "strategy") (codes ":")
    ∷ Piece.other (codes "gates") (codes "}}")
    ∷ []

from_params_json-pieces_example :
    from_params_json whole parse_digits (codes "{" ++ text (pieces body))
    ≡ params_of whole parse_digits body
unfolding quote_free ArePieces is_knob all_num_chars ends_value starts_word
from_params_json-pieces_example = from_params_json-pieces whole parse_digits (codes "{") body refl (
  (refl, refl, refl, refl),
  (
    (refl, refl, refl, refl),
    ((refl, refl, refl, refl), ((refl, refl, refl, refl), ((refl, refl, refl, refl), tt))),
  ),
)

scanned :
    from_params_json whole parse_digits
      (codes "{\"params\":{\"vol\":12,\"max_position\": \"5\" ,\"strategy\":\"gates\"}}")
    ≡ record (default_params whole parse_digits) {
      vol = pos 12;
      max_position = pos 5;
      gates = true;
    }
unfolding from_params_json
scanned = refl

-- No file is there, and the sweep misses everything.
abbrev host : Host ℤ
host = record {
  exists = λ path. false;
  manifest = codes "/repo";
  fixed = λ k x. show_nat (pos_part x);
  show = λ x. show_nat (pos_part x);
  show_int = λ x. show_nat (pos_part x);
  survives = λ p. true;
}

abbrev all_spawn : Spawns
all_spawn = record { execution = none; strategy = none; exchange = none }

abbrev no_strategy : Spawns
no_strategy = record { execution = none; strategy = some (codes "not found"); exchange = none }

abbrev knobs : StrategyParams ℤ
knobs = record {
  weight_trend = pos 1;
  weight_momentum = pos 2;
  weight_reversion = pos 3;
  threshold = pos 4;
  max_position = pos 5;
  vol = pos 6;
  tick_us = 7;
  gates = true;
}

-- A run with the pids 5, 6 and 7, of which one has ended.
abbrev busy : Server
busy = record {
  running = some (5 ∷ 6 ∷ 7 ∷ []);
  subscribers = [];
  alive = exchange_at host knobs 7 ∷ execution_at host knobs 5 ∷ [];
  next_pid = 8;
}

busy-IsTracked : IsTracked busy
unfolding all_children
busy-IsTracked = refl

stop_pipeline-IsTracked_example :
    ((stop_pipeline host.survives busy).alive ≡ [])
    × ((stop_pipeline host.survives busy).running ≡ none)
stop_pipeline-IsTracked_example = stop_pipeline-IsTracked host.survives busy busy-IsTracked

run_pipeline-IsTracked_example :
    ((run_pipeline host knobs all_spawn busy).1 ≡ Reply.ok)
    × ((run_pipeline host knobs all_spawn busy).0.running ≡ some (8 ∷ 9 ∷ 10 ∷ []))
    × ((run_pipeline host knobs all_spawn busy).0.alive
        ≡ exchange_at host knobs 10 ∷ strategy_at host knobs 9 ∷ execution_at host knobs 8 ∷ [])
run_pipeline-IsTracked_example =
    run_pipeline-IsTracked host knobs all_spawn busy (refl, refl, refl) busy-IsTracked

run_pipeline-orphan_example :
    ((run_pipeline host knobs no_strategy busy).1
      ≡ Reply.error (not_spawned host knobs (codes "strategy") (codes "not found")))
    × ((run_pipeline host knobs no_strategy busy).0.running ≡ none)
    × ((run_pipeline host knobs no_strategy busy).0.alive ≡ execution_at host knobs 8 ∷ [])
    × ((stop_pipeline host.survives (run_pipeline host knobs no_strategy busy).0).alive
        ≡ execution_at host knobs 8 ∷ [])
run_pipeline-orphan_example =
    run_pipeline-orphan host knobs no_strategy busy (codes "not found") refl refl busy-IsTracked

abbrev post_to : String → Request
post_to url = record {
  method = Method.post;
  url = codes url;
  body = codes "{}";
  client = 0;
  spawns = all_spawn;
}

abbrev history : List Event
history =
    request (post_to "/run")
    ∷ exit 1
    ∷ request (post_to "/run?again")
    ∷ request (post_to "/stop")
    ∷ []

busy-IsSteady : IsSteady busy
busy-IsSteady = record { tracked = busy-IsTracked; few = omega arith }

serve_all-IsSteady_example : IsSteady (serve_all whole parse_digits host history busy)
unfolding NoneFails
serve_all-IsSteady_example =
    serve_all-IsSteady whole parse_digits host history busy
      ((refl, refl, refl), ((refl, refl, refl), ((refl, refl, refl), tt))) busy-IsSteady

abbrev listener : Subscriber
listener = record { id = 1; open_ = true; inbox = [] }

abbrev with_listener : Server
with_listener = record { running = none; subscribers = listener ∷ []; alive = []; next_pid = 0 }

client-feed_all_example :
    client 1
      (feed_all
        (says (codes "a") ∷ joins 2 ∷ leaves 2 ∷ says (codes "b") ∷ [])
        with_listener).subscribers
    ≡ some (record { id = 1; open_ = true; inbox = codes "a" ∷ codes "b" ∷ [] })
unfolding client said Stays
client-feed_all_example =
    client-feed_all 1 (says (codes "a") ∷ joins 2 ∷ leaves 2 ∷ says (codes "b") ∷ []) with_listener
      refl refl (omega arith, tt)

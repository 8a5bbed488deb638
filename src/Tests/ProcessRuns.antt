-- ===== src/Tests/ProcessRuns.antt =====
-- The strategy process, from its environment on.
use rust_hotpath_ipc.Prelude.{◌≡◌, refl, false, Option, none, some, List, [], ◌∷◌, if◌then◌else◌}
use rust_hotpath_ipc.Prelude.Int.{ℤ, pos, negsuc, ◌-ℤ◌}
use rust_hotpath_ipc.Prelude.Text.{Text, codes, text_eq}
use rust_hotpath_ipc.Runtime.{Env, parse_u64, parse_i64}
use rust_hotpath_ipc.Json
use rust_hotpath_ipc.Graph
use rust_hotpath_ipc.Compiler
use rust_hotpath_ipc.Vm.{Op, Vm}
use rust_hotpath_ipc.Trader.{Arrival, Trader}
use rust_hotpath_ipc.Trader.Setup.{settings}
use rust_hotpath_ipc.Execution.{see_order, new_execution}
use rust_hotpath_ipc.Execution.Loop.{Waiting, executing}
use rust_hotpath_ipc.Exchange.Pacing.{wait_of}
use rust_hotpath_ipc.Compiler.Message.{message}
use rust_hotpath_ipc.Tests.Data.{whole, drawn, tick_at, buy_command}

-- A strategy graph, and a limit of two units.
abbrev env : Env
unfolding text_eq
env key =
    if text_eq key (codes "STRATEGY_JSON")
    then some (codes "g.json")
    else if text_eq key (codes "MAX_POSITION")
    then some (codes "+2")
    else none

abbrev files : Text → Option Text
files path = some drawn

abbrev no_floats : Text → Option ℤ
no_floats t = none

abbrev buyer : Vm ℤ
buyer = record { prog = Op.push_price ∷ Op.buy ∷ []; state = []; stack = [] }

limit_is_2 : (settings whole no_floats env).max_position ≡ pos 2
unfolding settings text_eq
limit_is_2 = refl

greatest : parse_u64 (codes "18446744073709551615") ≡ some 18_446_744_073_709_551_615
unfolding parse_u64
greatest = refl

too_great : parse_u64 (codes "18446744073709551616") ≡ none
unfolding parse_u64
too_great = refl

negative : parse_i64 (codes "-5") ≡ some (negsuc 4)
unfolding parse_i64 ◌-ℤ◌
negative = refl

abbrev arrivals : List Arrival
arrivals =
    record { tick = tick_at 100; t1 = 3; over_time = false }
    ∷ record { tick = tick_at 100; t1 = 5; over_time = false }
    ∷ []

-- An order, and no report of it.
abbrev quiet : Waiting
quiet = record { orders = buy_command ∷ []; report = none; now = 1; later = 2 }

seen :
    (executing whole (pos 1) 0 (quiet ∷ []) (new_execution whole (pos 1) 0)).order_ctx
      buy_command.order_id
    ≡ some (buy_command.origin_ts, 0)
unfolding executing see_order
seen = refl

-- A period of 100 us: 40 us of it are over, then it is over when the clock is read again.
waits : wait_of 100 40_000 45_000 [] ≡ some 55_000
unfolding wait_of
waits = refl

waits_no_more : wait_of 100 99_000 100_000 [] ≡ some 1_000
unfolding wait_of
waits_no_more = refl

too_many :
    message (Compiler.too_many_inputs (codes "n") (codes "ema") 2)
    ≡ codes "ema node 'n' has 2 inputs but takes one; combine inputs with a gate"
unfolding message
too_many = refl

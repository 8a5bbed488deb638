-- ===== src/Lib.antt =====
-- The trading pipeline of rust-hotpath-ipc: a strategy process reads market ticks and sends orders,
-- an exchange process matches them against a limit order book and publishes ticks, snapshots and
-- execution reports, and an execution process books the reports. A control server launches and
-- stops the three for a web page, a disassembler lists a compiled strategy, and a publisher and a
-- subscriber measure the transport. The processes talk over a shared-memory bus (iceoryx2), which
-- is not code of the repository: what a loop receives is an argument of its model, and what it
-- sends is returned.
--
-- Files and the code they model:
-- - BookState: src/order_book.rs, the state of the book, its queries and the steps on its maps.
--   `Book` is two lists of levels and a locate function.
-- - OrderBook: src/order_book.rs, the matcher, with the names of BookState. `submit` is `cross`
--   (the crossing loop over `consume`, the inner loop, and `settle`) and `finish` (rest or reject);
--   `cancel` is `cancel_at`. Its children prove: Line, the reference matcher `sweep` on a flat list
--   of orders; Sides and Refine, the crossing loop against it; Done, why the loop ends; Invariant
--   and Valid, what each side keeps; Recedes and Uncrossed, the best prices; Market and Submit, the
--   specification and the refinement; Trades and Fills, what is traded; Cancel, the order that
--   leaves; Queued and Indexed, the index against the queues.
-- - Vm: src/bytecode.rs. `step` is a turn of the loop of `Vm::run`, over the indicators
--   `ema_update`, `momentum_update` and `reversion_update`. Total has the safety of a run, Depth
--   the machine against one whose stack has no bound (`free_exec`), Ring and Momentum its ring
--   buffers against the deque of Strategy. Bytes is `program_to_bytes`, and Bytes.RoundTrip a
--   reader of them; Listing is `disassemble`, and Listing.Lines counts lines.
-- - Json: src/compiler.rs, the JSON reader `mini_json`. `parse_value`, `parse_obj` and `parse_arr`
--   share fuel. Total has its end, Print a printer that writes UTF-8, Pieces and RoundTrip the two
--   together.
-- - Graph: src/compiler.rs, `parse`, from JSON to the graph. Encode writes a graph, Maps has the
--   maps of a node's properties, RoundTrip reads it back, Total has the end.
-- - Compiler: src/compiler.rs, from a parsed graph to bytecode. `emit_node_body` is the body of the
--   recursive `emit_node`. Shape says what emitted code does to the stack and the slots, Ids bounds
--   the recursion, Ends and Shaped join them, Runs runs compiled code on the machine of Vm, and
--   Panics has the code that the machine panics on; Message is the text of an error.
-- - Disasm: src/bin/disasm.rs, Graph, Compiler and Listing in a row. Printed says how it ends.
-- - Strategy: src/strategy.rs. `on_price` is `roll` (the rolling state) and `decide`. Total and
--   Cooldown.
-- - Messages: src/hot_path.rs, the four messages.
-- - Participants: the synthetic participants of src/bin/exchange.rs. `act` is a round of theirs.
-- - Exchange: src/bin/exchange.rs. `match_strategy_order` matches an order, `turn` a turn of the
--   loop of `main`. Rounds has the safety of the loop, Reports the reports of an order, Pacing the
--   cadence of the participants.
-- - Trader: src/bin/strategy.rs. `on_tick` is a turn of the loop of `main`, and Setup is what
--   `main` reads before it: the environment (Runtime) and the strategy graph. Risk and Limits have
--   the orders of a run, Total and Starts why neither the loop nor the setup panics, Windows the
--   latency windows of the loop.
-- - Execution: src/bin/execution.rs, and `fast_cycles_to_ns` of src/tsc_calibration.rs. Loop is the
--   loop of `main`, and Booked joins a report with those of Exchange.
-- - Latency: src/latency_window.rs. Collected and Floor.
-- - Calibration: src/tsc_calibration.rs, the statics as the record `Clock`. Order compares Unix
--   times.
-- - Runtime: src/runtime.rs, `env_or`, and the parsing of whole numbers of the standard library.
-- - Bench: src/bin/bench-publisher.rs and src/bin/bench-subscriber.rs, the turns `publish` and
--   `receive`. Tally adds up what is reported.
-- - Control: src/bin/control_server.rs. Params is the scan for the knobs, Hub the pipeline and the
--   clients of the log, Launch the three spawns and the routes. Flat, Pieces and Knobs read the
--   knobs from a text in pieces; Tracked and History follow the live processes; Lines follows a
--   client.
-- - Prelude: lists, options, text, signed integers and machine words. Float: the `f64` operations,
--   as an interface. Tests: concrete inputs.
--
-- How the code is represented. Numbers are the native naturals and integers over them; an unsigned
-- sum or difference that can leave its width wraps, as in the release profile, and so do the `i64`
-- sums of the strategy process and of the exchange. A `BTreeMap` of levels is the list of its
-- entries in the order in which the matcher walks it, so that its first entry is the best price; a
-- `HashMap` is the function that `get` computes, or a list of pairs. A `VecDeque` is a list. A
-- panic is `none`, or `panicked` in the compiler. `&mut self` is passed in and returned. `f64`
-- arithmetic is a record of operations with no laws: what is proved holds for any. One theorem
-- assumes of it that the cast to `u64` gives a `u64`, and one that scaling a count of cycles keeps
-- their order. A clock is a function from the number of readings so far, or an argument.
--
-- Fuel. The crossing loop of `submit` has one round more than the other side has levels, since each
-- round empties a level or fills the taker: OrderBook.Done has the proof. The JSON reader has twice
-- as many levels as the text has bytes, and one more, since a level that reads no byte is followed
-- by one that does: Json.Total has the proof. The digits of a number have one round more than the
-- number. The recursion of `emit_node` has one level more than the graph has nodes, since the ids
-- on its stack are distinct nodes: Compiler.Ids and Compiler.Ends have the proof. All else is
-- structural recursion.
--
-- Parameters. `parse_f64` and `show` stand for the `f64` of the standard library as text, and a
-- theorem that needs it says what it takes of them: that the empty text is no number, that a
-- printed number is read back, that it has no line feed, that its eight bytes give it back. The
-- environment, the files and the start of a process are functions.
--
-- Not modelled: the clocks and the sleep of a calibration, thread pinning and priorities of
-- src/runtime.rs, requests to the control server that overlap, its HTTP headers and the threads
-- that forward a stage's output, and in the processes the wiring of the bus, the waiting itself and
-- the printing.
pub mod Bench
pub mod BookState
pub mod Calibration
pub mod Compiler
pub mod Control
pub mod Disasm
pub mod Exchange
pub mod Execution
pub mod Float
pub mod Graph
pub mod Json
pub mod Latency
pub mod Messages
pub mod OrderBook
pub mod Participants
pub mod Prelude
pub mod Runtime
pub mod Strategy
pub mod Tests
pub mod Trader
pub mod Vm

-- ===== src/Control.antt =====
-- src/bin/control_server.rs: the console's server. Params has the knobs of a run, Hub the pipeline
-- and the clients, and Launch the three stages and the routes. Flat, Pieces and Knobs are about the
-- first, Tracked and History about the processes that are alive, and Lines about a client.
pub mod Params
pub mod Flat
pub mod Pieces
pub mod Knobs
pub mod Hub
pub mod Launch
pub mod Tracked
pub mod History
pub mod Lines

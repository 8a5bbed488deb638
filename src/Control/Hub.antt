-- ===== src/Control/Hub.antt =====
-- src/bin/control_server.rs: the pipeline that runs, the clients that listen, and the requests, one
-- handler after the other. `alive` are the stage processes of the machine. What is outside the
-- repository is a parameter: which processes outlive the `pkill` of the sweep, which files exist,
-- how floats and integers are written, and how a spawn ends (`some e` is an error).
use rust_hotpath_ipc.Prelude.{
  ℕ, ◌+◌, Bool, true, false, not, ◌||◌, Option, none, some, List, [], ◌∷◌, ◌++◌, ◌==◌,
  if◌then◌else◌,
}
use Prim.Native.String.{String}
use rust_hotpath_ipc.Prelude.Text.{Text, codes}

abbrev pub studio_orders : ℕ
studio_orders = 300

abbrev pub studio_max_seconds : ℕ
studio_max_seconds = 30

abbrev pub Env : Type 0
Env = List (Text × Text)

pub record Process : Type 0 where
  pub pid : ℕ
  pub path : Text
  pub env : Env

-- An SSE client: whether its receiver still is there, and the lines in its channel.
pub record Subscriber : Type 0 where
  pub id : ℕ
  pub open_ : Bool
  pub inbox : List Text

-- `Hub`, a `RunningPipeline` as the pids of its children, with the processes of the machine.
pub record Server : Type 0 where
  pub running : Option (List ℕ)
  pub subscribers : List Subscriber
  pub alive : List Process
  pub next_pid : ℕ

abbrev pub new_server : Server
new_server = record { running = none; subscribers = []; alive = []; next_pid = 0 }

-- `retain` with a send: a client that is gone is dropped.
unfoldable pub send_all : Text → List Subscriber → List Subscriber
send_all line [] = []
send_all line (s ∷ ss) =
    let rest = send_all line ss in
    if s.open_ then record s { inbox = s.inbox ++ (line ∷ []) } ∷ rest else rest

unfoldable pub log_line : Text → Server → Server
unfolding send_all
log_line line s = record s { subscribers = send_all line s.subscribers }

-- `serve_events`: a client subscribes.
unfoldable pub subscribe : ℕ → Server → Server
subscribe id s = record s {
  subscribers = s.subscribers ++ ((record { id = id; open_ = true; inbox = [] }) ∷ []);
}

-- `line.replace('\n', " ")`
unfoldable pub one_line : Text → Text
one_line [] = []
one_line (c ∷ t) = (if c == b'\n' then b' ' else c) ∷ one_line t

-- What is written to the client for a line.
unfoldable pub frame : Text → Text
unfolding one_line
frame line = codes "data: " ++ (one_line line ++ codes "\n\n")

unfoldable pub keep : (Process → Bool) → List Process → List Process
keep test [] = []
keep test (p ∷ ps) = let rest = keep test ps in if test p then p ∷ rest else rest

unfoldable pub is_child : List ℕ → Process → Bool
is_child [] p = false
is_child (c ∷ cs) p = p.pid == c || is_child cs p

-- The name of the arguments that a run's stages get.
abbrev pub setting : String → Text → Text × Text
setting key value = (codes key, value)

module _ (survives : Process → Bool) where
  -- `RunningPipeline::kill`: its children, then the sweep.
  unfoldable pub kill : List ℕ → Server → Server
  unfolding keep is_child
  kill children s = record s {
    alive = keep survives (keep (λ p. not (is_child children p)) s.alive);
  }

  -- `if let Some(mut p) = h.running.take() { p.kill(); }`
  unfoldable pub take_running : Server → Server
  unfolding kill
  take_running s = elim s.running [
    | none ↦ s
    | some children ↦ record (kill children s) { running = none }
  ]

  unfoldable pub stop_pipeline : Server → Server
  unfolding take_running log_line
  stop_pipeline s = log_line (codes "[control] pipeline stopped") (take_running s)

-- The children so far, or the error of a spawn.
pub data Launched : Type 0 where
  started : List ℕ → Launched
  failed : Text → Launched

-- `?`
abbrev pub and_then : Server × Launched → (List ℕ → Server → Server × Launched) → Server × Launched
and_then (s, started children) f = f children s
and_then (s, failed e) f = (s, failed e)

unfoldable pub spawn_stage : Text → Env → Option Text → List ℕ → Server → Server × Launched
spawn_stage path env (some e) children s =
    (s, failed (codes "spawn " ++ (path ++ (codes ": " ++ e))))
spawn_stage path env none children s = (
  record s {
    alive = (record { pid = s.next_pid; path = path; env = env }) ∷ s.alive;
    next_pid = s.next_pid + 1;
  },
  started (children ++ (s.next_pid ∷ [])),
)

-- ===== src/Control/Tracked.antt =====
-- src/bin/control_server.rs: the stage processes against the pipeline that the hub knows of.
use rust_hotpath_ipc.Prelude.{
  ℕ, ◌+◌, ◌≡◌, refl, ◌∙◌, Bool, true, not, ◌&&◌, Option, none, some, List, [], ◌∷◌, ◌++◌, arith,
}
use rust_hotpath_ipc.Prelude.Text.{Text, codes}
use rust_hotpath_ipc.Control.Params.{StrategyParams}
use rust_hotpath_ipc.Control.Hub.{
  Process, Server, log_line, keep, is_child, take_running, stop_pipeline, spawn_stage,
}
use rust_hotpath_ipc.Control.Launch.{
  exe, gates_graph, execution_env, strategy_env, exchange_env, Spawns, AllSpawn, Reply, Host,
  launch, answer, announcement, run_pipeline,
}

abbrev pub children_of : Option (List ℕ) → List ℕ
children_of none = []
children_of (some children) = children

unfoldable pub all_children : List ℕ → List Process → Bool
unfolding is_child
all_children children [] = true
all_children children (p ∷ ps) = is_child children p && all_children children ps

-- Each stage process that is alive is a child of the pipeline that runs.
abbrev pub IsTracked : Server → Type 0
IsTracked s = all_children (children_of s.running) s.alive ≡ true

keep-all_children :
    (children : List ℕ) (ps : List Process)
    → all_children children ps ≡ true
    → keep (λ p. not (is_child children p)) ps ≡ []
unfolding keep all_children
keep-all_children children [] h = refl
keep-all_children children (p ∷ ps) h = ground (arith, keep-all_children children ps)

eq-nil-all_children : (ps : List Process) → all_children [] ps ≡ true → ps ≡ []
unfolding all_children
eq-nil-all_children [] h = refl
eq-nil-all_children (p ∷ ps) h = cc

module _ (survives : Process → Bool) where
  take_running_at :
      (running : Option (List ℕ)) (s : Server)
      → all_children (children_of running) s.alive ≡ true
      → let s' = take_running survives (record s { running = running }) in
        (s'.alive ≡ []) × (s'.running ≡ none)
  unfolding take_running keep
  take_running_at none s t = (eq-nil-all_children s.alive t, refl)
  take_running_at (some children) s t = (rw (keep-all_children children s.alive t), refl)

  -- Once the running pipeline was taken and killed, nothing is left.
  take_running-IsTracked :
      (s : Server)
      → IsTracked s
      → ((take_running survives s).alive ≡ []) × ((take_running survives s).running ≡ none)
  take_running-IsTracked s t = take_running_at s.running s t

  -- With every live stage a child of the running pipeline, a stop leaves no pipeline and no stage
  -- alive, whatever the sweep by name misses.
  pub stop_pipeline-IsTracked :
      (s : Server)
      → IsTracked s
      → ((stop_pipeline survives s).alive ≡ []) × ((stop_pipeline survives s).running ≡ none)
  unfolding stop_pipeline log_line
  stop_pipeline-IsTracked s t = take_running-IsTracked s t

  stop_pipeline_idle : (s : Server) → s.running ≡ none → (stop_pipeline survives s).alive ≡ s.alive
  unfolding stop_pipeline take_running log_line
  stop_pipeline_idle s e = ground arith

module _ {A : Type 0} (h : Host A) (p : StrategyParams A) where
  open h use {exists, manifest, show, show_int, survives}

  -- The three stages of a run, from a first pid on.
  abbrev pub execution_at : ℕ → Process
  execution_at n = record {
    pid = n;
    path = exe exists manifest (codes "execution");
    env = execution_env;
  }

  abbrev pub strategy_at : ℕ → Process
  strategy_at n = record {
    pid = n;
    path = exe exists manifest (codes "strategy");
    env = strategy_env show show_int (gates_graph exists manifest) p;
  }

  abbrev pub exchange_at : ℕ → Process
  exchange_at n = record {
    pid = n;
    path = exe exists manifest (codes "exchange");
    env = exchange_env show show_int p;
  }

  launch_alone :
      (spawns : Spawns) (s : Server) {n : ℕ}
      → AllSpawn spawns
      → s.alive ≡ []
      → s.next_pid ≡ n
      → let (s', r) = answer h (launch h p spawns s) in
        (r ≡ Reply.ok)
        × (s'.running ≡ some (n ∷ (n + 1) ∷ (n + 1 + 1) ∷ []))
        × (s'.alive ≡ exchange_at (n + 1 + 1) ∷ strategy_at (n + 1) ∷ execution_at n ∷ [])
  unfolding launch answer spawn_stage keep
  launch_alone spawns s (e, t, x) a q =
      rw (e, t, x)
        (
          refl,
          λ i. some (q i ∷ (q i + 1) ∷ (q i + 1 + 1) ∷ []),
          rw a (λ i. exchange_at (q i + 1 + 1) ∷ strategy_at (q i + 1) ∷ execution_at (q i) ∷ []),
        )

  -- What the console is told of a stage that is not spawned.
  abbrev pub not_spawned : Text → Text → Text
  not_spawned stage e = codes "spawn " ++ (exe h.exists h.manifest stage ++ (codes ": " ++ e))

  launch_orphan :
      (spawns : Spawns) (s : Server) {n : ℕ} {e : Text}
      → spawns.execution ≡ none
      → spawns.strategy ≡ some e
      → s.alive ≡ []
      → s.next_pid ≡ n
      → let (s', r) = answer h (launch h p spawns s) in
        (r ≡ Reply.error (not_spawned (codes "strategy") e))
        × (s'.running ≡ s.running)
        × (s'.alive ≡ execution_at n ∷ [])
  unfolding launch answer spawn_stage keep log_line
  launch_orphan spawns s x y a q = rw (x, y) (refl, refl, rw a (λ i. execution_at (q i) ∷ []))

  -- The server as `launch` finds it.
  abbrev cleared : Server → Server
  cleared s = take_running survives (log_line (announcement h p) s)

  cleared-alive : (s : Server) → IsTracked s → (cleared s).alive ≡ []
  cleared-alive s t =
      (take_running-IsTracked survives (log_line (announcement h p) s) (unfold log_line in t)).0

  cleared-running : (s : Server) → IsTracked s → (cleared s).running ≡ none
  cleared-running s t =
      (take_running-IsTracked survives (log_line (announcement h p) s) (unfold log_line in t)).1

  cleared_keeps : (s : Server) → (cleared s).next_pid ≡ s.next_pid
  unfolding take_running log_line
  cleared_keeps s = ground arith

  -- With every live stage a child of the running pipeline and no failing spawn, after a run
  -- request the live stages are exactly its exchange, strategy and execution, with the
  -- environments of the request's knobs, and they are the running pipeline: nothing of an earlier
  -- run is left, whatever the sweep by name misses.
  pub run_pipeline-IsTracked :
      (spawns : Spawns) (s : Server)
      → AllSpawn spawns
      → IsTracked s
      → let (s', r) = run_pipeline h p spawns s in
        (r ≡ Reply.ok)
        × (s'.running ≡ some (s.next_pid ∷ (s.next_pid + 1) ∷ (s.next_pid + 1 + 1) ∷ []))
        × (s'.alive
            ≡ exchange_at (s.next_pid + 1 + 1)
              ∷ strategy_at (s.next_pid + 1)
              ∷ execution_at s.next_pid
              ∷ [])
  unfolding run_pipeline
  run_pipeline-IsTracked spawns s e t =
      launch_alone spawns (cleared s) e (cleared-alive s t) (cleared_keeps s)

  -- The error path, with every live stage a child of the running pipeline: if the execution process
  -- starts and the strategy does not, the console is told of the strategy's failure, no pipeline
  -- runs, and the execution process of this run is all that is alive; a stop request leaves it alive.
  pub run_pipeline-orphan :
      (spawns : Spawns) (s : Server) (e : Text)
      → spawns.execution ≡ none
      → spawns.strategy ≡ some e
      → IsTracked s
      → let (s', r) = run_pipeline h p spawns s in
        (r ≡ Reply.error (not_spawned (codes "strategy") e))
        × (s'.running ≡ none)
        × (s'.alive ≡ execution_at s.next_pid ∷ [])
        × ((stop_pipeline survives s').alive ≡ execution_at s.next_pid ∷ [])
  unfolding run_pipeline
  run_pipeline-orphan spawns s e x y t =
      let (told, idle, left) =
        launch_orphan spawns (cleared s) x y (cleared-alive s t) (cleared_keeps s) in
      let none_runs = idle ∙ cleared-running s t in
      (
        told,
        none_runs,
        left,
        stop_pipeline_idle survives (run_pipeline h p spawns s).0 (unfold run_pipeline in none_runs)
            ∙ left,
      )

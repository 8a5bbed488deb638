-- ===== src/Control/Launch.antt =====
-- src/bin/control_server.rs, from a request to the stages of its run. `exists` is the file system,
-- `manifest` the directory of the package, `fixed k` writes a float with k decimals, and `show` and
-- `show_int` write a float and an integer in full.
use rust_hotpath_ipc.Prelude.{
  ℕ, ◌≡◌, Bool, ◌||◌, Option, none, some, [], ◌∷◌, ◌++◌, ◌==◌, if◌then◌else◌,
}
use rust_hotpath_ipc.Prelude.Int.{ℤ}
use rust_hotpath_ipc.Prelude.Text.{Text, codes, text_eq}
use rust_hotpath_ipc.Vm.Listing.{show_nat}
use rust_hotpath_ipc.Float.{F64}
use rust_hotpath_ipc.Control.Params.{StrategyParams, from_params_json}
use rust_hotpath_ipc.Control.Hub.{
  studio_orders, studio_max_seconds, Env, Process, Server, log_line, setting, keep, take_running,
  stop_pipeline, spawn_stage, Launched, started, failed, and_then, subscribe,
}

-- The first of two relative places at which the file is, or its place in the package.
unfoldable pub first_of : (Text → Bool) → Text → Text → Text → Text
first_of exists manifest name_a name_b =
    if exists name_a then name_a else if exists name_b then name_b else manifest

module _ (exists : Text → Bool) (manifest : Text) where
  -- The closure `exe`. The last candidate is also what is left if there is none.
  unfoldable pub exe : Text → Text
  unfolding first_of
  exe name =
      first_of exists (manifest ++ (codes "/target/release/" ++ name))
        (codes "target/release/" ++ name) (codes "./target/release/" ++ name)

  unfoldable pub gates_graph : Text
  unfolding first_of
  gates_graph =
      first_of exists (manifest ++ codes "/examples/gates.json") (codes "examples/gates.json")
        (codes "./examples/gates.json")

unfoldable pub execution_env : Env
unfolding show_nat
execution_env = setting "CPU_CORE" (codes "3") ∷ setting "MAX_FILLS" (show_nat studio_orders) ∷ []

module _ {A : Type 0} (show : A → Text) (show_int : ℤ → Text) where
  unfoldable pub strategy_env : Text → StrategyParams A → Env
  unfolding show_nat
  strategy_env graph p =
      setting "CPU_CORE" (codes "2")
      ∷ setting "THRESHOLD" (show p.threshold)
      ∷ setting "WEIGHT_TREND" (show p.weight_trend)
      ∷ setting "WEIGHT_MOMENTUM" (show p.weight_momentum)
      ∷ setting "WEIGHT_REVERSION" (show p.weight_reversion)
      ∷ setting "MAX_POSITION" (show_int p.max_position)
      ∷ setting "MAX_ORDERS" (show_nat studio_orders)
      ∷ setting "MAX_SECONDS" (show_nat studio_max_seconds)
      ∷ (if p.gates then setting "STRATEGY_JSON" graph ∷ [] else [])

  unfoldable pub exchange_env : StrategyParams A → Env
  unfolding show_nat
  exchange_env p =
      setting "CPU_CORE" (codes "1")
      ∷ setting "VOL" (show p.vol)
      ∷ setting "TICK_US" (show_nat p.tick_us)
      ∷ setting "SEED" (codes "42")
      ∷ []

module _ {A : Type 0} (fixed : ℕ → A → Text) (show_int : ℤ → Text) where
  unfoldable pub describe : StrategyParams A → Text
  unfolding show_nat
  describe p =
      let tail =
        codes " maxpos="
        ++ (show_int p.max_position
            ++ (codes " vol="
                ++ (fixed 1 p.vol ++ (codes " tick=" ++ (show_nat p.tick_us ++ codes "us"))))) in
      if p.gates
      then codes "gate strategy (AND/OR bytecode)" ++ tail
      else codes "composite trend="
        ++ (fixed 2 p.weight_trend
            ++ (codes " mom="
                ++ (fixed 2 p.weight_momentum
                    ++ (codes " rev="
                        ++ (fixed 2 p.weight_reversion
                            ++ (codes " thr=" ++ (fixed 2 p.threshold ++ tail)))))))

-- How the three spawns end, in order.
pub record Spawns : Type 0 where
  pub execution : Option Text
  pub strategy : Option Text
  pub exchange : Option Text

-- Every spawn ends well.
abbrev pub AllSpawn : Spawns → Type 0
AllSpawn w = (w.execution ≡ none) × (w.strategy ≡ none) × (w.exchange ≡ none)

pub data Reply : Type 0 where
  page events not_found : Reply
  ok : Reply
  error : Text → Reply

-- What the handlers take from outside.
pub record Host (A : Type 0) : Type 0 where
  pub exists : Text → Bool
  pub manifest : Text
  pub fixed : ℕ → A → Text
  pub show : A → Text
  pub show_int : ℤ → Text
  pub survives : Process → Bool

module _ {A : Type 0} (h : Host A) where
  open h use {exists, manifest, fixed, show, show_int, survives}

  unfoldable pub launch : StrategyParams A → Spawns → Server → Server × Launched
  unfolding keep spawn_stage exe gates_graph execution_env strategy_env exchange_env
  launch p spawns s =
      let clean = record s { alive = keep survives s.alive } in
      and_then
        (spawn_stage (exe exists manifest (codes "execution")) execution_env spawns.execution []
          clean)
        λ children s₁.
          and_then
            (spawn_stage (exe exists manifest (codes "strategy"))
              (strategy_env show show_int (gates_graph exists manifest) p) spawns.strategy children
              s₁)
            (spawn_stage (exe exists manifest (codes "exchange")) (exchange_env show show_int p)
              spawns.exchange)

  -- The `match` on what `launch` gives.
  unfoldable pub answer : Server × Launched → Server × Reply
  unfolding log_line
  answer (s, started children) = (record s { running = some children }, ok)
  answer (s, failed e) = (log_line (codes "[control] launch failed: " ++ e) s, error e)

  unfoldable pub announcement : StrategyParams A → Text
  unfolding describe
  announcement p = codes "[control] launching pipeline: " ++ describe fixed show_int p

  unfoldable pub run_pipeline : StrategyParams A → Spawns → Server → Server × Reply
  unfolding log_line take_running launch answer announcement
  run_pipeline p spawns s =
      answer (launch p spawns (take_running survives (log_line (announcement p) s)))

pub data Method : Type 0 where
  get post other : Method

-- `url.split('?').next()`
unfoldable pub path_of : Text → Text
path_of [] = []
path_of (c ∷ t) = let path = path_of t in if c == b'?' then [] else c ∷ path

pub record Request : Type 0 where
  pub method : Method
  pub url : Text
  pub body : Text
  pub client : ℕ
  pub spawns : Spawns

module _ (F : F64) (parse_f64 : Text → Option F.Float) (h : Host F.Float) where
  unfoldable pub get_route : Text → Request → Server → Server × Reply
  unfolding text_eq subscribe
  get_route path r s =
      if text_eq path (codes "/") || text_eq path (codes "/index.html")
      then (s, page)
      else if text_eq path (codes "/events")
      then (subscribe r.client s, events)
      else (s, not_found)

  unfoldable pub post_route : Text → Request → Server → Server × Reply
  unfolding text_eq run_pipeline stop_pipeline from_params_json
  post_route path r s =
      if text_eq path (codes "/run")
      then run_pipeline h (from_params_json F parse_f64 r.body) r.spawns s
      else if text_eq path (codes "/stop")
      then (stop_pipeline h.survives s, ok)
      else (s, not_found)

  -- `handle`
  unfoldable pub handle_route : Method → Text → Request → Server → Server × Reply
  unfolding get_route post_route
  handle_route Method.get path r s = get_route path r s
  handle_route Method.post path r s = post_route path r s
  handle_route Method.other path r s = (s, not_found)

  unfoldable pub handle : Request → Server → Server × Reply
  unfolding handle_route path_of
  handle r s = handle_route r.method (path_of r.url) r s
